-- ===== src/Event/Keys.antt =====
-- When two envelopes are one event.
use solana_whale_intelligenc.Prelude.{
  ◌≡◌, ◌↔◌, ◌⊎◌, inl, inr, Option, none, some, String, arith, join, Option-cases,
}
use solana_whale_intelligenc.Prelude.Int.{ℤ}
use solana_whale_intelligenc.Event.{EventEnvelope, time_bucket, key_of, idempotency_key}

module _ {F : Type 0} (parse_time : String → Option ℤ) where
  -- Both envelopes carry one upstream id, from one source under one schema version.
  abbrev pub SameUpstream : EventEnvelope F → EventEnvelope F → Type 0
  SameUpstream d e =
      (id : String) × (d.source_event_id ≡ some id)
      × (e.source_event_id ≡ some id)
      × (d.source_id ≡ e.source_id)
      × (d.payload_schema_version ≡ e.payload_schema_version)

  -- Neither carries one, and they agree in source, entities, type, hour and content.
  abbrev pub SameContent : EventEnvelope F → EventEnvelope F → Type 0
  SameContent d e =
      (d.source_event_id ≡ none)
      × (e.source_event_id ≡ none)
      × (d.source_id ≡ e.source_id)
      × (join "," d.entity_keys ≡ join "," e.entity_keys)
      × (d.event_type ≡ e.event_type)
      × (time_bucket parse_time d.observed_at ≡ time_bucket parse_time e.observed_at)
      × (d.raw_hash ≡ e.raw_hash)

  -- Two envelopes with well-formed timestamps get one key exactly when they carry the same upstream
  -- id from the same source and schema version, or carry none and agree in source, joined entities,
  -- type, hour and content hash. A key of one mode is never a key of the other.
  pub same_key_iff :
      (d e : EventEnvelope F) {s t : ℤ}
      → parse_time d.observed_at ≡ some s
      → parse_time e.observed_at ≡ some t
      → (idempotency_key parse_time d ≡ idempotency_key parse_time e)
        ↔ (SameUpstream d e ⊎ SameContent d e)
  unfolding idempotency_key time_bucket key_of
  same_key_iff d e p q = (
    λ h. elim (Option-cases d.source_event_id) [
      | inl x ↦ elim (Option-cases e.source_event_id) [
        | inl y ↦ inr (ground arith)
        | inr (j, y) ↦ absurd (ground arith)
      ]
      | inr (i, x) ↦ elim (Option-cases e.source_event_id) [
        | inl y ↦ absurd (ground arith)
        | inr (j, y) ↦ inl (i, x, ground arith, ground arith, ground arith)
      ]
    ],
    λ h. ground arith,
  )
