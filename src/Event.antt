-- ===== src/Event.antt =====
-- src/sf/core.rs: the canonical event envelope, the health states and the idempotency key.
-- Parsing a timestamp is chrono's: it is a parameter.
pub mod Keys
mod Examples
use mathlib.Core.Option
use solana_whale_intelligenc.Prelude.{ℕ, ◌/◌, Option, none, some, List, String, show_ℤ, join}
use solana_whale_intelligenc.Prelude.Int.{ℤ, pos, negsuc}

pub data TruthStatus : Type 0 where
  unknown confirmed disputed superseded erroneous : TruthStatus

pub data SourceHealthState : Type 0 where
  up silent degraded down recovering disabled : SourceHealthState

unfoldable pub health_rank : SourceHealthState → ℕ
health_rank up = 4
health_rank recovering = 3
health_rank degraded = 2
health_rank silent = 1
health_rank down = 0
health_rank disabled = 0

pub record EventEnvelope (F : Type 0) : Type 0 where
  pub event_id : String
  pub workspace_id : Option String
  pub chain : Option String
  pub event_type : String
  pub entity_keys : List String
  pub source_id : String
  pub source_event_id : Option String
  pub occurred_at : Option String
  pub observed_at : String
  pub ingested_at : String
  pub raw_hash : String
  pub raw_ref : String
  pub parser_version : Option String
  pub payload_schema_version : String
  pub truth_status : TruthStatus
  pub confidence : Option F

pub data IdempotencyKey : Type 0 where
  -- source_id, source_event_id, payload_schema_version
  stable_id : String → String → String → IdempotencyKey
  -- source_id, normalized_entity, event_type, time_bucket, raw_hash
  fallback : String → String → String → String → String → IdempotencyKey

-- `div_euclid(3600)`
unfoldable pub hour : ℤ → ℤ
hour (pos n) = pos (n / 3600)
hour (negsuc n) = negsuc (n / 3600)

-- The timestamp in seconds, by the parser of chrono.
unfoldable pub time_bucket : (String → Option ℤ) → String → Option String
unfolding hour
time_bucket parse_time observed_at = Option.map (λ t. show_ℤ (hour t)) (parse_time observed_at)

-- The two arms of `match &self.source_event_id`.
unfoldable pub key_of : {F : Type 0} → EventEnvelope F → String → Option String → IdempotencyKey
key_of e bucket (some id) = stable_id e.source_id id e.payload_schema_version
key_of e bucket none = fallback e.source_id (join "," e.entity_keys) e.event_type bucket e.raw_hash

module _ {F : Type 0} (parse_time : String → Option ℤ) where
  unfoldable pub idempotency_key : EventEnvelope F → Option IdempotencyKey
  idempotency_key e = elim (time_bucket parse_time e.observed_at) [
    | none ↦ none
    | some bucket ↦ some (key_of e bucket e.source_event_id)
  ]
