-- ===== src/Event/Examples.antt =====
-- Keys of concrete envelopes, and the theorems at them.
use solana_whale_intelligenc.Prelude.{
  ℕ, ◌≡◌, refl, ◌↔◌, ◌⊎◌, Option, none, some, [], ◌∷◌, String, str_eq, if◌then◌else◌,
}
use solana_whale_intelligenc.Prelude.Int.{ℤ, pos}
use solana_whale_intelligenc.Event.{
  EventEnvelope, TruthStatus, time_bucket, key_of, idempotency_key,
}
use solana_whale_intelligenc.Event.Keys.{SameUpstream, SameContent, same_key_iff}

-- A parser that knows two times of one hour.
abbrev parse : String → Option ℤ
parse s =
    if str_eq s "10:00" then some (pos 7200) else if str_eq s "10:30" then some (pos 9000) else none

abbrev first_event : EventEnvelope ℕ
first_event = record {
  event_id = "e1";
  workspace_id = none;
  chain = some "solana";
  event_type = "swap";
  entity_keys = "token:solana:m" ∷ "wallet:solana:w" ∷ [];
  source_id = "rpc";
  source_event_id = none;
  occurred_at = none;
  observed_at = "10:00";
  ingested_at = "10:01";
  raw_hash = "h";
  raw_ref = "r1";
  parser_version = none;
  payload_schema_version = "1";
  truth_status = TruthStatus.unknown;
  confidence = none;
}

-- The same content, seen again half an hour later.
abbrev second_event : EventEnvelope ℕ
second_event = record first_event { event_id = "e2"; observed_at = "10:30"; raw_ref = "r2" }

same_hour : idempotency_key parse first_event ≡ idempotency_key parse second_event
unfolding idempotency_key time_bucket key_of
same_hour = refl

same_key_iff_example :
    (idempotency_key parse first_event ≡ idempotency_key parse second_event)
    ↔ (SameUpstream parse first_event second_event ⊎ SameContent parse first_event second_event)
same_key_iff_example = same_key_iff parse first_event second_event refl refl
