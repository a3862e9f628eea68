-- ===== src/Ingest/Examples.antt =====
-- Concrete payloads and stores, and the theorems at them.
use solana_whale_intelligenc.Prelude.{
  ◌≡◌, refl, true, false, none, [], ◌∷◌, join, is_blank, show_ℤ, show_ℕ,
}
use solana_whale_intelligenc.Prelude.Int.{pos}
use solana_whale_intelligenc.Event.{hour}
use solana_whale_intelligenc.Json.Sample.{Sample, object, sample_json}
use solana_whale_intelligenc.Ingest.{
  solana, RawPayload, DurableAppendReceipt, InMemoryIdempotency, contains, commit, matches,
  is_incomplete, idempotency_key, normalize_entity_keys, run_pipeline,
}
use solana_whale_intelligenc.Ingest.Keys.{named, other_event-deduped}

abbrev payload : RawPayload Sample
payload = record {
  chain = solana;
  source_name = "rpc";
  source_event_id = none;
  event_type = "swap";
  payload_schema_version = "1";
  raw_hash = "h";
  observed_at = pos 7200;
  payload = object (("mint", "m") ∷ ("from", "w") ∷ []);
}

abbrev empty_store : InMemoryIdempotency
empty_store = record { committed = [] }

payload_key : idempotency_key sample_json payload ≡ "rpc|token:solana:m,wallet:solana:w|swap|2|h"
unfolding idempotency_key normalize_entity_keys hour join show_ℤ show_ℕ
payload_key = refl

abbrev receipt : DurableAppendReceipt
receipt = record { key = "k1" }

foreign_receipt : contains (commit empty_store "k2" receipt) "k2" ≡ false
unfolding contains commit matches
foreign_receipt = refl

-- The receipt of the event `2|3` of the source `rpc`.
abbrev first_receipt : DurableAppendReceipt
first_receipt = record { key = idempotency_key sample_json (named sample_json payload "rpc" "2|3") }

complete : is_incomplete sample_json (named sample_json payload "rpc|2" "3") ≡ false
unfolding is_incomplete is_blank
complete = refl

other_event-deduped_example :
    (run_pipeline sample_json (named sample_json payload "rpc|2" "3") (
      contains (
        commit empty_store
          (idempotency_key sample_json (named sample_json payload "rpc" "2|3"))
          first_receipt))).deduped
    ≡ true
other_event-deduped_example =
    other_event-deduped sample_json payload payload "rpc" "2" "3" empty_store first_receipt refl
      refl complete
