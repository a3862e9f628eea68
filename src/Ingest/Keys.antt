-- ===== src/Ingest/Keys.antt =====
-- The key of a payload against the payload: the parts of a key are joined by bars, unframed.
use solana_whale_intelligenc.Prelude.{◌≡◌, inr, true, false, some, String, join}
use Prim.Native.String.{◌++◌}
use text.Mathlib.TextLemmas.{append_assoc}
use solana_whale_intelligenc.Ingest.Store.{commit-contains}
use solana_whale_intelligenc.Ingest.Trace.{run_pipeline-branches}
use solana_whale_intelligenc.Json.{Json}
use solana_whale_intelligenc.Ingest.{
  RawPayload, idempotency_key, is_incomplete, run_pipeline, DurableAppendReceipt,
  InMemoryIdempotency, contains, commit,
}

module _ (js : Json) where
  open js use {Value}

  abbrev pub named : RawPayload Value → String → String → RawPayload Value
  named raw source id = record raw { source_name = source; source_event_id = some id }

  key-named :
      (a b : RawPayload Value) (s x y : String)
      → a.payload_schema_version ≡ b.payload_schema_version
      → idempotency_key js (named a s (x ++ ("|" ++ y)))
        ≡ idempotency_key js (named b (s ++ ("|" ++ x)) y)
  unfolding idempotency_key join
  key-named a b s x y v = simp (append_assoc, v)

  -- A bar in an upstream id is not told from the bar between the parts of the key. Once the event `x|y` of
  -- the source `s` is durably committed, the event `y` of the source `s|x` is dropped as a
  -- duplicate, whatever else the two payloads hold, if they have one schema version and its
  -- envelope is complete.
  pub other_event-deduped :
      (a b : RawPayload Value) (s x y : String) (store : InMemoryIdempotency)
      (r : DurableAppendReceipt)
      → a.payload_schema_version ≡ b.payload_schema_version
      → r.key ≡ idempotency_key js (named a s (x ++ ("|" ++ y)))
      → is_incomplete js (named b (s ++ ("|" ++ x)) y) ≡ false
      → let key = idempotency_key js (named a s (x ++ ("|" ++ y))) in
        (run_pipeline js (named b (s ++ ("|" ++ x)) y) (contains (commit store key r))).deduped
        ≡ true
  other_event-deduped a b s x y store r v e c =
      let later = named b (s ++ ("|" ++ x)) y in
      let key = idempotency_key js (named a s (x ++ ("|" ++ y))) in
      let (accepted, duplicate, traced) =
        run_pipeline-branches js later (contains (commit store key r)) in
      duplicate.1 (
        c,
        (commit-contains store key (idempotency_key js later) r).1 (inr (e, key-named a b s x y v)),
      )
