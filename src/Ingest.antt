-- ===== src/Ingest.antt =====
-- src/sf/ingest.rs and src/sf/ingest_runtime.rs: the ingestion pipeline over one raw payload.
-- `trim().is_empty()` is `is_blank`; the JSON payload is a parameter. The store is the trait
-- `IdempotencyStore`: the in-memory set, or any other through its `contains`.
pub mod Trace
pub mod Store
pub mod Keys
mod Examples
use solana_whale_intelligenc.Prelude.{
  ℕ, Bool, true, false, not, ◌&&◌, ◌||◌, Option, none, some, List, [], ◌∷◌, ◌++◌, String, any,
  is_empty, str_eq, is_blank, show_ℤ, join, if◌then◌else◌,
}
use solana_whale_intelligenc.Prelude.Int.{ℤ}
use solana_whale_intelligenc.Prelude.Dict.{get}
use solana_whale_intelligenc.Json.{Json}
use solana_whale_intelligenc.Event.{hour}

pub data Chain : Type 0 where
  solana robinhood ethereum base bsc : Chain

unfoldable pub as_str : Chain → String
as_str solana = "solana"
as_str robinhood = "robinhood"
as_str ethereum = "ethereum"
as_str base = "base"
as_str bsc = "bsc"

pub data IngestionStage : Type 0 where
  fetch raw_evidence_write envelope_validation idempotent_append normalization : IngestionStage
  entity_resolution graph_edges scalar_projections trigger_evaluation jobs_outbox : IngestionStage

pub data StageResult : Type 0 where
  ok : IngestionStage → StageResult
  skipped : IngestionStage → String → StageResult
  failed : IngestionStage → String → StageResult

pub record RawPayload (V : Type 0) : Type 0 where
  pub chain : Chain
  pub source_name : String
  pub source_event_id : Option String
  pub event_type : String
  pub payload_schema_version : String
  pub raw_hash : String
  pub observed_at : ℤ  -- i64, seconds
  pub payload : V

pub record PipelineOutcome : Type 0 where
  pub stages : List StageResult
  pub accepted : Bool
  pub deduped : Bool

-- The receipt of a durable append, bound to one key.
pub record DurableAppendReceipt : Type 0 where
  pub key : String

unfoldable pub matches : DurableAppendReceipt → String → Bool
matches r key = str_eq r.key key

-- The in-memory store: the set of the committed keys.
pub record InMemoryIdempotency : Type 0 where
  pub committed : List String

unfoldable pub contains : InMemoryIdempotency → String → Bool
contains s key = any s.committed (λ k. str_eq k key)

-- `HashSet::insert`
insert_key : String → List String → List String
insert_key key keys = if any keys (λ k. str_eq k key) then keys else key ∷ keys

unfoldable pub commit : InMemoryIdempotency → String → DurableAppendReceipt → InMemoryIdempotency
unfolding insert_key matches
commit s key receipt =
    if matches receipt key then record s { committed = insert_key key s.committed } else s

-- `format!("{}|{}|…")`: the parts between bars.
abbrev bars : List String → String
bars = join "|"

-- `obj.get(first).or_else(|| obj.get(second))`
get_either : {V : Type 0} → String → String → List (String × V) → Option V
get_either first second o = elim (get first o) [ none ↦ get second o | some v ↦ some v ]

-- `format!("{}:{}:{}", kind, chain, value)`, where the text is there.
entity_key : String → Chain → Option String → List String
unfolding as_str
entity_key kind chain none = []
entity_key kind chain (some text) = join ":" (kind ∷ as_str chain ∷ text ∷ []) ∷ []

-- `.unwrap_or_default()`
abbrev pub keys_or_nil : Option (List String) → List String
keys_or_nil none = []
keys_or_nil (some keys) = keys

abbrev pub is_some : {A : Type 0} → Option A → Bool
is_some none = false
is_some (some a) = true

-- The reasons that the trace gives.
abbrev no_writer : String
no_writer = "no raw evidence writer backend (pure logic slice)"

abbrev incomplete : String
incomplete = "incomplete envelope: raw_hash/schema_version/source_name/event_type required"

abbrev duplicate : String
duplicate = "duplicate committed idempotency key"

abbrev no_append : String
no_append = "no canonical append backend (pure logic slice)"

abbrev no_graph : String
no_graph = "no graph backend (pure logic slice)"

abbrev no_projection : String
no_projection = "no projection backend (pure logic slice)"

abbrev no_trigger : String
no_trigger = "no trigger backend (pure logic slice)"

abbrev no_jobs : String
no_jobs = "no jobs/outbox backend (pure logic slice)"

abbrev no_entities : String
no_entities = "no entity keys derivable (malformed or empty payload)"

module _ (js : Json) where
  open js use {Value, as_object}

  -- `.and_then(|v| v.as_str())`
  as_text : Option Value → Option String
  as_text none = none
  as_text (some v) = js.as_str v

  unfoldable pub normalize_entity_keys : RawPayload Value → Option (List String)
  unfolding as_text entity_key get_either
  normalize_entity_keys raw = elim (as_object raw.payload) [
    | none ↦ none
    | some obj ↦
        let token = entity_key "token" raw.chain (as_text (get_either "token" "mint" obj)) in
        let wallet = entity_key "wallet" raw.chain (as_text (get_either "wallet" "from" obj)) in
        let keys = token ++ wallet in if is_empty keys then none else some keys
  ]

  unfoldable pub idempotency_key : RawPayload Value → String
  unfolding hour
  idempotency_key raw = elim raw.source_event_id [
    | some id ↦ bars (raw.source_name ∷ id ∷ raw.payload_schema_version ∷ [])
    | none ↦ bars (
        raw.source_name
        ∷ join "," (keys_or_nil (normalize_entity_keys raw))
        ∷ raw.event_type
        ∷ show_ℤ (hour raw.observed_at)
        ∷ raw.raw_hash
        ∷ [])
  ]

  unfoldable pub is_incomplete : RawPayload Value → Bool
  is_incomplete raw =
      is_blank raw.raw_hash
      || is_blank raw.payload_schema_version
      || is_blank raw.source_name
      || is_blank raw.event_type

  -- The stages that a normalized payload runs through without a backend.
  unfoldable pub run_pipeline : RawPayload Value → (String → Bool) → PipelineOutcome
  run_pipeline raw contains =
      let begun = ok fetch ∷ skipped raw_evidence_write no_writer ∷ [] in
      if is_incomplete raw
      then record {
        stages = begun ++ failed envelope_validation incomplete ∷ [];
        accepted = false;
        deduped = false;
      }
      else let valid = begun ++ ok envelope_validation ∷ [] in
        if contains (idempotency_key raw)
        then record {
          stages = valid ++ skipped idempotent_append duplicate ∷ [];
          accepted = false;
          deduped = true;
        }
        else let appended = valid ++ skipped idempotent_append no_append ∷ [] in
          if is_some (normalize_entity_keys raw)
          then record {
            stages =
                appended
                ++ ok normalization
                  ∷ skipped entity_resolution no_graph
                  ∷ skipped graph_edges no_graph
                  ∷ skipped scalar_projections no_projection
                  ∷ skipped trigger_evaluation no_trigger
                  ∷ skipped jobs_outbox no_jobs
                  ∷ [];
            accepted = false;
            deduped = false;
          }
          else record {
            stages = appended ++ skipped normalization no_entities ∷ [];
            accepted = false;
            deduped = false;
          }
