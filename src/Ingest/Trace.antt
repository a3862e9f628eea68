-- ===== src/Ingest/Trace.antt =====
-- The trace of the pipeline: which stages it names, in which order, and how it ends.
use solana_whale_intelligenc.Prelude.{
  ◌≡◌, ◌↔◌, inl, inr, Bool, true, false, List, [], ◌∷◌, ◌++◌, String, arith, map, Bool-cases,
}
use solana_whale_intelligenc.Json.{Json}
use solana_whale_intelligenc.Ingest.{
  IngestionStage, fetch, raw_evidence_write, envelope_validation, idempotent_append, normalization,
  entity_resolution, graph_edges, scalar_projections, trigger_evaluation, jobs_outbox, StageResult,
  ok, skipped, failed, RawPayload, normalize_entity_keys, idempotency_key, is_incomplete, is_some,
  run_pipeline,
}

-- The stages as the enum orders them.
abbrev pub frozen_order : List IngestionStage
frozen_order =
    fetch ∷ raw_evidence_write ∷ envelope_validation ∷ idempotent_append ∷ normalization
    ∷ entity_resolution ∷ graph_edges ∷ scalar_projections ∷ trigger_evaluation ∷ jobs_outbox ∷ []

abbrev after_normalization : List IngestionStage
after_normalization =
    entity_resolution ∷ graph_edges ∷ scalar_projections ∷ trigger_evaluation ∷ jobs_outbox ∷ []

abbrev pub stage_of : StageResult → IngestionStage
stage_of (ok s) = s
stage_of (skipped s why) = s
stage_of (failed s why) = s

-- How far a trace came, by its stages left to run.
abbrev pub IsPrefix : List StageResult → Type 0
IsPrefix stages = (later : List IngestionStage) × (map stage_of stages ++ later ≡ frozen_order)

module _ (js : Json) (raw : RawPayload js.Value) (contains : String → Bool) where
  -- The trace names the stages in their frozen order, each once and from the first one on, whatever
  -- the store and the payload.
  pub run_pipeline-IsPrefix : IsPrefix (run_pipeline js raw contains).stages
  unfolding run_pipeline
  run_pipeline-IsPrefix = elim (Bool-cases (is_incomplete js raw)) [
    | inl i ↦ (idempotent_append ∷ normalization ∷ after_normalization, ground arith)
    | inr c ↦ elim (Bool-cases (contains (idempotency_key js raw))) [
      | inl d ↦ (normalization ∷ after_normalization, ground arith)
      | inr n ↦ elim (Bool-cases (is_some (normalize_entity_keys js raw))) [
        | inl k ↦ ([], ground arith)
        | inr k ↦ (after_normalization, ground arith)
      ]
    ]
  ]

  -- Nothing is accepted without a backend. The payload is a duplicate exactly when its envelope is
  -- complete and the store holds its key, and all ten stages are traced exactly when the envelope is
  -- complete, the store does not hold the key and entity keys are derivable.
  pub run_pipeline-branches :
      let o = run_pipeline js raw contains in
      (o.accepted ≡ false)
      × ((o.deduped ≡ true)
          ↔ ((is_incomplete js raw ≡ false) × (contains (idempotency_key js raw) ≡ true)))
      × ((map stage_of o.stages ≡ frozen_order) ↔ (
          (is_incomplete js raw ≡ false)
          × (contains (idempotency_key js raw) ≡ false)
          × (is_some (normalize_entity_keys js raw) ≡ true)))
  unfolding run_pipeline
  run_pipeline-branches =
      (ground arith, (λ h. ground arith, λ h. ground arith), (λ h. ground arith, λ h. ground arith))
