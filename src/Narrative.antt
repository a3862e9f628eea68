-- ===== src/Narrative.antt =====
-- src/sf/narrative.rs and src/sf/narrative_runtime.rs: the provenance of a narrative, resolved from
-- its edges and from proofs of the stages. The roles and the truth status are those of
-- src/sf/token.rs.
pub mod Stages
mod Examples
use solana_whale_intelligenc.Prelude.{
  ℕ, ◌+◌, Bool, true, false, not, ◌&&◌, ◌||◌, Option, none, some, List, [], ◌∷◌, ◌++◌, String, ◌==◌,
  ltb, any, str_eq, is_blank, if◌then◌else◌,
}

pub data ProvenanceRole : Type 0 where
  originator independent_spread official_adopter deployer : ProvenanceRole
  caller_amplifier market_leading_contract : ProvenanceRole

pub data ProvenanceTruthStatus : Type 0 where
  exact reconstructed estimated insufficient : ProvenanceTruthStatus

pub record NarrativeEdge (F : Type 0) : Type 0 where
  pub from_key : String
  pub to_key : String
  pub role : ProvenanceRole
  pub truth_status : ProvenanceTruthStatus
  pub evidence_ref : Option String
  pub confidence : Option F

pub data ProvenanceStage : Type 0 where
  deploy_first_liquidity metadata_fingerprint local_archive_search : ProvenanceStage
  exact_alias_web_x_tiktok_search ocr_asr_image_phonetic_expansion : ProvenanceStage
  earliest_evidence origin_adoption_propagation_graph : ProvenanceStage

pub record NarrativeResolution : Type 0 where
  pub narrative_key : String
  pub resolved_stage : ProvenanceStage
  pub originator : Option String
  pub independent_spread : List String
  pub official_adopter : Option String
  pub market_leading_contract : Option String

pub data StageArtifactKind : Type 0 where
  evidence_ref graph_assembly_record : StageArtifactKind

pub record VerifiedStageProof : Type 0 where
  pub narrative_key : String
  pub run_id : String
  pub stage : ProvenanceStage
  pub artifact_id : String
  pub artifact_kind : StageArtifactKind

abbrev pub is_evidence_ref : StageArtifactKind → Bool
is_evidence_ref StageArtifactKind.evidence_ref = true
is_evidence_ref _ = false

abbrev pub is_graph_record : StageArtifactKind → Bool
is_graph_record graph_assembly_record = true
is_graph_record _ = false

-- `items.contains(&artifact_id)`
abbrev pub holds : List String → String → Bool
holds items artifact_id = any items (λ i. str_eq i artifact_id)

-- The `match stage` of `verify`.
unfoldable pub exists_for :
    ProvenanceStage → StageArtifactKind → String → List String → List String → Bool
exists_for earliest_evidence kind artifact_id evidence_refs graph_records =
    is_evidence_ref kind && holds evidence_refs artifact_id
exists_for origin_adoption_propagation_graph kind artifact_id evidence_refs graph_records =
    is_graph_record kind && holds graph_records artifact_id
exists_for _ kind artifact_id evidence_refs graph_records = true

unfoldable pub verify :
    String
    → String
    → ProvenanceStage
    → String
    → StageArtifactKind
    → List String
    → List String
    → Option VerifiedStageProof
verify narrative_key run_id stage artifact_id artifact_kind evidence_refs graph_records =
    if is_blank narrative_key || is_blank run_id || is_blank artifact_id
    then none
    else if not (exists_for stage artifact_kind artifact_id evidence_refs graph_records)
    then none
    else some (record {
      narrative_key = narrative_key;
      run_id = run_id;
      stage = stage;
      artifact_id = artifact_id;
      artifact_kind = artifact_kind;
    })

unfoldable pub has_artifact : VerifiedStageProof → Bool
has_artifact p = not (is_blank p.artifact_id)

unfoldable pub stage_index : ProvenanceStage → ℕ
stage_index deploy_first_liquidity = 0
stage_index metadata_fingerprint = 1
stage_index local_archive_search = 2
stage_index exact_alias_web_x_tiktok_search = 3
stage_index ocr_asr_image_phonetic_expansion = 4
stage_index earliest_evidence = 5
stage_index origin_adoption_propagation_graph = 6

unfoldable pub can_advance : ProvenanceStage → ProvenanceStage → Bool
can_advance current next = ltb (stage_index current) (stage_index next)

-- The `match stage` of the loop.
unfoldable pub kind_ok : ProvenanceStage → StageArtifactKind → Bool
kind_ok earliest_evidence kind = is_evidence_ref kind
kind_ok origin_adoption_propagation_graph kind = is_graph_record kind
kind_ok _ kind = true

-- The loop over the proofs, with `expected` (u8, at most 7) and `last`.
unfoldable pub contiguous_from :
    String → ℕ → ProvenanceStage → List VerifiedStageProof → ProvenanceStage
contiguous_from narrative_key expected last [] = last
contiguous_from narrative_key expected last (proof ∷ completed) =
    let rest = contiguous_from narrative_key (expected + 1) proof.stage completed in
    if not (str_eq proof.narrative_key narrative_key)
    then last
    else if not (stage_index proof.stage == expected)
    then last
    else if not (has_artifact proof)
    then last
    else if not (kind_ok proof.stage proof.artifact_kind)
    then last
    else rest

unfoldable pub contiguous_stage : String → List VerifiedStageProof → ProvenanceStage
contiguous_stage narrative_key completed =
    contiguous_from narrative_key 0 deploy_first_liquidity completed

-- The locals of the loop over the edges.
pub record Roles : Type 0 where
  pub originator : Option String
  pub official_adopter : Option String
  pub market_leading_contract : Option String
  pub independent_spread : List String

-- `if x.is_none() { x = Some(key) }`
abbrev pub or_set : Option String → String → Option String
or_set none key = some key
or_set (some old) key = some old

unfoldable pub absorb : ProvenanceRole → String → Roles → Roles
absorb ProvenanceRole.originator key r = record r { originator = or_set r.originator key }
absorb ProvenanceRole.official_adopter key r = record r {
  official_adopter = or_set r.official_adopter key;
}
absorb ProvenanceRole.market_leading_contract key r = record r {
  market_leading_contract = or_set r.market_leading_contract key;
}
absorb ProvenanceRole.independent_spread key r = record r {
  independent_spread = r.independent_spread ++ key ∷ [];
}
absorb _ key r = r

unfoldable pub roles_of : {F : Type 0} → List (NarrativeEdge F) → Roles → Roles
roles_of [] r = r
roles_of (e ∷ edges) r = roles_of edges (absorb e.role e.from_key r)

unfoldable pub resolve :
    {F : Type 0} → String → List (NarrativeEdge F) → List VerifiedStageProof → NarrativeResolution
resolve narrative_key edges completed_stages =
    let none_yet : Roles = record {
      originator = none;
      official_adopter = none;
      market_leading_contract = none;
      independent_spread = [];
    } in
    let r = roles_of edges none_yet in
    record {
      narrative_key = narrative_key;
      resolved_stage = contiguous_stage narrative_key completed_stages;
      originator = r.originator;
      independent_spread = r.independent_spread;
      official_adopter = r.official_adopter;
      market_leading_contract = r.market_leading_contract;
    }
