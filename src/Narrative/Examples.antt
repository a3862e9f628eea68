-- ===== src/Narrative/Examples.antt =====
-- A concrete resolution, and the theorems at it.
use solana_whale_intelligenc.Prelude.{
  ℕ, ◌≡◌, ◌≤◌, ◌<◌, refl, none, some, List, [], ◌∷◌, String, arith, All, is_blank,
}
use solana_whale_intelligenc.Narrative.{
  NarrativeEdge, ProvenanceRole, estimated, ProvenanceStage, deploy_first_liquidity,
  metadata_fingerprint, local_archive_search, exact_alias_web_x_tiktok_search,
  ocr_asr_image_phonetic_expansion, earliest_evidence, origin_adoption_propagation_graph,
  StageArtifactKind, graph_assembly_record, VerifiedStageProof, verify, exists_for, has_artifact,
  stage_index, kind_ok, contiguous_from, contiguous_stage, roles_of, absorb, resolve,
}
use solana_whale_intelligenc.Narrative.Stages.{Proved, Minted, resolve-Proved}

abbrev proof : ProvenanceStage → String → StageArtifactKind → VerifiedStageProof
proof stage id kind = record {
  narrative_key = "n";
  run_id = "r";
  stage = stage;
  artifact_id = id;
  artifact_kind = kind;
}

abbrev proofs : List VerifiedStageProof
proofs =
    proof deploy_first_liquidity "p0" StageArtifactKind.evidence_ref
    ∷ proof metadata_fingerprint "p1" StageArtifactKind.evidence_ref
    ∷ proof local_archive_search "p2" StageArtifactKind.evidence_ref
    ∷ proof exact_alias_web_x_tiktok_search "p3" StageArtifactKind.evidence_ref
    ∷ proof ocr_asr_image_phonetic_expansion "p4" StageArtifactKind.evidence_ref
    ∷ proof earliest_evidence "ev" StageArtifactKind.evidence_ref
    ∷ proof origin_adoption_propagation_graph "g" graph_assembly_record
    ∷ []

abbrev edges : List (NarrativeEdge ℕ)
edges =
    record {
      from_key = "w1";
      to_key = "t";
      role = ProvenanceRole.originator;
      truth_status = estimated;
      evidence_ref = none;
      confidence = none;
    }
    ∷ record {
      from_key = "w2";
      to_key = "t";
      role = ProvenanceRole.originator;
      truth_status = estimated;
      evidence_ref = none;
      confidence = none;
    }
    ∷ record {
      from_key = "w3";
      to_key = "t";
      role = ProvenanceRole.independent_spread;
      truth_status = estimated;
      evidence_ref = none;
      confidence = none;
    }
    ∷ []

first_originator : (resolve "n" edges proofs).originator ≡ some "w1"
unfolding resolve roles_of absorb
first_originator = refl

fully_resolved : (resolve "n" edges proofs).resolved_stage ≡ origin_adoption_propagation_graph
unfolding resolve contiguous_stage contiguous_from stage_index has_artifact kind_ok is_blank
fully_resolved = refl

foreign_stops : (resolve "m" edges proofs).resolved_stage ≡ deploy_first_liquidity
unfolding resolve contiguous_stage contiguous_from stage_index has_artifact kind_ok is_blank
foreign_stops = refl

beyond_first : 0 < stage_index (resolve "n" edges proofs).resolved_stage
unfolding resolve contiguous_stage contiguous_from stage_index has_artifact kind_ok is_blank
beyond_first = omega arith

search_within :
    stage_index local_archive_search ≤ stage_index (resolve "n" edges proofs).resolved_stage
unfolding resolve contiguous_stage contiguous_from stage_index has_artifact kind_ok is_blank
search_within = omega arith

resolve-Proved_example : Proved "n" local_archive_search proofs
resolve-Proved_example =
    resolve-Proved "n" edges proofs local_archive_search beyond_first search_within

proofs-Minted : All (Minted ("ev" ∷ []) ("g" ∷ [])) proofs
unfolding verify exists_for is_blank
proofs-Minted = (refl, (refl, (refl, (refl, (refl, (refl, (refl, tt)))))))
