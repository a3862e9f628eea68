-- ===== src/Narrative/Stages.antt =====
-- The stage that a narrative reaches, and the proofs of the stages.
use solana_whale_intelligenc.Prelude.{
  ℕ, ◌+◌, ◌≤◌, ◌<◌, ◌≡◌, refl, subst, ap, inl, inr, Bool, true, false, ◌&&◌, some, List, [], ◌∷◌,
  String, ◌==◌, arith, In, All, All-in, str_eq, eq_iff, Bool-cases,
}
use solana_whale_intelligenc.Narrative.{
  NarrativeEdge, ProvenanceStage, deploy_first_liquidity, earliest_evidence,
  origin_adoption_propagation_graph, VerifiedStageProof, holds, exists_for, verify, has_artifact,
  stage_index, kind_ok, contiguous_from, contiguous_stage, resolve,
}

-- The proof is the narrative's, of the stage, and refers to something of the kind the stage needs.
pub record Proves (key : String) (stage : ProvenanceStage) (p : VerifiedStageProof) : Type 0 where
  pub bound : p.narrative_key ≡ key
  pub certified : p.stage ≡ stage
  pub artifact : has_artifact p ≡ true
  pub kind : kind_ok p.stage p.artifact_kind ≡ true

stage_index_inj : (s t : ProvenanceStage) → stage_index s ≡ stage_index t → s ≡ t
unfolding stage_index
stage_index_inj s t h = ground arith

accepts : String → ℕ → VerifiedStageProof → Bool
accepts key expected p =
    str_eq p.narrative_key key
    && stage_index p.stage == expected
    && has_artifact p
    && kind_ok p.stage p.artifact_kind

from-accepted :
    (key : String) (expected : ℕ) (last : ProvenanceStage) (p : VerifiedStageProof)
    (ps : List VerifiedStageProof)
    → accepts key expected p ≡ true
    → contiguous_from key expected last (p ∷ ps) ≡ contiguous_from key (expected + 1) p.stage ps
unfolding contiguous_from accepts
from-accepted key expected last p ps h = ground arith

from-refused :
    (key : String) (expected : ℕ) (last : ProvenanceStage) (p : VerifiedStageProof)
    (ps : List VerifiedStageProof)
    → accepts key expected p ≡ false
    → contiguous_from key expected last (p ∷ ps) ≡ last
unfolding contiguous_from accepts
from-refused key expected last p ps h = ground arith

accepts-index :
    (key : String) (expected : ℕ) (p : VerifiedStageProof)
    → accepts key expected p ≡ true
    → stage_index p.stage ≡ expected
unfolding accepts
accepts-index key expected p h = ground arith

accepts-Proves :
    (key : String) (expected : ℕ) (p : VerifiedStageProof)
    → accepts key expected p ≡ true
    → Proves key p.stage p
unfolding accepts
accepts-Proves key expected p h = record {
  bound = ground (arith, eq_iff p.narrative_key key);
  certified = refl;
  artifact = ground arith;
  kind = ground arith;
}

-- A proof in a list.
abbrev pub Proved : String → ProvenanceStage → List VerifiedStageProof → Type 0
Proved key t ps = (p : VerifiedStageProof) × In p ps × Proves key t p

from-nil :
    (key : String) (expected : ℕ) (last : ProvenanceStage)
    → contiguous_from key expected last [] ≡ last
unfolding contiguous_from
from-nil key expected last = refl

deploy_index : stage_index deploy_first_liquidity ≡ 0
unfolding stage_index
deploy_index = refl

from-Proved :
    (key : String) (expected : ℕ) (last : ProvenanceStage) (ps : List VerifiedStageProof)
    (t : ProvenanceStage)
    → expected ≤ stage_index t
    → stage_index t ≤ stage_index (contiguous_from key expected last ps)
    → stage_index last < stage_index (contiguous_from key expected last ps)
    → Proved key t ps
from-Proved key expected last [] t low high more =
    absurd (omega (arith, ap stage_index (from-nil key expected last)))
from-Proved key expected last (p ∷ ps) t low high more =
    elim (Bool-cases (accepts key expected p)) [
      | inr refused ↦
          let e = from-refused key expected last p ps refused in absurd (ground (arith, e))
      | inl taken ↦
          let e = from-accepted key expected last p ps taken in
          let i = accepts-index key expected p taken in
          elim (Bool-cases (stage_index t == expected)) [
            | inl here ↦
                let same = stage_index_inj p.stage t (ground arith) in
                (
                  p,
                  inl refl,
                  subst (λ s. Proves key s p) same (accepts-Proves key expected p taken),
                )
            | inr later ↦
                let (q, j, w) =
                  from-Proved key (expected + 1) p.stage ps t (ground arith) (ground (arith, e))
                    (ground (arith, e)) in
                (q, inr j, w)
          ]
    ]

-- No stage is skipped and none is inferred: where a narrative is resolved beyond the first stage,
-- the list holds, for every stage up to the resolved one, a proof bound to this narrative, with an
-- artifact that is not blank and of the kind that the stage requires.
pub resolve-Proved :
    {F : Type 0} (key : String) (edges : List (NarrativeEdge F)) (ps : List VerifiedStageProof)
    (t : ProvenanceStage)
    → let reached = (resolve key edges ps).resolved_stage in
      0 < stage_index reached → stage_index t ≤ stage_index reached → Proved key t ps
unfolding resolve contiguous_stage
resolve-Proved key edges ps t more high =
    from-Proved key 0 deploy_first_liquidity ps t (omega arith) high
      (omega (arith, deploy_index, more))

-- The proof was minted by `verify` against these stores.
abbrev pub Minted : List String → List String → VerifiedStageProof → Type 0
Minted evidence_refs graph_records p =
    verify p.narrative_key p.run_id p.stage p.artifact_id p.artifact_kind evidence_refs
      graph_records
    ≡ some p

Minted-exists_for :
    (evidence_refs graph_records : List String) (p : VerifiedStageProof)
    → Minted evidence_refs graph_records p
    → exists_for p.stage p.artifact_kind p.artifact_id evidence_refs graph_records ≡ true
unfolding verify
Minted-exists_for evidence_refs graph_records p h = ground arith

-- A narrative that is resolved to the origin graph, from proofs that the stores verified, has an
-- artifact among the graph records and one among the evidence.
pub resolve-verified :
    {F : Type 0} (key : String) (edges : List (NarrativeEdge F)) (ps : List VerifiedStageProof)
    (evidence_refs graph_records : List String)
    → All (Minted evidence_refs graph_records) ps
    → (resolve key edges ps).resolved_stage ≡ origin_adoption_propagation_graph
    → ((a : String) × (holds graph_records a ≡ true))
      × ((a : String) × (holds evidence_refs a ≡ true))
unfolding stage_index exists_for
resolve-verified key edges ps evidence_refs graph_records minted h =
    let (p, i, w) =
      resolve-Proved key edges ps origin_adoption_propagation_graph (ground (arith, h))
        (ground (arith, h)) in
    let (q, j, v) =
      resolve-Proved key edges ps earliest_evidence (ground (arith, h)) (ground (arith, h)) in
    let e = Minted-exists_for evidence_refs graph_records p (All-in _ ps i minted) in
    let f = Minted-exists_for evidence_refs graph_records q (All-in _ ps j minted) in
    let c = w.certified in
    let d = v.certified in ((p.artifact_id, ground arith), (q.artifact_id, ground arith))
