-- ===== src/Revival.antt =====
-- src/sf/revival.rs and src/sf/revival_runtime.rs: how far a dormant token is revived.
pub mod Flow
mod Examples
use solana_whale_intelligenc.Prelude.{
  ℕ, ◌+◌, Bool, true, false, not, ◌&&◌, Option, none, some, List, ◌++◌, String, ◌==◌, is_empty,
  str_eq, if◌then◌else◌,
}

pub data RevivalStage : Type 0 where
  wake dormant_baseline_comparison activation_gate refresh : RevivalStage
  revival_quality opportunity_evaluation : RevivalStage

pub record DormantBaseline (V : Type 0) : Type 0 where
  pub token : String
  pub dormant_at : String
  pub baseline : V
  pub failure_memory : List String

pub record RevivalResult (F : Type 0) : Type 0 where
  pub token : String
  pub reached_stage : RevivalStage
  pub quality : Option F  -- `revival_quality`
  pub passed_activation_gate : Bool
  pub evidence_refs : List String

unfoldable pub stage_index : RevivalStage → ℕ
stage_index wake = 0
stage_index dormant_baseline_comparison = 1
stage_index activation_gate = 2
stage_index refresh = 3
stage_index revival_quality = 4
stage_index opportunity_evaluation = 5

unfoldable pub can_progress : RevivalStage → RevivalStage → Bool
unfolding stage_index
can_progress current next = stage_index next == stage_index current + 1

abbrev pub has_value : {A : Type 0} → Option A → Bool
has_value none = false
has_value (some a) = true

-- The result of an early return: no quality, the gate not passed, all evidence kept.
abbrev pub stopped : {F : Type 0} → String → RevivalStage → List String → RevivalResult F
stopped token stage evidence = record {
  token = token;
  reached_stage = stage;
  quality = none;
  passed_activation_gate = false;
  evidence_refs = evidence;
}

module _ {F V : Type 0} where
  unfoldable pub run_revival :
      String → DormantBaseline V → Bool → Bool → Option F → List String → RevivalResult F
  run_revival token base woken passed_gate quality evidence_refs =
      let all_evidence = base.failure_memory ++ evidence_refs in
      if not (str_eq token base.token)
      then stopped token wake all_evidence
      else if not woken
      then stopped token wake all_evidence
      else if not passed_gate
      then stopped token activation_gate all_evidence
      else record {
        token = token;
        reached_stage =
            if has_value quality && not (is_empty evidence_refs)
            then opportunity_evaluation
            else revival_quality;
        quality = quality;
        passed_activation_gate = true;
        evidence_refs = all_evidence;
      }
