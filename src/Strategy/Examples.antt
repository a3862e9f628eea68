-- ===== src/Strategy/Examples.antt =====
-- Concrete lives and shadow outcomes, and the theorems at them.
use solana_whale_intelligenc.Prelude.{◌≡◌, refl, true, false, none, some, [], ◌∷◌}
use solana_whale_intelligenc.Prelude.Int.{pos}
use solana_whale_intelligenc.Float.Sample.{sample}
use solana_whale_intelligenc.Json.Sample.{Sample, object, sample_json}
use solana_whale_intelligenc.Run.{Run, start, step}
use solana_whale_intelligenc.Strategy.{
  draft, shadow, paper, validated, approved, canary, active, paused, stage_index, can_transition,
  ShadowOutcome, shadow_passed, PaperExecution, paper_positive,
}

-- To the approval, one gate at a time.
approved_run : Run can_transition draft approved
unfolding can_transition stage_index
approved_run = step (step (step (step start shadow refl) paper refl) validated refl) approved refl

-- Live, paused and live again.
resumed_run : Run can_transition draft active
unfolding can_transition stage_index
resumed_run = step (step (step (step approved_run canary refl) active refl) paused refl) active refl

skipping_refused : can_transition draft paper ≡ false
unfolding can_transition stage_index
skipping_refused = refl

abbrev outcome : ShadowOutcome Sample
outcome = record {
  strategy_version_id = "v1";
  window_start = "d1";
  window_end = "d2";
  metrics = object (("hit_rate", "0.6") ∷ []);
  rejected_candidates = [];
}

outcome_passed : shadow_passed sample_json outcome ≡ true
unfolding shadow_passed
outcome_passed = refl

abbrev execution : PaperExecution
execution = record {
  strategy_version_id = "v1";
  quote = "q";
  friction = record {
    fees = none;
    gas = none;
    tip = none;
    rent = none;
    slippage = none;
    latency = none;
  };
  pnl = some "1.5";
}

execution_positive : paper_positive sample (λ t. some (some (pos 1500))) execution ≡ true
unfolding paper_positive
execution_positive = refl
