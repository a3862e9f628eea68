-- ===== src/Autonomy/Examples.antt =====
-- The autonomy gate on concrete guards, and the theorems at them.
use solana_whale_intelligenc.Prelude.{◌≡◌, refl, false, true, [], ◌∷◌}
use solana_whale_intelligenc.Float.Sample.{sample, sample-IsOrdered}
use solana_whale_intelligenc.Execution.{buy, claim_fees, trade, lp}
use solana_whale_intelligenc.Autonomy.{
  TradingMode, RolloutPhase, AutonomyGuard, is_autonomous, can_open, classify_action, phase_ok,
  default_thresholds, can_raise_limit, thresholds_sane, autonomous_action_permitted,
}
use solana_whale_intelligenc.Autonomy.Ladder.{reduces_risk, classify-reduces_risk}
use solana_whale_intelligenc.Autonomy.Gate.{IsFrozenMinimum, permitted-IsFrozenMinimum}

abbrev guard : AutonomyGuard sample.F
guard = record {
  thresholds = default_thresholds sample;
  forward_sample = 30;
  forward_horizon_days = 14;
  current_drawdown_pct = sample.literal true 50 1;
  ci_lower_bound = sample.literal false 1 1;
  evidence_refs = "review:1" ∷ [];
  human_approved = true;
}

-- A guard whose thresholds were lowered to one sample.
abbrev lowered : AutonomyGuard sample.F
lowered = record guard { thresholds = record guard.thresholds { min_forward_sample = 1 } }

buy_permitted :
    autonomous_action_permitted sample TradingMode.auto_bounded RolloutPhase.advanced
      (trade buy)
      true
      guard
    ≡ true
unfolding autonomous_action_permitted is_autonomous can_open classify_action phase_ok
    can_raise_limit thresholds_sane
buy_permitted = refl

lowered_refused :
    autonomous_action_permitted sample TradingMode.auto_bounded RolloutPhase.advanced
      (trade buy)
      true
      lowered
    ≡ false
unfolding autonomous_action_permitted is_autonomous can_open classify_action phase_ok
    can_raise_limit thresholds_sane
lowered_refused = refl

permitted-IsFrozenMinimum_example :
    (TradingMode.auto_bounded ≡ TradingMode.auto_bounded)
    × (true ≡ true)
    × (phase_ok (classify_action (trade buy)) RolloutPhase.advanced ≡ true)
    × IsFrozenMinimum sample guard
permitted-IsFrozenMinimum_example =
    permitted-IsFrozenMinimum sample sample-IsOrdered TradingMode.auto_bounded RolloutPhase.advanced
      (trade buy) true guard buy_permitted

claim_reduces : reduces_risk (lp claim_fees) ≡ true
unfolding classify_action
claim_reduces = (classify-reduces_risk (lp claim_fees)).0.0 refl
