-- ===== src/Autonomy.antt =====
-- src/sf/autonomy.rs and src/sf/autonomy_runtime.rs: the gate before an autonomous action.
pub mod Ladder
pub mod Gate
mod Examples
use solana_whale_intelligenc.Prelude.{
  ℕ, Bool, true, false, not, ◌&&◌, Option, none, some, List, String, leb, is_empty, if◌then◌else◌,
}
use solana_whale_intelligenc.Float.{F64}
use solana_whale_intelligenc.Execution.{
  TradeAction, buy, sell, partial_sell, close, emergency_exit, LpAction, open_position,
  add_liquidity, claim_fees, compound_fees, partial_withdraw, close_position, reseed_position,
  swap_residuals, lp_emergency_exit, Action, trade, lp,
}

pub data TradingMode : Type 0 where
  read_only shadow paper confirm_each auto_bounded paused halted : TradingMode

pub data RolloutPhase : Type 0 where
  shadow paper confirm_each auto_bounded_claim_close auto_bounded_open_reseed advanced :
      RolloutPhase

pub record RolloutThresholds (F : Type 0) : Type 0 where
  pub min_forward_sample : ℕ  -- u32
  pub forward_horizon_days : ℕ  -- u32
  pub max_drawdown_pct : F
  pub ci_lower_bound : F
  pub requires_human_approval : Bool

pub record AutonomyGuard (F : Type 0) : Type 0 where
  pub thresholds : RolloutThresholds F
  pub forward_sample : ℕ  -- u32
  pub forward_horizon_days : ℕ  -- u32
  pub current_drawdown_pct : F
  pub ci_lower_bound : F
  pub evidence_refs : List String
  pub human_approved : Bool

pub record AutonomousCycle (F : Type 0) : Type 0 where
  pub mode : TradingMode
  pub phase : RolloutPhase
  pub guard : AutonomyGuard F
  pub canary : Bool
  pub max_notional : Option String

unfoldable pub is_autonomous : TradingMode → Bool
is_autonomous TradingMode.auto_bounded = true
is_autonomous _ = false

unfoldable pub can_open : RolloutPhase → Bool
can_open RolloutPhase.auto_bounded_open_reseed = true
can_open RolloutPhase.advanced = true
can_open _ = false

unfoldable pub can_claim_close : RolloutPhase → Bool
can_claim_close RolloutPhase.auto_bounded_claim_close = true
can_claim_close RolloutPhase.auto_bounded_open_reseed = true
can_claim_close RolloutPhase.advanced = true
can_claim_close _ = false

pub data ActionMaturity : Type 0 where
  claim_close open_rung : ActionMaturity

unfoldable pub classify_action : Action → Option ActionMaturity
classify_action (lp claim_fees) = some claim_close
classify_action (lp close_position) = some claim_close
classify_action (lp partial_withdraw) = some claim_close
classify_action (lp swap_residuals) = some claim_close
classify_action (lp lp_emergency_exit) = some claim_close
classify_action (trade sell) = some claim_close
classify_action (trade partial_sell) = some claim_close
classify_action (trade close) = some claim_close
classify_action (trade emergency_exit) = some claim_close
classify_action (lp open_position) = some open_rung
classify_action (lp reseed_position) = some open_rung
classify_action (lp add_liquidity) = some open_rung
classify_action (lp compound_fees) = some open_rung
classify_action (trade buy) = some open_rung

-- The `match maturity` of the gate, after the early return on an unclassified action.
unfoldable pub phase_ok : Option ActionMaturity → RolloutPhase → Bool
phase_ok none phase = false
phase_ok (some open_rung) phase = can_open phase
phase_ok (some claim_close) phase = can_claim_close phase

module _ (fl : F64) where
  open fl use {F, le, lt, literal}

  abbrev pub default_thresholds : RolloutThresholds F
  default_thresholds = record {
    min_forward_sample = 30;
    forward_horizon_days = 14;
    max_drawdown_pct = literal true 100 1;
    ci_lower_bound = literal false 0 1;
    requires_human_approval = true;
  }

  unfoldable pub can_raise_limit : AutonomyGuard F → Bool
  can_raise_limit g =
      g.thresholds.requires_human_approval
      && g.human_approved
      && leb g.thresholds.min_forward_sample g.forward_sample
      && leb g.thresholds.forward_horizon_days g.forward_horizon_days
      && le g.thresholds.max_drawdown_pct g.current_drawdown_pct
      && lt g.thresholds.ci_lower_bound g.ci_lower_bound

  unfoldable pub thresholds_sane : RolloutThresholds F → Bool
  thresholds_sane t =
      leb 30 t.min_forward_sample
      && leb 14 t.forward_horizon_days
      && le (literal true 100 1) t.max_drawdown_pct
      && lt t.max_drawdown_pct (literal false 0 1)
      && le (literal false 0 1) t.ci_lower_bound
      && t.requires_human_approval

  unfoldable pub autonomous_action_permitted :
      TradingMode → RolloutPhase → Action → Bool → AutonomyGuard F → Bool
  autonomous_action_permitted mode phase action canary guard =
      if not (is_autonomous mode)
      then false
      else if not canary
      then false
      else if not (thresholds_sane guard.thresholds)
      then false
      else phase_ok (classify_action action) phase
        && not (is_empty guard.evidence_refs)
        && can_raise_limit guard

  unfoldable pub limit_raise_permitted : RolloutPhase → AutonomyGuard F → Bool
  limit_raise_permitted phase guard =
      autonomous_action_permitted TradingMode.auto_bounded phase (lp claim_fees) true guard

  unfoldable pub cycle_ready : AutonomousCycle F → Bool
  cycle_ready c = autonomous_action_permitted c.mode c.phase (lp claim_fees) c.canary c.guard
