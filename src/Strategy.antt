-- ===== src/Strategy.antt =====
-- src/sf/strategy.rs and src/sf/strategy_runtime.rs: the life of a strategy and its evaluation.
-- `parse::<f64>` is the standard library's: it is a parameter beside the values of `f64`.
pub mod Life
mod Examples
use solana_whale_intelligenc.Prelude.{
  ℕ, ◌+◌, Bool, true, false, not, ◌&&◌, Option, none, some, List, [], ◌∷◌, String, ◌==◌, length,
  is_empty, if◌then◌else◌,
}
use solana_whale_intelligenc.Float.{F64}
use solana_whale_intelligenc.Json.{Json}

pub data StrategyLifecycle : Type 0 where
  draft shadow paper validated approved canary active paused retired : StrategyLifecycle

pub record ShadowOutcome (V : Type 0) : Type 0 where
  pub strategy_version_id : String
  pub window_start : String
  pub window_end : String
  pub metrics : V
  pub rejected_candidates : List String

pub record PaperFriction : Type 0 where
  pub fees : Option String
  pub gas : Option String
  pub tip : Option String
  pub rent : Option String
  pub slippage : Option String
  pub latency : Option String

pub record PaperExecution : Type 0 where
  pub strategy_version_id : String
  pub quote : String
  pub friction : PaperFriction
  pub pnl : Option String

unfoldable pub stage_index : StrategyLifecycle → ℕ
stage_index draft = 0
stage_index shadow = 1
stage_index paper = 2
stage_index validated = 3
stage_index approved = 4
stage_index canary = 5
stage_index active = 6
stage_index paused = 7
stage_index retired = 8

-- The pause toggle, in either direction.
abbrev pub is_toggle : StrategyLifecycle → StrategyLifecycle → Bool
is_toggle active paused = true
is_toggle paused active = true
is_toggle _ _ = false

abbrev is_retired : StrategyLifecycle → Bool
is_retired retired = true
is_retired _ = false

unfoldable pub can_transition : StrategyLifecycle → StrategyLifecycle → Bool
unfolding stage_index
can_transition current next =
    if is_retired current
    then false
    else if is_toggle current next
    then true
    else stage_index next == stage_index current + 1

unfoldable pub is_live_ready : StrategyLifecycle → Bool
is_live_ready approved = true
is_live_ready canary = true
is_live_ready active = true
is_live_ready _ = false

unfoldable pub negative_findings : {V : Type 0} → List (ShadowOutcome V) → ℕ
negative_findings [] = 0
negative_findings (o ∷ os) = length o.rejected_candidates + negative_findings os

module _ (js : Json) where
  open js use {Value, as_object}

  -- `metrics.as_object().map(|m| !m.is_empty()).unwrap_or(false)`
  has_metrics : Value → Bool
  has_metrics v = elim (as_object v) [ none ↦ false | some m ↦ not (is_empty m) ]

  unfoldable pub shadow_passed : ShadowOutcome Value → Bool
  unfolding has_metrics
  shadow_passed o = is_empty o.rejected_candidates && has_metrics o.metrics

module _ (fl : F64) (parse_f64 : String → Option fl.F) where
  unfoldable pub paper_positive : PaperExecution → Bool
  paper_positive exec = elim exec.pnl [
    | none ↦ false
    | some p ↦ elim (parse_f64 p) [ none ↦ false | some x ↦ fl.lt (fl.literal false 0 1) x ]
  ]
