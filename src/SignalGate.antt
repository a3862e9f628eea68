-- ===== src/SignalGate.antt =====
-- src/sf/signal_gate.rs: the entry gate, ten tests of which the first that fails gives the code.
-- An `i64` is an integer of `Prelude.Int`; an `f64` is abstract.
pub mod Laws
mod Examples
use solana_whale_intelligenc.Prelude.{
  ℕ, Bool, true, false, not, ◌||◌, Option, none, some, List, ltb, leb, any, if◌then◌else◌,
}
use solana_whale_intelligenc.Prelude.Int.{ℤ, pos, leb_ℤ}
use solana_whale_intelligenc.Float.{F64}

pub data RejectionCode : Type 0 where
  insufficient_clusters insufficient_buys unsupported_lifecycle token_too_old : RejectionCode
  insufficient_liquidity critical_risk wash_risk stale_market ineligible_skill : RejectionCode
  ineligible_copyability incomplete_history : RejectionCode

pub record GateThresholds (F : Type 0) : Type 0 where
  pub min_eligible_clusters : ℕ  -- u32
  pub min_meaningful_buys : ℕ  -- u32
  pub max_token_age_hours : ℤ  -- i64
  pub min_liquidity_usd : ℕ  -- u64
  pub max_market_age_seconds : ℤ  -- i64
  pub min_skill : ℕ  -- u32
  pub min_copyability : ℕ  -- u32
  pub min_history_completeness : F

pub data RiskFlag : Type 0 where
  critical_risk wash_trading honeypot rugged : RiskFlag

pub record EntryGateInput (F : Type 0) : Type 0 where
  pub eligible_clusters : ℕ  -- u32
  pub meaningful_buys : ℕ  -- u32
  pub lifecycle_supported : Bool
  pub token_age_hours : Option ℤ
  pub liquidity_usd : Option ℕ
  pub risk_flags : List RiskFlag
  pub market_age_seconds : Option ℤ
  pub max_skill : ℕ  -- u32
  pub max_copyability : ℕ  -- u32
  pub min_history_completeness : F

pub data GateOutcome : Type 0 where
  accepted : GateOutcome
  rejected : RejectionCode → GateOutcome

abbrev pub is_wash : RiskFlag → Bool
is_wash RiskFlag.wash_trading = true
is_wash _ = false

abbrev pub is_critical : RiskFlag → Bool
is_critical RiskFlag.wash_trading = false
is_critical _ = true

-- `Some(age) if age <= max => {}`, and every other case refuses.
abbrev pub at_most : Option ℤ → ℤ → Bool
at_most none m = false
at_most (some a) m = leb_ℤ a m

abbrev pub at_least : Option ℕ → ℕ → Bool
at_least none m = false
at_least (some l) m = leb m l

module _ (fl : F64) where
  open fl use {F, lt, literal}

  abbrev pub default_gate_thresholds : GateThresholds F
  default_gate_thresholds = record {
    min_eligible_clusters = 2;
    min_meaningful_buys = 2;
    max_token_age_hours = pos 24;
    min_liquidity_usd = 20_000;
    max_market_age_seconds = pos 300;
    min_skill = 70;
    min_copyability = 60;
    min_history_completeness = literal false 80 2;
  }

  unfoldable pub evaluate_entry_gate : EntryGateInput F → GateThresholds F → GateOutcome
  evaluate_entry_gate i t =
      if ltb i.eligible_clusters t.min_eligible_clusters
      then rejected insufficient_clusters
      else if ltb i.meaningful_buys t.min_meaningful_buys
      then rejected insufficient_buys
      else if not i.lifecycle_supported
      then rejected unsupported_lifecycle
      else if not (at_most i.token_age_hours t.max_token_age_hours)
      then rejected token_too_old
      else if not (at_least i.liquidity_usd t.min_liquidity_usd)
      then rejected insufficient_liquidity
      else if any i.risk_flags is_wash
      then rejected wash_risk
      else if any i.risk_flags is_critical
      then rejected RejectionCode.critical_risk
      else if not (at_most i.market_age_seconds t.max_market_age_seconds)
      then rejected stale_market
      else if ltb i.max_skill t.min_skill
      then rejected ineligible_skill
      else if ltb i.max_copyability t.min_copyability
      then rejected ineligible_copyability
      else if lt i.min_history_completeness t.min_history_completeness
      then rejected incomplete_history
      else accepted
