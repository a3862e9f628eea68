-- ===== src/Execution/Halts.antt =====
-- src/sf/execution_runtime.rs: which actions the active kill switches permit.
use solana_whale_intelligenc.Prelude.{
  ◌≡◌, ◌⊎◌, ◌↔◌, inl, inr, Bool, true, false, not, ◌&&◌, ◌||◌, List, ◌∷◌, ◌++◌, arith, any, All,
  filter, is_empty, if◌then◌else◌, Bool-cases, any-append, any-filter, is_empty-filter,
  any-false→All, All→any-false,
}
use solana_whale_intelligenc.Execution.{
  TradeAction, sell, partial_sell, close, emergency_exit, LpAction, claim_fees, partial_withdraw,
  close_position, swap_residuals, lp_emergency_exit, KillSwitch, KillSwitchMode, halt, exit_only,
}

unfoldable pub is_halted : List KillSwitch → Bool
is_halted switches = any switches (λ s. s.active)

unfoldable pub is_risk_reducing : TradeAction → Bool
is_risk_reducing sell = true
is_risk_reducing partial_sell = true
is_risk_reducing close = true
is_risk_reducing emergency_exit = true
is_risk_reducing _ = false

unfoldable pub is_lp_risk_reducing : LpAction → Bool
is_lp_risk_reducing claim_fees = true
is_lp_risk_reducing partial_withdraw = true
is_lp_risk_reducing close_position = true
is_lp_risk_reducing swap_residuals = true
is_lp_risk_reducing lp_emergency_exit = true
is_lp_risk_reducing _ = false

-- `s.mode == KillSwitchMode::Halt`
abbrev pub is_halt : KillSwitchMode → Bool
is_halt halt = true
is_halt exit_only = false

unfoldable pub action_permitted : List KillSwitch → TradeAction → Bool
action_permitted switches action =
    let active = filter (λ (s : KillSwitch). s.active) switches in
    if is_empty active
    then true
    else if any active (λ s. is_halt s.mode)
    then false
    else is_risk_reducing action

abbrev is_active : KillSwitch → Bool
is_active s = s.active

abbrev halts : KillSwitch → Bool
halts s = s.active && is_halt s.mode

-- The decision by two searches through the whole list.
action_permitted-any :
    (switches : List KillSwitch) (a : TradeAction)
    → action_permitted switches a
      ≡ (not (any switches is_active) || not (any switches halts) && is_risk_reducing a)
unfolding action_permitted
action_permitted-any switches a =
    ground (
      arith,
      is_empty-filter switches is_active,
      any-filter switches is_active (λ s. is_halt s.mode),
    )

-- An action is permitted exactly when every kill switch is inactive, or no active switch is a
-- `Halt` and the action reduces risk.
pub action_permitted_iff :
    (switches : List KillSwitch) (a : TradeAction)
    → (action_permitted switches a ≡ true) ↔ (
        All (λ s. s.active ≡ false) switches
        ⊎ All (λ s. (s.active && is_halt s.mode) ≡ false) switches × (is_risk_reducing a ≡ true))
action_permitted_iff switches a = (
  λ h. elim (Bool-cases (any switches is_active)) [
    | inl e ↦ inr (
      any-false→All switches halts (ground (arith, action_permitted-any switches a)),
      ground (arith, action_permitted-any switches a),
    )
    | inr e ↦ inl (any-false→All switches is_active e)
  ],
  λ h. elim h [
    | inl idle ↦
        ground (arith, action_permitted-any switches a, All→any-false switches is_active idle)
    | inr (calm, reduces) ↦
        ground (arith, action_permitted-any switches a, All→any-false switches halts calm)
  ],
)

-- Kill switches only ever restrict: what is permitted under a list of switches stays permitted
-- when one of them, wherever it stands, is taken away.
pub action_permitted_antitone :
    (xs : List KillSwitch) (k : KillSwitch) (ys : List KillSwitch) (a : TradeAction)
    → action_permitted (xs ++ k ∷ ys) a ≡ true
    → action_permitted (xs ++ ys) a ≡ true
action_permitted_antitone xs k ys a h = ground (
  arith,
  action_permitted-any (xs ++ k ∷ ys) a,
  action_permitted-any (xs ++ ys) a,
  any-append xs (k ∷ ys) is_active,
  any-append xs (k ∷ ys) halts,
  any-append xs ys is_active,
  any-append xs ys halts,
)
