-- ===== src/Autonomy/Gate.antt =====
-- What the autonomy gate guarantees.
use solana_whale_intelligenc.Prelude.{◌≤◌, ◌≡◌, ◌↔◌, Bool, true, false, arith, is_empty}
use solana_whale_intelligenc.Float.{F64, IsOrdered}
use solana_whale_intelligenc.Execution.{Action}
use solana_whale_intelligenc.Autonomy.{
  TradingMode, RolloutPhase, AutonomyGuard, AutonomousCycle, classify_action, phase_ok,
  can_raise_limit, thresholds_sane, autonomous_action_permitted, limit_raise_permitted, cycle_ready,
  is_autonomous,
}
use solana_whale_intelligenc.Autonomy.Ladder.{reduces_risk, rung, phase_ok_mono}

module _ (fl : F64) where
  open fl use {F, le, lt, literal}

  -- The frozen minimum, as the measured values must meet it.
  pub record IsFrozenMinimum (g : AutonomyGuard F) : Type 0 where
    pub approved : g.human_approved ≡ true
    pub reviewed : is_empty g.evidence_refs ≡ false
    pub sampled : 30 ≤ g.forward_sample
    pub observed : 14 ≤ g.forward_horizon_days
    pub drawdown : le (literal true 100 1) g.current_drawdown_pct ≡ true
    pub positive : lt (literal false 0 1) g.ci_lower_bound ≡ true

  guard_sound :
      (o : IsOrdered fl) (g : AutonomyGuard F)
      → thresholds_sane fl g.thresholds ≡ true
      → is_empty g.evidence_refs ≡ false
      → can_raise_limit fl g ≡ true
      → IsFrozenMinimum g
  unfolding thresholds_sane can_raise_limit
  guard_sound o g s e c = ground (
    arith,
    o.le_trans (literal true 100 1) g.thresholds.max_drawdown_pct g.current_drawdown_pct,
    o.le_lt_trans (literal false 0 1) g.thresholds.ci_lower_bound g.ci_lower_bound,
  )

  abbrev Parts : TradingMode → RolloutPhase → Action → Bool → AutonomyGuard F → Type 0
  Parts mode phase a canary g =
      (is_autonomous mode ≡ true)
      × (canary ≡ true)
      × (phase_ok (classify_action a) phase ≡ true)
      × (thresholds_sane fl g.thresholds ≡ true)
      × (is_empty g.evidence_refs ≡ false)
      × (can_raise_limit fl g ≡ true)

  permitted-Parts :
      (mode : TradingMode) (phase : RolloutPhase) (a : Action) (canary : Bool) (g : AutonomyGuard F)
      → (autonomous_action_permitted fl mode phase a canary g ≡ true) ↔ Parts mode phase a canary g
  unfolding autonomous_action_permitted
  permitted-Parts mode phase a canary g = (λ h. ground arith, λ h. ground arith)

  mode_lem : (mode : TradingMode) → is_autonomous mode ≡ true → mode ≡ TradingMode.auto_bounded
  unfolding is_autonomous
  mode_lem mode h = ground arith

  -- Where the gate permits an action, the mode is `AutoBounded`, the run is a canary, the rung of
  -- the ladder opens the action, and whatever thresholds the guard carries, the measured values
  -- meet the frozen minimum: approval by a human, reviewed evidence, 30 samples, 14 days, a
  -- drawdown of at most ten per cent and a positive confidence bound.
  pub permitted-IsFrozenMinimum :
      (o : IsOrdered fl) (mode : TradingMode) (phase : RolloutPhase) (a : Action) (canary : Bool)
      (g : AutonomyGuard F)
      → autonomous_action_permitted fl mode phase a canary g ≡ true
      → (mode ≡ TradingMode.auto_bounded)
        × (canary ≡ true)
        × (phase_ok (classify_action a) phase ≡ true)
        × IsFrozenMinimum g
  permitted-IsFrozenMinimum o mode phase a canary g h =
      let (m, c, p, t, e, r) = (permitted-Parts mode phase a canary g).0 h in
      (mode_lem mode m, c, p, guard_sound o g t e r)

  -- Claiming and closing mature before opening: at the same rung or a later one, with the same
  -- guard, the gate permits every action which adds no more risk than one that it permits.
  pub permitted_mono :
      (mode : TradingMode) (p q : RolloutPhase) (a b : Action) (canary : Bool) (g : AutonomyGuard F)
      → (reduces_risk a ≡ true → reduces_risk b ≡ true)
      → rung p ≤ rung q
      → autonomous_action_permitted fl mode p a canary g ≡ true
      → autonomous_action_permitted fl mode q b canary g ≡ true
  permitted_mono mode p q a b canary g risk later h =
      let (m, c, o, t, e, r) = (permitted-Parts mode p a canary g).0 h in
      (permitted-Parts mode q b canary g).1 (m, c, phase_ok_mono a b p q risk later o, t, e, r)

  -- A cycle is ready exactly when its mode is `AutoBounded`, it is a canary, and a limit raise is
  -- permitted in its phase under its guard.
  pub cycle_ready_iff :
      (c : AutonomousCycle F)
      → (cycle_ready fl c ≡ true) ↔ (
          (c.mode ≡ TradingMode.auto_bounded)
          × (c.canary ≡ true)
          × (limit_raise_permitted fl c.phase c.guard ≡ true))
  unfolding cycle_ready limit_raise_permitted autonomous_action_permitted is_autonomous
  cycle_ready_iff c = (λ h. ground arith, λ h. ground arith)
