-- ===== src/Autonomy/Ladder.antt =====
-- The rollout ladder: how actions are classed, and which rung opens which class.
use solana_whale_intelligenc.Prelude.{
  ℕ, ◌≤◌, ◌≡◌, sym, ◌∙◌, ◌↔◌, Bool, true, false, some, arith, leb, leb→le, le→leb,
}
use solana_whale_intelligenc.Execution.{Action, trade, lp}
use solana_whale_intelligenc.Execution.Halts.{is_risk_reducing, is_lp_risk_reducing}
use solana_whale_intelligenc.Autonomy.{
  RolloutPhase, claim_close, open_rung, can_open, can_claim_close, classify_action, phase_ok,
}

-- The reading of the kill switch, for both kinds of action.
abbrev pub reduces_risk : Action → Bool
unfolding is_risk_reducing is_lp_risk_reducing
reduces_risk (trade a) = is_risk_reducing a
reduces_risk (lp a) = is_lp_risk_reducing a

-- The autonomy gate and the kill switch class actions alike: an action is on the claim/close rung
-- exactly when it reduces risk, and on the open rung exactly when it does not; none is unclassed.
pub classify-reduces_risk :
    (a : Action)
    → ((classify_action a ≡ some claim_close) ↔ (reduces_risk a ≡ true))
      × ((classify_action a ≡ some open_rung) ↔ (reduces_risk a ≡ false))
unfolding classify_action is_risk_reducing is_lp_risk_reducing
classify-reduces_risk (trade a) = ground arith
classify-reduces_risk (lp a) = ground arith

-- The derived order of the phases.
abbrev pub rung : RolloutPhase → ℕ
rung RolloutPhase.shadow = 0
rung RolloutPhase.paper = 1
rung RolloutPhase.confirm_each = 2
rung RolloutPhase.auto_bounded_claim_close = 3
rung RolloutPhase.auto_bounded_open_reseed = 4
rung RolloutPhase.advanced = 5

-- The rung that an action needs.
abbrev needed : Bool → ℕ
needed true = 3
needed false = 4

phase_ok-needed :
    (a : Action) (p : RolloutPhase)
    → phase_ok (classify_action a) p ≡ leb (needed (reduces_risk a)) (rung p)
unfolding phase_ok can_open can_claim_close classify_action is_risk_reducing is_lp_risk_reducing
phase_ok-needed (trade a) p = ground arith
phase_ok-needed (lp a) p = ground arith

needed_mono : (a b : Bool) → (a ≡ true → b ≡ true) → needed b ≤ needed a
needed_mono true b h = ground (arith, h)
needed_mono false b h = ground arith

-- A later rung opens all that an earlier one opens, and a rung that opens an action which adds risk
-- opens every action.
pub phase_ok_mono :
    (a b : Action) (p q : RolloutPhase)
    → (reduces_risk a ≡ true → reduces_risk b ≡ true)
    → rung p ≤ rung q
    → phase_ok (classify_action a) p ≡ true
    → phase_ok (classify_action b) q ≡ true
phase_ok_mono a b p q h l o =
    let low = leb→le (needed (reduces_risk a)) (rung p) (sym (phase_ok-needed a p) ∙ o) in
    let less = needed_mono (reduces_risk a) (reduces_risk b) h in
    phase_ok-needed b q ∙ le→leb (needed (reduces_risk b)) (rung q) (omega arith)
