-- ===== src/Revival/Flow.antt =====
-- How far a revival gets, and on what conditions.
use solana_whale_intelligenc.Prelude.{
  ◌<◌, ◌≡◌, ◌↔◌, Bool, true, false, Option, none, List, String, arith, is_empty, eq_iff,
}
use solana_whale_intelligenc.Revival.{
  opportunity_evaluation, DormantBaseline, stage_index, has_value, run_revival,
}

module _ {F V : Type 0} where
  -- The gate is reported passed exactly when the flow goes beyond it, and that is exactly when the
  -- token is the baseline's, the wake signal fired and the gate passed; a quality is reported only
  -- then.
  pub run_revival_gate :
      (token : String) (b : DormantBaseline V) (woken gate : Bool) (q : Option F)
      (refs : List String)
      → let r = run_revival token b woken gate q refs in
        ((r.passed_activation_gate ≡ true) ↔ (2 < stage_index r.reached_stage))
        × ((r.passed_activation_gate ≡ true) ↔ ((token ≡ b.token) × (woken ≡ true) × (gate ≡ true)))
        × (r.passed_activation_gate ≡ false → r.quality ≡ none)
  unfolding run_revival stage_index
  run_revival_gate token b woken gate q refs = (
    (λ h. ground arith, λ h. ground arith),
    (λ h. ground (arith, eq_iff token b.token), λ h. ground (arith, eq_iff token b.token)),
    λ h. ground arith,
  )

  -- The full evaluation is reached exactly when, beyond the gate, a quality was computed and the
  -- caller brought evidence of its own.
  pub run_revival_evaluated :
      (token : String) (b : DormantBaseline V) (woken gate : Bool) (q : Option F)
      (refs : List String)
      → ((run_revival token b woken gate q refs).reached_stage ≡ opportunity_evaluation) ↔ (
          (token ≡ b.token)
          × (woken ≡ true)
          × (gate ≡ true)
          × (has_value q ≡ true)
          × (is_empty refs ≡ false))
  unfolding run_revival
  run_revival_evaluated token b woken gate q refs =
      (λ h. ground (arith, eq_iff token b.token), λ h. ground (arith, eq_iff token b.token))
