-- ===== src/Intent/Examples.antt =====
-- Runs of the intent's model on concrete states, and the theorems at them.
use solana_whale_intelligenc.Prelude.{◌≡◌, refl, ◌⊎◌, ◌∷◌}
use solana_whale_intelligenc.Run.{Run, start, step, visited}
use solana_whale_intelligenc.Intent.{
  proposed, approved, reserved, built, simulated, signed, submitted, confirmed,
  unknown_reconciliation, cancelled, can_transition,
}
use solana_whale_intelligenc.Intent.Runs.{to_submitted, visited-History}

-- Submitted, unknown, then confirmed by reconciliation.
reconciled_run : Run can_transition proposed confirmed
unfolding can_transition
reconciled_run =
    step
      (step
        (step
          (step
            (step (step (step (step start approved refl) reserved refl) built refl) simulated refl)
            signed refl)
          submitted refl)
        unknown_reconciliation refl)
      confirmed refl

cancelled_run : Run can_transition unknown_reconciliation cancelled
unfolding can_transition
cancelled_run = step start cancelled refl

visited-History_example :
    (visited reconciled_run ≡ confirmed ∷ to_submitted)
    ⊎ (visited reconciled_run ≡ confirmed ∷ unknown_reconciliation ∷ to_submitted)
visited-History_example = visited-History confirmed reconciled_run
