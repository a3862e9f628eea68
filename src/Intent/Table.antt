-- ===== src/Intent/Table.antt =====
-- The transition table against a description by positions on the forward path.
use solana_whale_intelligenc.Prelude.{ℕ, ◌+◌, ◌≡◌, ◌↔◌, Bool, true, false, ◌&&◌, arith, leb, ◌==◌}
use solana_whale_intelligenc.Intent.{
  IntentState, proposed, approved, reserved, built, simulated, signed, submitted, confirmed,
  failed_safe, unknown_reconciliation, cancelled, can_transition, is_terminal, reservation_action,
  release,
}

-- The place of a state on the forward path, from 1 for `Proposed` to 8 for `Confirmed`; 0 off it.
abbrev pub position : IntentState → ℕ
position proposed = 1
position approved = 2
position reserved = 3
position built = 4
position simulated = 5
position signed = 6
position submitted = 7
position confirmed = 8
position _ = 0

abbrev forward : ℕ → ℕ → Bool
forward i j = leb 1 i && j == i + 1

-- The rules of the header of the file: forward by one place; cancelled before a reservation;
-- failed safe from a reservation to the submission; reconciliation after a submission.
abbrev pub in_table : IntentState → IntentState → Bool
in_table submitted unknown_reconciliation = true
in_table unknown_reconciliation confirmed = true
in_table unknown_reconciliation failed_safe = true
in_table unknown_reconciliation cancelled = true
in_table s failed_safe = leb 3 (position s) && leb (position s) 7
in_table s cancelled = leb 1 (position s) && leb (position s) 2
in_table s t = forward (position s) (position t)

-- The program's list of eighteen pairs is the table of rules: between any two states, forward by
-- exactly one place, cancellation only before the reservation, failing safe only from the
-- reservation to the submission, and the four moves of reconciliation.
pub can_transition-in_table : (s t : IntentState) → can_transition s t ≡ in_table s t
unfolding can_transition
can_transition-in_table s t = ground arith

-- What follows a state, where the code calls it live: one legal move out of it.
abbrev way_on : IntentState → IntentState
way_on proposed = approved
way_on approved = reserved
way_on reserved = built
way_on built = simulated
way_on simulated = signed
way_on signed = submitted
way_on submitted = confirmed
way_on unknown_reconciliation = failed_safe
way_on s = s

-- The three views of a state agree: it is terminal exactly when no transition leaves it, and
-- exactly when entering it releases the reserved capital.
pub terminal-release :
    (s : IntentState)
    → ((is_terminal s ≡ true) ↔ ((t : IntentState) → can_transition s t ≡ false))
      × ((is_terminal s ≡ true) ↔ (reservation_action s ≡ release))
unfolding can_transition is_terminal reservation_action
terminal-release s = (
  (λ h t. ground arith, λ h. ground (arith, h (way_on s))),
  (λ h. ground arith, λ h. ground arith),
)
