-- ===== src/Intent/Runs.antt =====
-- Runs of an intent: sequences of legal transitions.
use solana_whale_intelligenc.Prelude.{
  ℕ, suc, ◌+◌, ◌≤◌, ◌≡◌, refl, ◌⊎◌, inl, true, List, [], ◌∷◌, arith,
}
use solana_whale_intelligenc.Run.{Run, start, step, visited, steps}
use solana_whale_intelligenc.Intent.{
  IntentState, proposed, approved, reserved, built, simulated, signed, submitted, confirmed,
  failed_safe, unknown_reconciliation, cancelled, can_transition,
}

abbrev pub to_reserved : List IntentState
to_reserved = reserved ∷ approved ∷ proposed ∷ []

abbrev pub to_submitted : List IntentState
to_submitted = submitted ∷ signed ∷ simulated ∷ built ∷ to_reserved

-- The only histories with which a run from `Proposed` can stand in a state.
abbrev pub History : IntentState → List IntentState → Type 0
History proposed l = l ≡ proposed ∷ []
History approved l = l ≡ approved ∷ proposed ∷ []
History reserved l = l ≡ to_reserved
History built l = l ≡ built ∷ to_reserved
History simulated l = l ≡ simulated ∷ built ∷ to_reserved
History signed l = l ≡ signed ∷ simulated ∷ built ∷ to_reserved
History submitted l = l ≡ to_submitted
History unknown_reconciliation l = l ≡ unknown_reconciliation ∷ to_submitted
History confirmed l =
    (l ≡ confirmed ∷ to_submitted) ⊎ (l ≡ confirmed ∷ unknown_reconciliation ∷ to_submitted)
History failed_safe l = Unit
History cancelled l = Unit

History-step :
    (t u : IntentState) (l : List IntentState)
    → can_transition t u ≡ true
    → History t l
    → History u (u ∷ l)
unfolding can_transition
History-step t u l h p = ground arith

-- A run that starts at `Proposed` has, in each state before the end, exactly one possible history:
-- a submitted intent was approved, reserved, built, simulated and signed, in that order and once;
-- a confirmed one was submitted so, and was at most once in reconciliation between.
pub visited-History : (t : IntentState) (r : Run can_transition proposed t) → History t (visited r)
visited-History proposed start = refl
visited-History u (step {t} r _ h) = History-step t u (visited r) h (visited-History t r)

-- Every legal transition raises the rank.
abbrev rank : IntentState → ℕ
rank proposed = 0
rank approved = 1
rank reserved = 2
rank built = 3
rank simulated = 4
rank signed = 5
rank submitted = 6
rank unknown_reconciliation = 7
rank _ = 8

rank-step : (t u : IntentState) → can_transition t u ≡ true → suc (rank t) ≤ rank u
unfolding can_transition
rank-step t u h = ground arith

rank-run : {s t : IntentState} (r : Run can_transition s t) → steps r + rank s ≤ rank t
rank-run start = omega arith
rank-run (step {t} r u h) = omega (arith, rank-step t u h, rank-run r)

rank-le : (s : IntentState) → rank s ≤ 8
rank-le s = ground arith

-- Every run ends: none has more than eight transitions, from whatever state it starts.
pub steps-le : {s t : IntentState} (r : Run can_transition s t) → steps r ≤ 8
steps-le {s} {t} r = omega (arith, rank-run r, rank-le t)

-- What a run from reconciliation can reach.
abbrev pub Reconciled : IntentState → Type 0
Reconciled t = (t ≡ unknown_reconciliation) ⊎ (t ≡ confirmed) ⊎ (t ≡ failed_safe) ⊎ (t ≡ cancelled)

Reconciled-step : (t u : IntentState) → can_transition t u ≡ true → Reconciled t → Reconciled u
unfolding can_transition
Reconciled-step t u h p = ground arith

-- While an intent is unknown there is no new submission: whatever run follows, it stays unknown or
-- stands in one of the three outcomes of reconciliation.
pub unknown-Reconciled :
    {t : IntentState} (r : Run can_transition unknown_reconciliation t) → Reconciled t
unknown-Reconciled start = inl refl
unknown-Reconciled (step {t} r u h) = Reconciled-step t u h (unknown-Reconciled r)
