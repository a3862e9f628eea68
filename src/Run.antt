-- ===== src/Run.antt =====
-- Runs of a state machine that is given by a Boolean transition table.
use solana_whale_intelligenc.Prelude.{ℕ, suc, ◌≡◌, Bool, true, List, [], ◌∷◌}

-- A run from `s`, by steps that the table allows.
pub data Run {S : Type 0} (table : S → S → Bool) (s : S) : S → Type 0 where
  start : Run table s s
  step : {t : S} → Run table s t → (u : S) → table t u ≡ true → Run table s u

module _ {S : Type 0} {table : S → S → Bool} where
  -- The states of a run, the last one first.
  abbrev pub visited : {s t : S} → Run table s t → List S
  visited {s} start = s ∷ []
  visited (step r u h) = u ∷ visited r

  abbrev pub steps : {s t : S} → Run table s t → ℕ
  steps start = 0
  steps (step r u h) = suc (steps r)
