-- ===== src/Revival/Examples.antt =====
-- Concrete revivals, and the theorems at them.
use solana_whale_intelligenc.Prelude.{ℕ, ◌≡◌, refl, true, Option, some, List, [], ◌∷◌, String}
use solana_whale_intelligenc.Revival.{
  opportunity_evaluation, DormantBaseline, RevivalResult, run_revival,
}

abbrev dormant : DormantBaseline ℕ
dormant = record { token = "mint"; dormant_at = "d1"; baseline = 0; failure_memory = "rug:1" ∷ [] }

abbrev revive : Option ℕ → List String → RevivalResult ℕ
revive = run_revival "mint" dormant true true

full_revival : (revive (some 80) ("vol:2" ∷ [])).reached_stage ≡ opportunity_evaluation
unfolding run_revival
full_revival = refl
