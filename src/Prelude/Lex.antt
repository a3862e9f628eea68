-- ===== src/Prelude/Lex.antt =====
-- The lexical order of lists of numbers: `<` on tuples and on texts.
use Prim.Native.Nat.{ℕ}
use mathlib.Core.Path.{◌≡◌, refl}
use mathlib.Core.Bool.{Bool, true, false}
use mathlib.Core.List.{List, [], ◌∷◌}
use native.Mathlib.Omega.{arith}
use solana_whale_intelligenc.Prelude.Tests.{ltb, if◌then◌else◌}

abbrev pub lex_lt : List ℕ → List ℕ → Bool
lex_lt [] [] = false
lex_lt [] (y ∷ ys) = true
lex_lt (x ∷ xs) [] = false
lex_lt (x ∷ xs) (y ∷ ys) =
    let rest = lex_lt xs ys in if ltb x y then true else if ltb y x then false else rest

pub lex_refl : (xs : List ℕ) → lex_lt xs xs ≡ false
lex_refl [] = refl
lex_refl (x ∷ xs) = ground (arith, lex_refl xs)

-- "Not better than" is transitive.
pub lex_trans :
    (xs ys zs : List ℕ) → lex_lt ys xs ≡ false → lex_lt zs ys ≡ false → lex_lt zs xs ≡ false
lex_trans [] ys [] h g = refl
lex_trans (x ∷ xs) [] [] h g = cc
lex_trans (x ∷ xs) (y ∷ ys) [] h g = cc
lex_trans [] [] (z ∷ zs) h g = refl
lex_trans (x ∷ xs) [] (z ∷ zs) h g = cc
lex_trans [] (y ∷ ys) (z ∷ zs) h g = refl
lex_trans (x ∷ xs) (y ∷ ys) (z ∷ zs) h g = ground (arith, lex_trans xs ys zs)

-- Where the second list is less, the first is not less than it.
pub lex_asym : (xs ys : List ℕ) → lex_lt xs ys ≡ true → lex_lt ys xs ≡ false
lex_asym [] [] h = cc
lex_asym [] (y ∷ ys) h = refl
lex_asym (x ∷ xs) [] h = cc
lex_asym (x ∷ xs) (y ∷ ys) h = ground (arith, lex_asym xs ys)

pub lex_antisym : (xs ys : List ℕ) → lex_lt xs ys ≡ false → lex_lt ys xs ≡ false → xs ≡ ys
lex_antisym [] [] h g = refl
lex_antisym [] (y ∷ ys) h g = cc
lex_antisym (x ∷ xs) [] h g = cc
lex_antisym (x ∷ xs) (y ∷ ys) h g = ground (arith, lex_antisym xs ys)

-- The other form of transitivity.
pub lex_lt_trans :
    (xs ys zs : List ℕ) → lex_lt xs ys ≡ true → lex_lt ys zs ≡ true → lex_lt xs zs ≡ true
lex_lt_trans [] [] zs h g = cc
lex_lt_trans [] (y ∷ ys) [] h g = cc
lex_lt_trans [] (y ∷ ys) (z ∷ zs) h g = refl
lex_lt_trans (x ∷ xs) [] zs h g = cc
lex_lt_trans (x ∷ xs) (y ∷ ys) [] h g = cc
lex_lt_trans (x ∷ xs) (y ∷ ys) (z ∷ zs) h g = ground (arith, lex_lt_trans xs ys zs)
