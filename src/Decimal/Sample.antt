-- ===== src/Decimal/Sample.antt =====
-- One concrete `Decimal`, by which the examples run: thousandths; a text is a whole number.
use solana_whale_intelligenc.Prelude.{
  ℕ, suc, ◌+◌, ◌-◌, ◌*◌, ◌/◌, ◌^◌, ◌≡◌, ◌↔◌, ◌∙◌, ap, Bool, true, false, ◌&&◌, Option, none, some,
  List, [], ◌∷◌, arith, leb, ltb, codes, show_ℤ, if◌then◌else◌,
}
use mathlib.Core.Path.{ap₂}
use native.Mathlib.Nat.{mul-div_cancel}
use solana_whale_intelligenc.Prelude.Int.{
  ℤ, pos, negsuc, pos_part, neg_part, difference, leb_ℤ, ltb_ℤ, ◌+ℤ◌, ◌-ℤ◌, ext, -ℤ_parts, +ℤ_comm,
  +ℤ_assoc, zero-+ℤ, -ℤ_cancel,
}
use solana_whale_intelligenc.Decimal.{Decimal, IsExact}

abbrev mul : ℤ → ℤ → ℤ
mul a b =
    difference ((pos_part a * pos_part b + neg_part a * neg_part b) / 1000)
      ((pos_part a * neg_part b + neg_part a * pos_part b) / 1000)

-- Towards zero.
abbrev div : ℤ → ℤ → ℤ
div (pos m) (pos n) = pos (1000 * m / n)
div (pos m) (negsuc n) = difference 0 (1000 * m / suc n)
div (negsuc m) (pos n) = difference 0 (1000 * suc m / n)
div (negsuc m) (negsuc n) = pos (1000 * suc m / suc n)

abbrev least : ℤ → ℤ → ℤ
least a b = if ltb_ℤ b a then b else a

abbrev eq : ℤ → ℤ → Bool
eq a b = leb_ℤ a b && leb_ℤ b a

abbrev digits : ℕ → List ℕ → Option ℤ
digits n [] = some (pos (1000 * n))
digits n (c ∷ cs) =
    let rest = digits (10 * n + (c - 48)) cs in if leb 48 c && leb c 57 then rest else none

abbrev parse : List ℕ → Option ℤ
parse [] = none
parse (c ∷ cs) = digits 0 (c ∷ cs)

abbrev to_u32 : ℤ → Option ℕ
to_u32 (pos n) = if ltb (n / 1000) (2 ^ 32) then some (n / 1000) else none
to_u32 (negsuc n) = if ltb n 999 then some 0 else none

abbrev pub sample : Decimal
sample = record {
  D = ℤ;
  zero = pos 0;
  add = ◌+ℤ◌;
  sub = ◌-ℤ◌;
  mul = mul;
  div = div;
  least = least;
  eq = eq;
  lt = ltb_ℤ;
  parse = λ s. parse (codes s);
  text = show_ℤ;
  from_int = λ i. difference (1000 * pos_part i) (1000 * neg_part i);
  literal = λ n places. pos (1000 * n / 10 ^ places);
  abs = λ i. pos (pos_part i + neg_part i);
  to_u32 = to_u32;
}

eq_lem : (a b : ℤ) → (eq a b ≡ true) ↔ (a ≡ b)
eq_lem a b = ground (arith, ext a b)

thousand : (n k : ℕ) → (n * 1000 + k * 0) / 1000 ≡ n
thousand n k = omega arith

nothing : (n k : ℕ) → (n * 0 + k * 1000) / 1000 ≡ k
nothing n k = omega arith

difference_parts : (a : ℤ) → difference (pos_part a) (neg_part a) ≡ a
difference_parts (pos n) = ground (arith, ext (difference n 0) (pos n))
difference_parts (negsuc n) = ground (arith, ext (difference 0 (suc n)) (negsuc n))

mul-one : (a : ℤ) → mul a (pos 1000) ≡ a
mul-one a =
    ap₂ difference (thousand (pos_part a) (neg_part a)) (nothing (pos_part a) (neg_part a))
    ∙ difference_parts a

mul-div_self : (a b : ℤ) → eq b (pos 0) ≡ false → mul a (div b b) ≡ a
mul-div_self a (pos n) h =
    ap (λ k. mul a (pos k)) (mul-div_cancel 1000 {n = n} (ground arith)) ∙ mul-one a
mul-div_self a (negsuc n) h =
    ap (λ k. mul a (pos k)) (mul-div_cancel 1000 {n = suc n} (omega arith)) ∙ mul-one a

lt-sub : (a b : ℤ) → ltb_ℤ (a -ℤ b) (pos 0) ≡ ltb_ℤ a b
lt-sub a b = ground (arith, -ℤ_parts a b)

pub sample-IsExact : IsExact sample
sample-IsExact = record {
  eq_iff = eq_lem;
  add_comm = +ℤ_comm;
  add_assoc = +ℤ_assoc;
  zero-add = zero-+ℤ;
  sub_cancel = -ℤ_cancel;
  mul-div_self = mul-div_self;
  lt_irrefl = λ a. ground arith;
  lt-sub = lt-sub;
  least_cases = λ a b. ground arith;
}
