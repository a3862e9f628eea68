-- ===== src/Float/Sample.antt =====
-- One concrete `F64`, by which the examples run: thousandths, and a value that compares with nothing.
use solana_whale_intelligenc.Prelude.{
  ℕ, ◌+◌, ◌-◌, ◌*◌, ◌/◌, ◌^◌, ◌≡◌, Bool, true, false, Option, none, some, arith, min, if◌then◌else◌,
}
use solana_whale_intelligenc.Prelude.Int.{ℤ, pos, pos_part, neg_part, difference, leb_ℤ, ltb_ℤ}
use solana_whale_intelligenc.Float.{F64, IsOrdered}

abbrev le : Option ℤ → Option ℤ → Bool
le (some a) (some b) = leb_ℤ a b
le _ _ = false

abbrev lt : Option ℤ → Option ℤ → Bool
lt (some a) (some b) = ltb_ℤ a b
lt _ _ = false

abbrev literal : Bool → ℕ → ℕ → Option ℤ
literal true digits places = some (difference 0 (digits * 1000 / 10 ^ places))
literal false digits places = some (pos (digits * 1000 / 10 ^ places))

abbrev sub : Option ℤ → Option ℤ → Option ℤ
sub (some a) (some b) = some (difference (pos_part a + neg_part b) (neg_part a + pos_part b))
sub _ _ = none

abbrev mul : Option ℤ → Option ℤ → Option ℤ
mul (some a) (some b) = some (
    difference ((pos_part a * pos_part b + neg_part a * neg_part b) / 1000)
      ((pos_part a * neg_part b + neg_part a * pos_part b) / 1000))
mul _ _ = none

abbrev round : Option ℤ → Option ℤ
round none = none
round (some a) =
    some (difference ((pos_part a + 500) / 1000 * 1000) ((neg_part a + 500) / 1000 * 1000))

abbrev maximum : Option ℤ → Option ℤ → Option ℤ
maximum none b = b
maximum (some a) none = some a
maximum (some a) (some b) = if leb_ℤ a b then some b else some a

abbrev to_u64 : Option ℤ → ℕ
to_u64 none = 0
to_u64 (some a) = min (pos_part a / 1000) (2 ^ 64 - 1)

abbrev pub sample : F64
sample = record {
  F = Option ℤ;
  le = le;
  lt = lt;
  literal = literal;
  sub = sub;
  mul = mul;
  round = round;
  maximum = maximum;
  greatest = some (pos (2 ^ 80));
  to_u64 = to_u64;
}

pub sample-IsOrdered : IsOrdered sample
sample-IsOrdered = record { le_trans = trans; le_lt_trans = le_lt; lt_le_trans = lt_le }
  where
    trans : (a b c : Option ℤ) → le a b ≡ true → le b c ≡ true → le a c ≡ true
    trans a b c h g = ground arith

    le_lt : (a b c : Option ℤ) → le a b ≡ true → lt b c ≡ true → lt a c ≡ true
    le_lt a b c h g = ground arith

    lt_le : (a b c : Option ℤ) → lt a b ≡ true → le b c ≡ true → lt a c ≡ true
    lt_le a b c h g = ground arith
