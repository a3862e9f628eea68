-- ===== src/Float.antt =====
-- `f64` as the code uses it. Its values and operations are a parameter: nothing is assumed of them
-- but what `IsOrdered` names, which IEEE 754 comparisons satisfy, NaN included.
pub mod Sample
use solana_whale_intelligenc.Prelude.{ℕ, ◌≡◌, Bool, true}

pub record F64 : Type 1 where
  pub F : Type 0
  -- `a <= b` and `a < b`; both are false where an operand is NaN.
  pub le : F → F → Bool
  pub lt : F → F → Bool
  -- A literal: whether it is negative, its digits, and how many of them stand behind the point.
  pub literal : Bool → ℕ → ℕ → F
  pub sub : F → F → F
  pub mul : F → F → F
  pub round : F → F
  -- `a.max(b)`
  pub maximum : F → F → F
  -- `f64::MAX`
  pub greatest : F
  -- `as u64`, which saturates
  pub to_u64 : F → ℕ

-- The comparisons chain.
pub record IsOrdered (fl : F64) : Type 0 where
  pub le_trans : (a b c : fl.F) → fl.le a b ≡ true → fl.le b c ≡ true → fl.le a c ≡ true
  pub le_lt_trans : (a b c : fl.F) → fl.le a b ≡ true → fl.lt b c ≡ true → fl.lt a c ≡ true
  pub lt_le_trans : (a b c : fl.F) → fl.lt a b ≡ true → fl.le b c ≡ true → fl.lt a c ≡ true
