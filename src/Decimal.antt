-- ===== src/Decimal.antt =====
-- `rust_decimal::Decimal` as the code uses it. Its values and operations are a parameter; `IsExact`
-- names what the crate documents of them within its 28 digits: additions and subtractions lose
-- nothing, `==` tells the numbers apart, and the order goes with the addition.
pub mod Sample
pub mod Laws
use solana_whale_intelligenc.Prelude.{
  ◌≡◌, ◌⊎◌, ◌↔◌, Bool, true, false, Option, none, some, List, [], ◌∷◌, String, ℕ,
}
use solana_whale_intelligenc.Prelude.Int.{ℤ}

pub record Decimal : Type 1 where
  pub D : Type 0
  -- `Decimal::ZERO`
  pub zero : D
  pub add : D → D → D
  pub sub : D → D → D
  pub mul : D → D → D
  pub div : D → D → D
  -- `a.min(b)`
  pub least : D → D → D
  pub eq : D → D → Bool
  pub lt : D → D → Bool
  -- `s.parse::<Decimal>().ok()`
  pub parse : String → Option D
  -- `d.to_string()`
  pub text : D → String
  -- `Decimal::from` of an integer
  pub from_int : ℤ → D
  -- `Decimal::from_str_exact(..).unwrap()` of a literal: its digits, and how many stand behind the point
  pub literal : ℕ → ℕ → D
  -- `d.abs()`
  pub abs : D → D
  -- `d.to_u32()`
  pub to_u32 : D → Option ℕ

pub record IsExact (dec : Decimal) : Type 0 where
  pub eq_iff : (a b : dec.D) → (dec.eq a b ≡ true) ↔ (a ≡ b)
  pub add_comm : (a b : dec.D) → dec.add a b ≡ dec.add b a
  pub add_assoc : (a b c : dec.D) → dec.add (dec.add a b) c ≡ dec.add a (dec.add b c)
  pub zero-add : (a : dec.D) → dec.add dec.zero a ≡ a
  pub sub_cancel : (a b : dec.D) → dec.add (dec.sub a b) b ≡ a
  pub lt_irrefl : (a : dec.D) → dec.lt a a ≡ false
  -- A number over itself is one.
  pub mul-div_self : (a b : dec.D) → dec.eq b dec.zero ≡ false → dec.mul a (dec.div b b) ≡ a
  -- `a - b` is negative when `a` is less than `b`, and at no other time.
  pub lt-sub : (a b : dec.D) → dec.lt (dec.sub a b) dec.zero ≡ dec.lt a b
  pub least_cases :
      (a b : dec.D)
      → ((dec.least a b ≡ a) × (dec.lt b a ≡ false)) ⊎ ((dec.least a b ≡ b) × (dec.lt a b ≡ false))

module _ (dec : Decimal) where
  open dec use {D, zero, add, parse}

  -- `parse_decimal` of cost_basis.rs, portfolio_runtime.rs and lp_runtime.rs
  unfoldable pub parse_decimal : String → D
  parse_decimal s = elim (parse s) [ none ↦ zero | some d ↦ d ]

  -- `iter().sum()`
  unfoldable pub sum : List D → D
  sum [] = zero
  sum (d ∷ ds) = add d (sum ds)
