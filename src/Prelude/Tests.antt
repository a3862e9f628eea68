-- ===== src/Prelude/Tests.antt =====
-- Boolean tests on the native numbers, the conditional, and case lemmas on computed values.
use Prim.Native.Nat.{ℕ, ◌≤◌, ◌<◌, compare, Ordering}
use mathlib.Core.Path.{◌≡◌, refl}
use mathlib.Core.Logic.{◌↔◌, ◌⊎◌, inl, inr}
use mathlib.Core.Bool.{Bool, true, false, false≢true, ◌&&◌}
use mathlib.Core.Option.{Option, none, some}
use native.Mathlib.Omega.{arith}

abbrev pub ltb : ℕ → ℕ → Bool
ltb a b = elim (compare a b) [ Ordering.lt ↦ true | _ ↦ false ]

abbrev pub leb : ℕ → ℕ → Bool
leb a b = elim (compare a b) [ Ordering.gt ↦ false | _ ↦ true ]

infix 50 ◌==◌
abbrev pub ◌==◌ : ℕ → ℕ → Bool
a == b = elim (compare a b) [ Ordering.eq ↦ true | _ ↦ false ]

infix 1 if◌then◌else◌
abbrev pub if◌then◌else◌ {ℓ} : {A : Type ℓ} → Bool → A → A → A
if true then x else y = x
if false then x else y = y

pub leb→le : (a b : ℕ) → leb a b ≡ true → a ≤ b
leb→le a b h = ground arith

pub le→leb : (a b : ℕ) → a ≤ b → leb a b ≡ true
le→leb a b h = ground arith

pub ltb→lt : (a b : ℕ) → ltb a b ≡ true → a < b
ltb→lt a b h = ground arith

pub lt→ltb : (a b : ℕ) → a < b → ltb a b ≡ true
lt→ltb a b h = ground arith

pub ==_iff : (a b : ℕ) → ((a == b) ≡ true) ↔ (a ≡ b)
==_iff a b = ground arith

pub ruleset tests = (arith, leb→le, le→leb, ltb→lt, lt→ltb)

-- To split on a computed value and keep the equation.
pub Bool-cases : (b : Bool) → (b ≡ true) ⊎ (b ≡ false)
Bool-cases true = inl refl
Bool-cases false = inr refl

pub Option-cases {ℓ} : {A : Type ℓ} (o : Option A) → (o ≡ none) ⊎ ((a : A) × (o ≡ some a))
Option-cases none = inl refl
Option-cases (some a) = inr (a, refl)

pub and→both : (a b : Bool) → (a && b) ≡ true → (a ≡ true) × (b ≡ true)
and→both a b h = ground arith

pub both→and : {a b : Bool} → a ≡ true → b ≡ true → (a && b) ≡ true
both→and p q = ground arith

-- What both branches have, the conditional has.
pub if-keeps {ℓ κ} :
    {A : Type ℓ} (Q : A → Type κ) (b : Bool) {x y : A}
    → (b ≡ true → Q x)
    → (b ≡ false → Q y)
    → Q (if b then x else y)
if-keeps Q true h k = h refl
if-keeps Q false h k = k refl

-- And what both cases of an option have.
pub option-keeps {ℓ κ ι} :
    {A : Type ℓ} {B : Type κ} (Q : B → Type ι) (o : Option A) {x : B} {f : A → B}
    → (o ≡ none → Q x)
    → ((a : A) → o ≡ some a → Q (f a))
    → Q (elim o [ none ↦ x | some a ↦ f a ])
option-keeps Q none h k = h refl
option-keeps Q (some a) h k = k a refl

-- A test that an absent value fails.
pub option-test {ℓ} :
    {A : Type ℓ} (o : Option A) (p : A → Bool)
    → elim o [ none ↦ false | some a ↦ p a ] ≡ true
    → (a : A) × (o ≡ some a) × (p a ≡ true)
option-test none p h = absurd (false≢true h)
option-test (some a) p h = (a, refl, h)

-- The same for a case on a test.
pub elim-keeps {ℓ κ} :
    {A : Type ℓ} (Q : A → Type κ) (b : Bool) {x y : A}
    → (b ≡ false → Q x)
    → (b ≡ true → Q y)
    → Q (elim b [ false ↦ x | true ↦ y ])
elim-keeps Q true h k = k refl
elim-keeps Q false h k = h refl
