-- ===== src/Prelude/Lists.antt =====
-- Lists measured by native numbers, Boolean searches through them, and predicates by recursion.
use Prim.Native.Nat.{ℕ, zero, suc, ◌+◌, ◌≤◌, ◌<◌}
use mathlib.Core.Option.{Option, none, some}
use mathlib.Core.Path.{◌≡◌, refl, sym, ap, ◌∙◌, subst}
use mathlib.Core.Logic.{◌⊎◌, ◌↔◌, inl, inr}
use mathlib.Core.Bool.{Bool, true, false, false≢true, not, ◌&&◌, ◌||◌}
use mathlib.Core.List.{List, [], ◌∷◌, ◌++◌}
use native.Mathlib.Omega.{arith}
use solana_whale_intelligenc.Prelude.Tests.{if◌then◌else◌, if-keeps, Bool-cases, and→both, both→and}

module _ {ℓ} {A : Type ℓ} where
  abbrev pub length : List A → ℕ
  length [] = 0
  length (x ∷ xs) = suc (length xs)

  -- `iter().any(p)` and `iter().all(p)`.
  abbrev pub any : List A → (A → Bool) → Bool
  any [] p = false
  any (x ∷ xs) p = p x || any xs p

  abbrev pub all : List A → (A → Bool) → Bool
  all [] p = true
  all (x ∷ xs) p = p x && all xs p

  -- `iter().filter(p)`, by a Boolean test.
  abbrev pub filter : (A → Bool) → List A → List A
  filter p [] = []
  filter p (x ∷ xs) = let rest = filter p xs in if p x then x ∷ rest else rest

  abbrev pub is_empty : List A → Bool
  is_empty [] = true
  is_empty (x ∷ xs) = false

  -- A `for` loop: the state passed from item to item.
  abbrev pub each {κ} : {S : Type κ} → (S → A → S) → S → List A → S
  each f s [] = s
  each f s (x ∷ xs) = each f (f s x) xs

  abbrev pub All {κ} : (A → Type κ) → List A → Type κ
  All P [] = Unit
  All P (x ∷ xs) = P x × All P xs

-- Membership with the place kept, for the program's own (small) types.
abbrev pub In : {A : Type 0} → A → List A → Type 0
In x [] = ⊥
In x (y ∷ ys) = (x ≡ y) ⊎ In x ys

module _ {ℓ} {A : Type ℓ} where
  pub all→All : (xs : List A) (p : A → Bool) → all xs p ≡ true → All (λ x. p x ≡ true) xs
  all→All [] p h = tt
  all→All (x ∷ xs) p h = let (a, b) = and→both (p x) (all xs p) h in (a, all→All xs p b)

  pub All→all : (xs : List A) (p : A → Bool) → All (λ x. p x ≡ true) xs → all xs p ≡ true
  All→all [] p h = refl
  All→all (x ∷ xs) p h = both→and h.0 (All→all xs p h.1)

  pub All-append {κ} : (P : A → Type κ) (xs ys : List A) → All P xs → All P ys → All P (xs ++ ys)
  All-append P [] ys h k = k
  All-append P (x ∷ xs) ys h k = (h.0, All-append P xs ys h.1 k)

  pub length-append : (xs ys : List A) → length (xs ++ ys) ≡ length xs + length ys
  length-append [] ys = omega arith
  length-append (x ∷ xs) ys = omega (arith, length-append xs ys)

  pub length-filter-le : (p : A → Bool) (xs : List A) → length (filter p xs) ≤ length xs
  length-filter-le p [] = omega arith
  length-filter-le p (x ∷ xs) = ground (arith, length-filter-le p xs)

module _ {A : Type 0} where
  pub All-in {κ} : (P : A → Type κ) (xs : List A) {x : A} → In x xs → All P xs → P x
  All-in P [] i h = absurd i
  All-in P (y ∷ ys) (inl e) h = subst P (sym e) h.0
  All-in P (y ∷ ys) (inr i) h = All-in P ys i h.1

  pub All-of-In {κ} : (P : A → Type κ) (xs : List A) → ((x : A) → In x xs → P x) → All P xs
  All-of-In P [] h = tt
  All-of-In P (y ∷ ys) h = (h y (inl refl), All-of-In P ys (λ x i. h x (inr i)))

module _ {ℓ} {A : Type ℓ} where
  pub any-append : (xs ys : List A) (p : A → Bool) → any (xs ++ ys) p ≡ (any xs p || any ys p)
  any-append [] ys p = refl
  any-append (x ∷ xs) ys p = ground (arith, any-append xs ys p)

  pub any-filter : (xs : List A) (p q : A → Bool) → any (filter p xs) q ≡ any xs (λ x. p x && q x)
  any-filter [] p q = refl
  any-filter (x ∷ xs) p q = ground (arith, any-filter xs p q)

  pub is_empty-filter : (xs : List A) (p : A → Bool) → is_empty (filter p xs) ≡ not (any xs p)
  is_empty-filter [] p = refl
  is_empty-filter (x ∷ xs) p = ground (arith, is_empty-filter xs p)

  pub any-false→All : (xs : List A) (p : A → Bool) → any xs p ≡ false → All (λ x. p x ≡ false) xs
  any-false→All [] p h = tt
  any-false→All (x ∷ xs) p h = ground (arith, any-false→All xs p)

  pub All→any-false : (xs : List A) (p : A → Bool) → All (λ x. p x ≡ false) xs → any xs p ≡ false
  All→any-false [] p h = refl
  All→any-false (x ∷ xs) p h = ground (arith, All→any-false xs p h.1)

or_true : (a : Bool) {b : Bool} → b ≡ true → (a || b) ≡ true
or_true true h = refl
or_true false h = h

module _ {A : Type 0} where
  pub In-filter : (p : A → Bool) (xs : List A) {x : A} → In x (filter p xs) → In x xs × (p x ≡ true)
  In-filter p [] i = absurd i
  In-filter p (y ∷ ys) {x} i = elim (Bool-cases (p y)) [
    | inr h ↦
        let (j, q) =
          In-filter p ys
            (subst (λ l. In x l) (ap (λ b. if b then y ∷ filter p ys else filter p ys) h) i) in
        (inr j, q)
    | inl h ↦
        elim (subst (λ l. In x l) (ap (λ b. if b then y ∷ filter p ys else filter p ys) h) i) [
          | inl e ↦ (inl e, ap p e ∙ h)
          | inr i ↦ let (j, q) = In-filter p ys i in (inr j, q)
        ]
  ]

  pub In→filter : (p : A → Bool) (xs : List A) {x : A} → In x xs → p x ≡ true → In x (filter p xs)
  In→filter p [] i h = absurd i
  In→filter p (y ∷ ys) {x} (inl e) h =
      if-keeps (In x) (p y) (λ _. inl e) (λ n. absurd (false≢true (sym n ∙ sym (ap p e) ∙ h)))
  In→filter p (y ∷ ys) {x} (inr i) h =
      if-keeps (In x) (p y) (λ _. inr (In→filter p ys i h)) (λ _. In→filter p ys i h)

  pub In-any : (p : A → Bool) (xs : List A) → any xs p ≡ true → (x : A) × In x xs × (p x ≡ true)
  In-any p [] h = absurd (false≢true h)
  In-any p (y ∷ ys) h = elim (Bool-cases (p y)) [
    | inl e ↦ (y, inl refl, e)
    | inr e ↦ let (x, i, q) = In-any p ys (sym (ap (λ b. b || any ys p) e) ∙ h) in (x, inr i, q)
  ]

  pub In→any : (p : A → Bool) (xs : List A) {x : A} → In x xs → p x ≡ true → any xs p ≡ true
  In→any p [] i h = absurd i
  In→any p (y ∷ ys) (inl e) h = ap (λ b. b || any ys p) (sym (ap p e) ∙ h)
  In→any p (y ∷ ys) (inr i) h = or_true (p y) (In→any p ys i h)

  -- A loop keeps what each of its rounds keeps.
  pub each-keeps {κ ι} :
      {S : Type κ} (P : S → Type ι) (f : S → A → S) (xs : List A)
      → ((s : S) (x : A) → In x xs → P s → P (f s x))
      → (s : S) → P s
      → P (each f s xs)
  each-keeps P f [] k s h = h
  each-keeps P f (x ∷ xs) k s h =
      each-keeps P f xs (λ s y i. k s y (inr i)) (f s x) (k s x (inl refl) h)

module _ {A : Type 0} where
  -- The items of a list with one more at its end.
  pub In-snoc : (xs : List A) (u t : A) → In u (xs ++ t ∷ []) ↔ (In u xs ⊎ (u ≡ t))
  In-snoc [] u t =
      (elim [ inl e ↦ inr e | inr i ↦ absurd i ], elim [ inl i ↦ absurd i | inr e ↦ inl e ])
  In-snoc (x ∷ xs) u t =
      let (f, g) = In-snoc xs u t in
      (
        elim [ inl e ↦ inl (inl e) | inr i ↦ elim (f i) [ inl j ↦ inl (inr j) | inr e ↦ inr e ] ],
        elim [ inl (inl e) ↦ inl e | inl (inr i) ↦ inr (g (inl i)) | inr e ↦ inr (g (inr e)) ],
      )

-- Indexing, and a change in place.
abbrev pub get_at {ℓ} : {A : Type ℓ} → ℕ → List A → Option A
get_at i [] = none
get_at zero (x ∷ xs) = some x
get_at (suc i) (x ∷ xs) = get_at i xs

abbrev pub set_at {ℓ} : {A : Type ℓ} → ℕ → A → List A → List A
set_at i y [] = []
set_at zero y (x ∷ xs) = y ∷ xs
set_at (suc i) y (x ∷ xs) = x ∷ set_at i y xs

module _ {ℓ} {A : Type ℓ} where
  pub length-set_at : (i : ℕ) (y : A) (xs : List A) → length (set_at i y xs) ≡ length xs
  length-set_at i y [] = refl
  length-set_at zero y (x ∷ xs) = refl
  length-set_at (suc i) y (x ∷ xs) = ap suc (length-set_at i y xs)

  pub get_at-bounded : (i : ℕ) (xs : List A) → i < length xs → (x : A) × (get_at i xs ≡ some x)
  get_at-bounded i [] h = absurd (omega arith)
  get_at-bounded zero (x ∷ xs) h = (x, refl)
  get_at-bounded (suc i) (x ∷ xs) h = get_at-bounded i xs (omega arith)

  pub get_at-set_same :
      (i : ℕ) (y : A) (xs : List A) → i < length xs → get_at i (set_at i y xs) ≡ some y
  get_at-set_same i y [] h = absurd (omega arith)
  get_at-set_same zero y (x ∷ xs) h = refl
  get_at-set_same (suc i) y (x ∷ xs) h = get_at-set_same i y xs (omega arith)

  pub get_at-set_other :
      (i j : ℕ) (y : A) (xs : List A) → (i ≡ j → ⊥) → get_at j (set_at i y xs) ≡ get_at j xs
  get_at-set_other i j y [] h = refl
  get_at-set_other zero zero y (x ∷ xs) h = absurd (h refl)
  get_at-set_other zero (suc j) y (x ∷ xs) h = refl
  get_at-set_other (suc i) zero y (x ∷ xs) h = refl
  get_at-set_other (suc i) (suc j) y (x ∷ xs) h = get_at-set_other i j y xs (λ e. h (ap suc e))
