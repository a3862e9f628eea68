-- ===== src/Prelude/Sort.antt =====
-- A stable sort by a strict order, `sort_by` with `then_with`, and what it keeps.
use mathlib.Core.Path.{◌≡◌, refl}
use mathlib.Core.Logic.{◌↔◌, inl, inr}
use mathlib.Core.Bool.{Bool, true, false}
use mathlib.Core.List.{List, [], ◌∷◌, ◌++◌}
use native.Mathlib.Omega.{arith}
use solana_whale_intelligenc.Prelude.Tests.{if◌then◌else◌, if-keeps}
use solana_whale_intelligenc.Prelude.Lists.{All, In, filter}

-- `p` decides first, and `q` where `p` is equal.
unfoldable pub then_by {ℓ} : {A : Type ℓ} → (A → A → Bool) → (A → A → Bool) → A → A → Bool
then_by p q a b = if p a b then true else if p b a then false else q a b

-- Irreflexive on pairs, and "not before" is transitive.
pub record IsWeakOrder {ℓ} {A : Type ℓ} (lt : A → A → Bool) : Type ℓ where
  pub asym : (a b : A) → lt a b ≡ true → lt b a ≡ false
  pub trans : (a b c : A) → lt b a ≡ false → lt c b ≡ false → lt c a ≡ false

-- A relation between each item and the later ones.
abbrev pub Apart {ℓ κ} : {A : Type ℓ} → (A → A → Type κ) → List A → Type κ
Apart R [] = Unit
Apart R (x ∷ xs) = All (λ y. R x y) xs × Apart R xs

module _ {ℓ} {A : Type ℓ} where
  pub All-snoc {κ} : (P : A → Type κ) (xs : List A) (x : A) → All P xs → P x → All P (xs ++ x ∷ [])
  All-snoc P [] x h k = (k, tt)
  All-snoc P (y ∷ ys) x h k = (h.0, All-snoc P ys x h.1 k)

  -- One more item behind items that all stand in the relation to it.
  pub Apart-snoc {κ} :
      (R : A → A → Type κ) (xs : List A) (x : A)
      → Apart R xs
      → All (λ y. R y x) xs
      → Apart R (xs ++ x ∷ [])
  Apart-snoc R [] x h k = (tt, tt)
  Apart-snoc R (y ∷ ys) x h k = (All-snoc (R y) ys x h.0 k.0, Apart-snoc R ys x h.1 k.1)

module _ {ℓ} {A : Type ℓ} (lt : A → A → Bool) where
  -- Before the items that are not less: of equal items the earlier stays first.
  unfoldable pub insert_by : A → List A → List A
  insert_by x [] = x ∷ []
  insert_by x (y ∷ ys) = let rest = insert_by x ys in if lt y x then y ∷ rest else x ∷ y ∷ ys

  unfoldable pub sort_by : List A → List A
  sort_by [] = []
  sort_by (x ∷ xs) = insert_by x (sort_by xs)

  unfoldable pub Sorted : List A → Type ℓ
  Sorted [] = Unit
  Sorted (x ∷ xs) = All (λ y. lt y x ≡ false) xs × Sorted xs

  insert_by-All {κ} :
      (P : A → Type κ) (x : A) (xs : List A) → P x → All P xs → All P (insert_by x xs)
  unfolding insert_by
  insert_by-All P x [] h k = (h, tt)
  insert_by-All P x (y ∷ ys) h k =
      if-keeps (All P) (lt y x) (λ _. (k.0, insert_by-All P x ys h k.1)) (λ _. (h, k))

  pub sort_by-All {κ} : (P : A → Type κ) (xs : List A) → All P xs → All P (sort_by xs)
  unfolding sort_by
  sort_by-All P [] h = tt
  sort_by-All P (x ∷ xs) h = insert_by-All P x (sort_by xs) h.0 (sort_by-All P xs h.1)

  insert_by-Apart {κ} :
      (R : A → A → Type κ)
      → ((x y : A) → R x y → R y x)
      → (x : A) (xs : List A) → All (λ y. R x y) xs
      → Apart R xs
      → Apart R (insert_by x xs)
  unfolding insert_by
  insert_by-Apart R flip x [] h k = (tt, tt)
  insert_by-Apart R flip x (y ∷ ys) h k =
      if-keeps (Apart R) (lt y x)
        (λ _.
          (insert_by-All (λ z. R y z) x ys (flip x y h.0) k.0, insert_by-Apart R flip x ys h.1 k.1))
        (λ _. (h, k))

  -- What holds between any two items of a list, in either order, holds in the sorted list.
  pub sort_by-Apart {κ} :
      (R : A → A → Type κ)
      → ((x y : A) → R x y → R y x)
      → (xs : List A) → Apart R xs
      → Apart R (sort_by xs)
  unfolding sort_by
  sort_by-Apart R flip [] h = tt
  sort_by-Apart R flip (x ∷ xs) h =
      insert_by-Apart R flip x (sort_by xs) (sort_by-All (λ y. R x y) xs h.0)
        (sort_by-Apart R flip xs h.1)

  module _ (o : IsWeakOrder lt) where
    not_before :
        (x y : A) (ys : List A)
        → lt y x ≡ false
        → All (λ z. lt z y ≡ false) ys
        → All (λ z. lt z x ≡ false) ys
    not_before x y [] h k = tt
    not_before x y (z ∷ zs) h k = (o.trans x y z h k.0, not_before x y zs h k.1)

    insert_by-Sorted : (x : A) (xs : List A) → Sorted xs → Sorted (insert_by x xs)
    unfolding insert_by Sorted
    insert_by-Sorted x [] k = (tt, tt)
    insert_by-Sorted x (y ∷ ys) k =
        if-keeps Sorted (lt y x)
          (λ e. (
            insert_by-All (λ z. lt z y ≡ false) x ys (o.asym y x e) k.0,
            insert_by-Sorted x ys k.1,
          ))
          (λ e. ((e, not_before x y ys e k.0), k))

    pub sort_by-Sorted : (xs : List A) → Sorted (sort_by xs)
    unfolding sort_by Sorted
    sort_by-Sorted [] = tt
    sort_by-Sorted (x ∷ xs) = insert_by-Sorted x (sort_by xs) (sort_by-Sorted xs)

pub then_by-IsWeakOrder {ℓ} :
    {A : Type ℓ} (p q : A → A → Bool) → IsWeakOrder p → IsWeakOrder q → IsWeakOrder (then_by p q)
unfolding then_by
then_by-IsWeakOrder p q P Q = record {
  asym = λ a b h. ground (arith, P.asym a b, P.asym b a, Q.asym a b);
  trans = λ a b c h k. ground (
    arith,
    P.asym a c,
    P.asym c a,
    P.asym a b,
    P.asym b a,
    P.asym b c,
    P.asym c b,
    P.trans a b c,
    P.trans c a b,
    P.trans b c a,
    P.trans c b a,
    P.trans b a c,
    P.trans a c b,
    Q.trans a b c,
  );
}

module _ {A : Type 0} (lt : A → A → Bool) where
  insert_by-In : (x z : A) (xs : List A) → In z (insert_by lt x xs) ↔ In z (x ∷ xs)
  unfolding insert_by
  insert_by-In x z [] = (λ i. i, λ i. i)
  insert_by-In x z (y ∷ ys) =
      if-keeps (λ l. In z l ↔ In z (x ∷ y ∷ ys)) (lt y x)
        (λ _.
          let (f, g) = insert_by-In x z ys in
          (
            elim [
              | inl e ↦ inr (inl e)
              | inr i ↦ elim (f i) [ inl e ↦ inl e | inr j ↦ inr (inr j) ]
            ],
            elim [ inl e ↦ inr (g (inl e)) | inr (inl e) ↦ inl e | inr (inr i) ↦ inr (g (inr i)) ],
          ))
        (λ _. (λ i. i, λ i. i))

  -- The sorted list has the same items.
  pub sort_by-In : (z : A) (xs : List A) → In z (sort_by lt xs) ↔ In z xs
  unfolding sort_by
  sort_by-In z [] = (λ i. i, λ i. i)
  sort_by-In z (x ∷ xs) =
      let (f, g) = insert_by-In x z (sort_by lt xs) in
      let (h, k) = sort_by-In z xs in
      (
        λ i. elim (f i) [ inl e ↦ inl e | inr j ↦ inr (h j) ],
        elim [ inl e ↦ g (inl e) | inr i ↦ g (inr (k i)) ],
      )

  module _ (p : A → Bool) (equal : (a b : A) → p a ≡ true → p b ≡ true → lt a b ≡ false) where
    insert_by-stable : (x : A) (xs : List A) → filter p (insert_by lt x xs) ≡ filter p (x ∷ xs)
    unfolding insert_by
    insert_by-stable x [] = refl
    insert_by-stable x (y ∷ ys) = ground (arith, insert_by-stable x ys, equal y x)

    -- Among items that the order does not tell apart the sort keeps the order of the list.
    pub sort_by-stable : (xs : List A) → filter p (sort_by lt xs) ≡ filter p xs
    unfolding sort_by
    sort_by-stable [] = refl
    sort_by-stable (x ∷ xs) = ground (arith, insert_by-stable x (sort_by lt xs), sort_by-stable xs)
