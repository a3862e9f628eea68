-- ===== src/Recent/Sets.antt =====
-- The canonical list of a set of texts.
use solana_whale_intelligenc.Prelude.{
  ◌≡◌, refl, sym, subst, ◌↔◌, inl, inr, Bool, true, false, List, [], ◌∷◌, String, arith, All,
  All-in, All-of-In, In, str_eq, eq_iff, Bool-cases,
}
use solana_whale_intelligenc.Prelude.Lex.{
  lex_lt, lex_refl, lex_trans, lex_asym, lex_antisym, lex_lt_trans,
}
use solana_whale_intelligenc.Prelude.Utf8.{as_bytes, as_bytes_inj}
use solana_whale_intelligenc.Recent.{insert_sorted, sort_texts, push_new, dedup}

abbrev less : String → String → Bool
less s t = lex_lt (as_bytes s) (as_bytes t)

abbrev Ordered : List String → Type 0
Ordered [] = Unit
Ordered (x ∷ xs) = All (λ y. less y x ≡ false) xs × Ordered xs

abbrev pub Strict : List String → Type 0
Strict [] = Unit
Strict (x ∷ xs) = All (λ y. less x y ≡ true) xs × Strict xs

In-insert_sorted : (x y : String) (l : List String) → In x (insert_sorted y l) ↔ (In x (y ∷ l))
unfolding insert_sorted
In-insert_sorted x y [] = (λ h. h, λ h. h)
In-insert_sorted x y (z ∷ l) =
    let (f, g) = In-insert_sorted x y l in (λ h. ground (arith, f), λ h. ground (arith, g))

In-sort_texts : (x : String) (l : List String) → In x (sort_texts l) ↔ In x l
unfolding sort_texts
In-sort_texts x [] = (λ h. h, λ h. h)
In-sort_texts x (y ∷ l) =
    let (f, g) = In-sort_texts x l in
    let (u, v) = In-insert_sorted x y (sort_texts l) in
    (λ h. ground (arith, f, u), λ h. ground (arith, g, v))

In-push_new : (x y : String) (l : List String) → In x (push_new y l) ↔ In x (y ∷ l)
unfolding push_new
In-push_new x y [] = (λ h. h, λ h. h)
In-push_new x y (z ∷ l) = (λ h. ground (arith, eq_iff y z), λ h. ground (arith, eq_iff y z))

In-dedup : (x : String) (l : List String) → In x (dedup l) ↔ In x l
unfolding dedup
In-dedup x [] = (λ h. h, λ h. h)
In-dedup x (y ∷ l) =
    let (f, g) = In-dedup x l in
    let (u, v) = In-push_new x y (dedup l) in (λ h. ground (arith, f, u), λ h. ground (arith, g, v))

-- The members of the canonical list are those of the set.
pub In-canonical : (x : String) (l : List String) → In x (dedup (sort_texts l)) ↔ In x l
In-canonical x l =
    let (f, g) = In-dedup x (sort_texts l) in
    let (u, v) = In-sort_texts x l in (λ h. u (f h), λ h. g (v h))

All-not_less :
    (x y : String) (l : List String)
    → less y x ≡ false
    → All (λ z. less z y ≡ false) l
    → All (λ z. less z x ≡ false) l
All-not_less x y [] e h = tt
All-not_less x y (z ∷ l) e h =
    (lex_trans (as_bytes x) (as_bytes y) (as_bytes z) e h.0, All-not_less x y l e h.1)

All-insert_sorted :
    (P : String → Type 0) (y : String) (l : List String) → P y → All P l → All P (insert_sorted y l)
All-insert_sorted P y l p h =
    All-of-In P (insert_sorted y l) (λ x i. All-in P (y ∷ l) ((In-insert_sorted x y l).0 i) (p, h))

insert_sorted-Ordered : (y : String) (l : List String) → Ordered l → Ordered (insert_sorted y l)
unfolding insert_sorted
insert_sorted-Ordered y [] h = (tt, tt)
insert_sorted-Ordered y (z ∷ l) h = elim (Bool-cases (less z y)) [
  | inl e ↦ rw e (
    All-insert_sorted (λ x. less x z ≡ false) y l (lex_asym (as_bytes z) (as_bytes y) e) h.0,
    insert_sorted-Ordered y l h.1,
  )
  | inr e ↦ rw e ((e, All-not_less y z l e h.0), h)
]

sort_texts-Ordered : (l : List String) → Ordered (sort_texts l)
unfolding sort_texts
sort_texts-Ordered [] = tt
sort_texts-Ordered (x ∷ l) = insert_sorted-Ordered x (sort_texts l) (sort_texts-Ordered l)

All-less :
    (x y : String) (l : List String)
    → less x y ≡ true
    → All (λ z. less y z ≡ true) l
    → All (λ z. less x z ≡ true) l
All-less x y [] e h = tt
All-less x y (z ∷ l) e h =
    (lex_lt_trans (as_bytes x) (as_bytes y) (as_bytes z) e h.0, All-less x y l e h.1)

push_new-Strict :
    (x : String) (l : List String)
    → All (λ y. less y x ≡ false) l
    → Strict l
    → Strict (push_new x l)
unfolding push_new
push_new-Strict x [] a h = (tt, tt)
push_new-Strict x (y ∷ l) a h = elim (Bool-cases (str_eq x y)) [
  | inl e ↦ rw e h
  | inr e ↦ elim (Bool-cases (less x y)) [
    | inl k ↦ rw e ((k, All-less x y l k h.0), h)
    | inr k ↦
        let same = as_bytes_inj x y (lex_antisym (as_bytes x) (as_bytes y) k a.0) in
        absurd (ground (arith, eq_iff x y))
  ]
]

dedup-Strict : (l : List String) → Ordered l → Strict (dedup l)
unfolding dedup
dedup-Strict [] h = tt
dedup-Strict (x ∷ l) h =
    push_new-Strict x (dedup l)
      (All-of-In (λ y. less y x ≡ false) (dedup l)
        (λ y i. All-in (λ y. less y x ≡ false) l ((In-dedup y l).0 i) h.0))
      (dedup-Strict l h.1)

pub canonical-Strict : (l : List String) → Strict (dedup (sort_texts l))
canonical-Strict l = dedup-Strict (sort_texts l) (sort_texts-Ordered l)

not_less : (x : String) → less x x ≡ true → ⊥
not_less x h = cc (lex_refl (as_bytes x))

-- The head of a strict list is its least member.
least :
    (x y : String) (xs ys : List String)
    → Strict (x ∷ xs)
    → Strict (y ∷ ys)
    → In x (y ∷ ys)
    → In y (x ∷ xs)
    → x ≡ y
least x y xs ys p q (inl e) j = e
least x y xs ys p q i (inl e) = sym e
least x y xs ys p q (inr i) (inr j) =
    let a = All-in (λ z. less y z ≡ true) ys i q.0 in
    let b = All-in (λ z. less x z ≡ true) xs j p.0 in
    absurd (not_less x (lex_lt_trans (as_bytes x) (as_bytes y) (as_bytes x) b a))

-- What is left of a member behind the head.
behind : (x z : String) (xs ys : List String) → Strict (x ∷ xs) → In z xs → In z (x ∷ ys) → In z ys
behind x z xs ys p i (inr j) = j
behind x z xs ys p i (inl e) =
    absurd (not_less x (subst (λ t. less x t ≡ true) e (All-in (λ t. less x t ≡ true) xs i p.0)))

abbrev pub SameMembers : List String → List String → Type 0
SameMembers xs ys = (x : String) → In x xs ↔ In x ys

-- Two strict lists with the same members are one list.
pub Strict-unique : (xs ys : List String) → Strict xs → Strict ys → SameMembers xs ys → xs ≡ ys
Strict-unique [] [] p q h = refl
Strict-unique [] (y ∷ ys) p q h = absurd ((h y).1 (inl refl))
Strict-unique (x ∷ xs) [] p q h = absurd ((h x).0 (inl refl))
Strict-unique (x ∷ xs) (y ∷ ys) p q h =
    let e = least x y xs ys p q ((h x).0 (inl refl)) ((h y).1 (inl refl)) in
    let rest = Strict-unique xs ys p.1 q.1 (λ z. (
      λ i. behind x z xs ys p i (subst (λ t. In z (t ∷ ys)) (sym e) ((h z).0 (inr i))),
      λ j. behind y z ys xs q j (subst (λ t. In z (t ∷ xs)) e ((h z).1 (inr j))),
    )) in
    cc
