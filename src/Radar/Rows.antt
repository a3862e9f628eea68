-- ===== src/Radar/Rows.antt =====
-- The rows of the cases under the unique constraints of their table.
use solana_whale_intelligenc.Prelude.{
  ◌≡◌, refl, sym, ap, ◌∙◌, inl, inr, subst, Bool, true, false, ◌||◌, some, List, [], ◌∷◌, ◌++◌, map,
  String, any, In, In-snoc, In→any, if◌then◌else◌, if-keeps, ◌==◌, arith,
}
use mathlib.Core.Bool.{true≢false}
use mathlib.Core.Option.{some-injective, none-ne-some}
use text.Mathlib.TextEquality.{eq_iff}
use solana_whale_intelligenc.Models.{ChainKind, chain_str}
use solana_whale_intelligenc.Radar.{FundingRadarCase}
use solana_whale_intelligenc.Radar.Funding.{is_case_of, find_case}

module _ {D : Type 0} where
  -- One row, by the primary key and the unique index.
  abbrev pub is_same_row : FundingRadarCase D → FundingRadarCase D → Bool
  is_same_row c d = (c.id == d.id) || is_case_of d.chain d.recipient c

  -- The rows of a table that keeps its constraints.
  abbrev pub IsKeyed : List (FundingRadarCase D) → Type 0
  IsKeyed cases =
      (c d : FundingRadarCase D) → In c cases → In d cases → is_same_row c d ≡ true → c ≡ d

  -- What an update of a row leaves as it is.
  pub record Same (c d : FundingRadarCase D) : Type 0 where
    pub id : d.id ≡ c.id
    pub chain : d.chain ≡ c.chain
    pub recipient : d.recipient ≡ c.recipient

  pub Same-refl : (c : FundingRadarCase D) → Same c c
  Same-refl c = record { id = refl; chain = refl; recipient = refl }

  is_case_of-sym :
      (c d : FundingRadarCase D)
      → is_case_of d.chain d.recipient c ≡ true
      → is_case_of c.chain c.recipient d ≡ true
  unfolding is_case_of
  is_case_of-sym c d h = ground (
    arith,
    eq_iff (chain_str c.chain) (chain_str d.chain),
    eq_iff c.recipient d.recipient,
    eq_iff (chain_str d.chain) (chain_str c.chain),
    eq_iff d.recipient c.recipient,
  )

  is_same_row-sym : (c d : FundingRadarCase D) → is_same_row c d ≡ true → is_same_row d c ≡ true
  is_same_row-sym c d h = ground (arith, is_case_of-sym c d)

  pub find_case-In :
      (p : FundingRadarCase D → Bool) (cases : List (FundingRadarCase D)) {c : FundingRadarCase D}
      → find_case p cases ≡ some c
      → In c cases × (p c ≡ true)
  unfolding find_case
  find_case-In p [] h = absurd (none-ne-some _ h)
  find_case-In p (d ∷ cases) {c} h =
      if-keeps (λ o. o ≡ some c → In c (d ∷ cases) × (p c ≡ true)) (p d)
        (λ t h. let e = some-injective _ _ h in (inl (sym e), subst (λ x. p x ≡ true) e t))
        (λ _ h. let (i, t) = find_case-In p cases h in (inr i, t)) h

  pub In-find_case :
      (p : FundingRadarCase D → Bool) (cases : List (FundingRadarCase D)) {c : FundingRadarCase D}
      → In c cases
      → p c ≡ true
      → (d : FundingRadarCase D) × (find_case p cases ≡ some d)
  unfolding find_case
  In-find_case p [] i h = absurd i
  In-find_case p (d ∷ cases) {c} i h =
      if-keeps (λ o. (x : FundingRadarCase D) × (o ≡ some x)) (p d) (λ _. (d, refl))
        (λ n. elim i [
          | inl e ↦ absurd (true≢false (sym h ∙ ap p e ∙ n))
          | inr j ↦ In-find_case p cases j h
        ])

  -- The row after `put_case`.
  abbrev pub replaced : FundingRadarCase D → FundingRadarCase D → FundingRadarCase D
  replaced c d = if d.id == c.id then c else d

  In-replaced :
      (c : FundingRadarCase D) (cases : List (FundingRadarCase D)) {x : FundingRadarCase D}
      → In x (map (replaced c) cases)
      → (y : FundingRadarCase D) × In y cases × (x ≡ replaced c y)
  In-replaced c [] i = absurd i
  In-replaced c (d ∷ cases) (inl e) = (d, inl refl, e)
  In-replaced c (d ∷ cases) (inr i) = let (y, j, e) = In-replaced c cases i in (y, inr j, e)

  In→replaced :
      (c : FundingRadarCase D) (cases : List (FundingRadarCase D)) (y : FundingRadarCase D)
      → In y cases
      → In (replaced c y) (map (replaced c) cases)
  In→replaced c [] y i = absurd i
  In→replaced c (d ∷ cases) y (inl e) = inl (ap (replaced c) e)
  In→replaced c (d ∷ cases) y (inr i) = inr (In→replaced c cases y i)

  is_same_row-Same :
      (x y a b : FundingRadarCase D) → Same x a → Same y b → is_same_row a b ≡ is_same_row x y
  unfolding is_case_of
  is_same_row-Same x y a b s t = rw (s.id, t.id, s.chain, t.chain, s.recipient, t.recipient) refl

  module _ (cases : List (FundingRadarCase D)) (k : IsKeyed cases) (c d : FundingRadarCase D)
      (i : In c cases) (s : Same c d) where
    same_row : (x : FundingRadarCase D) → In x cases → (x.id == d.id) ≡ true → x ≡ c
    same_row x j h = k x c j i (rw (sym s.id, h) refl)

    replaced-Same : (x : FundingRadarCase D) → In x cases → Same x (replaced d x)
    replaced-Same x j =
        if-keeps (Same x) (x.id == d.id) (λ h. subst (λ y. Same y d) (sym (same_row x j h)) s)
          (λ _. Same-refl x)

    -- An update of a row keeps the constraints.
    pub put-IsKeyed : IsKeyed (map (replaced d) cases)
    put-IsKeyed a b p q h =
        let (x, u, e) = In-replaced d cases p in
        let (y, v, f) = In-replaced d cases q in
        let r : is_same_row (replaced d x) (replaced d y) ≡ true =
          subst (λ z. is_same_row z (replaced d y) ≡ true) e
            (subst (λ z. is_same_row a z ≡ true) f h) in
        let g = k x y u v (
          sym (
            is_same_row-Same x y (replaced d x) (replaced d y) (replaced-Same x u)
              (replaced-Same y v))
          ∙ r) in
        e ∙ ap (replaced d) g ∙ sym f

    -- A row that the update does not change stays.
    pub put-keeps :
        (x : FundingRadarCase D) → In x cases → (x ≡ c → d ≡ x) → In x (map (replaced d) cases)
    put-keeps x j u =
        subst (λ y. In y (map (replaced d) cases))
          (if-keeps (λ y. y ≡ x) (x.id == d.id) (λ h. u (same_row x j h)) (λ _. refl))
          (In→replaced d cases x j)

  -- An insertion that violates no constraint keeps them.
  pub snoc-IsKeyed :
      (cases : List (FundingRadarCase D)) (c : FundingRadarCase D)
      → IsKeyed cases
      → any cases (λ d. is_same_row d c) ≡ false
      → IsKeyed (cases ++ c ∷ [])
  snoc-IsKeyed cases c k n a b p q h = elim ((In-snoc cases a c).0 p) [
    | inl i ↦ elim ((In-snoc cases b c).0 q) [
      | inl j ↦ k a b i j h
      | inr f ↦ absurd (new a i (subst (λ z. is_same_row a z ≡ true) f h))
    ]
    | inr e ↦ elim ((In-snoc cases b c).0 q) [
      | inl j ↦ absurd (new b j (is_same_row-sym c b (subst (λ z. is_same_row z b ≡ true) e h)))
      | inr f ↦ e ∙ sym f
    ]
  ]
    where
      new : (x : FundingRadarCase D) → In x cases → is_same_row x c ≡ true → ⊥
      new x i t = true≢false (sym (In→any (λ d. is_same_row d c) cases i t) ∙ n)

  -- Two rows of one recipient are one row.
  pub one_recipient :
      (chain : ChainKind) (recipient : String) (c d : FundingRadarCase D)
      → is_case_of chain recipient c ≡ true
      → is_case_of chain recipient d ≡ true
      → is_same_row c d ≡ true
  unfolding is_case_of
  one_recipient chain recipient c d h g = ground (
    arith,
    eq_iff (chain_str c.chain) (chain_str chain),
    eq_iff (chain_str d.chain) (chain_str chain),
    eq_iff (chain_str c.chain) (chain_str d.chain),
    eq_iff c.recipient recipient,
    eq_iff d.recipient recipient,
    eq_iff c.recipient d.recipient,
  )
