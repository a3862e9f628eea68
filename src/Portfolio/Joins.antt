-- ===== src/Portfolio/Joins.antt =====
-- `union` and the groups of lines.
use solana_whale_intelligenc.Prelude.{
  ℕ, suc, ◌≤◌, ◌<◌, max, ◌≡◌, sym, ap, ◌∙◌, subst, inl, inr, false, none, some, List, get_at,
  set_at, length-set_at, get_at-set_same, get_at-set_other, if◌then◌else◌, if-keeps, ◌==◌, ==_iff,
  Bool-cases, arith,
}
use mathlib.Core.Option.{some-injective}
use solana_whale_intelligenc.Portfolio.{find, union}
use solana_whale_intelligenc.Portfolio.Forest.{Forest, climb, find-keeps}

-- Joining two groups: all that has the root of `b` gets the root of `a`.
unfoldable pub merge : (ℕ → ℕ) → ℕ → ℕ → ℕ → ℕ
merge cls a b x = if cls x == cls b then cls a else cls x

merge-same : (cls : ℕ → ℕ) (a b : ℕ) → cls a ≡ cls b → cls ≡ merge cls a b
unfolding merge
merge-same cls a b h = λ i x. same x i
  where
    same : (x : ℕ) → cls x ≡ (if cls x == cls b then cls a else cls x)
    same x = ground (arith)

-- The rank of a root that has got another root below it.
unfoldable lifted : (ℕ → ℕ) → ℕ → ℕ → ℕ → ℕ
lifted rank ra rb x = if x == ra then suc (max (rank ra) (rank rb)) else rank x

lifted-low :
    (k : ℕ) (rank : ℕ → ℕ) (ra rb x : ℕ)
    → rank ra ≤ k
    → rank rb ≤ k
    → rank x ≤ k
    → lifted rank ra rb x ≤ suc k
unfolding lifted
lifted-low k rank ra rb x h i j = ground (arith)

module _ {n k : ℕ} {rank cls : ℕ → ℕ} where
  joined :
      (parent : List ℕ) (f : Forest n k parent rank cls) (a b : ℕ)
      → cls a < n
      → cls b < n
      → get_at (cls a) parent ≡ some (cls a)
      → cls (cls a) ≡ cls a
      → cls (cls b) ≡ cls b
      → (cls a == cls b) ≡ false
      → Forest n
          (suc k)
          (set_at (cls b) (cls a) parent)
          (lifted rank (cls a) (cls b))
          (merge cls a b)
  unfolding merge lifted
  joined parent f a b la lb ga ia ib d = record {
    size = length-set_at (cls b) (cls a) parent ∙ f.size;
    low = λ x. lifted-low k rank (cls a) (cls b) x (f.low (cls a)) (f.low (cls b)) (f.low x);
    up = λ x y q. elim (Bool-cases (cls b == x)) [
      | inl e ↦
          let i = (==_iff (cls b) x).0 e in
          let s = some-injective _ _ (
            sym (get_at-set_same (cls b) (cls a) parent (subst (λ z. cls b < z) (sym f.size) lb))
            ∙ ap (λ z. get_at z (set_at (cls b) (cls a) parent)) i
            ∙ q) in
          inr (ground (arith), ground (arith), ground (arith))
      | inr e ↦
          let i =
            sym (get_at-set_other (cls b) x (cls a) parent (λ i. ground (arith, ==_iff (cls b) x)))
            ∙ q in
          elim (f.up x y i) [
            | inl (s, c) ↦ inl (s, ground (arith))
            | inr (r, l, c) ↦ let o = below_top x y i r in inr (ground (arith), l, ground (arith))
          ]
    ];
  }
    where
      below_top : (x y : ℕ) → get_at x parent ≡ some y → rank x < rank y → (x == cls a) ≡ false
      below_top x y q r = elim (Bool-cases (x == cls a)) [
        | inr e ↦ e
        | inl e ↦
            let s =
              some-injective _ _
                (sym q ∙ ap (λ z. get_at z parent) ((==_iff x (cls a)).0 e) ∙ ga) in
            absurd (ground (arith))
      ]

  -- `union` joins the two groups, and changes no other.
  pub union-merge :
      (m : ℕ) (parent : List ℕ) (f : Forest n k parent rank cls) (a b : ℕ)
      → k < m
      → a < n
      → b < n
      → (p : List ℕ) × (union m parent a b ≡ some p)
        × ((rank' : ℕ → ℕ) × Forest n (suc k) p rank' (merge cls a b))
  unfolding union
  union-merge m parent f a b h la lb =
      let (p, q, g) = find-keeps m parent f a h la in
      let (s, t, g) = find-keeps m p g b h lb in
      let (_, ca, ga, ia, _) = climb m s g a (omega arith) la in
      let (_, cb, gb, ib, _) = climb m s g b (omega arith) lb in
      (
        if cls a == cls b then s else set_at (cls b) (cls a) s,
        ap
              (λ o. elim o [
                | none ↦ none
                | some (ra, p) ↦ elim (find m p b) [
                  | none ↦ none
                  | some (rb, p) ↦ some (if ra == rb then p else set_at rb ra p)
                ]
              ])
              q
            ∙ ap
                (λ o. elim o [
                  | none ↦ none
                  | some (rb, p) ↦ some (if cls a == rb then p else set_at rb (cls a) p)
                ])
                t,
        if-keeps (λ p. (rank' : ℕ → ℕ) × Forest n (suc k) p rank' (merge cls a b)) (cls a == cls b)
            (λ e. (
              rank,
              subst (Forest n (suc k) s rank) (merge-same cls a b ((==_iff (cls a) (cls b)).0 e))
                  (record { size = g.size; low = λ x. omega (arith, g.low x); up = g.up }),
            ))
            (λ e. (lifted rank (cls a) (cls b), joined s g a b ca cb ga ia ib e)),
      )
