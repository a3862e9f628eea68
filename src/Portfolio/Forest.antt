-- ===== src/Portfolio/Forest.antt =====
-- Union-find on the trees of `parent`, refined to a function that gives each line its root.
use solana_whale_intelligenc.Prelude.{
  ℕ, zero, suc, ◌+◌, ◌≤◌, ◌<◌, ◌≡◌, refl, sym, ap, ◌∙◌, subst, inl, inr, ◌⊎◌, false, none, some,
  List, length, get_at, set_at, length-set_at, get_at-bounded, get_at-set_same, get_at-set_other,
  if◌then◌else◌, ◌==◌, ==_iff, Bool-cases, arith,
}
use mathlib.Core.Option.{some-injective}
use solana_whale_intelligenc.Portfolio.{root, compress, find}

-- `cls` gives the root of each line, and every step towards it has a greater rank, up to `k`.
pub record Forest (n k : ℕ) (parent : List ℕ) (rank cls : ℕ → ℕ) : Type 0 where
  pub size : length parent ≡ n
  pub low : (x : ℕ) → rank x ≤ k
  pub up :
      (x y : ℕ)
      → get_at x parent ≡ some y
      → ((y ≡ x) × (cls x ≡ x)) ⊎ ((rank x < rank y) × (y < n) × (cls y ≡ cls x))

-- What is at the end of the way up.
abbrev AtRoot : ℕ → List ℕ → (ℕ → ℕ) → (ℕ → ℕ) → ℕ → ℕ → Type 0
AtRoot n parent rank cls m x =
    (root m parent x ≡ some (cls x))
    × (cls x < n)
    × (get_at (cls x) parent ≡ some (cls x))
    × (cls (cls x) ≡ cls x)
    × ((cls x ≡ x) ⊎ (rank x < rank (cls x)))

root-at :
    (m : ℕ) (parent : List ℕ) (x y : ℕ)
    → get_at x parent ≡ some y
    → root (suc m) parent x ≡ (if y == x then some x else root m parent y)
unfolding root
root-at m parent x y q =
    ap
      (λ o. elim o [
        | none ↦ none
        | some next ↦ let rest = root m parent next in if next == x then some x else rest
      ])
      q

root-stop :
    (m : ℕ) (parent : List ℕ) (x : ℕ) → get_at x parent ≡ some x → root (suc m) parent x ≡ some x
root-stop m parent x q =
    root-at m parent x x q ∙ ap (λ b. if b then some x else root m parent x) ((==_iff x x).1 refl)

root-go :
    (m : ℕ) (parent : List ℕ) (x y : ℕ)
    → get_at x parent ≡ some y
    → (y == x) ≡ false
    → root (suc m) parent x ≡ root m parent y
root-go m parent x y q h =
    root-at m parent x y q ∙ ap (λ b. if b then some x else root m parent y) h

-- A line that is not its root's stands below it.
below_root :
    (rank cls : ℕ → ℕ) (parent : List ℕ) (c y : ℕ)
    → get_at c parent ≡ some y
    → rank c < rank y
    → get_at (cls c) parent ≡ some (cls c)
    → (cls c ≡ c) ⊎ (rank c < rank (cls c))
    → rank c < rank (cls c)
below_root rank cls parent c y q r s (inr u) = u
below_root rank cls parent c y q r s (inl d) =
    let e = some-injective _ _ (sym q ∙ subst (λ z. get_at z parent ≡ some z) d s) in
    let l = ap rank e in absurd (omega arith)

apart : (rank : ℕ → ℕ) (c y : ℕ) → rank c < rank y → (y == c) ≡ false
apart rank c y h = ground (arith)

compress-at :
    (m r : ℕ) (parent : List ℕ) (c y : ℕ)
    → get_at c parent ≡ some y
    → compress (suc m) r parent c
      ≡ (if y == c then some parent else compress m r (set_at c r parent) y)
unfolding compress
compress-at m r parent c y q =
    ap
      (λ o. elim o [
        | none ↦ none
        | some next ↦
            let rest = compress m r (set_at c r parent) next in
            if next == c then some parent else rest
      ])
      q

module _ {n k : ℕ} {rank cls : ℕ → ℕ} where
  pub climb :
      (m : ℕ) (parent : List ℕ) (f : Forest n k parent rank cls) (x : ℕ)
      → k < rank x + m
      → x < n
      → AtRoot n parent rank cls m x
  climb zero parent f x h l = absurd (omega (arith, f.low x))
  climb (suc m) parent f x h l =
      let (y, q) = get_at-bounded x parent (omega (arith, f.size)) in
      elim (f.up x y q) [
        | inl (e, c) ↦ (
          root-stop m parent x (q ∙ ap some e) ∙ ap some (sym c),
          subst (λ z. z < n) (sym c) l,
          subst (λ z. get_at z parent ≡ some z) (sym c) (q ∙ ap some e),
          ap cls c,
          inl c,
        )
        | inr (r, b, c) ↦
            let (i, j, s, t, u) = climb m parent f y (omega arith) b in
            (
              root-go m parent x y q (ground arith) ∙ i ∙ ap some c,
              subst (λ z. z < n) c j,
              subst (λ z. get_at z parent ≡ some z) c s,
              subst (λ z. cls z ≡ z) c t,
              inr (
                  subst (λ z. rank x < rank z) c
                    (elim u [
                      | inl d ↦ subst (λ z. rank x < rank z) (sym d) r
                      | inr v ↦ omega arith
                    ])),
            )
      ]

  -- A line may point at its root.
  shortcut :
      (parent : List ℕ) (f : Forest n k parent rank cls) (c : ℕ)
      → c < n
      → cls c < n
      → cls (cls c) ≡ cls c
      → rank c < rank (cls c)
      → Forest n k (set_at c (cls c) parent) rank cls
  shortcut parent f c l b i r = record {
    size = length-set_at c (cls c) parent ∙ f.size;
    low = f.low;
    up = λ x y q. elim (Bool-cases (c == x)) [
      | inl e ↦
          let d = (==_iff c x).0 e in
          let s = some-injective _ _ (
            sym (get_at-set_same c (cls c) parent (subst (λ z. c < z) (sym f.size) l))
            ∙ ap (λ z. get_at z (set_at c (cls c) parent)) d
            ∙ q) in
          inr (
            subst (λ z. rank z < rank y) d (subst (λ z. rank c < rank z) s r),
            subst (λ z. z < n) s b,
            ap cls (sym s) ∙ i ∙ ap cls d,
          )
      | inr e ↦
          f.up x y (sym (get_at-set_other c x (cls c) parent (λ d. ground (arith, ==_iff c x))) ∙ q)
    ];
  }

  -- Path compression changes the trees, and no root.
  compress-keeps :
      (m : ℕ) (parent : List ℕ) (f : Forest n k parent rank cls) (r c : ℕ)
      → r ≡ cls c
      → k < rank c + m
      → c < n
      → (p : List ℕ) × (compress m r parent c ≡ some p) × Forest n k p rank cls
  compress-keeps zero parent f r c i h l = absurd (omega (arith, f.low c))
  compress-keeps (suc m) parent f r c i h l =
      let (y, q) = get_at-bounded c parent (omega (arith, f.size)) in
      elim (f.up c y q) [
        | inl (e, d) ↦ (
          parent,
          compress-at m r parent c y q
              ∙ ap (λ b. if b then some parent else compress m r (set_at c r parent) y)
                  ((==_iff y c).1 e),
          f,
        )
        | inr (v, b, d) ↦
            let (_, j, s, t, u) = climb (suc m) parent f c h l in
            let g =
              subst (λ z. Forest n k (set_at c z parent) rank cls) (sym i)
                (shortcut parent f c l j t (below_root rank cls parent c y q v s u)) in
            let (p, w, g') =
              compress-keeps m (set_at c r parent) g r y (i ∙ sym d) (omega arith) b in
            (
              p,
              compress-at m r parent c y q
                  ∙ ap (λ b. if b then some parent else compress m r (set_at c r parent) y)
                      (apart rank c y v)
                  ∙ w,
              g',
            )
      ]

  -- `find` gives the root, and keeps every root.
  pub find-keeps :
      (m : ℕ) (parent : List ℕ) (f : Forest n k parent rank cls) (x : ℕ)
      → k < m
      → x < n
      → (p : List ℕ) × (find m parent x ≡ some (cls x, p)) × Forest n k p rank cls
  unfolding find
  find-keeps m parent f x h l =
      let (q, _, _, _, _) = climb m parent f x (omega arith) l in
      let (p, w, g) = compress-keeps m parent f (cls x) x refl (omega arith) l in
      (
        p,
        ap
              (λ o. elim o [
                | none ↦ none
                | some r ↦ elim (compress m r parent x) [
                  | none ↦ none
                  | some parent ↦ some (r, parent)
                ]
              ])
              q
            ∙ ap (λ o. elim o [ none ↦ none | some parent ↦ some (cls x, parent) ]) w,
        g,
      )
