-- ===== src/Portfolio/Sums.antt =====
-- The totals of a projection.
use solana_whale_intelligenc.Prelude.{
  ℕ, suc, ◌+◌, ◌≤◌, ◌<◌, ◌≡◌, refl, sym, ap, ◌∙◌, Bool, Option, none, some, List, [], ◌∷◌, map,
  String, length, each, if-keeps, ◌==◌, str_eq, arith,
}
use solana_whale_intelligenc.Prelude.Dict.{alter}
use solana_whale_intelligenc.Decimal.{Decimal, IsExact, parse_decimal, sum}
use solana_whale_intelligenc.Decimal.Laws.{add-zero}
use solana_whale_intelligenc.Portfolio.{
  Exposure, PortfolioProjection, enumerate, key_count, Groups, add_keyed, add_line, add_lines,
  groups, total_of, kinds_of, projection, project,
}
use solana_whale_intelligenc.Portfolio.Forest.{Forest, find-keeps}
use solana_whale_intelligenc.Portfolio.Lines.{links-Grouped}

module _ (dec : Decimal) where
  open dec use {D, add}

  -- The notional of a line, and of a line with correlation keys.
  unfoldable pub notional_of : Exposure → D
  notional_of e = parse_decimal dec e.notional

  unfoldable pub if_keyed : D → Option (List String) → D
  if_keyed d none = dec.zero
  if_keyed d (some keys) = d

  unfoldable pub correlated_of : Exposure → D
  unfolding notional_of if_keyed
  correlated_of e = if_keyed (notional_of e) e.correlated

  unfoldable pub values : {K : Type 0} → List (K × D) → D
  values m = sum dec (map (λ (entry : _ × D). entry.1) m)

module _ (dec : Decimal) (e : IsExact dec) where
  open dec use {D, add}

  -- One entry of a map of sums grows by what is added.
  pub alter-values :
      {K : Type 0} (same : K → K → Bool) (k : K) (d : D) (m : List (K × D))
      → values dec (alter same k dec.zero (λ s. add s d) m) ≡ add (values dec m) d
  unfolding alter values sum
  alter-values same k d [] = add-zero dec e (add dec.zero d)
  alter-values {K} same k d ((j, v) ∷ m) =
      if-keeps (λ (l : List (K × D)). values dec l ≡ add (add v (values dec m)) d) (same j k)
        (λ _.
          e.add_assoc v d (values dec m)
          ∙ ap (add v) (e.add_comm d (values dec m))
          ∙ sym (e.add_assoc v (values dec m) d))
        (λ _. ap (add v) (alter-values same k d m) ∙ sym (e.add_assoc v (values dec m) d))

  -- A sum from the left.
  pub total_from :
      {A : Type 0} (f : A → D) (d : D) (xs : List A)
      → each (λ s x. add s (f x)) d xs ≡ add d (sum dec (map f xs))
  unfolding sum
  total_from f d [] = sym (add-zero dec e d)
  total_from f d (x ∷ xs) = total_from f (add d (f x)) xs ∙ e.add_assoc d (f x) (sum dec (map f xs))

  kinds_from :
      (es : List Exposure) (m : List (String × D))
      → values dec (
          each
            (λ m x. alter str_eq x.kind dec.zero (λ s. add s (parse_decimal dec x.notional)) m)
            m
            es)
        ≡ add (values dec m) (sum dec (map (notional_of dec) es))
  unfolding sum notional_of
  kinds_from [] m = sym (add-zero dec e (values dec m))
  kinds_from (x ∷ es) m =
      kinds_from es (alter str_eq x.kind dec.zero (λ s. add s (parse_decimal dec x.notional)) m)
      ∙ ap (λ d. add d (sum dec (map (notional_of dec) es)))
          (alter-values str_eq x.kind (parse_decimal dec x.notional) m)
      ∙ e.add_assoc (values dec m) (notional_of dec x) (sum dec (map (notional_of dec) es))

  abbrev Filled : ℕ → ℕ → (ℕ → ℕ) → (ℕ → ℕ) → D → Option (Groups dec) → Type 0
  Filled n k rank cls d o =
      (g : Groups dec) × (o ≡ some g)
      × Forest n k g.parent rank cls
      × (values dec g.group_notional ≡ d)

  module _ (n k m : ℕ) (rank cls : ℕ → ℕ) (h : k < m) where
    add_keyed-Filled :
        (g : Groups dec) (i : ℕ) (x : Exposure) (keys : Option (List String)) (d : D)
        → i < n
        → Forest n k g.parent rank cls
        → values dec g.group_notional ≡ d
        → Filled n k rank cls
            (add d (if_keyed dec (notional_of dec x) keys))
            (add_keyed dec m g i x keys)
    unfolding add_keyed if_keyed notional_of
    add_keyed-Filled g i x none d b f v = (g, refl, f, v ∙ sym (add-zero dec e d))
    add_keyed-Filled g i x (some keys) d b f v =
        let (p, q, f') = find-keeps m g.parent f i h b in
        let new = alter ◌==◌ (cls i) dec.zero (λ sum. add sum (parse_decimal dec x.notional)) in
        (
          record { parent = p; group_notional = new g.group_notional },
          ap
              (λ o. elim o [
                | none ↦ none
                | some (r, parent) ↦ some (record {
                  parent = parent;
                  group_notional =
                      alter ◌==◌ r dec.zero (λ sum. add sum (parse_decimal dec x.notional))
                        g.group_notional;
                })
              ])
              q,
          f',
          alter-values ◌==◌ (cls i) (parse_decimal dec x.notional) g.group_notional
              ∙ ap (λ s. add s (parse_decimal dec x.notional)) v,
        )

    lines-Filled :
        (es : List Exposure) (i : ℕ) (d : D) (o : Option (Groups dec))
        → i + length es ≤ n
        → Filled n k rank cls d o
        → Filled n k rank cls
            (add d (sum dec (map (correlated_of dec) es)))
            (each (add_line dec m) o (enumerate i es))
    unfolding add_line correlated_of sum
    lines-Filled [] i d o b (g, q, f, v) = (g, q, f, v ∙ sym (add-zero dec e d))
    lines-Filled (x ∷ es) i d o b (g, q, f, v) =
        let (g', q', f', v') = add_keyed-Filled g i x x.correlated d (omega arith) f v in
        let (g'', q'', f'', v'') =
          lines-Filled es (suc i) (add d (correlated_of dec x)) (add_line dec m o (i, x))
            (omega arith) (g', ap (λ o. add_line dec m o (i, x)) q ∙ q', f', v') in
        (
          g'',
          q'',
          f'',
          v'' ∙ e.add_assoc d (correlated_of dec x) (sum dec (map (correlated_of dec) es)),
        )

  values-list : (m : List (ℕ × D)) → sum dec (map (λ (entry : ℕ × D). entry.1) m) ≡ values dec m
  unfolding values
  values-list m = refl

  values-nil : (K : Type 0) → values dec {K = K} [] ≡ dec.zero
  unfolding values sum
  values-nil K = refl

  total_lem : (es : List Exposure) → total_of dec es ≡ sum dec (map (notional_of dec) es)
  unfolding total_of notional_of
  total_lem es = total_from (notional_of dec) dec.zero es ∙ e.zero-add _

  kinds_lem :
      (es : List Exposure) → values dec (kinds_of dec es) ≡ sum dec (map (notional_of dec) es)
  unfolding kinds_of
  kinds_lem es =
      kinds_from es []
      ∙ ap (λ d. add d (sum dec (map (notional_of dec) es))) (values-nil String)
      ∙ e.zero-add _

  -- For every list of lines whose decimal sums are exact the projection is computed: no index is
  -- out of range and every loop ends. Its total is the sum of the notionals of all lines, the
  -- subtotals of the kinds sum up to the same, and the correlated notional is the sum of the
  -- notionals of all the lines that declare correlation keys.
  pub project-sums :
      (es : List Exposure)
      → (r : PortfolioProjection D) × (project dec es ≡ some r)
        × (r.total_notional ≡ sum dec (map (notional_of dec) es))
        × (values dec r.by_kind ≡ sum dec (map (notional_of dec) es))
        × (r.correlated_notional ≡ sum dec (map (correlated_of dec) es))
  unfolding project projection groups add_lines
  project-sums es =
      let fuel = suc (key_count es) in
      let (l, q, (cls, (rank, f, s))) = links-Grouped fuel es (omega arith) in
      let (g, w, _, v) =
        lines-Filled (length es) (key_count es) fuel rank cls (omega arith) es 0 dec.zero _
          (omega arith)
          (record { parent = l.parent; group_notional = [] }, refl, f, values-nil ℕ) in
      (
        projection dec es g.group_notional,
        ap
            (λ o. elim o [
              | none ↦ none
              | some group_notional ↦ some (projection dec es group_notional)
            ])
            (ap
                (λ o. elim o [
                  | none ↦ none
                  | some l ↦ elim (add_lines dec fuel l es) [
                    | none ↦ none
                    | some g ↦ some g.group_notional
                  ]
                ])
                q
              ∙ ap (λ o. elim o [ none ↦ none | some g ↦ some g.group_notional ]) w),
        total_lem es,
        kinds_lem es,
        total_from (λ (entry : ℕ × D). entry.1) dec.zero g.group_notional
            ∙ e.zero-add _
            ∙ values-list g.group_notional
            ∙ v
            ∙ e.zero-add _,
      )
