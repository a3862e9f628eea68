-- ===== src/Portfolio/Lines.antt =====
-- The loop over the lines and their keys, and the groups that it leaves.
use solana_whale_intelligenc.Prelude.{
  ℕ, zero, suc, ◌+◌, ◌≤◌, ◌<◌, ◌≡◌, ◌↔◌, refl, sym, ap, ◌∙◌, subst, inl, inr, ◌⊎◌, Option, none,
  some, List, [], ◌∷◌, ◌++◌, map, String, length, each, get_at, Option-cases, arith,
}
use mathlib.Core.List.{append_assoc, append-nil}
use mathlib.Core.Option.{some-injective, none-ne-some}
use solana_whale_intelligenc.Prelude.Dict.{get, put}
use solana_whale_intelligenc.Portfolio.{
  Exposure, Links, find, link, link_to, link_keys, link_line, keys_of, enumerate, upto, links,
  key_count,
}
use solana_whale_intelligenc.Portfolio.Forest.{Forest, find-keeps}
use solana_whale_intelligenc.Portfolio.Joins.{merge, union-merge}
use solana_whale_intelligenc.Portfolio.Linking.{
  declared, declarations, Connected, here, next, Spec, known_key, new_key,
}

-- The trees make groups of the lines below `n`, with paths up to `c`, as the declarations say.
abbrev pub IsGrouped : ℕ → ℕ → List (ℕ × String) → Links → (ℕ → ℕ) → Type 0
IsGrouped n c ds l cls = (rank : ℕ → ℕ) × Forest n c l.parent rank cls × Spec n ds cls l.key_owner

abbrev Grouped : ℕ → ℕ → List (ℕ × String) → Option Links → Type 0
Grouped n c ds o = (l : Links) × (o ≡ some l) × ((cls : ℕ → ℕ) × IsGrouped n c ds l cls)

regroup :
    (n : ℕ) {c c' : ℕ} {ds ds' : List (ℕ × String)} (o : Option Links)
    → c ≡ c'
    → ds ≡ ds'
    → Grouped n c ds o
    → Grouped n c' ds' o
regroup n {c} {c'} {ds} o p q g =
    subst (λ ds. Grouped n c' ds o) q (subst (λ c. Grouped n c ds o) p g)

module _ (n m : ℕ) where
  link-Grouped :
      (c : ℕ) (ds : List (ℕ × String)) (o : Option Links) (i : ℕ) (k : String)
      → c < m
      → i < n
      → Grouped n c ds o
      → Grouped n (suc c) (ds ++ (i, k) ∷ []) (link m i o k)
  unfolding link link_to
  link-Grouped c ds o i k h b (l, q, (cls, (rank, f, s))) =
      elim (Option-cases (get k l.key_owner)) [
        | inr (owner, g) ↦
            let (p, w, (rank', f')) =
              union-merge m l.parent f i owner h b (s.inside owner k (s.owned k owner g)) in
            (
              record { parent = p; key_owner = l.key_owner },
              ap (λ o. link m i o k) q
                  ∙ ap (link_to m i l k) g
                  ∙ ap
                      (λ z. elim z [
                        | none ↦ none
                        | some parent ↦ some (record { parent = parent; key_owner = l.key_owner })
                      ])
                      w,
              (merge cls i owner, (rank', f', known_key s i owner k b g)),
            )
        | inl g ↦ (
          record { parent = l.parent; key_owner = put k i l.key_owner },
          ap (λ o. link m i o k) q ∙ ap (link_to m i l k) g,
          (
            cls,
            (
              rank,
              record { size = f.size; low = λ x. omega (arith, f.low x); up = f.up },
              new_key s i k b g,
            ),
          ),
        )
      ]

  keys-Grouped :
      (keys : List String) (c : ℕ) (ds : List (ℕ × String)) (o : Option Links) (i : ℕ)
      → c + length keys ≤ m
      → i < n
      → Grouped n c ds o
      → Grouped n (c + length keys) (ds ++ map (λ k. (i, k)) keys) (each (link m i) o keys)
  keys-Grouped [] c ds o i h b g = regroup n o (omega arith) (sym (append-nil ds)) g
  keys-Grouped (k ∷ keys) c ds o i h b g =
      regroup n (each (link m i) (link m i o k) keys) (omega arith)
        (append_assoc ds ((i, k) ∷ []) (map (λ k. (i, k)) keys))
        (keys-Grouped keys (suc c) (ds ++ (i, k) ∷ []) (link m i o k) i (omega arith) b
          (link-Grouped c ds o i k (omega arith) b g))

  line-Grouped :
      (keys : Option (List String)) (c : ℕ) (ds : List (ℕ × String)) (o : Option Links) (i : ℕ)
      → c + keys_of keys ≤ m
      → i < n
      → Grouped n c ds o
      → Grouped n (c + keys_of keys) (ds ++ declared i keys) (link_keys m i o keys)
  unfolding link_keys keys_of declared
  line-Grouped none c ds o i h b g = regroup n o (omega arith) (sym (append-nil ds)) g
  line-Grouped (some keys) c ds o i h b g = keys-Grouped keys c ds o i h b g

  lines-Grouped :
      (es : List Exposure) (c i : ℕ) (ds : List (ℕ × String)) (o : Option Links)
      → c + key_count es ≤ m
      → i + length es ≤ n
      → Grouped n c ds o
      → Grouped n
          (c + key_count es)
          (ds ++ declarations i es)
          (each (link_line m) o (enumerate i es))
  unfolding link_line key_count declarations
  lines-Grouped [] c i ds o h b g = regroup n o (omega arith) (sym (append-nil ds)) g
  lines-Grouped (e ∷ es) c i ds o h b g =
      regroup n (each (link_line m) (link_line m o (i, e)) (enumerate (suc i) es)) (omega arith)
        (append_assoc ds (declared i e.correlated) (declarations (suc i) es))
        (lines-Grouped es (c + keys_of e.correlated) (suc i) (ds ++ declared i e.correlated)
          (link_line m o (i, e)) (omega arith) (omega arith)
          (line-Grouped e.correlated c ds o i (omega arith) (omega arith) g))

-- At first each line is its own root.
upto_self : (i n x : ℕ) → x < n → get_at x (upto i n) ≡ some (i + x)
upto_self i zero x h = absurd (omega arith)
upto_self i (suc n) zero h = ap some (omega arith)
upto_self i (suc n) (suc x) h = upto_self (suc i) n x (omega arith) ∙ ap some (omega arith)

upto-out : (i n x : ℕ) → n ≤ x → get_at x (upto i n) ≡ none
upto-out i zero x h = refl
upto-out i (suc n) zero h = absurd (omega arith)
upto-out i (suc n) (suc x) h = upto-out (suc i) n x (omega arith)

length-upto : (i n : ℕ) → length (upto i n) ≡ n
length-upto i zero = refl
length-upto i (suc n) = ap suc (length-upto (suc i) n)

start-Forest : (n : ℕ) → Forest n 0 (upto 0 n) (λ x. 0) (λ x. x)
start-Forest n = record {
  size = length-upto 0 n;
  low = λ x. omega arith;
  up = λ x y q. elim (le_or_lt n x) [
    | inl l ↦ absurd (none-ne-some y (sym (upto-out 0 n x l) ∙ q))
    | inr l ↦ inl (some-injective _ _ (sym q ∙ upto_self 0 n x l) ∙ zero_add x, refl)
  ];
}
  where
    le_or_lt : (n x : ℕ) → (n ≤ x) ⊎ (x < n)
    le_or_lt n x = ground (arith)

    zero_add : (x : ℕ) → 0 + x ≡ x
    zero_add x = omega arith

pub links-Grouped :
    (m : ℕ) (es : List Exposure)
    → key_count es ≤ m
    → Grouped (length es) (key_count es) (declarations 0 es) (links m es)
unfolding links
links-Grouped m es h = regroup (length es) (links m es) (omega arith) refl (
    lines-Grouped (length es) m es 0 0 [] _ (omega arith) (omega arith) (
      record { parent = upto 0 (length es); key_owner = [] },
      refl,
      (
        λ x. x,
        (
          λ x. 0,
          start-Forest (length es),
          record {
            inside = λ i k p. absurd p;
            owned = λ k o q. absurd (none-ne-some o q);
            owns = λ i k p. absurd p;
            sound = λ i j e. subst (Connected [] i) e here;
          },
        ),
      ),
    ))

Connected-same :
    (n : ℕ) (ds : List (ℕ × String)) (cls : ℕ → ℕ) (owner : List (String × ℕ))
    (s : Spec n ds cls owner)
    → {i j : ℕ} → Connected ds i j
    → cls i ≡ cls j
Connected-same n ds cls owner s here = refl
Connected-same n ds cls owner s (next {i} {j} {l} k c p q) =
    let (o, g, a) = s.owns j k p in
    let (o', g', b) = s.owns l k q in
    Connected-same n ds cls owner s c ∙ sym a ∙ ap cls (some-injective _ _ (sym g ∙ g')) ∙ b

-- For every list of lines the loop over their keys ends, without an index out of range. After it
-- `find` gives each line a root, and two lines have one root exactly when a chain of shared
-- correlation keys connects them.
pub links_iff :
    (es : List Exposure)
    → (l : Links) × (links (suc (key_count es)) es ≡ some l)
      × ((cls : ℕ → ℕ) × ((i : ℕ)
            → i < length es
            → (p : List ℕ) × (find (suc (key_count es)) l.parent i ≡ some (cls i, p)))
          × ((i j : ℕ) → (cls i ≡ cls j) ↔ Connected (declarations 0 es) i j))
links_iff es =
    let (l, q, (cls, (rank, f, s))) = links-Grouped (suc (key_count es)) es (omega arith) in
    (
      l,
      q,
      (
        cls,
        λ i h.
            let (p, w, g) = find-keeps (suc (key_count es)) l.parent f i (omega arith) h in (p, w),
        λ i j. (s.sound i j, Connected-same (length es) (declarations 0 es) cls l.key_owner s),
      ),
    )
