-- ===== src/Portfolio/Linking.antt =====
-- Chains of shared correlation keys, and the groups of lines.
use solana_whale_intelligenc.Prelude.{
  ℕ, suc, ◌<◌, ◌≡◌, refl, sym, ap, ◌∙◌, subst, inl, inr, Option, none, some, List, [], ◌∷◌, ◌++◌,
  map, String, In, In-snoc, if◌then◌else◌, if-keeps, ◌==◌, ==_iff, Bool-cases, str_eq, str_eq→≡,
  ≡→str_eq, arith,
}
use mathlib.Core.Path.{ap₂}
use mathlib.Core.Option.{some-injective, none-ne-some}
use solana_whale_intelligenc.Prelude.Dict.{get, put, get-put}
use solana_whale_intelligenc.Portfolio.{Exposure}
use solana_whale_intelligenc.Portfolio.Joins.{merge}

-- Which line declares which key, in the order of the loop.
unfoldable pub declared : ℕ → Option (List String) → List (ℕ × String)
declared i none = []
declared i (some keys) = map (λ k. (i, k)) keys

unfoldable pub declarations : ℕ → List Exposure → List (ℕ × String)
declarations i [] = []
declarations i (e ∷ es) = declared i e.correlated ++ declarations (suc i) es

-- Lines with a key in common, and so on from line to line.
pub data Connected (ds : List (ℕ × String)) : ℕ → ℕ → Type 0 where
  here : {i : ℕ} → Connected ds i i
  next :
      {i j l : ℕ} (k : String) → Connected ds i j → In (j, k) ds → In (l, k) ds → Connected ds i l

connect :
    {ds : List (ℕ × String)} {i j l : ℕ} → Connected ds i j → Connected ds j l → Connected ds i l
connect c here = c
connect c (next k d p q) = next k (connect c d) p q

more :
    {ds : List (ℕ × String)} {i j : ℕ} (d : ℕ × String)
    → Connected ds i j
    → Connected (ds ++ d ∷ []) i j
more d here = here
more {ds} d (next k c p q) =
    next k (more d c) ((In-snoc ds _ d).1 (inl p)) ((In-snoc ds _ d).1 (inl q))

merge-ends : (cls : ℕ → ℕ) (i o : ℕ) → merge cls i o o ≡ merge cls i o i
unfolding merge
merge-ends cls i o = ground (arith)

-- The owners of the keys declared so far, and the groups that they make.
pub record Spec (n : ℕ) (ds : List (ℕ × String)) (cls : ℕ → ℕ) (owner : List (String × ℕ))
    : Type 0 where
  pub inside : (i : ℕ) (k : String) → In (i, k) ds → i < n
  pub owned : (k : String) (o : ℕ) → get k owner ≡ some o → In (o, k) ds
  pub owns :
      (i : ℕ) (k : String) → In (i, k) ds → (o : ℕ) × (get k owner ≡ some o) × (cls o ≡ cls i)
  pub sound : (i j : ℕ) → cls i ≡ cls j → Connected ds i j

module _ {n : ℕ} {ds : List (ℕ × String)} {cls : ℕ → ℕ} {owner : List (String × ℕ)} where
  inside_snoc :
      (s : Spec n ds cls owner) (i : ℕ) (k : String)
      → i < n
      → (j : ℕ) (h : String) → In (j, h) (ds ++ (i, k) ∷ [])
      → j < n
  inside_snoc s i k l j h p = elim ((In-snoc ds (j, h) (i, k)).0 p) [
    | inl q ↦ s.inside j h q
    | inr e ↦ subst (λ z. z < n) (sym (ap (λ (d : ℕ × String). d.0) e)) l
  ]

  -- A key that is declared before: its owner's group and the line's become one.
  pub known_key :
      (s : Spec n ds cls owner) (i o : ℕ) (k : String)
      → i < n
      → get k owner ≡ some o
      → Spec n (ds ++ (i, k) ∷ []) (merge cls i o) owner
  unfolding merge
  known_key s i o k l q = record {
    inside = inside_snoc s i k l;
    owned = λ h p g. (In-snoc ds (p, h) (i, k)).1 (inl (s.owned h p g));
    owns = λ j h p. elim ((In-snoc ds (j, h) (i, k)).0 p) [
      | inl d ↦ let (p, g, c) = s.owns j h d in (p, g, ap (λ z. if z == cls o then cls i else z) c)
      | inr e ↦ (
        o,
        ap (λ (d : ℕ × String). get d.1 owner) e ∙ q,
        merge-ends cls i o ∙ ap (λ (d : ℕ × String). merge cls i o d.0) (sym e),
      )
    ];
    sound = λ x y e. elim (Bool-cases (cls x == cls o)) [
      | inl a ↦ elim (Bool-cases (cls y == cls o)) [
        | inl b ↦ old x y (ground (arith, ==_iff (cls x) (cls o), ==_iff (cls y) (cls o)))
        | inr b ↦
            connect (next k (old x o (ground (arith))) owner_in line_in) (old i y (ground (arith)))
      ]
      | inr a ↦ elim (Bool-cases (cls y == cls o)) [
        | inl b ↦
            connect (next k (old x i (ground (arith))) line_in owner_in) (old o y (ground (arith)))
        | inr b ↦ old x y (ground (arith))
      ]
    ];
  }
    where
      old : (x y : ℕ) → cls x ≡ cls y → Connected (ds ++ (i, k) ∷ []) x y
      old x y e = more (i, k) (s.sound x y e)

      owner_in : In (o, k) (ds ++ (i, k) ∷ [])
      owner_in = (In-snoc ds (o, k) (i, k)).1 (inl (s.owned k o q))

      line_in : In (i, k) (ds ++ (i, k) ∷ [])
      line_in = (In-snoc ds (i, k) (i, k)).1 (inr refl)

  -- A new key: the line owns it.
  pub new_key :
      (s : Spec n ds cls owner) (i : ℕ) (k : String)
      → i < n
      → get k owner ≡ none
      → Spec n (ds ++ (i, k) ∷ []) cls (put k i owner)
  new_key s i k l q = record {
    inside = inside_snoc s i k l;
    owned = λ h o g.
        if-keeps (λ v. v ≡ some o → In (o, h) (ds ++ (i, k) ∷ [])) (str_eq k h)
          (λ e v.
            (In-snoc ds (o, h) (i, k)).1
              (inr (ap₂ (λ a b. (a, b)) (sym (some-injective _ _ v)) (sym (str_eq→≡ k h e)))))
          (λ e v. (In-snoc ds (o, h) (i, k)).1 (inl (s.owned h o v)))
          (sym (get-put h k i owner) ∙ g);
    owns = λ j h p. elim ((In-snoc ds (j, h) (i, k)).0 p) [
      | inl d ↦ let (o, g, c) = s.owns j h d in (o, get-put h k i owner ∙ other h o g ∙ g, c)
      | inr e ↦ (
        i,
        get-put h k i owner
            ∙ ap (λ b. if b then some i else get h owner)
                (≡→str_eq k h (sym (ap (λ (d : ℕ × String). d.1) e))),
        ap (λ (d : ℕ × String). cls d.0) (sym e),
      )
    ];
    sound = λ x y e. more (i, k) (s.sound x y e);
  }
    where
      other :
          (h : String) (o : ℕ)
          → get h owner ≡ some o
          → (if str_eq k h then some i else get h owner) ≡ get h owner
      other h o g =
          if-keeps (λ v. v ≡ get h owner) (str_eq k h)
            (λ e. absurd (none-ne-some o (sym q ∙ ap (λ z. get z owner) (str_eq→≡ k h e) ∙ g)))
            (λ _. refl)
