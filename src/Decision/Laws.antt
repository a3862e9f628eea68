-- ===== src/Decision/Laws.antt =====
-- What an approval, and each refusal, says of the bundle.
use solana_whale_intelligenc.Prelude.{
  ◌≡◌, ◌≢◌, refl, ◌↔◌, inl, inr, Bool, true, false, not, ◌&&◌, List, [], ◌∷◌, ◌++◌, String, arith,
  Option, some, filter, all, All, is_empty, Bool-cases, and→both, both→and,
}
use solana_whale_intelligenc.Json.{Json}
use solana_whale_intelligenc.Decision.{
  ComponentClass, mandatory_pass, sizing_input, strategy_input, halt_input, ComponentResult,
  DecisionBundle, approve, required_mandatory, is_mandatory, passed, matches, sole_pass,
  required_ok, by_class, component_ok, no_freshness, evaluate, is_reproducible,
  unresolved_mandatory,
}

-- A list holds one entry with `p`, between entries without it, and that entry passed.
abbrev pub SolePass : {V : Type 0} → (ComponentResult V → Bool) → List (ComponentResult V) → Type 0
SolePass {V} p cs =
    (before : List (ComponentResult V)) × (c : ComponentResult V) × (after : List
      (ComponentResult V))
    × (cs ≡ before ++ c ∷ after)
    × All (λ d. p d ≡ false) before
    × (p c ≡ true)
    × (c.pass ≡ some true)
    × All (λ d. p d ≡ false) after

module _ {V : Type 0} (p : ComponentResult V → Bool) where
  filter-nil : (cs : List (ComponentResult V)) → All (λ d. p d ≡ false) cs → filter p cs ≡ []
  filter-nil [] h = refl
  filter-nil (c ∷ cs) h = ground (arith, filter-nil cs h.1)

  nil-filter : (cs : List (ComponentResult V)) → filter p cs ≡ [] → All (λ d. p d ≡ false) cs
  nil-filter [] h = tt
  nil-filter (c ∷ cs) h = ground (arith, nil-filter cs)

  passed_lem : (o : Option Bool) → passed o ≡ true → o ≡ some true
  passed_lem o h = ground arith

  sole-rest :
      (c : ComponentResult V) (l : List (ComponentResult V))
      → sole_pass (c ∷ l) ≡ true
      → (l ≡ []) × (passed c.pass ≡ true)
  unfolding sole_pass
  sole-rest c [] h = (refl, h)
  sole-rest c (d ∷ l) h = cc

  sole_pass→SolePass :
      (cs : List (ComponentResult V)) → sole_pass (filter p cs) ≡ true → SolePass p cs
  unfolding sole_pass
  sole_pass→SolePass [] h = cc
  sole_pass→SolePass (c ∷ cs) h = elim (Bool-cases (p c)) [
    | inl e ↦
        let (only, ok) = sole-rest c (filter p cs) (rw e at h) in
        ([], c, cs, refl, tt, e, passed_lem c.pass ok, nil-filter cs only)
    | inr e ↦
        let (before, d, after, split, b, m, ok, a) = sole_pass→SolePass cs (rw e at h) in
        (c ∷ before, d, after, ground arith, (e, b), m, ok, a)
  ]

  filter-append :
      (xs ys : List (ComponentResult V)) → filter p (xs ++ ys) ≡ filter p xs ++ filter p ys
  filter-append [] ys = refl
  filter-append (x ∷ xs) ys = ground (arith, filter-append xs ys)

  SolePass→sole_pass :
      (cs : List (ComponentResult V)) → SolePass p cs → sole_pass (filter p cs) ≡ true
  unfolding sole_pass
  SolePass→sole_pass cs (before, c, after, split, b, m, ok, a) =
      rw (split, filter-append before (c ∷ after), filter-nil before b, m, filter-nil after a, ok)
        refl

-- What the second loop asks of a component.
abbrev pub Sound : {V : Type 0} → ComponentResult V → Type 0
Sound c =
    (c.component_class ≡ mandatory_pass → c.pass ≡ some true)
    × (c.component_class ≡ halt_input → c.pass ≢ some true)

by_class-Sound :
    (k : ComponentClass) (o : Option Bool)
    → (by_class k o ≡ true)
      ↔ ((k ≡ mandatory_pass → o ≡ some true) × (k ≡ halt_input → o ≢ some true))
unfolding by_class
by_class-Sound mandatory_pass o = (λ h. (λ _. ground arith, λ e. cc), λ h. ground (arith, h.0 refl))
by_class-Sound halt_input o = (λ h. (λ e. cc, λ _. ground arith), λ h. ground (arith, h.1 refl))
by_class-Sound sizing_input o = (λ h. (λ e. cc, λ e. cc), λ h. refl)
by_class-Sound strategy_input o = (λ h. (λ e. cc, λ e. cc), λ h. refl)

module _ {V : Type 0} where
  all-Sound : (cs : List (ComponentResult V)) → (all cs component_ok ≡ true) ↔ All Sound cs
  all-Sound [] = (λ h. tt, λ h. refl)
  all-Sound (c ∷ cs) =
      let (f, g) = by_class-Sound c.component_class c.pass in
      let (fs, gs) = all-Sound cs in
      (λ h. (f (and→both _ _ h).0, fs (and→both _ _ h).1), λ h. both→and (g h.0) (gs h.1))

  all-required :
      (cs : List (ComponentResult V)) (names : List String)
      → (all names (required_ok cs) ≡ true) ↔ All (λ n. SolePass (matches n) cs) names
  unfolding required_ok
  all-required cs [] = (λ h. tt, λ h. refl)
  all-required cs (n ∷ ns) =
      let (fs, gs) = all-required cs ns in
      (
        λ h. (sole_pass→SolePass (matches n) cs (and→both _ _ h).0, fs (and→both _ _ h).1),
        λ h. both→and (SolePass→sole_pass (matches n) cs h.0) (gs h.1),
      )

  none-unresolved :
      (cs : List (ComponentResult V))
      → All Sound cs
      → filter (λ (c : ComponentResult V). is_mandatory c.component_class && not (passed c.pass)) cs
        ≡ []
  none-unresolved [] h = refl
  none-unresolved (c ∷ cs) h = ground (arith, none-unresolved cs h.1, h.0.0)

module _ {F : Type 0} (js : Json) where
  open js use {Value}

  pub record IsApprovable (b : DecisionBundle F Value) : Type 0 where
    pub evidence : is_empty b.evidence_snapshot_ids ≡ false
    pub freshness : no_freshness js b.source_freshness ≡ false
    pub capable : is_empty b.missing_capabilities ≡ true
    pub required : All (λ n. SolePass (matches n) b.component_results) required_mandatory
    pub sound : All Sound b.component_results

  evaluate-tests :
      (b : DecisionBundle F Value)
      → (evaluate js b ≡ approve) ↔ (
          (is_empty b.evidence_snapshot_ids ≡ false)
          × (no_freshness js b.source_freshness ≡ false)
          × (is_empty b.missing_capabilities ≡ true)
          × (all required_mandatory (required_ok b.component_results) ≡ true)
          × (all b.component_results component_ok ≡ true))
  unfolding evaluate
  evaluate-tests b = (λ h. ground arith, λ h. ground arith)

  -- A bundle is approved exactly when it has evidence and a non-empty freshness record, misses no
  -- capability, holds each of the four required components exactly once among its mandatory ones
  -- and passed, and beyond those has no mandatory component that did not pass and no halt input
  -- that fired.
  pub approve-IsApprovable :
      (b : DecisionBundle F Value) → (evaluate js b ≡ approve) ↔ IsApprovable b
  approve-IsApprovable b = (
    λ h.
        let (e, f, c, r, s) = (evaluate-tests b).0 h in
        record {
          evidence = e;
          freshness = f;
          capable = c;
          required = (all-required b.component_results required_mandatory).0 r;
          sound = (all-Sound b.component_results).0 s;
        },
    λ a. (evaluate-tests b).1 (
      a.evidence,
      a.freshness,
      a.capable,
      (all-required b.component_results required_mandatory).1 a.required,
      (all-Sound b.component_results).1 a.sound,
    ),
  )

  -- An approved bundle is reproducible and leaves no mandatory component unresolved.
  pub approve-resolved :
      (b : DecisionBundle F Value)
      → evaluate js b ≡ approve
      → (is_reproducible js b ≡ true) × (unresolved_mandatory js b ≡ 0)
  unfolding is_reproducible unresolved_mandatory
  approve-resolved b h =
      let a = (approve-IsApprovable b).0 h in
      (rw a.evidence refl, rw (none-unresolved b.component_results a.sound) refl)
