-- ===== src/Provider/Selection.antt =====
-- `select_provider`: the selection by the key of the source.
use solana_whale_intelligenc.Prelude.{
  ◌≡◌, refl, ap, ◌↔◌, ◌⊎◌, inl, inr, Bool, true, false, none, some, subst, List, [], ◌∷◌, ◌≢◌,
  Option-cases, arith, filter, All, In, codes_inj, Bool-cases, All-in, if◌then◌else◌,
}
use mathlib.Core.Option
use mathlib.Core.Option.{some-injective}
use solana_whale_intelligenc.Float.{F64}
use solana_whale_intelligenc.Provider.{
  ProviderCandidate, ineligible_reason, is_eligible, parts, rank_key, better, best_of, min_by_key,
  select_provider,
}
use solana_whale_intelligenc.Prelude.Lex.{lex_refl, lex_trans, lex_antisym, lex_asym}

In-filter :
    {A : Type 0} (p : A → Bool) (xs : List A) {x : A}
    → In x (filter p xs) ↔ (In x xs × (p x ≡ true))
In-filter p [] = (λ h. absurd h, λ h. absurd h.0)
In-filter p (y ∷ ys) {x = a} =
    let (f, g) = In-filter p ys {x = a} in (λ h. ground (arith, f), λ h. ground (arith, g))

module _ (fl : F64) where
  open fl use {F}

  abbrev pub NotBetter : ProviderCandidate F → ProviderCandidate F → Type 0
  NotBetter c d = better fl d c ≡ false

  NotBetter-refl : (c : ProviderCandidate F) → NotBetter c c
  unfolding better
  NotBetter-refl c = lex_refl (parts (rank_key fl c))

  NotBetter-trans : (b c d : ProviderCandidate F) → NotBetter b c → NotBetter c d → NotBetter b d
  unfolding better
  NotBetter-trans b c d =
      lex_trans (parts (rank_key fl b)) (parts (rank_key fl c)) (parts (rank_key fl d))

  NotBetter-of_better : (c d : ProviderCandidate F) → better fl d c ≡ true → NotBetter d c
  unfolding better
  NotBetter-of_better c d = lex_asym (parts (rank_key fl d)) (parts (rank_key fl c))

  All-NotBetter :
      (b c : ProviderCandidate F) (ds : List (ProviderCandidate F))
      → NotBetter b c
      → All (NotBetter c) ds
      → All (NotBetter b) ds
  All-NotBetter b c [] h a = tt
  All-NotBetter b c (d ∷ ds) h a = (NotBetter-trans b c d h a.0, All-NotBetter b c ds h a.1)

  -- What the fold over the rest of the candidates returns.
  abbrev Best : ProviderCandidate F → ProviderCandidate F → List (ProviderCandidate F) → Type 0
  Best b c ds = ((b ≡ c) ⊎ In b ds) × NotBetter b c × All (NotBetter b) ds

  Best-cons :
      (b c d : ProviderCandidate F) (ds : List (ProviderCandidate F))
      → Best b (if better fl d c then d else c) ds
      → Best b c (d ∷ ds)
  Best-cons b c d ds h = elim (Bool-cases (better fl d c)) [
    | inl e ↦
        let (i, n, a) : Best b d ds = rw e at h in
        (inr i, NotBetter-trans b d c n (NotBetter-of_better c d e), (n, a))
    | inr e ↦
        let (i, n, a) : Best b c ds = rw e at h in (ground arith, n, (NotBetter-trans b c d n e, a))
  ]

  Best-best_of :
      (c : ProviderCandidate F) (ds : List (ProviderCandidate F)) → Best (best_of fl c ds) c ds
  unfolding best_of
  Best-best_of c [] = (inl refl, NotBetter-refl c, tt)
  Best-best_of c (d ∷ ds) =
      Best-cons (best_of fl (if better fl d c then d else c) ds) c d ds
        (Best-best_of (if better fl d c then d else c) ds)

  min_by_key_lem :
      (cs : List (ProviderCandidate F)) {b : ProviderCandidate F}
      → min_by_key fl cs ≡ some b
      → In b cs × All (NotBetter b) cs
  unfolding min_by_key
  min_by_key_lem [] h = cc
  min_by_key_lem (c ∷ cs) h =
      subst (λ x. In x (c ∷ cs) × All (NotBetter x) (c ∷ cs)) (some-injective _ _ h)
        (let (i, n, a) = Best-best_of c cs in (i, (n, a)))

  is_eligible_iff :
      (c : ProviderCandidate F) → (is_eligible c ≡ true) ↔ (ineligible_reason c ≡ none)
  is_eligible_iff c = (λ h. ground arith, λ h. ground arith)

  pub select-NotBetter :
      (cs : List (ProviderCandidate F)) {b : ProviderCandidate F}
      → select_provider fl cs ≡ some b
      → In b cs
        × (ineligible_reason b ≡ none)
        × ((d : ProviderCandidate F) → In d cs → ineligible_reason d ≡ none → NotBetter b d)
  unfolding select_provider
  select-NotBetter cs {b} h =
      let (i, a) = min_by_key_lem (filter is_eligible cs) h in
      let (j, e) = (In-filter is_eligible cs).0 i in
      (
        j,
        (is_eligible_iff b).0 e,
        λ d k n.
            All-in (NotBetter b) (filter is_eligible cs)
              ((In-filter is_eligible cs).1 (k, (is_eligible_iff d).1 n)) a,
      )

  -- No provider is selected exactly when the filter excludes every candidate.
  pub select-none_iff :
      (cs : List (ProviderCandidate F))
      → (select_provider fl cs ≡ none)
        ↔ ((d : ProviderCandidate F) → In d cs → ineligible_reason d ≢ none)
  unfolding select_provider min_by_key
  select-none_iff cs = (
    λ h d i n. absurd (
        nil-in (filter is_eligible cs) d h
          ((In-filter is_eligible cs).1 (i, (is_eligible_iff d).1 n))),
    λ h.
        empty (filter is_eligible cs)
          (λ d i. let (j, e) = (In-filter is_eligible cs).0 i in h d j ((is_eligible_iff d).0 e)),
  )
    where
      nil-in :
          (l : List (ProviderCandidate F)) (d : ProviderCandidate F)
          → min_by_key fl l ≡ none
          → In d l
          → ⊥
      nil-in [] d e i = i
      nil-in (c ∷ l) d e i = cc

      empty :
          (l : List (ProviderCandidate F))
          → ((d : ProviderCandidate F) → In d l → ⊥)
          → min_by_key fl l ≡ none
      empty [] k = refl
      empty (c ∷ l) k = absurd (k c (inl refl))

  same_id : (b c : ProviderCandidate F) → NotBetter b c → NotBetter c b → b.source_id ≡ c.source_id
  unfolding better rank_key
  same_id b c h g =
      let e = lex_antisym (parts (rank_key fl c)) (parts (rank_key fl b)) h g in
      codes_inj b.source_id c.source_id (cc e)

  -- The selection does not depend on the order or the repetition of the candidates: two lists with
  -- the same members select the same source, or both none.
  pub select_stable :
      (xs ys : List (ProviderCandidate F))
      → ((c : ProviderCandidate F) → In c xs ↔ In c ys)
      → Option.map (λ (c : ProviderCandidate F). c.source_id) (select_provider fl xs)
        ≡ Option.map (λ (c : ProviderCandidate F). c.source_id) (select_provider fl ys)
  select_stable xs ys same = elim (Option-cases (select_provider fl xs)) [
    | inl e ↦
        let other = (select-none_iff ys).1 (λ d i. (select-none_iff xs).0 e d ((same d).1 i)) in
        rw (e, other) refl
    | inr (b, e) ↦ elim (Option-cases (select_provider fl ys)) [
      | inl f ↦
          let (i, n, _) = select-NotBetter xs e in
          absurd ((select-none_iff ys).0 f b ((same b).0 i) n)
      | inr (c, f) ↦
          let (i, n, p) = select-NotBetter xs e in
          let (j, m, q) = select-NotBetter ys f in
          rw (e, f) (ap some (same_id b c (p c ((same c).1 j) m) (q b ((same b).0 i) n)))
    ]
  ]
