-- ===== src/Timeline/Lookup.antt =====
-- `build_lookup_query`: the terms, each once.
use mathlib.Core.Bool.{false≢true}
use solana_whale_intelligenc.Prelude.{
  In-snoc, subst, each-keeps, ◌||◌, ◌≡◌, ◌≢◌, refl, sym, ap, ◌∙◌, ◌↔◌, ◌⊎◌, inl, inr, Bool, true,
  false, Option, none, some, List, [], ◌∷◌, ◌++◌, String, All, In, any, each, if-keeps, str_eq,
  str_eq→≡, ≡→str_eq, In-any, arith,
}
use solana_whale_intelligenc.Prelude.Sort.{Apart-snoc, Apart}
use solana_whale_intelligenc.Prelude.Strings.{trim, is_empty_str}
use solana_whale_intelligenc.Recent.{ActorExtraction}
use solana_whale_intelligenc.Timeline.{push, push_option, build_lookup_query}

left : (a b : Bool) → (a || b) ≡ false → a ≡ false
left a b h = ground arith

right : (a b : Bool) → (a || b) ≡ false → b ≡ false
right a b h = ground arith

-- The texts of an extraction, in the order of its fields.
abbrev optional : Option String → List String
optional none = []
optional (some t) = t ∷ []

abbrev pub actor_texts : ActorExtraction → List String
actor_texts a =
    a.token
    ∷ (optional a.deployer
        ++ (optional a.authority
            ++ (optional a.fee_payer
                ++ (optional a.factory
                    ++ (optional a.initial_funder
                        ++ (a.authority_changes ++ a.social_identities))))))

push_option-each :
    (terms : List String) (o : Option String) (rest : List String)
    → each push (push_option terms o) rest ≡ each push terms (optional o ++ rest)
unfolding push_option
push_option-each terms none rest = refl
push_option-each terms (some t) rest = refl

each-append :
    (terms xs ys : List String) → each push (each push terms xs) ys ≡ each push terms (xs ++ ys)
each-append terms [] ys = refl
each-append terms (x ∷ xs) ys = each-append (push terms x) xs ys

-- The chain of pushes is one loop over the texts.
query-each : (a : ActorExtraction) → build_lookup_query a ≡ each push [] (actor_texts a)
unfolding build_lookup_query
query-each a =
    each-append _ a.authority_changes a.social_identities
    ∙ (push_option-each _ a.initial_funder _
        ∙ (push_option-each _ a.factory _
            ∙ (push_option-each _ a.fee_payer _
                ∙ (push_option-each _ a.authority _ ∙ push_option-each _ a.deployer _))))

-- A term that a text gives: what it trims to, where that is not empty.
abbrev pub TermOf : String → String → Type 0
TermOf u t = (u ≡ trim t) × (is_empty_str u ≡ false)

present :
    (terms : List String) (t u : String) → any terms (λ v. str_eq v t) ≡ true → u ≡ t → In u terms
present terms t u h e =
    let (v, i, q) = In-any (λ v. str_eq v t) terms h in
    subst (λ x. In x terms) (str_eq→≡ v t q ∙ sym e) i

push-In : (terms : List String) (t u : String) → In u (push terms t) ↔ (In u terms ⊎ TermOf u t)
unfolding push
push-In terms t u =
    if-keeps (λ l. In u l ↔ (In u terms ⊎ TermOf u t)) (is_empty_str (trim t))
      (λ h. (
        inl,
        elim [ inl i ↦ i | inr (e, n) ↦ absurd (false≢true (sym n ∙ ap is_empty_str e ∙ h)) ],
      ))
      (λ h.
        if-keeps (λ l. In u l ↔ (In u terms ⊎ TermOf u t)) (any terms (λ v. str_eq v (trim t)))
          (λ a. (inl, elim [ inl i ↦ i | inr (e, n) ↦ present terms (trim t) u a e ]))
          (λ _.
            let (f, g) = In-snoc terms u (trim t) in
            (
              λ i. elim (f i) [ inl j ↦ inl j | inr e ↦ inr (e, ap is_empty_str e ∙ h) ],
              elim [ inl i ↦ g (inl i) | inr (e, n) ↦ g (inr e) ],
            )))

each-In :
    (xs terms : List String) (u : String)
    → In u (each push terms xs) ↔ (In u terms ⊎ ((t : String) × In t xs × TermOf u t))
each-In [] terms u = (inl, elim [ inl i ↦ i | inr (t, i, _) ↦ absurd i ])
each-In (x ∷ xs) terms u =
    let (f, g) = each-In xs (push terms x) u in
    let (h, k) = push-In terms x u in
    (
      λ i. elim (f i) [
        | inr (t, j, q) ↦ inr (t, inr j, q)
        | inl j ↦ elim (h j) [ inl l ↦ inl l | inr q ↦ inr (x, inl refl, q) ]
      ],
      elim [
        | inl i ↦ g (inl (k (inl i)))
        | inr (t, inl e, q) ↦ g (inl (k (inr (subst (λ y. TermOf u y) e q))))
        | inr (t, inr j, q) ↦ g (inr (t, j, q))
      ],
    )

-- The query has the trimmed texts of the extraction that are not empty, and no other term.
pub build_lookup_query-In :
    (a : ActorExtraction) (u : String)
    → In u (build_lookup_query a) ↔ ((t : String) × In t (actor_texts a) × TermOf u t)
build_lookup_query-In a u =
    let (f, g) = each-In (actor_texts a) [] u in
    (
      λ i. elim (f (subst (λ l. In u l) (query-each a) i)) [ inl j ↦ absurd j | inr q ↦ q ],
      λ q. subst (λ l. In u l) (sym (query-each a)) (g (inr q)),
    )

fresh :
    (terms : List String) (t : String)
    → any terms (λ v. str_eq v t) ≡ false
    → All (λ v. v ≢ t) terms
fresh [] t h = tt
fresh (v ∷ terms) t h = (
  (λ e. false≢true (sym (left (str_eq v t) _ h) ∙ ≡→str_eq v t e)),
  fresh terms t (right (str_eq v t) _ h),
)

push-Apart :
    (terms : List String) (t : String)
    → Apart (λ s u. s ≢ u) terms
    → Apart (λ s u. s ≢ u) (push terms t)
unfolding push
push-Apart terms t h =
    if-keeps (Apart (λ s u. s ≢ u)) (is_empty_str (trim t)) (λ _. h)
      (λ _.
        if-keeps (Apart (λ s u. s ≢ u)) (any terms (λ v. str_eq v (trim t))) (λ _. h)
          (λ n. Apart-snoc (λ s t. s ≢ t) terms (trim t) h (fresh terms (trim t) n)))

-- No term stands twice in the query.
pub build_lookup_query-Apart : (a : ActorExtraction) → Apart (λ s t. s ≢ t) (build_lookup_query a)
build_lookup_query-Apart a =
    subst (Apart (λ s t. s ≢ t)) (sym (query-each a)) (
      each-keeps (Apart (λ s t. s ≢ t)) push (actor_texts a) (λ terms t _. push-Apart terms t) []
        tt)
