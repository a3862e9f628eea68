-- ===== src/Helius/Picking.antt =====
-- The search of `pick_provider`.
use mathlib.Core.Bool.{true≢false}
use mathlib.Core.Option.{none-ne-some, some-injective}
use native.Mathlib.Nat.{mod-lt, mod-add-mod, mod-eq_of_lt, add-mod_right}
use solana_whale_intelligenc.Prelude.{
  ◌≡◌, refl, sym, ap, ◌∙◌, subst, ◌⊎◌, inl, inr, ◌<◌, ℕ, zero, suc, ◌+◌, ◌-◌, ◌%◌, true, false,
  Option, none, some, List, [], ◌∷◌, length, get_at, set_at, get_at-bounded, length-set_at,
  is_empty, ltb, leb, arith, Bool-cases, if-keeps, elim-keeps, option-keeps,
}
use solana_whale_intelligenc.Float.{F64}
use solana_whale_intelligenc.Helius.{
  ApiClass, BucketFloat, ProviderKey, key_acquire, set_bucket, is_available,
}
use solana_whale_intelligenc.Helius.Pool.{
  HeliusPool, Search, Picked, picked, closer_wait, search, settle, pick_provider,
}

-- Places and lengths of lists of keys.
module _ {A : Type 0} where
  not_empty : (xs : List A) {j : ℕ} → j < length xs → is_empty xs ≡ true → ⊥
  not_empty [] h e = omega arith
  not_empty (x ∷ xs) h e = true≢false (sym e)

plus_zero : (n : ℕ) → n + 0 ≡ n
plus_zero n = omega arith

plus_suc : (n k : ℕ) → n + suc k ≡ suc n + k
plus_suc n k = omega arith

-- The place that a cursor reaches, for each place.
over : (s j : ℕ) → leb s j ≡ true → s + (j - s) ≡ j
over s j e = ground arith

under : (s j count : ℕ) → leb s j ≡ false → s < count → s + (j + count - s) ≡ j + count
under s j count e h = ground arith

reached : (start count j : ℕ) → j < count → (k : ℕ) × (k < count) × ((start + k) % count ≡ j)
reached start count j h = elim (Bool-cases (leb (start % count) j)) [
  | inl e ↦ (
    j - start % count,
    ground arith,
    sym (mod-add-mod start count (j - start % count))
        ∙ (ap (λ n. n % count) (over (start % count) j e) ∙ mod-eq_of_lt h),
  )
  | inr e ↦ (
    j + count - start % count,
    ground (arith, mod-lt start {m = count} (omega (arith, h))),
    sym (mod-add-mod start count (j + count - start % count))
        ∙ (ap (λ n. n % count) (under (start % count) j count e (mod-lt start (omega (arith, h))))
            ∙ (add-mod_right j count ∙ mod-eq_of_lt h)),
  )
]

module _ (fl : F64) (fb : BucketFloat fl) (class : ApiClass) (now : ℕ) where
  -- To take a token leaves the cooldown and the breaker.
  acquire-available :
      (p : ProviderKey fl) → is_available now (key_acquire fl fb class now p).1 ≡ is_available now p
  unfolding key_acquire set_bucket is_available
  acquire-available p = ground arith

  abbrev Available : ℕ → List (ProviderKey fl) → Type 0
  Available i keys = (p : ProviderKey fl) × (get_at i keys ≡ some p) × (is_available now p ≡ true)

  set_at-Available :
      (i j : ℕ) (q : ProviderKey fl) (keys : List (ProviderKey fl))
      → is_available now q ≡ true
      → Available j keys
      → Available j (set_at i q keys)
  set_at-Available i j q [] h a = a
  set_at-Available zero zero q (x ∷ keys) h a = (q, refl, h)
  set_at-Available zero (suc j) q (x ∷ keys) h a = a
  set_at-Available (suc i) zero q (x ∷ keys) h a = a
  set_at-Available (suc i) (suc j) q (x ∷ keys) h a = set_at-Available i j q keys h a

  -- A key was found, or at least one to wait for.
  abbrev Some : Search fl → Type 0
  Some s = ((i : ℕ) × (s.found ≡ some i)) ⊎ ((b : ℕ × ℕ) × (s.best_wait ≡ some b))

  -- What the rest of the search has to find.
  abbrev Ahead : ℕ → ℕ → ℕ → Option (ℕ × ℕ) → List (ProviderKey fl) → Type 0
  Ahead left position count best keys =
      ((b : ℕ × ℕ) × (best ≡ some b))
      ⊎ ((k : ℕ) × (k < left) × Available ((position + k) % count) keys)

  closer_wait-some :
      (best : Option (ℕ × ℕ)) (i wait : ℕ) → (b : ℕ × ℕ) × (closer_wait best i wait ≡ some b)
  unfolding closer_wait
  closer_wait-some none i wait = ((i, wait), refl)
  closer_wait-some (some (j, w)) i wait =
      if-keeps (λ o. (b : ℕ × ℕ) × (o ≡ some b)) (ltb wait w) (λ _. ((i, wait), refl))
        (λ _. ((j, w), refl))

  -- One round on, where the key at the cursor is not available.
  ahead :
      (left position count : ℕ) (keys : List (ProviderKey fl)) (best : Option (ℕ × ℕ))
      (p : ProviderKey fl)
      → get_at (position % count) keys ≡ some p
      → is_available now p ≡ false
      → Ahead (suc left) position count best keys
      → Ahead left (suc position) count best keys
  ahead left position count keys best p e a (inl b) = inl b
  ahead left position count keys best p e a (inr (zero, l, (q, f, g))) =
      let e = ap (λ n. get_at (n % count) keys) (plus_zero position) ∙ e in
      absurd (true≢false (sym g ∙ ap (is_available now) (some-injective _ _ (sym f ∙ e)) ∙ a))
  ahead left position count keys best p e a (inr (suc k, l, (q, f, g))) = inr (
    k,
    omega (arith, l),
    (q, sym (ap (λ n. get_at (n % count) keys) (plus_suc position k)) ∙ f, g),
  )

  search_finds :
      (left position count : ℕ) (best : Option (ℕ × ℕ)) (keys : List (ProviderKey fl))
      → 0 < count
      → count ≡ length keys
      → Ahead left position count best keys
      → Some (search fl fb class now left position count best keys)
  unfolding search
  search_finds zero position count best keys c l (inl b) = inr b
  search_finds zero position count best keys c l (inr (k, h, _)) = absurd (omega arith)
  search_finds (suc left) position count best keys c l h =
      let (there, at) =
        get_at-bounded (position % count) keys
          (subst (λ n. position % count < n) l (mod-lt position c)) in
      option-keeps Some (get_at (position % count) keys)
        (λ e. absurd (none-ne-some there (sym e ∙ at)))
        (λ p e.
          elim-keeps Some (is_available now p)
            (λ a.
              search_finds left (suc position) count best keys c l
                (ahead left position count keys best p e a h))
            (λ a.
              option-keeps Some (key_acquire fl fb class now p).0
                (λ _. inl (position % count, refl))
                (λ wait _.
                  search_finds left (suc position) count _ _ c
                    (l ∙ sym (length-set_at (position % count) _ keys))
                    (inl (closer_wait-some best (position % count) wait)))))

  picks :
      (pool : HeliusPool fl) (s : Search fl)
      → Some s
      → (i : ℕ) × (wait : Option ℕ) × ((settle fl fb class now pool s).0 ≡ picked i wait)
  unfolding settle
  picks pool s (inl (i, e)) = (i, none, rw (settle, e) refl)
  picks pool s (inr ((i, wait), e)) =
      option-keeps {A = ℕ} {B = Picked × HeliusPool fl}
        (λ r. (j : ℕ) × (w : Option ℕ) × (r.0 ≡ picked j w)) s.found
        (λ _. (i, some wait, rw e refl)) (λ j _. (j, none, refl))

  -- Where some provider is neither cooling down nor behind an open breaker, `pick_provider` gives back
  -- a provider, wherever the cursor stands.
  pub pick_provider-finds :
      (pool : HeliusPool fl) (j : ℕ) (p : ProviderKey fl)
      → get_at j pool.providers ≡ some p
      → j < length pool.providers
      → is_available now p ≡ true
      → (i : ℕ) × (wait : Option ℕ) × ((pick_provider fl fb class now pool).0 ≡ picked i wait)
  unfolding pick_provider
  pick_provider-finds pool j p e l a =
      let (k, h, r) = reached pool.next (length pool.providers) j l in
      if-keeps {A = Picked × HeliusPool fl} (λ r. (i : ℕ) × (w : Option ℕ) × (r.0 ≡ picked i w))
        (is_empty pool.providers) (λ z. absurd (not_empty pool.providers l z))
        (λ _.
          picks (record pool { next = suc pool.next }) _
            (search_finds (length pool.providers) pool.next (length pool.providers) none
              pool.providers (omega (arith, l)) refl
              (inr (k, h, (p, ap (λ n. get_at n pool.providers) r ∙ e, a)))))
