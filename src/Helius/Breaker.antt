-- ===== src/Helius/Breaker.antt =====
-- The circuit breaker of a key.
use solana_whale_intelligenc.Prelude.{
  ◌≡◌, refl, sym, ◌<◌, ◌+◌, ◌%◌, ◌-◌, subst, Option-cases, ℕ, suc, true, false, inl, inr, some,
  List, [], ◌∷◌, each, length, arith, leb,
}
use solana_whale_intelligenc.Float.{F64}
use solana_whale_intelligenc.Helius.{ProviderKey, record_failure, is_available, left_of}

next_count :
    (n threshold : ℕ)
    → suc n < threshold
    → threshold < 18446744073709551616
    → ((n + 1) % 18446744073709551616 ≡ suc n)
      × (leb threshold ((n + 1) % 18446744073709551616) ≡ false)
next_count n threshold h w = (ground arith, ground arith)

full_count :
    (n threshold : ℕ)
    → suc n ≡ threshold
    → threshold < 18446744073709551616
    → leb threshold ((n + 1) % 18446744073709551616) ≡ true
full_count n threshold h w = ground arith

-- Within the time of an entry there is some left.
left_of-within : (now until : ℕ) → now < until → left_of now (some until) ≡ some (until - now)
unfolding left_of
left_of-within now until h = ground arith

module _ {fl : F64} where
  -- Failures one after the other, at their instants.
  abbrev pub fail_at : ℕ → ProviderKey fl → List ℕ → ProviderKey fl
  fail_at threshold = each (λ p now. record_failure threshold now p)

  record_failure-few :
      (threshold now : ℕ) (p : ProviderKey fl)
      → suc p.consecutive_failures < threshold
      → threshold < 18446744073709551616
      → record_failure threshold now p
        ≡ record p { consecutive_failures = suc p.consecutive_failures }
  unfolding record_failure
  record_failure-few threshold now p h w =
      let (c, l) = next_count p.consecutive_failures threshold h w in rw (record_failure, l, c) refl

  -- Fewer failures than the threshold are counted, and leave the breaker.
  few_failures :
      (threshold : ℕ) (p : ProviderKey fl) (nows : List ℕ)
      → p.consecutive_failures + length nows < threshold
      → threshold < 18446744073709551616
      → ((fail_at threshold p nows).consecutive_failures ≡ p.consecutive_failures + length nows)
        × ((fail_at threshold p nows).open_until ≡ p.open_until)
  few_failures threshold p [] h w = (omega arith, refl)
  few_failures threshold p (now ∷ nows) h w =
      let q : ProviderKey fl = record p { consecutive_failures = suc p.consecutive_failures } in
      let (a, b) = few_failures threshold q nows (omega (arith, h)) w in
      subst
        (λ r.
          ((fail_at threshold r nows).consecutive_failures
            ≡ p.consecutive_failures + suc (length nows))
          × ((fail_at threshold r nows).open_until ≡ p.open_until))
        (sym (record_failure-few threshold now p (omega (arith, h)) w)) (omega (arith, a), b)

  opened :
      (threshold now : ℕ) (p : ProviderKey fl)
      → suc p.consecutive_failures ≡ threshold
      → threshold < 18446744073709551616
      → record_failure threshold now p
        ≡ record p { consecutive_failures = 0; open_until = some (now + 60000000000) }
  unfolding record_failure
  opened threshold now p h w =
      rw (record_failure, full_count p.consecutive_failures threshold h w) refl

  open_unavailable :
      (p : ProviderKey fl) (until now : ℕ)
      → p.open_until ≡ some until
      → now < until
      → is_available now p ≡ false
  unfolding is_available
  open_unavailable p until now e h = elim (Option-cases (left_of now p.cooldown_until)) [
    | inl c ↦ rw (is_available, c, e, left_of-within now until h) refl
    | inr (wait, c) ↦ rw (is_available, c) refl
  ]

  -- From a key without failures, the failures before the one that reaches the threshold leave the
  -- breaker as it was; that one makes the key unavailable for 60 seconds, and the count starts again.
  pub breaker_opens :
      (threshold last now : ℕ) (p : ProviderKey fl) (nows : List ℕ)
      → p.consecutive_failures ≡ 0
      → suc (length nows) ≡ threshold
      → threshold < 18446744073709551616
      → now < last + 60000000000
      → ((fail_at threshold p nows).open_until ≡ p.open_until)
        × (is_available now (record_failure threshold last (fail_at threshold p nows)) ≡ false)
        × ((record_failure threshold last (fail_at threshold p nows)).consecutive_failures ≡ 0)
  breaker_opens threshold last now p nows z t w h =
      let (a, b) = few_failures threshold p nows (omega (arith, z, t)) w in
      let e = opened threshold last (fail_at threshold p nows) (omega (arith, a, z, t)) w in
      (
        b,
        subst (λ r. is_available now r ≡ false) (sym e)
            (open_unavailable _ (last + 60000000000) now refl h),
        subst (λ r. r.consecutive_failures ≡ 0) (sym e) refl,
      )
