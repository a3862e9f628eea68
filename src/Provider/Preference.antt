-- ===== src/Provider/Preference.antt =====
-- `select_provider` against a description of who may serve, and who is preferred, without keys.
use solana_whale_intelligenc.Prelude.{
  ◌≡◌, ◌≢◌, refl, sym, ap, ◌∙◌, ◌↔◌, ◌<◌, ◌-◌, ℕ, Bool, true, false, Option, none, some, List, ◌∷◌,
  In, codes, arith, ltb,
}
use mathlib.Core.Bool.{true≢false}
use solana_whale_intelligenc.Float.{F64}
use solana_whale_intelligenc.Prelude.Lex.{lex_lt}
use solana_whale_intelligenc.Event.{
  SourceHealthState, up, silent, degraded, recovering, health_rank,
}
use solana_whale_intelligenc.Provider.{
  CapabilityRole, mandatory, vendor, fallback, ProviderCandidate, is_down, ineligible_reason,
  role_rank, u64_max, or_default, parts, rank_key, better, select_provider,
}
use solana_whale_intelligenc.Provider.Selection.{select-NotBetter}

-- May serve: every gate is open, and the provider is neither down nor disabled.
pub record IsUsable {F : Type 0} (c : ProviderCandidate F) : Type 0 where
  pub enabled : c.enabled ≡ true
  pub credential : c.credential_active ≡ true
  pub warm : c.in_cooldown ≡ false
  pub breaker : c.breaker_open ≡ false
  pub not_down : c.health_state ≢ SourceHealthState.down
  pub not_disabled : c.health_state ≢ SourceHealthState.disabled
  pub quota : c.has_quota ≡ true
  pub chain : c.chain_id_valid ≡ true

-- Mandatory before vendor before fallback.
abbrev pub role_before : CapabilityRole → CapabilityRole → Bool
role_before mandatory vendor = true
role_before mandatory fallback = true
role_before vendor fallback = true
role_before _ _ = false

-- Up, recovering, degraded, silent; those that are down or disabled come last.
abbrev pub healthier : SourceHealthState → SourceHealthState → Bool
healthier up up = false
healthier up _ = true
healthier recovering up = false
healthier recovering recovering = false
healthier recovering _ = true
healthier degraded silent = true
healthier degraded SourceHealthState.down = true
healthier degraded SourceHealthState.disabled = true
healthier silent SourceHealthState.down = true
healthier silent SourceHealthState.disabled = true
healthier _ _ = false

-- A known latency that is smaller, or known where the other is not.
abbrev pub sooner : Option ℕ → Option ℕ → Bool
sooner (some a) (some b) = ltb a b
sooner (some a) none = ltb a u64_max
sooner none _ = false

module _ (fl : F64) where
  open fl use {F, literal, sub, mul, round, maximum, greatest, to_u64}

  -- 1000 less the weight in thousandths, and the cost in millionths, as the `u64` of the source.
  abbrev pub lightness : ProviderCandidate F → ℕ
  lightness c = to_u64 (
      maximum (sub (literal false 10000 1) (round (mul c.weight (literal false 10000 1))))
        (literal false 0 1))

  abbrev pub cost : ProviderCandidate F → ℕ
  cost c = to_u64 (mul (or_default c.cost_per_request greatest) (literal false 1_000_000 0))

-- `d` is preferred to `b`, for the reason named; each reason counts where those before it are equal.
pub data Preferred (fl : F64) (d b : ProviderCandidate fl.F) : Type 0 where
  by_role : role_before d.capability_role b.capability_role ≡ true → Preferred fl d b
  by_health :
      d.capability_role ≡ b.capability_role
      → healthier d.health_state b.health_state ≡ true
      → Preferred fl d b
  by_weight :
      d.capability_role ≡ b.capability_role
      → d.health_state ≡ b.health_state
      → lightness fl d < lightness fl b
      → Preferred fl d b
  by_latency :
      d.capability_role ≡ b.capability_role
      → d.health_state ≡ b.health_state
      → lightness fl d ≡ lightness fl b
      → sooner d.latency_ms b.latency_ms ≡ true
      → Preferred fl d b
  by_cost :
      d.capability_role ≡ b.capability_role
      → d.health_state ≡ b.health_state
      → lightness fl d ≡ lightness fl b
      → d.latency_ms ≡ b.latency_ms
      → cost fl d < cost fl b
      → Preferred fl d b
  by_name :
      d.capability_role ≡ b.capability_role
      → d.health_state ≡ b.health_state
      → lightness fl d ≡ lightness fl b
      → d.latency_ms ≡ b.latency_ms
      → cost fl d ≡ cost fl b
      → lex_lt (codes d.source_id) (codes b.source_id) ≡ true
      → Preferred fl d b

-- The lexical order as a relation: by the first place where two lists differ.
data Less : List ℕ → List ℕ → Type 0 where
  at_first : {x y : ℕ} {xs ys : List ℕ} → x < y → Less (x ∷ xs) (y ∷ ys)
  after : {x y : ℕ} {xs ys : List ℕ} → x ≡ y → Less xs ys → Less (x ∷ xs) (y ∷ ys)
  decided : {xs ys : List ℕ} → lex_lt xs ys ≡ true → Less xs ys

Less-lex_lt : (xs ys : List ℕ) → Less xs ys → lex_lt xs ys ≡ true
Less-lex_lt _ _ (at_first h) = ground arith
Less-lex_lt _ _ (after {x} {y} {xs} {ys} e h) = ground (arith, Less-lex_lt xs ys h)
Less-lex_lt _ _ (decided h) = h

role_rank_lt : (a b : CapabilityRole) → role_before a b ≡ true → role_rank a < role_rank b
unfolding role_rank
role_rank_lt a b h = ground arith

health_rank_lt :
    (a b : SourceHealthState) → healthier a b ≡ true → 255 - health_rank a < 255 - health_rank b
unfolding health_rank
health_rank_lt a b h = ground arith

sooner_lt : (a b : Option ℕ) → sooner a b ≡ true → or_default a u64_max < or_default b u64_max
sooner_lt a b h = ground arith

module _ (fl : F64) where
  open fl use {F}

  Preferred-Less :
      (d b : ProviderCandidate F)
      → Preferred fl d b
      → Less (parts (rank_key fl d)) (parts (rank_key fl b))
  unfolding rank_key
  Preferred-Less d b (by_role r) = at_first (role_rank_lt _ _ r)
  Preferred-Less d b (by_health r h) = after (ap role_rank r) (at_first (health_rank_lt _ _ h))
  Preferred-Less d b (by_weight r h w) =
      after (ap role_rank r) (after (ap (λ s. 255 - health_rank s) h) (at_first w))
  Preferred-Less d b (by_latency r h w l) = after (ap role_rank r) (
      after (ap (λ s. 255 - health_rank s) h)
        (after w (at_first (sooner_lt d.latency_ms b.latency_ms l))))
  Preferred-Less d b (by_cost r h w l c) = after (ap role_rank r) (
      after (ap (λ s. 255 - health_rank s) h)
        (after w (after (ap (λ o. or_default o u64_max) l) (at_first c))))
  Preferred-Less d b (by_name r h w l c n) = after (ap role_rank r) (
      after (ap (λ s. 255 - health_rank s) h)
        (after w (after (ap (λ o. or_default o u64_max) l) (after c (decided n)))))

  Preferred-better : (d b : ProviderCandidate F) → Preferred fl d b → better fl d b ≡ true
  unfolding better
  Preferred-better d b p =
      Less-lex_lt (parts (rank_key fl d)) (parts (rank_key fl b)) (Preferred-Less d b p)

  IsUsable-iff : (c : ProviderCandidate F) → (ineligible_reason c ≡ none) ↔ IsUsable c
  unfolding ineligible_reason
  IsUsable-iff c = (
    λ h. record {
      enabled = ground arith;
      credential = ground arith;
      warm = ground arith;
      breaker = ground arith;
      not_down = λ e. ground arith;
      not_disabled = λ e. ground arith;
      quota = ground arith;
      chain = ground arith;
    },
    λ u.
        let a = u.not_down in
        let b = u.not_disabled in
        rw (u.enabled, u.credential, u.warm, u.breaker, alive c.health_state a b, u.quota, u.chain)
          refl,
  )
    where
      alive :
          (s : SourceHealthState)
          → s ≢ SourceHealthState.down
          → s ≢ SourceHealthState.disabled
          → is_down s ≡ false
      alive s a b = ground arith

  -- The provider that is selected is one of the candidates and may serve: it is enabled with an
  -- active credential, quota left and a valid chain id, is not cooling down, has its breaker
  -- closed, and is neither down nor disabled. And no candidate that may serve is preferred to it: by
  -- its role (mandatory, vendor, fallback), then its health (up, recovering, degraded, silent), then
  -- its weight, its latency, an unknown one last, its cost, and last by its name.
  pub select-least :
      (cs : List (ProviderCandidate F)) {b : ProviderCandidate F}
      → select_provider fl cs ≡ some b
      → In b cs
        × IsUsable b
        × ((d : ProviderCandidate F) → In d cs → IsUsable d → ¬ Preferred fl d b)
  select-least cs {b} h =
      let (i, n, k) = select-NotBetter fl cs h in
      (
        i,
        (IsUsable-iff b).0 n,
        λ d j u p. true≢false (sym (Preferred-better d b p) ∙ k d j ((IsUsable-iff d).1 u)),
      )
