-- ===== src/Provider.antt =====
-- src/sf/source.rs: which provider serves a request. An eligibility filter comes first, then a
-- ranking by a key of six parts, the last of which is the source's id.
pub mod Selection
pub mod Preference
mod Examples
use solana_whale_intelligenc.Prelude.{
  ℕ, ◌-◌, ◌^◌, Bool, true, false, not, Option, none, some, List, [], ◌∷◌, String, ltb, filter,
  codes, if◌then◌else◌,
}
use solana_whale_intelligenc.Prelude.Lex.{lex_lt}
use solana_whale_intelligenc.Float.{F64}
use solana_whale_intelligenc.Event.{
  SourceHealthState, up, silent, degraded, down, recovering, health_rank,
}

pub data CapabilityRole : Type 0 where
  mandatory vendor fallback : CapabilityRole

pub data IneligibleReason : Type 0 where
  disabled credential_auth_failed cooldown circuit_breaker_open health_down : IneligibleReason
  out_of_quota chain_id_invalid : IneligibleReason

pub record ProviderCandidate (F : Type 0) : Type 0 where
  pub source_id : String
  pub capability_role : CapabilityRole
  pub health_state : SourceHealthState
  pub weight : F
  pub latency_ms : Option ℕ  -- u64
  pub cost_per_request : Option F
  pub enabled : Bool
  pub credential_active : Bool
  pub in_cooldown : Bool
  pub breaker_open : Bool
  pub has_quota : Bool
  pub chain_id_valid : Bool

-- `matches!(self.health_state, Down | Disabled)`
abbrev pub is_down : SourceHealthState → Bool
is_down SourceHealthState.down = true
is_down SourceHealthState.disabled = true
is_down _ = false

unfoldable pub ineligible_reason : {F : Type 0} → ProviderCandidate F → Option IneligibleReason
ineligible_reason c =
    if not c.enabled
    then some IneligibleReason.disabled
    else if not c.credential_active
    then some credential_auth_failed
    else if c.in_cooldown
    then some cooldown
    else if c.breaker_open
    then some circuit_breaker_open
    else if is_down c.health_state
    then some health_down
    else if not c.has_quota
    then some out_of_quota
    else if not c.chain_id_valid
    then some chain_id_invalid
    else none

abbrev pub is_eligible : {F : Type 0} → ProviderCandidate F → Bool
is_eligible c = elim (ineligible_reason c) [ none ↦ true | some r ↦ false ]

unfoldable pub role_rank : CapabilityRole → ℕ
role_rank mandatory = 0
role_rank vendor = 1
role_rank fallback = 2

-- The tuple of the source: role, health, weight, latency, cost, source id.
abbrev pub RankKey : Type 0
RankKey = ℕ × ℕ × ℕ × ℕ × ℕ × String

-- The tuple as its parts in order, the text by its code points: `<` on the tuples is `lex_lt`.
abbrev pub parts : RankKey → List ℕ
parts (role, health, weight, latency, cost, id) = role ∷ health ∷ weight ∷ latency ∷ cost ∷ codes id

abbrev u64_max : ℕ
u64_max = 2 ^ 64 - 1

-- `unwrap_or`
abbrev pub or_default {ℓ} : {A : Type ℓ} → Option A → A → A
or_default none d = d
or_default (some a) d = a

module _ (fl : F64) where
  open fl use {F, literal, sub, mul, round, maximum, greatest, to_u64}

  unfoldable pub rank_key : ProviderCandidate F → RankKey
  rank_key c = (
    role_rank c.capability_role,
    255 - health_rank c.health_state,
    to_u64 (
        maximum (sub (literal false 10000 1) (round (mul c.weight (literal false 10000 1))))
          (literal false 0 1)),
    or_default c.latency_ms u64_max,
    to_u64 (mul (or_default c.cost_per_request greatest) (literal false 1_000_000 0)),
    c.source_id,
  )

  unfoldable pub better : ProviderCandidate F → ProviderCandidate F → Bool
  better d c = lex_lt (parts (rank_key d)) (parts (rank_key c))

  -- `min_by_key`: the first of the least.
  unfoldable pub best_of : ProviderCandidate F → List (ProviderCandidate F) → ProviderCandidate F
  best_of c [] = c
  best_of c (d ∷ ds) = best_of (if better d c then d else c) ds

  unfoldable pub min_by_key : List (ProviderCandidate F) → Option (ProviderCandidate F)
  min_by_key [] = none
  min_by_key (c ∷ cs) = some (best_of c cs)

  unfoldable pub select_provider : List (ProviderCandidate F) → Option (ProviderCandidate F)
  select_provider candidates = min_by_key (filter is_eligible candidates)
