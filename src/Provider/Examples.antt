-- ===== src/Provider/Examples.antt =====
-- A concrete choice between providers, and the theorems at it.
use solana_whale_intelligenc.Prelude.{◌≡◌, refl, true, false, none, some, List, [], ◌∷◌, In}
use solana_whale_intelligenc.Float.Sample.{sample}
use solana_whale_intelligenc.Event.{SourceHealthState, health_rank}
use solana_whale_intelligenc.Provider.{
  vendor, ProviderCandidate, ineligible_reason, role_rank, rank_key, better, best_of, min_by_key,
  select_provider,
}
use solana_whale_intelligenc.Provider.Preference.{IsUsable, Preferred, select-least}

abbrev quick : ProviderCandidate sample.F
quick = record {
  source_id = "quick";
  capability_role = vendor;
  health_state = SourceHealthState.up;
  weight = sample.literal false 10 1;
  latency_ms = some 40;
  cost_per_request = none;
  enabled = true;
  credential_active = true;
  in_cooldown = false;
  breaker_open = false;
  has_quota = true;
  chain_id_valid = true;
}

abbrev slow : ProviderCandidate sample.F
slow = record quick { source_id = "slow"; latency_ms = none }

-- The best by every rank, but cooling down.
abbrev cooling : ProviderCandidate sample.F
cooling = record quick { source_id = "cooling"; latency_ms = some 1; in_cooldown = true }

abbrev candidates : List (ProviderCandidate sample.F)
candidates = slow ∷ cooling ∷ quick ∷ []

quick_selected : select_provider sample candidates ≡ some quick
unfolding select_provider min_by_key best_of better rank_key role_rank health_rank ineligible_reason
quick_selected = refl

quick_eligible : ineligible_reason quick ≡ none
unfolding ineligible_reason
quick_eligible = refl

slow_eligible : ineligible_reason slow ≡ none
unfolding ineligible_reason
slow_eligible = refl

select-least_example :
    In quick candidates
    × IsUsable quick
    × ((d : ProviderCandidate sample.F) → In d candidates → IsUsable d → ¬ Preferred sample d quick)
select-least_example = select-least sample candidates quick_selected
