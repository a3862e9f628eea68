-- ===== src/Helius/Pool.antt =====
-- `HttpOutcome`, `pick_provider` and `request_json`. The clock is read once for a pick and once for
-- what follows a reply; a reply of the network is an argument, and of its payload there are the
-- decoded value, its error and its result. A wait is not modelled.
use solana_whale_intelligenc.Prelude.{
  ℕ, zero, suc, ◌*◌, ◌%◌, Bool, true, false, ◌&&◌, ◌||◌, Option, none, some, List, [], ◌∷◌, length,
  get_at, set_at, is_empty, leb, ltb, ◌==◌, if◌then◌else◌,
}
use solana_whale_intelligenc.Float.{F64}
use solana_whale_intelligenc.Helius.{ApiClass, BucketFloat, ProviderKey, key_acquire, is_available}
use solana_whale_intelligenc.Helius.Usage.{UsageRecord}

pub data HttpOutcome : Type 0 where
  success auth_error validation_error server_error network_error : HttpOutcome
  rate_limited : Option ℕ → HttpOutcome

unfoldable pub retryable : HttpOutcome → Bool
retryable (rate_limited retry_after) = true
retryable server_error = true
retryable network_error = true
retryable success = false
retryable auth_error = false
retryable validation_error = false

-- `is_success` and `is_client_error` are the ranges of 200 and of 400; the second argument is the
-- parsed header, in seconds.
unfoldable pub from_status : ℕ → Option ℕ → HttpOutcome
from_status status retry_after =
    if leb 200 status && ltb status 300
    then success
    else if status == 429
    then rate_limited (elim retry_after [ none ↦ none | some secs ↦ some (secs * 1000000000) ])
    else if status == 401 || status == 403
    then auth_error
    else if leb 400 status && ltb status 500
    then validation_error
    else server_error

pub record HeliusPool (fl : F64) : Type 0 where
  pub providers : List (ProviderKey fl)
  pub next : ℕ  -- an atomic counter, which has not wrapped around
  pub usage : List UsageRecord

-- Where the loop stands: the provider that had a token, the best wait, and the keys.
pub record Search (fl : F64) : Type 0 where
  pub found : Option ℕ
  pub best_wait : Option (ℕ × ℕ)
  pub keys : List (ProviderKey fl)

pub data Picked : Type 0 where
  unconfigured : Picked
  picked : ℕ → Option ℕ → Picked
  unavailable : ℕ → Picked

-- A wait replaces a longer one.
unfoldable pub closer_wait : Option (ℕ × ℕ) → ℕ → ℕ → Option (ℕ × ℕ)
closer_wait none i wait = some (i, wait)
closer_wait (some (j, w)) i wait = if ltb wait w then some (i, wait) else some (j, w)

unfoldable pub shorter : Option ℕ → ℕ → Option ℕ
shorter none wait = some wait
shorter (some s) wait = if ltb wait s then some wait else some s

module _ (fl : F64) (fb : BucketFloat fl) (class : ApiClass) (now : ℕ) where
  -- The offsets that are left, from `start + offset` on.
  unfoldable pub search : ℕ → ℕ → ℕ → Option (ℕ × ℕ) → List (ProviderKey fl) → Search fl
  search zero position count best keys = record { found = none; best_wait = best; keys = keys }
  search (suc left) position count best keys = elim (get_at (position % count) keys) [
    | none ↦ record { found = none; best_wait = best; keys = keys }
    | some p ↦ elim (is_available now p) [
      | false ↦ search left (suc position) count best keys
      | true ↦
          let taken = key_acquire fl fb class now p in
          let keys = set_at (position % count) taken.1 keys in
          elim taken.0 [
            | none ↦ record { found = some (position % count); best_wait = best; keys = keys }
            | some wait ↦
                search left (suc position) count (closer_wait best (position % count) wait) keys
          ]
    ]
  ]

  -- The second loop, over all keys.
  unfoldable pub shortest_wait : List (ProviderKey fl) → Option ℕ → Option ℕ × List (ProviderKey fl)
  shortest_wait [] shortest = (shortest, [])
  shortest_wait (p ∷ keys) shortest =
      let taken = key_acquire fl fb class now p in
      let rest =
        shortest_wait keys (elim taken.0 [ none ↦ shortest | some w ↦ shorter shortest w ]) in
      (rest.0, taken.1 ∷ rest.1)

  unfoldable pub settle : HeliusPool fl → Search fl → Picked × HeliusPool fl
  settle pool s = elim s.found [
    | some i ↦ (picked i none, record pool { providers = s.keys })
    | none ↦ elim s.best_wait [
      | some (i, wait) ↦ (picked i (some wait), record pool { providers = s.keys })
      | none ↦
          let waited = shortest_wait s.keys none in
          (
            unavailable (elim waited.0 [ none ↦ 500000000 | some w ↦ w ]),
            record pool { providers = waited.1 },
          )
    ]
  ]

  unfoldable pub pick_provider : HeliusPool fl → Picked × HeliusPool fl
  pick_provider pool =
      let count = length pool.providers in
      if is_empty pool.providers
      then (unconfigured, pool)
      else settle (record pool { next = suc pool.next })
          (search count pool.next count none pool.providers)
