-- ===== src/Helius/Requests.antt =====
-- `request_json`: the retries of a request. The reply and the readings of the clocks of the n-th round
-- are arguments, the loop is on fuel, and of the JSON values there is what the code asks of them.
use solana_whale_intelligenc.Prelude.{
  get_at, set_at, ℕ, zero, suc, ◌%◌, ◌^◌, min, Bool, true, false, Option, none, some, String, ltb,
  if◌then◌else◌,
}
use solana_whale_intelligenc.Float.{F64}
use solana_whale_intelligenc.Helius.{
  ApiClass, BucketFloat, ProviderKey, record_success, record_failure, apply_cooldown,
}
use solana_whale_intelligenc.Helius.Usage.{record_usage}
use solana_whale_intelligenc.Helius.Pool.{
  HttpOutcome, success, rate_limited, auth_error, validation_error, server_error, network_error,
  from_status, HeliusPool, unconfigured, picked, unavailable, pick_provider,
}

-- `send` fails, or there are a status, the `retry-after` header, and the payload, where it decodes.
pub data Reply (V : Type 0) : Type 0 where
  send_error : Reply V
  response : ℕ → Option ℕ → Option V → Reply V

pub data Requested (V : Type 0) : Type 0 where
  answered : V → Requested V
  decode_error no_provider auth_failed validation_failed out_of_fuel : Requested V
  rpc_error : V → Requested V
  rate_limited_after server_error_after network_error_after failed_after : ℕ → Requested V

-- `attempt += 1` on a `u32`, which wraps around in a release build.
unfoldable pub next_attempt : ℕ → ℕ
next_attempt attempt = suc attempt % 2 ^ 32

-- A result of the code, not of the fuel.
abbrev pub is_ended : {V : Type 0} → Requested V → Bool
is_ended out_of_fuel = false
is_ended _ = true

module _ {V : Type 0} (fl : F64) (error_of : V → Option V) (result_of : V → V)
    (max_retries now : ℕ) where
  abbrev pub on_provider : ℕ → (ProviderKey fl → ProviderKey fl) → HeliusPool fl → HeliusPool fl
  on_provider i f pool = elim (get_at i pool.providers) [
    | none ↦ pool
    | some p ↦ record pool { providers = set_at i (f p) pool.providers }
  ]

  -- `attempt += 1`, and `bail!` where that is too many; `none` is another round of the loop.
  unfoldable pub retry_or : ℕ → (ℕ → Requested V) → Option (Requested V)
  unfolding next_attempt
  retry_or attempt failure =
      let attempt = next_attempt attempt in
      if ltb max_retries attempt then some (failure attempt) else none

  -- The payload of a success, and whether the key has failed again by it.
  unfoldable pub on_success : ℕ → Option V → HeliusPool fl → Option (Requested V) × HeliusPool fl
  on_success i none pool = (some decode_error, pool)
  on_success i (some value) pool = elim (error_of value) [
    | some error ↦ (some (rpc_error error), on_provider i (record_failure max_retries now) pool)
    | none ↦ (some (answered (result_of value)), pool)
  ]

  unfoldable pub on_outcome :
      ℕ → ℕ → Option V → HttpOutcome → HeliusPool fl → Option (Requested V) × HeliusPool fl
  on_outcome i attempt payload success pool =
      on_success i payload (on_provider i record_success pool)
  on_outcome i attempt payload (rate_limited retry_after) pool =
      let wait = min (elim retry_after [ none ↦ 1000000000 | some w ↦ w ]) 60000000000 in
      (retry_or attempt rate_limited_after, on_provider i (apply_cooldown wait now) pool)
  on_outcome i attempt payload auth_error pool =
      (some auth_failed, on_provider i (record_failure 3 now) pool)
  on_outcome i attempt payload validation_error pool =
      (some validation_failed, on_provider i (record_failure 3 now) pool)
  on_outcome i attempt payload server_error pool =
      (retry_or attempt server_error_after, on_provider i (record_failure max_retries now) pool)
  on_outcome i attempt payload network_error pool =
      (retry_or attempt network_error_after, on_provider i (record_failure max_retries now) pool)

  unfoldable pub on_reply : ℕ → ℕ → Reply V → HeliusPool fl → Option (Requested V) × HeliusPool fl
  on_reply i attempt send_error pool =
      (retry_or attempt failed_after, on_provider i (record_failure max_retries now) pool)
  on_reply i attempt (response status retry_after payload) pool =
      on_outcome i attempt payload (from_status status retry_after) pool

abbrev provider_id : {fl : F64} → ℕ → HeliusPool fl → String
provider_id i pool = elim (get_at i pool.providers) [ none ↦ "" | some p ↦ p.id ]

module _ {V : Type 0} (fl : F64) (fb : BucketFloat fl) (error_of : V → Option V) (result_of : V → V)
    (max_retries : ℕ) (class : ApiClass) (reply : ℕ → Reply V)
    (picks_at replies_at utc_at : ℕ → ℕ) where
  -- The usage is recorded, and then there is a reply.
  unfoldable pub send : ℕ → ℕ → ℕ → HeliusPool fl → Option (Requested V) × HeliusPool fl
  send i round attempt pool =
      on_reply fl error_of result_of max_retries (replies_at round) i attempt (reply round)
        (record pool { usage = record_usage (provider_id i pool) class (utc_at round) pool.usage })

  unfoldable pub request_loop : ℕ → ℕ → ℕ → HeliusPool fl → Requested V × HeliusPool fl
  unfolding next_attempt
  request_loop zero round attempt pool = (out_of_fuel, pool)
  request_loop (suc fuel) round attempt pool =
      let (choice, pool) = pick_provider fl fb class (picks_at round) pool in
      elim choice [
        | unconfigured ↦ (no_provider, pool)
        | unavailable wait ↦ (no_provider, pool)
        | picked i wait ↦
            let handled = send i round attempt pool in
            elim handled.0 [
              | some result ↦ (result, handled.1)
              | none ↦ request_loop fuel (suc round) (next_attempt attempt) handled.1
            ]
      ]

  -- The first request, and one for each retry.
  unfoldable pub request_json : HeliusPool fl → Requested V × HeliusPool fl
  request_json pool = request_loop (suc max_retries) 0 0 pool
