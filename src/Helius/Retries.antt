-- ===== src/Helius/Retries.antt =====
-- `request_json`: the replies that are followed by another round, and the number of rounds.
use mathlib.Core.Option.{none-ne-some, some-injective}
use solana_whale_intelligenc.Prelude.{
  ◌≡◌, ◌≢◌, refl, sym, ap, ◌∙◌, ◌<◌, ◌≤◌, ℕ, zero, suc, ◌+◌, ◌-◌, ◌%◌, ◌^◌, true, Option, none,
  some, ltb, arith, if-keeps, option-keeps,
}
use solana_whale_intelligenc.Float.{F64}
use solana_whale_intelligenc.Helius.{ApiClass, BucketFloat, record_success}
use solana_whale_intelligenc.Helius.Pool.{
  HttpOutcome, success, rate_limited, auth_error, validation_error, server_error, network_error,
  retryable, from_status, HeliusPool, Picked, unconfigured, picked, unavailable, pick_provider,
}
use solana_whale_intelligenc.Helius.Requests.{
  Reply, send_error, response, Requested, answered, decode_error, auth_failed, validation_failed,
  rpc_error, rate_limited_after, server_error_after, network_error_after, failed_after, is_ended,
  next_attempt, on_provider, retry_or, on_success, on_outcome, on_reply, send, request_loop,
  request_json,
}

module _ {V : Type 0} (fl : F64) (error_of : V → Option V) (result_of : V → V)
    (max_retries now : ℕ) where
  -- The replies after which another round may follow.
  abbrev pub IsRetryable : Reply V → Type 0
  IsRetryable send_error = Unit
  IsRetryable (response status retry_after payload) =
      retryable (from_status status retry_after) ≡ true

  retry_or-none :
      (attempt : ℕ) (failure : ℕ → Requested V)
      → max_retries < 2 ^ 32 - 1
      → attempt ≤ max_retries
      → retry_or fl error_of result_of max_retries now attempt failure ≡ none
      → attempt < max_retries
  unfolding retry_or next_attempt
  retry_or-none attempt failure m a h = ground arith

  -- With the greatest `u32` as the configured number, no counter of attempts is above it.
  retry_or-greatest :
      (attempt : ℕ) (failure : ℕ → Requested V)
      → max_retries ≡ 2 ^ 32 - 1
      → retry_or fl error_of result_of max_retries now attempt failure ≡ none
  unfolding retry_or next_attempt
  retry_or-greatest attempt failure m = ground arith

  on_success-some :
      (i : ℕ) (payload : Option V) (pool : HeliusPool fl)
      → (on_success fl error_of result_of max_retries now i payload pool).0 ≢ none
  unfolding on_success
  on_success-some i none pool = λ h. cc
  on_success-some i (some value) pool =
      option-keeps {B = Option (Requested V) × HeliusPool fl} (λ r. r.0 ≢ none) (error_of value)
        (λ _ h. cc) (λ error _ h. cc)

  on_outcome-none :
      (i attempt : ℕ) (payload : Option V) (outcome : HttpOutcome) (pool : HeliusPool fl)
      → max_retries < 2 ^ 32 - 1
      → attempt ≤ max_retries
      → (on_outcome fl error_of result_of max_retries now i attempt payload outcome pool).0 ≡ none
      → (retryable outcome ≡ true) × (attempt < max_retries)
  unfolding on_outcome retryable
  on_outcome-none i attempt payload success pool m a h = absurd (
      on_success-some i payload
        (on_provider fl error_of result_of max_retries now i record_success pool) h)
  on_outcome-none i attempt payload (rate_limited retry_after) pool m a h =
      (refl, retry_or-none attempt rate_limited_after m a h)
  on_outcome-none i attempt payload auth_error pool m a h = absurd (none-ne-some _ (sym h))
  on_outcome-none i attempt payload validation_error pool m a h = absurd (none-ne-some _ (sym h))
  on_outcome-none i attempt payload server_error pool m a h =
      (refl, retry_or-none attempt server_error_after m a h)
  on_outcome-none i attempt payload network_error pool m a h =
      (refl, retry_or-none attempt network_error_after m a h)

  abbrev Ended : Option (Requested V) → Type 0
  Ended o = (r : Requested V) → o ≡ some r → is_ended r ≡ true

  ended : (s : Requested V) → is_ended s ≡ true → Ended (some s)
  ended s h r e = ap is_ended (some-injective _ _ (sym e)) ∙ h

  retry_or-Ended :
      (attempt : ℕ) (failure : ℕ → Requested V)
      → ((n : ℕ) → is_ended (failure n) ≡ true)
      → Ended (retry_or fl error_of result_of max_retries now attempt failure)
  unfolding retry_or
  retry_or-Ended attempt failure h =
      let n = next_attempt attempt in
      if-keeps Ended (ltb max_retries n) (λ _. ended (failure n) (h n))
        (λ _ r e. absurd (none-ne-some r e))

  on_success-Ended :
      (i : ℕ) (payload : Option V) (pool : HeliusPool fl)
      → Ended (on_success fl error_of result_of max_retries now i payload pool).0
  unfolding on_success
  on_success-Ended i none pool = ended decode_error refl
  on_success-Ended i (some value) pool =
      option-keeps {B = Option (Requested V) × HeliusPool fl} (λ r. Ended r.0) (error_of value)
        (λ _. ended (answered (result_of value)) refl) (λ error _. ended (rpc_error error) refl)

  on_outcome-Ended :
      (i attempt : ℕ) (payload : Option V) (outcome : HttpOutcome) (pool : HeliusPool fl)
      → Ended (on_outcome fl error_of result_of max_retries now i attempt payload outcome pool).0
  unfolding on_outcome
  on_outcome-Ended i attempt payload success pool = on_success-Ended i payload _
  on_outcome-Ended i attempt payload (rate_limited retry_after) pool =
      retry_or-Ended attempt rate_limited_after (λ n. refl)
  on_outcome-Ended i attempt payload auth_error pool = ended auth_failed refl
  on_outcome-Ended i attempt payload validation_error pool = ended validation_failed refl
  on_outcome-Ended i attempt payload server_error pool =
      retry_or-Ended attempt server_error_after (λ n. refl)
  on_outcome-Ended i attempt payload network_error pool =
      retry_or-Ended attempt network_error_after (λ n. refl)

  pub on_reply-Ended :
      (i attempt : ℕ) (reply : Reply V) (pool : HeliusPool fl)
      → Ended (on_reply fl error_of result_of max_retries now i attempt reply pool).0
  unfolding on_reply
  on_reply-Ended i attempt send_error pool = retry_or-Ended attempt failed_after (λ n. refl)
  on_reply-Ended i attempt (response status retry_after payload) pool =
      on_outcome-Ended i attempt payload (from_status status retry_after) pool

  -- Another round follows only a request that could not be sent, or a status of rate limiting or of a
  -- fault of the server, and only while fewer retries than the configured number were made, where that
  -- number is less than the greatest `u32`.
  pub on_reply-none :
      (i attempt : ℕ) (reply : Reply V) (pool : HeliusPool fl)
      → max_retries < 2 ^ 32 - 1
      → attempt ≤ max_retries
      → (on_reply fl error_of result_of max_retries now i attempt reply pool).0 ≡ none
      → IsRetryable reply × (attempt < max_retries)
  unfolding on_reply
  on_reply-none i attempt send_error pool m a h = (tt, retry_or-none attempt failed_after m a h)
  on_reply-none i attempt (response status retry_after payload) pool m a h =
      on_outcome-none i attempt payload (from_status status retry_after) pool m a h

Picked-keeps {ℓ κ} :
    {A : Type ℓ} (Q : A → Type κ) (p : Picked) {x : A} {y : ℕ → A} {z : ℕ → Option ℕ → A}
    → Q x
    → ((w : ℕ) → Q (y w))
    → ((i : ℕ) (w : Option ℕ) → Q (z i w))
    → Q (elim p [ unconfigured ↦ x | unavailable w ↦ y w | picked i w ↦ z i w ])
Picked-keeps Q unconfigured h k l = h
Picked-keeps Q (unavailable w) h k l = k w
Picked-keeps Q (picked i w) h k l = l i w

module _ {V : Type 0} (fl : F64) (fb : BucketFloat fl) (error_of : V → Option V) (result_of : V → V)
    (max_retries : ℕ) (class : ApiClass) (reply : ℕ → Reply V)
    (picks_at replies_at utc_at : ℕ → ℕ) where
  pub request_loop-ends :
      (fuel round attempt : ℕ) (pool : HeliusPool fl)
      → max_retries < 2 ^ 32 - 1
      → max_retries < fuel + attempt
      → attempt ≤ max_retries
      → is_ended
          (request_loop fl fb error_of result_of max_retries class reply picks_at replies_at utc_at
            fuel round attempt pool).0
        ≡ true
  unfolding request_loop send next_attempt
  request_loop-ends zero round attempt pool m h z = absurd (omega arith)
  request_loop-ends (suc fuel) round attempt pool m h z =
      Picked-keeps {A = Requested V × HeliusPool fl} (λ r. is_ended r.0 ≡ true)
        (pick_provider fl fb class (picks_at round) pool).0 refl (λ wait. refl)
        (λ i wait.
          option-keeps {B = Requested V × HeliusPool fl} (λ r. is_ended r.0 ≡ true)
            (send fl fb error_of result_of max_retries class reply picks_at replies_at utc_at i
              round attempt (pick_provider fl fb class (picks_at round) pool).1).0
            (λ e.
              let (_, l) =
                on_reply-none fl error_of result_of max_retries (replies_at round) i attempt
                  (reply round) _ m z e in
              request_loop-ends fuel (suc round) (suc attempt % 2 ^ 32) _ m (omega (arith, h, m, l))
                (omega (arith, m, l)))
            (λ r e.
              on_reply-Ended fl error_of result_of max_retries (replies_at round) i attempt
                (reply round) _ r e))

  -- Where the configured number of retries is less than the greatest `u32`, a request ends after at most
  -- one round more than that number: with a value, or with an error of the code.
  pub request_json-ends :
      (pool : HeliusPool fl)
      → max_retries < 2 ^ 32 - 1
      → is_ended
          (request_json fl fb error_of result_of max_retries class reply picks_at replies_at utc_at
            pool).0
        ≡ true
  unfolding request_json
  request_json-ends pool m =
      request_loop-ends (suc max_retries) 0 0 pool m (omega arith) (omega arith)
