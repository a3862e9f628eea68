-- ===== src/Helius/Examples.antt =====
-- A pool of two keys over whole numbers, and the theorems at it.
use solana_whale_intelligenc.Prelude.{
  ℕ, zero, suc, ◌+◌, ◌-◌, ◌*◌, ◌/◌, ◌<◌, ◌≡◌, refl, arith, max, min, true, false, Option, none,
  some, [], ◌∷◌, leb, ltb,
}
use solana_whale_intelligenc.Float.{F64}
use solana_whale_intelligenc.Helius.{
  rpc, BucketFloat, ProviderKey, new_bucket, refill, take_token, bucket_acquire, new_key, bucket_of,
  set_bucket, left_of, key_acquire, record_failure, apply_cooldown, is_available,
}
use solana_whale_intelligenc.Helius.Buckets.{
  IsRated, IsWithin, new_bucket-IsWithin, bucket_acquire-IsWithin,
}
use solana_whale_intelligenc.Helius.Breaker.{fail_at, breaker_opens}
use solana_whale_intelligenc.Helius.Pool.{
  HeliusPool, picked, from_status, closer_wait, search, settle, pick_provider,
}
use solana_whale_intelligenc.Helius.Picking.{pick_provider-finds}
use solana_whale_intelligenc.Helius.Requests.{
  Reply, response, is_ended, retry_or, on_outcome, on_reply, request_json,
}
use solana_whale_intelligenc.Helius.Retries.{IsRetryable, on_reply-none, request_json-ends}

abbrev whole : F64
whole = record {
  F = ℕ;
  le = leb;
  lt = ltb;
  literal = λ negative digits places. elim places [ zero ↦ digits | suc n ↦ 0 ];
  sub = λ a b. a - b;
  mul = λ a b. a * b;
  round = λ a. a;
  maximum = max;
  greatest = 18446744073709551615;
  to_u64 = λ a. a;
}

abbrev whole_bucket : BucketFloat whole
whole_bucket = record {
  add = λ a b. a + b;
  minimum = min;
  div = λ a b. a / b;
  of_u32 = λ n. n;
  as_secs = λ n. n / 1000000000;
  from_secs = λ n. n * 1000000000;
}

rated : IsRated whole whole_bucket
rated = record {
  rate_nonneg = λ r. ground arith;
  rate_refl = λ r. ground arith;
  product_nonneg = λ d r. ground arith;
  sum_nonneg = λ a b h k. ground arith;
  min_le = λ a b h. ground arith;
  min_ge = λ c a b h k. ground arith;
  minus_one_nonneg = λ a h. ground arith;
  minus_one_le = λ a c h. ground arith;
}

bucket_acquire-IsWithin_example :
    IsWithin whole whole_bucket 2
      (bucket_acquire whole whole_bucket 5 (new_bucket whole whole_bucket 2 0)).1
bucket_acquire-IsWithin_example =
    bucket_acquire-IsWithin whole whole_bucket rated 2 5 (new_bucket whole whole_bucket 2 0)
      (new_bucket-IsWithin whole whole_bucket rated 2 0)

abbrev key : ProviderKey whole
key = new_key whole whole_bucket "helius_1" "k" 10 2 2 0

no_failures : key.consecutive_failures ≡ 0
unfolding new_key
no_failures = refl

breaker_opens_example :
    ((fail_at 3 key (1 ∷ 2 ∷ [])).open_until ≡ key.open_until)
    × (is_available 9 (record_failure 3 3 (fail_at 3 key (1 ∷ 2 ∷ []))) ≡ false)
    × ((record_failure 3 3 (fail_at 3 key (1 ∷ 2 ∷ []))).consecutive_failures ≡ 0)
breaker_opens_example =
    breaker_opens 3 3 9 key (1 ∷ 2 ∷ []) no_failures refl (omega arith) (omega arith)

-- The first key cools down, and the second is free.
abbrev pool : HeliusPool whole
pool = record {
  providers = apply_cooldown 1000 0 key ∷ new_key whole whole_bucket "helius_2" "l" 10 2 2 0 ∷ [];
  next = 0;
  usage = [];
}

second_free : is_available 5 (new_key whole whole_bucket "helius_2" "l" 10 2 2 0) ≡ true
unfolding is_available left_of new_key
second_free = refl

pick_provider-finds_example :
    (i : ℕ) × (wait : Option ℕ) × ((pick_provider whole whole_bucket rpc 5 pool).0 ≡ picked i wait)
pick_provider-finds_example =
    pick_provider-finds whole whole_bucket rpc 5 pool 1
      (new_key whole whole_bucket "helius_2" "l" 10 2 2 0) refl (omega arith) second_free

-- Without a token the pick names a key and a wait, and takes no token.
abbrev dry : HeliusPool whole
dry = record {
  providers =
      record key { rpc_bucket = record { capacity = 10; tokens = 0; last_refill = 5 } } ∷ [];
  next = 0;
  usage = [];
}

dry_pick : (pick_provider whole whole_bucket rpc 5 dry).0 ≡ picked 0 (some 0)
unfolding pick_provider search settle closer_wait is_available left_of key_acquire bucket_of
    set_bucket bucket_acquire take_token refill new_key new_bucket
dry_pick = refl

abbrev fault_then_value : ℕ → Reply ℕ
fault_then_value zero = response 503 none none
fault_then_value (suc n) = response 200 none (some 7)

request_json-ends_example :
    is_ended
      (request_json whole whole_bucket
        (λ _. none)
        (λ v. v)
        2
        rpc
        fault_then_value
        (λ n. n)
        (λ n. n)
        (λ n. n)
        pool).0
    ≡ true
request_json-ends_example =
    request_json-ends whole whole_bucket (λ _. none) (λ v. v) 2 rpc fault_then_value (λ n. n)
      (λ n. n) (λ n. n) pool (omega arith)

again : (on_reply {V = ℕ} whole (λ _. none) (λ v. v) 2 9 0 1 (response 503 none none) pool).0 ≡ none
unfolding on_reply on_outcome retry_or from_status
again = refl

on_reply-none_example :
    IsRetryable {V = ℕ} whole (λ _. none) (λ v. v) 2 9 (response 503 none none) × (1 < 2)
on_reply-none_example =
    on_reply-none {V = ℕ} whole (λ _. none) (λ v. v) 2 9 0 1 (response 503 none none) pool
      (omega arith) (omega arith) again
