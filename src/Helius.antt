-- ===== src/Helius.antt =====
-- src/helius.rs: the pool of provider keys, their token buckets, cooldowns and breakers, and the
-- accounting of usage. An instant is a number of nanoseconds, and the clock's reading is an
-- argument; an asynchronous function is its body, and a lock is the access to the state.
pub mod Buckets
pub mod Breaker
pub mod Picking
pub mod Usage
pub mod Pool
pub mod Requests
pub mod Retries
mod Examples
use Prim.Native.String.{◌++◌ as append}
use solana_whale_intelligenc.Prelude.{
  ℕ, zero, suc, ◌+◌, ◌-◌, ◌*◌, ◌%◌, Bool, true, false, not, ◌&&◌, ◌||◌, Option, none, some, List,
  [], ◌∷◌, ◌++◌, String, length, is_empty, show_ℕ, str_eq, leb, ltb, ◌==◌, if◌then◌else◌,
}
use solana_whale_intelligenc.Float.{F64}

pub data ApiClass : Type 0 where
  rpc enhanced wallet : ApiClass

unfoldable pub class_str : ApiClass → String
class_str rpc = "rpc"
class_str enhanced = "enhanced"
class_str wallet = "wallet"

-- The derived equality.
unfoldable pub class_index : ApiClass → ℕ
class_index rpc = 0
class_index enhanced = 1
class_index wallet = 2

abbrev pub is_class : ApiClass → ApiClass → Bool
is_class a b = class_index a == class_index b

-- The operations on `f64` and `Duration` that a bucket uses beyond `F64`.
pub record BucketFloat (fl : F64) : Type 0 where
  pub add : fl.F → fl.F → fl.F
  pub minimum : fl.F → fl.F → fl.F
  pub div : fl.F → fl.F → fl.F
  pub of_u32 : ℕ → fl.F
  pub as_secs : ℕ → fl.F  -- `as_secs_f64`
  pub from_secs : fl.F → ℕ  -- `from_secs_f64`

pub record TokenBucket (fl : F64) : Type 0 where
  pub capacity : fl.F
  pub tokens : fl.F
  pub last_refill : ℕ

pub record ProviderKey (fl : F64) : Type 0 where
  pub id : String
  pub key : String
  -- The map from the three classes.
  pub rpc_bucket : TokenBucket fl
  pub enhanced_bucket : TokenBucket fl
  pub wallet_bucket : TokenBucket fl
  pub cooldown_until : Option ℕ
  pub consecutive_failures : ℕ
  pub open_until : Option ℕ

module _ (fl : F64) (fb : BucketFloat fl) where
  abbrev pub f_zero : fl.F
  f_zero = fl.literal false 0 0

  abbrev pub f_one : fl.F
  f_one = fl.literal false 1 0

  unfoldable pub new_bucket : ℕ → ℕ → TokenBucket fl
  new_bucket rate_per_second now = record {
    capacity = fb.of_u32 rate_per_second;
    tokens = fb.of_u32 rate_per_second;
    last_refill = now;
  }

  -- `duration_since` is zero where the clock is behind.
  unfoldable pub refill : ℕ → TokenBucket fl → TokenBucket fl
  refill now b =
      let elapsed = fb.as_secs (now - b.last_refill) in
      if fl.lt f_zero elapsed
      then record b {
        tokens = fb.minimum (fb.add b.tokens (fl.mul elapsed b.capacity)) b.capacity;
        last_refill = now;
      }
      else b

  -- The wait, where there is no token, and the bucket after.
  unfoldable pub take_token : TokenBucket fl → Option ℕ × TokenBucket fl
  take_token b =
      if fl.le f_one b.tokens then (none, record b { tokens = fl.sub b.tokens f_one }) else (
        some (
            fb.from_secs
              (fb.div (fl.sub f_one b.tokens) (fl.maximum b.capacity (fl.literal false 1 3)))),
        b,
      )

  unfoldable pub bucket_acquire : ℕ → TokenBucket fl → Option ℕ × TokenBucket fl
  bucket_acquire now b = take_token (refill now b)

  unfoldable pub new_key : String → String → ℕ → ℕ → ℕ → ℕ → ProviderKey fl
  new_key id key rpc_rate enhanced_rate wallet_rate now = record {
    id = id;
    key = key;
    rpc_bucket = new_bucket rpc_rate now;
    enhanced_bucket = new_bucket enhanced_rate now;
    wallet_bucket = new_bucket wallet_rate now;
    cooldown_until = none;
    consecutive_failures = 0;
    open_until = none;
  }

  unfoldable pub bucket_of : ApiClass → ProviderKey fl → TokenBucket fl
  bucket_of rpc p = p.rpc_bucket
  bucket_of enhanced p = p.enhanced_bucket
  bucket_of wallet p = p.wallet_bucket

  unfoldable pub set_bucket : ApiClass → TokenBucket fl → ProviderKey fl → ProviderKey fl
  set_bucket rpc b p = record p { rpc_bucket = b }
  set_bucket enhanced b p = record p { enhanced_bucket = b }
  set_bucket wallet b p = record p { wallet_bucket = b }

-- `if let Some(until)` with `now < until`: the time that is left.
unfoldable pub left_of : ℕ → Option ℕ → Option ℕ
left_of now none = none
left_of now (some until) = if ltb now until then some (until - now) else none

module _ (fl : F64) (fb : BucketFloat fl) where
  unfoldable pub key_acquire : ApiClass → ℕ → ProviderKey fl → Option ℕ × ProviderKey fl
  key_acquire class now p = elim (left_of now p.cooldown_until) [
    | some wait ↦ (some wait, p)
    | none ↦ elim (left_of now p.open_until) [
      | some wait ↦ (some wait, p)
      | none ↦
          let taken = bucket_acquire fl fb now (bucket_of fl fb class p) in
          (taken.0, set_bucket fl fb class taken.1 p)
    ]
  ]

module _ {fl : F64} where
  unfoldable pub record_success : ProviderKey fl → ProviderKey fl
  record_success p = record p { consecutive_failures = 0; open_until = none }

  -- `fetch_add` on a `u64` wraps around.
  unfoldable pub record_failure : ℕ → ℕ → ProviderKey fl → ProviderKey fl
  record_failure breaker_threshold now p =
      let failures = (p.consecutive_failures + 1) % 18446744073709551616 in
      if leb breaker_threshold failures
      then record p { consecutive_failures = 0; open_until = some (now + 60000000000) }
      else record p { consecutive_failures = failures }

  unfoldable pub apply_cooldown : ℕ → ℕ → ProviderKey fl → ProviderKey fl
  apply_cooldown duration now p = record p { cooldown_until = some (now + duration) }

  unfoldable pub is_available : ℕ → ProviderKey fl → Bool
  is_available now p = elim (left_of now p.cooldown_until) [
    | some wait ↦ false
    | none ↦ elim (left_of now p.open_until) [ some wait ↦ false | none ↦ true ]
  ]
