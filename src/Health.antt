-- ===== src/Health.antt =====
-- src/sf/source_health_runtime.rs: the health of a provider, of src/sf/source.rs, and its signals.
-- Seconds are `i64`, whose difference wraps around as in a release build.
pub mod Recovery
mod Examples
use solana_whale_intelligenc.Prelude.{
  ℕ, ◌+◌, Bool, true, false, not, ◌&&◌, Option, none, some, String, show_ℤ, leb, if◌then◌else◌,
}
use solana_whale_intelligenc.Prelude.Int.{ℤ, pos, leb_ℤ, wrap_i64, ◌-ℤ◌}
use solana_whale_intelligenc.Event.{
  SourceHealthState, up, silent, degraded, down, recovering, disabled,
}

pub record ProviderHealth (F : Type 0) : Type 0 where
  pub state : SourceHealthState
  pub last_request_at : Option String
  pub last_event_at : Option String
  pub last_success_at : Option String
  pub expected_cadence : Option String
  pub parser_success_rate : Option F
  pub schema_stale : Bool
  pub consecutive_failures : ℕ

pub record HealthSignal (F : Type 0) : Type 0 where
  pub last_success_secs : Option ℤ
  pub last_request_secs : Option ℤ
  pub expected_cadence_secs : Option ℤ
  pub parser_success_rate : Option F
  pub schema_stale : Bool
  pub consecutive_failures : ℕ
  pub disabled : Bool
  pub now_secs : ℤ

-- `delta = signal.now_secs - success`
unfoldable pub elapsed : ℤ → ℤ → ℤ
elapsed now success = wrap_i64 (now -ℤ success)

-- `delta >= 0 && delta <= c`
unfoldable pub in_cadence : ℤ → ℤ → ℤ → Bool
unfolding elapsed
in_cadence now success c = let delta = elapsed now success in leb_ℤ (pos 0) delta && leb_ℤ delta c

unfoldable pub cadence_ok : ℤ → ℤ → Option ℤ → Bool
unfolding in_cadence
cadence_ok now success none = false
cadence_ok now success (some c) = in_cadence now success c

-- The inner `match`, on the state before.
unfoldable pub on_time : SourceHealthState → SourceHealthState
on_time degraded = recovering
on_time down = recovering
on_time silent = recovering
on_time _ = up

-- `if let Some(s) = …`, into a field that keeps its value otherwise.
unfoldable pub text_or : Option ℤ → Option String → Option String
text_or none old = old
text_or (some s) old = some (show_ℤ s)

module _ {F : Type 0} where
  unfoldable pub default : ProviderHealth F
  default = record {
    state = silent;
    last_request_at = none;
    last_event_at = none;
    last_success_at = none;
    expected_cadence = none;
    parser_success_rate = none;
    schema_stale = false;
    consecutive_failures = 0;
  }

  unfoldable pub transition : ProviderHealth F → HealthSignal F → SourceHealthState
  transition current signal =
      if signal.disabled
      then disabled
      else if leb 3 signal.consecutive_failures
      then down
      else elim signal.last_success_secs [
        | some success ↦
            if cadence_ok signal.now_secs success signal.expected_cadence_secs
              && not signal.schema_stale
            then on_time current.state
            else if signal.schema_stale
            then degraded
            else silent
        | none ↦ if signal.schema_stale then degraded else silent
      ]

  unfoldable pub rate_or : Option F → Option F → Option F
  rate_or none old = old
  rate_or (some rate) old = some rate

  -- The record after the fields are taken over, and the state that `apply` returns with it.
  unfoldable pub taken_over : ProviderHealth F → HealthSignal F → ProviderHealth F
  taken_over health signal = record health {
    last_success_at = text_or signal.last_success_secs health.last_success_at;
    consecutive_failures = signal.consecutive_failures;
    last_request_at = text_or signal.last_request_secs health.last_request_at;
    parser_success_rate = rate_or signal.parser_success_rate health.parser_success_rate;
    schema_stale = signal.schema_stale;
  }

  unfoldable pub apply : ProviderHealth F → HealthSignal F → ProviderHealth F × SourceHealthState
  apply health signal =
      let health = taken_over health signal in
      let next = transition health signal in (record health { state = next }, next)
