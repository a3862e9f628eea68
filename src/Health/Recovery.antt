-- ===== src/Health/Recovery.antt =====
-- `transition` and `apply`: the signals that make a provider `Up`.
use mathlib.Core.Bool.{false≢true}
use solana_whale_intelligenc.Prelude.{
  ◌≡◌, refl, ◌<◌, inl, inr, ℕ, Bool, true, false, Option, none, some, leb, arith, Option-cases,
  and→both, leb→le, le→leb,
}
use solana_whale_intelligenc.Prelude.Int.{ℤ, pos, ◌≤ℤ◌}
use solana_whale_intelligenc.Event.{SourceHealthState, up, silent, degraded, down}
use solana_whale_intelligenc.Health.{
  ProviderHealth, HealthSignal, elapsed, in_cadence, cadence_ok, on_time, transition, taken_over,
  apply,
}

-- The states from which one good signal is not yet enough.
abbrev pub is_unhealthy : SourceHealthState → Bool
is_unhealthy degraded = true
is_unhealthy down = true
is_unhealthy silent = true
is_unhealthy _ = false

on_time_up : (s : SourceHealthState) → on_time s ≡ up → is_unhealthy s ≡ false
unfolding on_time
on_time_up s h = ground arith

few_lem : (n : ℕ) → n < 3 → leb 3 n ≡ false
few_lem n h = ground arith

on_time-twice : (s : SourceHealthState) → on_time (on_time s) ≡ up
unfolding on_time
on_time-twice s = ground arith

-- What `up` says of the signal, where there was a success.
window :
    (now success : ℤ) (c : Option ℤ)
    → cadence_ok now success c ≡ true
    → (cadence : ℤ) × (c ≡ some cadence)
      × (pos 0 ≤ℤ elapsed now success)
      × (elapsed now success ≤ℤ cadence)
unfolding cadence_ok in_cadence
window now success none h = absurd (false≢true h)
window now success (some c) h = let (p, q) = and→both _ _ h in (c, refl, leb→le _ _ p, leb→le _ _ q)

module _ {F : Type 0} where
  -- Enabled, fewer than three failures, a success within the cadence, no drift of the schema.
  pub record IsOnTime (signal : HealthSignal F) : Type 0 where
    pub enabled : signal.disabled ≡ false
    pub few : signal.consecutive_failures < 3
    pub success : ℤ
    pub cadence : ℤ
    pub succeeded : signal.last_success_secs ≡ some success
    pub expected : signal.expected_cadence_secs ≡ some cadence
    pub past : pos 0 ≤ℤ elapsed signal.now_secs success
    pub recent : elapsed signal.now_secs success ≤ℤ cadence
    pub current : signal.schema_stale ≡ false

  transition-on_time :
      (h : ProviderHealth F) (s : HealthSignal F) → IsOnTime s → transition h s ≡ on_time h.state
  unfolding transition cadence_ok in_cadence
  transition-on_time h s t =
      rw
        (
          transition,
          t.enabled,
          few_lem s.consecutive_failures t.few,
          t.succeeded,
          t.expected,
          le→leb _ _ t.past,
          le→leb _ _ t.recent,
          t.current,
        )
        refl

  -- Two signals in a row that are on time make any provider healthy.
  pub two_signals_up :
      (health : ProviderHealth F) (first second : HealthSignal F)
      → IsOnTime first
      → IsOnTime second
      → (apply (apply health first).0 second).1 ≡ up
  unfolding apply taken_over
  two_signals_up health first second a b =
      rw
        (
          apply,
          transition-on_time (taken_over (apply health first).0 second) second b,
          transition-on_time (taken_over health first) first a,
        )
        (on_time-twice health.state)

  up_facts :
      (current : ProviderHealth F) (s : HealthSignal F)
      → transition current s ≡ up
      → (success : ℤ) × (s.last_success_secs ≡ some success)
        × (cadence_ok s.now_secs success s.expected_cadence_secs ≡ true)
        × (s.disabled ≡ false)
        × (s.consecutive_failures < 3)
        × (s.schema_stale ≡ false)
        × (is_unhealthy current.state ≡ false)
  unfolding transition on_time
  up_facts current s h = elim (Option-cases s.last_success_secs) [
    | inl e ↦ absurd (ground arith)
    | inr (success, e) ↦
        (success, e, ground arith, ground arith, ground arith, ground arith, ground arith)
  ]

  -- A signal makes a provider `Up` only where it is on time itself, and where the provider was not
  -- degraded, down or silent before. On time is a signal that is not disabled, with fewer than three
  -- failures, no drift of the schema, and a success from which to now there pass, in the `i64` of the
  -- code, no less than zero seconds and no more than the expected cadence.
  pub up_only_on_time :
      (health : ProviderHealth F) (s : HealthSignal F)
      → (apply health s).1 ≡ up
      → IsOnTime s × (is_unhealthy health.state ≡ false)
  unfolding apply taken_over
  up_only_on_time health s h =
      let (success, e, c, enabled, few, stale, state) = up_facts (taken_over health s) s h in
      let (cadence, x, p, r) = window s.now_secs success s.expected_cadence_secs c in
      (
        record {
          enabled = enabled;
          few = few;
          success = success;
          cadence = cadence;
          succeeded = e;
          expected = x;
          past = p;
          recent = r;
          current = stale;
        },
        state,
      )
