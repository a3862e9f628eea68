-- ===== src/Health/Examples.antt =====
-- A provider that is down, and signals at which it comes back.
use solana_whale_intelligenc.Prelude.{ℕ, ◌≡◌, refl, true, false, none, some, arith}
use solana_whale_intelligenc.Prelude.Int.{pos, ◌-ℤ◌}
use solana_whale_intelligenc.Event.{up, down, recovering}
use solana_whale_intelligenc.Health.{
  ProviderHealth, HealthSignal, default, cadence_ok, elapsed, on_time, transition, taken_over,
  apply,
}
use solana_whale_intelligenc.Health.Recovery.{IsOnTime, is_unhealthy, up_only_on_time}

abbrev broken : ProviderHealth ℕ
broken = record default { state = down }

abbrev signal_at : ℕ → HealthSignal ℕ
signal_at now = record {
  last_success_secs = some (pos 100);
  last_request_secs = some (pos now);
  expected_cadence_secs = some (pos 60);
  parser_success_rate = none;
  schema_stale = false;
  consecutive_failures = 0;
  disabled = false;
  now_secs = pos now;
}

good : IsOnTime (signal_at 110)
unfolding elapsed ◌-ℤ◌
good = record {
  enabled = refl;
  few = omega arith;
  success = pos 100;
  cadence = pos 60;
  succeeded = refl;
  expected = refl;
  past = omega arith;
  recent = omega arith;
  current = refl;
}

later : IsOnTime (signal_at 120)
unfolding elapsed ◌-ℤ◌
later = record {
  enabled = refl;
  few = omega arith;
  success = pos 100;
  cadence = pos 60;
  succeeded = refl;
  expected = refl;
  past = omega arith;
  recent = omega arith;
  current = refl;
}

risen : (apply (record broken { state = recovering }) (signal_at 110)).1 ≡ up
unfolding apply taken_over transition cadence_ok on_time ◌-ℤ◌
risen = refl

up_only_on_time_example : IsOnTime (signal_at 110) × (is_unhealthy recovering ≡ false)
up_only_on_time_example =
    up_only_on_time (record broken { state = recovering }) (signal_at 110) risen

-- Disabled and enabled again, a provider that was down is up with one signal.
reenabled :
    (apply (apply broken (record (signal_at 110) { disabled = true })).0 (signal_at 120)).1 ≡ up
unfolding apply taken_over transition cadence_ok on_time ◌-ℤ◌
reenabled = refl

-- Two failures do not degrade.
twice_failed :
    (apply (record broken { state = up }) (record (signal_at 110) { consecutive_failures = 2 })).1
    ≡ up
unfolding apply taken_over transition cadence_ok on_time ◌-ℤ◌
twice_failed = refl
