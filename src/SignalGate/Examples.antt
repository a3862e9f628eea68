-- ===== src/SignalGate/Examples.antt =====
-- The entry gate on concrete tokens, and the theorems at them.
use solana_whale_intelligenc.Prelude.{◌≡◌, refl, ◌↔◌, false, true, none, some, [], ◌∷◌}
use solana_whale_intelligenc.Prelude.Int.{pos}
use solana_whale_intelligenc.Float.Sample.{sample}
use solana_whale_intelligenc.SignalGate.{
  wash_risk, incomplete_history, GateThresholds, wash_trading, honeypot, EntryGateInput, accepted,
  rejected, default_gate_thresholds, evaluate_entry_gate,
}
use solana_whale_intelligenc.SignalGate.Laws.{
  forgive, Meets, accepted-Meets, unordered_history_forgiven,
}

abbrev thresholds : GateThresholds sample.F
thresholds = default_gate_thresholds sample

abbrev good_token : EntryGateInput sample.F
good_token = record {
  eligible_clusters = 2;
  meaningful_buys = 3;
  lifecycle_supported = true;
  token_age_hours = some (pos 24);
  liquidity_usd = some 20_000;
  risk_flags = [];
  market_age_seconds = some (pos 300);
  max_skill = 70;
  max_copyability = 60;
  min_history_completeness = sample.literal false 85 2;
}

abbrev washed_token : EntryGateInput sample.F
washed_token = record good_token { risk_flags = honeypot ∷ wash_trading ∷ [] }

-- A history whose completeness compares with nothing.
abbrev unmeasured_token : EntryGateInput sample.F
unmeasured_token = record good_token { min_history_completeness = none }

good_accepted : evaluate_entry_gate sample good_token thresholds ≡ accepted
unfolding evaluate_entry_gate
good_accepted = refl

washed_rejected : evaluate_entry_gate sample washed_token thresholds ≡ rejected wash_risk
unfolding evaluate_entry_gate
washed_rejected = refl

unmeasured_accepted : evaluate_entry_gate sample unmeasured_token thresholds ≡ accepted
unfolding evaluate_entry_gate
unmeasured_accepted = refl

accepted-Meets_example :
    (evaluate_entry_gate sample good_token thresholds ≡ accepted)
    ↔ Meets sample good_token thresholds
accepted-Meets_example = accepted-Meets sample good_token thresholds

-- A token that is otherwise rejected as incomplete.
abbrev incomplete_token : EntryGateInput sample.F
incomplete_token = record good_token { min_history_completeness = sample.literal false 5 1 }

incomplete_rejected :
    evaluate_entry_gate sample incomplete_token thresholds ≡ rejected incomplete_history
unfolding evaluate_entry_gate
incomplete_rejected = refl

unordered_history_forgiven_example :
    evaluate_entry_gate sample
      (record incomplete_token { min_history_completeness = none })
      thresholds
    ≡ forgive (evaluate_entry_gate sample incomplete_token thresholds)
unordered_history_forgiven_example =
    unordered_history_forgiven sample incomplete_token thresholds none (λ m. refl)
