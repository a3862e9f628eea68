-- ===== src/Radar/Examples.antt =====
-- The radar at a concrete case and events, in thousandths.
use solana_whale_intelligenc.Prelude.{
  ◌≤◌, ◌≡◌, refl, sym, ap, ◌∙◌, inl, inr, true, false, none, some, List, [], ◌∷◌, map, String, In,
  each,
}
use mathlib.Core.Bool.{true≢false}
use solana_whale_intelligenc.Prelude.Int.{ℤ, pos}
use solana_whale_intelligenc.Decimal.Sample.{sample}
use solana_whale_intelligenc.Models.{solana, confirmed, RadarStage, funded, preparation, dismissed}
use solana_whale_intelligenc.Radar.{
  native, FundingEvent, FundingRadarCase, CaseEvent, RadarStore, default_config,
  store_funding_observation, is_dismissed,
}
use solana_whale_intelligenc.Radar.Funding.{
  is_case_of, upsert_ends, opens_case, ingest_funding_event,
}
use solana_whale_intelligenc.Radar.Evaluation.{evaluate_case}
use solana_whale_intelligenc.Radar.Stages.{Evaluated, alerts, evaluate_case-Evaluated, alerts-once}
use solana_whale_intelligenc.Radar.Rows.{is_same_row, IsKeyed}
use solana_whale_intelligenc.Radar.Reopening.{
  Operation, ingest, evaluation, evidence, operate, ingest_funding_event-refuses,
}

abbrev event : FundingEvent ℤ
event = record {
  chain = solana;
  signature = "s";
  observed_at = pos 1000;
  commitment = confirmed;
  from_address = "from";
  to_address = "to";
  asset_kind = native;
  mint = "";
  native_amount = pos 150000;
  amount_usd = some (pos 30000000);
  recipient_age_seconds = some (pos 3600);
  source_kind = none;
}

abbrev case_at : RadarStage → FundingRadarCase ℤ
case_at stage = record {
  id = 1;
  chain = solana;
  recipient = "to";
  first_funded_at = pos 0;
  first_funding_usd = none;
  first_funding_native = pos 150000;
  source_address = "from";
  source_kind = none;
  fanout_count = 3;
  deploy_window_ends_at = pos 604800;
  stage = stage;
  confidence = 55;
  dismissed_reason = none;
}

abbrev seen : String → CaseEvent
seen kind = record {
  case_id = 1;
  event_kind = kind;
  observed_at = pos 10;
  infrastructure = some false;
}

abbrev kinds : List CaseEvent
kinds = seen "fanout" ∷ seen "token_creation" ∷ []

-- Two kinds of evidence promote a funded case, with an alert.
promoted : (evaluate_case default_config (case_at funded) (pos 100) kinds).0.stage ≡ preparation
unfolding evaluate_case
promoted = refl

-- A second after the window the evidence counts no more, a deployment included.
too_late :
    (evaluate_case default_config (case_at funded) (pos 604801) (seen "deployment" ∷ kinds)).0.stage
    ≡ dismissed
unfolding evaluate_case
too_late = refl

evaluate_case-Evaluated_example :
    Evaluated default_config
      (case_at funded)
      (pos 100)
      kinds
      (evaluate_case default_config (case_at funded) (pos 100) kinds).0
      (evaluate_case default_config (case_at funded) (pos 100) kinds).1.alert
    × ((evaluate_case default_config (case_at funded) (pos 100) kinds).1.stage
        ≡ (evaluate_case default_config (case_at funded) (pos 100) kinds).0.stage)
evaluate_case-Evaluated_example =
    evaluate_case-Evaluated default_config (case_at funded) (pos 100) kinds

one_alert : alerts default_config (case_at funded) ((pos 100, kinds) ∷ (pos 200, kinds) ∷ []) ≡ 1
unfolding alerts evaluate_case
one_alert = refl

alerts-once_example :
    alerts default_config (case_at funded) ((pos 100, kinds) ∷ (pos 200, kinds) ∷ []) ≤ 1
alerts-once_example =
    alerts-once default_config (case_at funded) ((pos 100, kinds) ∷ (pos 200, kinds) ∷ [])

-- The case of another recipient.
abbrev other : FundingRadarCase ℤ
other = record (case_at funded) { id = 2; recipient = "other" }

abbrev store : RadarStore ℤ
store = record {
  cases = other ∷ case_at dismissed ∷ [];
  wallets = [];
  events = [];
  observations = [];
}

abbrev operations : List (Operation ℤ)
operations =
    ingest 3 0 event none
    ∷ ingest 3 4 (record event { to_address = "other" }) none
    ∷ evidence (seen "fanout")
    ∷ evaluation solana "other" (pos 700000)
    ∷ evaluation solana "to" (pos 20)
    ∷ []

keyed : IsKeyed store.cases
unfolding is_case_of
keyed c d (inl e) (inl f) h = e ∙ sym f
keyed c d (inl e) (inr (inl f)) h = absurd (
    true≢false (
      sym h
      ∙ ap (λ (x : FundingRadarCase ℤ). is_same_row x d) e
      ∙ ap (λ (x : FundingRadarCase ℤ). is_same_row other x) f))
keyed c d (inr (inl e)) (inl f) h = absurd (
    true≢false (
      sym h
      ∙ ap (λ (x : FundingRadarCase ℤ). is_same_row x d) e
      ∙ ap (λ (x : FundingRadarCase ℤ). is_same_row (case_at dismissed) x) f))
keyed c d (inr (inl e)) (inr (inl f)) h = e ∙ sym f
keyed c d (inr (inr e)) j h = absurd e
keyed c d (inl e) (inr (inr f)) h = absurd f
keyed c d (inr (inl e)) (inr (inr f)) h = absurd f

qualifies : opens_case sample event default_config none ≡ true
unfolding opens_case
qualifies = refl

matches : is_case_of event.chain event.to_address (case_at dismissed) ≡ true
unfolding is_case_of
matches = refl

-- The other case expires meanwhile.
expired :
    map
      (λ (c : FundingRadarCase ℤ). c.stage)
      (each (operate sample default_config) store operations).cases
    ≡ dismissed ∷ dismissed ∷ []
unfolding operate
expired = refl

ingest_funding_event-refuses_example :
    In (case_at dismissed) (each (operate sample default_config) store operations).cases
    × (ingest_funding_event sample 4 0
          (each (operate sample default_config) store operations)
          event
          default_config
          none
        ≡ (
          upsert_ends
              (store_funding_observation
                (each (operate sample default_config) store operations)
                event)
              event,
          none,
        ))
unfolding is_dismissed
ingest_funding_event-refuses_example =
    ingest_funding_event-refuses sample default_config store operations (case_at dismissed) 4 0
      event none keyed (inr (inl refl)) refl matches qualifies
