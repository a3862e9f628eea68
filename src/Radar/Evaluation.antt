-- ===== src/Radar/Evaluation.antt =====
-- `evaluate_radar_case`: the stage of a case after an evaluation, and the decision.
use solana_whale_intelligenc.Prelude.{
  ℕ, Bool, ◌&&◌, Option, none, some, List, String, length, if◌then◌else◌, leb,
}
use solana_whale_intelligenc.Prelude.Int.{ℤ, ltb_ℤ}
use solana_whale_intelligenc.Models.{
  ChainKind, RadarStage, funded, preparation, deployed, dismissed,
}
use solana_whale_intelligenc.Radar.{
  FundingRadarConfig, FundingRadarCase, CaseEvent, RadarAlert, FundingRadarDecision, RadarStore,
  update_stage, dismiss_case, is_funded, is_closed, kinds_at, non_infrastructure, has_kind,
  count_case_events, preparation_confidence,
}
use solana_whale_intelligenc.Radar.Funding.{put_case, fetch_case}

unfoldable pub decide :
    {D : Type 0}
    → FundingRadarCase D
    → RadarStage
    → ℕ
    → Option RadarAlert
    → ℕ
    → FundingRadarDecision
decide c stage confidence alert count = record {
  case_id = c.id;
  chain = c.chain;
  recipient = c.recipient;
  stage = stage;
  previous_stage = some c.stage;
  confidence = confidence;
  alert = alert;
  evidence_count = count;
}

-- The decision where there is no case.
unfoldable pub no_case : ChainKind → String → FundingRadarDecision
no_case chain recipient = record {
  case_id = 0;
  chain = chain;
  recipient = recipient;
  stage = funded;
  previous_stage = none;
  confidence = 0;
  alert = none;
  evidence_count = 0;
}

module _ {D : Type 0} (config : FundingRadarConfig) where
  unfoldable pub alert_of : FundingRadarCase D → ℕ → Option RadarAlert
  alert_of c confidence =
      if leb config.preparation_alert_confidence confidence
      then some (record {
        case_id = c.id;
        chain = c.chain;
        recipient = c.recipient;
        confidence = confidence;
      })
      else none

  unfoldable pub is_prepared : FundingRadarCase D → ℤ → List CaseEvent → Bool
  unfolding kinds_at non_infrastructure is_funded
  is_prepared c now events =
      leb config.preparation_evidence_required (length (kinds_at c.id now events))
      && non_infrastructure c.id now events
      && is_funded c.stage

  -- By the evidence, where the window has not expired.
  unfoldable pub by_evidence :
      FundingRadarCase D → ℤ → List CaseEvent → FundingRadarCase D × FundingRadarDecision
  unfolding decide alert_of is_prepared update_stage has_kind preparation_confidence
  by_evidence c now events =
      let kinds = kinds_at c.id now events in
      let confidence = preparation_confidence c.fanout_count config.fanout_threshold kinds in
      if has_kind kinds "deployment"
      then (update_stage c deployed 85, decide c deployed 85 none (length kinds))
      else if is_prepared c now events
      then (
        update_stage c preparation confidence,
        decide c preparation confidence (alert_of c confidence) (length kinds),
      )
      else (c, decide c c.stage c.confidence none (length kinds))

  unfoldable pub evaluate_case :
      FundingRadarCase D → ℤ → List CaseEvent → FundingRadarCase D × FundingRadarDecision
  unfolding decide is_closed is_funded dismiss_case by_evidence count_case_events
  evaluate_case c now events =
      if is_closed c.stage
      then (c, decide c c.stage c.confidence none (count_case_events c.id events))
      else if ltb_ℤ c.deploy_window_ends_at now && is_funded c.stage
      then (
        dismiss_case c "expired window without preparation evidence",
        decide c dismissed c.confidence none (count_case_events c.id events),
      )
      else by_evidence c now events

  unfoldable pub evaluate_found :
      ChainKind
      → String
      → RadarStore D
      → ℤ
      → Option (FundingRadarCase D)
      → RadarStore D × FundingRadarDecision
  unfolding evaluate_case no_case put_case
  evaluate_found chain recipient s now none = (s, no_case chain recipient)
  evaluate_found chain recipient s now (some c) =
      let (d, decision) = evaluate_case c now s.events in (put_case s d, decision)

  unfoldable pub evaluate_radar_case :
      ChainKind → String → RadarStore D → ℤ → RadarStore D × FundingRadarDecision
  unfolding evaluate_found fetch_case
  evaluate_radar_case chain recipient s now =
      evaluate_found chain recipient s now (fetch_case chain recipient s)
