-- ===== src/Radar.antt =====
-- src/funding_radar.rs, with the funding events, cases and decisions of src/models.rs: large funding
-- of fresh wallets, and the stages of a case. The state is the rows that the database holds for one
-- workspace: the cases and their events, and the wallets and observations, which all workspaces share.
-- Each statement is a transaction of its own. Times are seconds. What a query counts (the fresh
-- children, the percentile) is an argument, as is the id of a new row; of an alert the message and
-- the evidence are not modelled.
pub mod Funding
pub mod Evaluation
pub mod Stages
pub mod Rows
pub mod Reopening
mod Examples
use solana_whale_intelligenc.Prelude.{
  ℕ, zero, suc, ◌+◌, ◌*◌, Bool, true, false, not, ◌&&◌, ◌||◌, Option, none, some, List, [], ◌∷◌,
  ◌++◌, map, String, filter, any, length, if◌then◌else◌, leb, ltb, min, ◌==◌, str_eq,
}
use solana_whale_intelligenc.Prelude.Int.{ℤ, pos, leb_ℤ, ltb_ℤ, ◌+ℤ◌}
use solana_whale_intelligenc.Decimal.{Decimal}
use solana_whale_intelligenc.Models.{
  ChainKind, Commitment, processed, WalletLabelKind, exchange, bridge, kuiper_exchange, mev_bot,
  dex_bot, RadarStage, funded, preparation, deployed, dismissed, chain_str,
}

pub data AssetKind : Type 0 where
  native spl_token erc20 : AssetKind

pub record FundingEvent (D : Type 0) : Type 0 where
  pub chain : ChainKind
  pub signature : String
  pub observed_at : ℤ
  pub commitment : Commitment
  pub from_address : String
  pub to_address : String
  pub asset_kind : AssetKind
  pub mint : String
  pub native_amount : D
  pub amount_usd : Option D
  pub recipient_age_seconds : Option ℤ
  pub source_kind : Option WalletLabelKind

-- `percentile` is read by the query for the threshold only, which is an argument here.
pub record FundingRadarConfig : Type 0 where
  pub large_funding_min_sol : ℕ
  pub large_funding_min_usd : ℕ
  pub percentile_floor_sol : ℕ
  pub recipient_max_age_days : ℕ
  pub preparation_window_days : ℕ
  pub fanout_threshold : ℕ
  pub preparation_evidence_required : ℕ
  pub preparation_alert_confidence : ℕ

pub record FundingRadarCase (D : Type 0) : Type 0 where
  pub id : ℕ
  pub chain : ChainKind
  pub recipient : String
  pub first_funded_at : ℤ
  pub first_funding_usd : Option D
  pub first_funding_native : D
  pub source_address : String
  pub source_kind : Option WalletLabelKind
  pub fanout_count : ℕ
  pub deploy_window_ends_at : ℤ
  pub stage : RadarStage
  pub confidence : ℕ
  pub dismissed_reason : Option String

-- A row of `funding_radar_events`; `infrastructure` is that Boolean of its evidence, if it has it.
pub record CaseEvent : Type 0 where
  pub case_id : ℕ
  pub event_kind : String
  pub observed_at : ℤ
  pub infrastructure : Option Bool

pub record RadarAlert : Type 0 where
  pub case_id : ℕ
  pub chain : ChainKind
  pub recipient : String
  pub confidence : ℕ

pub record FundingRadarDecision : Type 0 where
  pub case_id : ℕ
  pub chain : ChainKind
  pub recipient : String
  pub stage : RadarStage
  pub previous_stage : Option RadarStage
  pub confidence : ℕ
  pub alert : Option RadarAlert
  pub evidence_count : ℕ

-- A row of `wallets`.
pub record WalletRow : Type 0 where
  pub chain : String
  pub address : String
  pub first_seen : ℤ
  pub last_seen : ℤ
  pub source : String

pub record RadarStore (D : Type 0) : Type 0 where
  pub cases : List (FundingRadarCase D)
  pub wallets : List WalletRow
  pub events : List CaseEvent
  pub observations : List (FundingEvent D)

abbrev pub default_config : FundingRadarConfig
default_config = record {
  large_funding_min_sol = 100;
  large_funding_min_usd = 10000;
  percentile_floor_sol = 10;
  recipient_max_age_days = 7;
  preparation_window_days = 7;
  fanout_threshold = 3;
  preparation_evidence_required = 2;
  preparation_alert_confidence = 70;
}

unfoldable pub is_infrastructure : Option WalletLabelKind → Bool
is_infrastructure (some exchange) = true
is_infrastructure (some bridge) = true
is_infrastructure (some kuiper_exchange) = true
is_infrastructure (some mev_bot) = true
is_infrastructure (some dex_bot) = true
is_infrastructure _ = false

-- `commitment < Commitment::Confirmed`
unfoldable pub unconfirmed : Commitment → Bool
unconfirmed processed = true
unconfirmed _ = false

unfoldable pub recipient_is_fresh : {D : Type 0} → FundingEvent D → FundingRadarConfig → Bool
recipient_is_fresh event config = elim event.recipient_age_seconds [
  | none ↦ false
  | some age ↦ leb_ℤ (pos 0) age && leb_ℤ age (pos (config.recipient_max_age_days * 86400))
]

module _ (dec : Decimal) where
  open dec use {D, lt, from_int}

  -- `a >= Decimal::from(n)`
  unfoldable pub not_below : D → ℕ → Bool
  not_below a n = not (lt a (from_int (pos n)))

  unfoldable pub usd_ok : FundingEvent D → FundingRadarConfig → Bool
  unfolding not_below
  usd_ok event config = elim event.amount_usd [
    | none ↦ false
    | some usd ↦ not_below usd config.large_funding_min_usd
  ]

  unfoldable pub percentile_ok : D → FundingRadarConfig → Option D → Bool
  unfolding not_below
  percentile_ok sol_amount config none = false
  percentile_ok sol_amount config (some threshold) =
      not (lt sol_amount threshold) && not_below sol_amount config.percentile_floor_sol

  unfoldable pub native_ok : FundingEvent D → FundingRadarConfig → Option D → Bool
  unfolding usd_ok not_below percentile_ok
  native_ok event config threshold =
      (not_below event.native_amount config.large_funding_min_sol && usd_ok event config)
      || percentile_ok event.native_amount config threshold

  unfoldable pub qualifies_as_large_funding :
      AssetKind → FundingEvent D → FundingRadarConfig → Option D → Bool
  unfolding native_ok usd_ok
  qualifies_as_large_funding native event config threshold = native_ok event config threshold
  qualifies_as_large_funding spl_token event config threshold = usd_ok event config
  qualifies_as_large_funding erc20 event config threshold = usd_ok event config

unfoldable pub asset_index : AssetKind → ℕ
asset_index native = 0
asset_index spl_token = 1
asset_index erc20 = 2

module _ {D : Type 0} where
  -- The columns of the unique constraint.
  unfoldable pub same_observation : FundingEvent D → FundingEvent D → Bool
  unfolding asset_index chain_str
  same_observation a b =
      str_eq (chain_str a.chain) (chain_str b.chain)
      && str_eq a.signature b.signature
      && str_eq a.from_address b.from_address
      && str_eq a.to_address b.to_address
      && (asset_index a.asset_kind == asset_index b.asset_kind)
      && str_eq a.mint b.mint

  unfoldable pub store_funding_observation : RadarStore D → FundingEvent D → RadarStore D
  unfolding same_observation
  store_funding_observation s event =
      if any s.observations (λ o. same_observation o event)
      then s
      else record s { observations = s.observations ++ event ∷ [] }

  unfoldable pub record_case_event : RadarStore D → CaseEvent → RadarStore D
  record_case_event s event = record s { events = s.events ++ event ∷ [] }

  unfoldable pub update_case_fanout : FundingRadarCase D → ℕ → FundingRadarCase D
  update_case_fanout c fanout = record c { fanout_count = fanout }

  unfoldable pub update_stage : FundingRadarCase D → RadarStage → ℕ → FundingRadarCase D
  update_stage c stage confidence = record c { stage = stage; confidence = confidence }

  unfoldable pub dismiss_case : FundingRadarCase D → String → FundingRadarCase D
  dismiss_case c reason = record c { stage = dismissed; dismissed_reason = some reason }

  unfoldable pub funding_event : ℕ → String → FundingEvent D → CaseEvent
  unfolding is_infrastructure
  funding_event id kind event = record {
    case_id = id;
    event_kind = kind;
    observed_at = event.observed_at;
    infrastructure = some (is_infrastructure event.source_kind);
  }

  unfoldable pub new_case : ℕ → FundingEvent D → FundingRadarConfig → FundingRadarCase D
  unfolding is_infrastructure
  new_case id event config = record {
    id = id;
    chain = event.chain;
    recipient = event.to_address;
    first_funded_at = event.observed_at;
    first_funding_usd = event.amount_usd;
    first_funding_native = event.native_amount;
    source_address = event.from_address;
    source_kind = event.source_kind;
    fanout_count = 0;
    deploy_window_ends_at = event.observed_at +ℤ pos (config.preparation_window_days * 86400);
    stage = funded;
    confidence = if is_infrastructure event.source_kind then 40 else 55;
    dismissed_reason = none;
  }

unfoldable pub is_dismissed : RadarStage → Bool
is_dismissed dismissed = true
is_dismissed _ = false

unfoldable pub is_funded : RadarStage → Bool
is_funded funded = true
is_funded _ = false

-- Dismissed and deployed cases are terminal for evaluation.
unfoldable pub is_closed : RadarStage → Bool
is_closed dismissed = true
is_closed deployed = true
is_closed _ = false

-- The kinds of the events of a case up to `now`, each once.
unfoldable pub kinds_at : ℕ → ℤ → List CaseEvent → List String
kinds_at id now [] = []
kinds_at id now (e ∷ es) =
    let rest = kinds_at id now es in
    if (e.case_id == id) && leb_ℤ e.observed_at now && not (any rest (λ k. str_eq k e.event_kind))
    then e.event_kind ∷ rest
    else rest

unfoldable pub is_infra : Option Bool → Bool
is_infra none = false
is_infra (some b) = b

unfoldable pub non_infrastructure : ℕ → ℤ → List CaseEvent → Bool
unfolding is_infra
non_infrastructure id now events =
    any events
      (λ e. (e.case_id == id) && leb_ℤ e.observed_at now && not (is_infra e.infrastructure))

unfoldable pub has_kind : List String → String → Bool
has_kind kinds kind = any kinds (λ k. str_eq k kind)

unfoldable pub count_case_events : ℕ → List CaseEvent → ℕ
count_case_events id events = length (filter (λ (e : CaseEvent). e.case_id == id) events)

unfoldable pub preparation_confidence : ℕ → ℕ → List String → ℕ
unfolding has_kind
preparation_confidence fanout_count fanout_threshold kinds =
    min
      (55
        + (if has_kind kinds "fanout" then 15 else 0)
        + (if has_kind kinds "token_creation" || has_kind kinds "account_creation" then 10 else 0)
        + (if has_kind kinds "launchpad_interaction" || has_kind kinds "dex_interaction"
            then 10
            else 0)
        + (if has_kind kinds "telegram_mention" || has_kind kinds "gmgn_mention" then 5 else 0)
        + (if leb fanout_threshold fanout_count then 5 else 0))
      95
