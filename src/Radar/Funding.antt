-- ===== src/Radar/Funding.antt =====
-- `ingest_funding_event`: what an event writes. `upsert_wallet` is that of src/db.rs.
use solana_whale_intelligenc.Prelude.{
  ℕ, Bool, not, ◌&&◌, ◌||◌, Option, none, some, List, [], ◌∷◌, ◌++◌, map, String, any,
  if◌then◌else◌, ◌==◌, str_eq,
}
use solana_whale_intelligenc.Prelude.Int.{ℤ, max_ℤ}
use solana_whale_intelligenc.Decimal.{Decimal}
use solana_whale_intelligenc.Models.{ChainKind, chain_str}
use solana_whale_intelligenc.Radar.{
  FundingEvent, FundingRadarConfig, FundingRadarCase, WalletRow, RadarStore, unconfirmed,
  recipient_is_fresh, qualifies_as_large_funding, store_funding_observation, record_case_event,
  update_case_fanout, funding_event, new_case, is_dismissed,
}

-- `INSERT INTO wallets … ON CONFLICT (chain, address) DO UPDATE`
unfoldable pub upsert_wallet : String → String → ℤ → String → List WalletRow → List WalletRow
upsert_wallet chain address seen_at source [] =
    record {
      chain = chain;
      address = address;
      first_seen = seen_at;
      last_seen = seen_at;
      source = source;
    }
    ∷ []
upsert_wallet chain address seen_at source (w ∷ rows) =
    let rest = upsert_wallet chain address seen_at source rows in
    if str_eq w.chain chain && str_eq w.address address
    then record w { last_seen = max_ℤ w.last_seen seen_at; source = source } ∷ rows
    else w ∷ rest

module _ {D : Type 0} where
  -- `WHERE chain = $2 AND recipient = $3`
  unfoldable pub is_case_of : ChainKind → String → FundingRadarCase D → Bool
  unfolding chain_str
  is_case_of chain recipient c =
      str_eq (chain_str c.chain) (chain_str chain) && str_eq c.recipient recipient

  unfoldable pub find_case :
      (FundingRadarCase D → Bool) → List (FundingRadarCase D) → Option (FundingRadarCase D)
  find_case p [] = none
  find_case p (c ∷ cases) = if p c then some c else find_case p cases

  unfoldable pub fetch_case : ChainKind → String → RadarStore D → Option (FundingRadarCase D)
  unfolding find_case is_case_of
  fetch_case chain recipient s = find_case (is_case_of chain recipient) s.cases

  -- `UPDATE funding_radar_cases SET … WHERE id = $1`, with the row after it.
  unfoldable pub put_case : RadarStore D → FundingRadarCase D → RadarStore D
  put_case s c = record s { cases = map (λ d. if d.id == c.id then c else d) s.cases }

  -- `INSERT INTO funding_radar_cases`: the ids are a primary key, and the index
  -- `funding_radar_cases_tenant_uidx` allows one row per recipient in a workspace; `none` is the
  -- violation of either.
  unfoldable pub insert_case : RadarStore D → FundingRadarCase D → Option (RadarStore D)
  unfolding is_case_of
  insert_case s c =
      if any s.cases (λ d. (d.id == c.id) || is_case_of c.chain c.recipient d)
      then none
      else some (record s { cases = s.cases ++ c ∷ [] })

  -- Both ends of the transfer.
  unfoldable pub upsert_ends : RadarStore D → FundingEvent D → RadarStore D
  unfolding upsert_wallet chain_str
  upsert_ends s event =
      let chain = chain_str event.chain in
      let rows = upsert_wallet chain event.to_address event.observed_at "funding_radar" s.wallets in
      record s {
        wallets = upsert_wallet chain event.from_address event.observed_at "funding_radar" rows;
      }

  unfoldable pub add_funding : RadarStore D → FundingRadarCase D → FundingEvent D → ℕ → RadarStore D
  unfolding record_case_event funding_event update_case_fanout put_case
  add_funding s c event fanout =
      put_case (record_case_event s (funding_event c.id "additional_funding" event))
        (update_case_fanout c fanout)

  unfoldable pub opened :
      ℕ
      → RadarStore D
      → FundingEvent D
      → Option (RadarStore D)
      → RadarStore D × Option (Option (FundingRadarCase D))
  unfolding record_case_event funding_event fetch_case
  opened id s event none = (s, none)
  opened id s event (some t) =
      let u = record_case_event t (funding_event id "first_funding" event) in
      (u, some (fetch_case event.chain event.to_address u))

  unfoldable pub open_case :
      ℕ
      → RadarStore D
      → FundingEvent D
      → FundingRadarConfig
      → RadarStore D × Option (Option (FundingRadarCase D))
  unfolding insert_case new_case opened
  open_case id s event config = opened id s event (insert_case s (new_case id event config))

  -- What a qualifying event does to the case that is there.
  unfoldable pub apply_funding :
      ℕ
      → ℕ
      → RadarStore D
      → FundingEvent D
      → FundingRadarConfig
      → Option (FundingRadarCase D)
      → RadarStore D × Option (Option (FundingRadarCase D))
  unfolding is_dismissed add_funding open_case fetch_case
  apply_funding id fanout s event config none = open_case id s event config
  apply_funding id fanout s event config (some c) =
      let t = add_funding s c event fanout in
      if is_dismissed c.stage
      then open_case id s event config
      else (t, some (fetch_case event.chain event.to_address t))

module _ (dec : Decimal) where
  open dec use {D}

  unfoldable pub opens_case : FundingEvent D → FundingRadarConfig → Option D → Bool
  unfolding unconfirmed recipient_is_fresh qualifies_as_large_funding
  opens_case event config threshold =
      not (unconfirmed event.commitment)
      && recipient_is_fresh event config
      && qualifies_as_large_funding dec event.asset_kind event config threshold

  -- The store after the event, and the case that is returned; `none` is the error of the database.
  unfoldable pub ingest_funding_event :
      ℕ
      → ℕ
      → RadarStore D
      → FundingEvent D
      → FundingRadarConfig
      → Option D
      → RadarStore D × Option (Option (FundingRadarCase D))
  unfolding store_funding_observation opens_case upsert_ends apply_funding fetch_case
  ingest_funding_event id fanout s event config threshold =
      let s = store_funding_observation s event in
      let t = upsert_ends s event in
      if opens_case event config threshold
      then apply_funding id fanout t event config (fetch_case event.chain event.to_address t)
      else (s, some (fetch_case event.chain event.to_address s))
