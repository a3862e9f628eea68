-- ===== src/Scoring/Examples.antt =====
-- The scoring at concrete trades and inputs, in thousandths.
use solana_whale_intelligenc.Prelude.{
  ℕ, ◌≤◌, ◌≡◌, refl, true, false, none, some, List, [], ◌∷◌, arith,
}
use solana_whale_intelligenc.Prelude.Int.{ℤ, pos, negsuc, leb_ℤ, ltb_ℤ, ◌-ℤ◌, ◌+ℤ◌}
use solana_whale_intelligenc.Decimal.Sample.{sample, sample-IsExact}
use solana_whale_intelligenc.Scoring.{
  TradeSide, buy, sell, ScoredTrade, MatchedPosition, OpenLot, Sale, fifo_match,
}
use solana_whale_intelligenc.Scoring.Lots.{sell_from, rest_of, split_sells}
use solana_whale_intelligenc.Scoring.Rounds.{fifo_match-ends}
use solana_whale_intelligenc.Scoring.Scores.{
  ScoreInputs, ScoringConfig, compute_wallet_score, full_entry_eligible, skill_score, floor_of,
}
use solana_whale_intelligenc.Scoring.Laws.{
  full_entry_eligible-IsCopyable, compute_wallet_score-IsBounded,
}

abbrev lot : OpenLot ℤ
lot = record { amount = pos 10000; usd = pos 100000; time = none }

-- A lot of 10 bought for 100: a sell of 5 is charged 50, and the sell of the other 5 again 100.
split_sells_example :
    (s : Sale ℤ) × (sell_from sample sample-IsExact (pos 5000) lot ≡ some s)
    × (s.cost ≡ pos 50000)
    × (s.lots ≡ rest_of sample sample-IsExact (pos 5000) lot ∷ [])
    × ((t : Sale ℤ) × (sell_from sample sample-IsExact
            (pos 5000)
            (rest_of sample sample-IsExact (pos 5000) lot)
          ≡ some t)
        × (t.cost ≡ pos 100000)
        × (t.lots ≡ []))
unfolding ◌-ℤ◌
split_sells_example = split_sells sample sample-IsExact (pos 5000) lot refl refl refl refl refl

abbrev trade : TradeSide → ℕ → ℕ → ScoredTrade ℤ
trade side amount usd = record {
  mint = "M";
  side = side;
  token_amount = pos amount;
  usd_value = some (pos usd);
  block_time = none;
}

abbrev position : ℤ → ℤ → MatchedPosition ℤ
position pnl roi = record {
  mint = "M";
  realized_pnl_usd = some pnl;
  roi = some roi;
  hold_seconds = none;
}

-- Bought for 100 and sold for 60 and 60: the matching reports 10 and a loss of 40, not 20 in all.
split :
    fifo_match sample (trade buy 10000 100000 ∷ trade sell 5000 60000 ∷ trade sell 5000 60000 ∷ [])
    ≡ some (position (pos 10000) (pos 200) ∷ position (negsuc 39999) (negsuc 399) ∷ [])
unfolding fifo_match ◌-ℤ◌ ◌+ℤ◌
split = refl

fifo_match-ends_example :
    (r : List (MatchedPosition ℤ)) × (fifo_match sample
        (trade buy 10000 100000 ∷ trade sell 15000 60000 ∷ [])
      ≡ some r)
fifo_match-ends_example =
    fifo_match-ends sample sample-IsExact (trade buy 10000 100000 ∷ trade sell 15000 60000 ∷ [])

abbrev inputs : ScoreInputs ℤ
inputs = record {
  meaningful_trades = 60;
  tokens_traded = 8;
  realized_pnl_usd = pos 9000000;
  size_weighted_roi = pos 5000;
  meaningful_win_rate = pos 600;
  early_entry_rate = pos 900;
  history_completeness = pos 900;
  mev_likelihood = pos 100;
  avg_hold_seconds = some (pos 3600);
  gmgn_agreement = some (pos 1000);
  liquidity_available = some (pos 60000000);
}

abbrev config : ScoringConfig ℤ
config = record {
  min_meaningful_trades = 20;
  min_tokens_traded = 5;
  full_skill_score = 70;
  full_copyability_score = 60;
  floor = some (pos 800);
  conviction_cap_below_completeness = 49;
}

below : (d : ℤ) → ltb_ℤ d (pos 800) ≡ true → ltb_ℤ d (pos 900) ≡ true
below d h = ground (arith)

full_entry_eligible-IsCopyable_example :
    ((hold : ℤ) → some (pos 3600) ≡ some hold → leb_ℤ hold (pos 5) ≡ false)
    × (ltb_ℤ (pos 100) (pos 900) ≡ true)
    × (20 ≤ 60)
    × (5 ≤ 8)
    × (70 ≤ skill_score sample inputs)
unfolding full_entry_eligible compute_wallet_score ◌-ℤ◌ ◌+ℤ◌
full_entry_eligible-IsCopyable_example =
    full_entry_eligible-IsCopyable sample below inputs config (omega arith) refl

at_most : (d : ℤ) (n : ℕ) → ltb_ℤ (pos 100000) d ≡ false → sample.to_u32 d ≡ some n → n ≤ 100
at_most (pos m) n h q = ground (arith)
at_most (negsuc m) n h q = ground (arith)

compute_wallet_score-IsBounded_example :
    ((compute_wallet_score sample inputs config).skill ≤ 100)
    × ((compute_wallet_score sample inputs config).copyability ≤ 100)
    × (ltb_ℤ (pos 900) (pos 800) ≡ true
        → (compute_wallet_score sample inputs config).conviction ≤ 49)
    × (ltb_ℤ (pos 900) (pos 800) ≡ false
        → (compute_wallet_score sample inputs config).conviction ≤ 100)
unfolding floor_of
compute_wallet_score-IsBounded_example =
    compute_wallet_score-IsBounded sample refl refl at_most inputs config
