-- ===== src/Scoring/Scores.antt =====
-- `skill_score`, `copyability_score`, `compute_wallet_score` and `full_entry_eligible`.
use solana_whale_intelligenc.Prelude.{
  ℕ, ◌+◌, Bool, not, ◌&&◌, ◌||◌, Option, none, some, if◌then◌else◌, leb, ltb, min,
}
use solana_whale_intelligenc.Prelude.Int.{ℤ, pos, negsuc, leb_ℤ, ◌-ℤ◌}
use solana_whale_intelligenc.Decimal.{Decimal}

pub record ScoreInputs (D : Type 0) : Type 0 where
  pub meaningful_trades : ℕ
  pub tokens_traded : ℕ
  pub realized_pnl_usd : D
  pub size_weighted_roi : D
  pub meaningful_win_rate : D
  pub early_entry_rate : D
  pub history_completeness : D
  pub mev_likelihood : D
  pub avg_hold_seconds : Option ℤ
  pub gmgn_agreement : Option D
  pub liquidity_available : Option D

pub record CopyabilityPenalties : Type 0 where
  pub hold_penalty : ℕ
  pub liquidity_penalty : ℕ
  pub drift_penalty : ℕ
  pub sell_race_penalty : ℕ
  pub bot_penalty : ℕ

-- Of the configuration; `floor` is the decimal of `history_completeness_floor`, if it is one.
pub record ScoringConfig (D : Type 0) : Type 0 where
  pub min_meaningful_trades : ℕ
  pub min_tokens_traded : ℕ
  pub full_skill_score : ℕ
  pub full_copyability_score : ℕ
  pub floor : Option D
  pub conviction_cap_below_completeness : ℕ

pub record WalletScoreResult (D : Type 0) : Type 0 where
  pub skill : ℕ
  pub copyability : ℕ
  pub conviction : ℕ
  pub provisional : Bool
  pub history_completeness : D
  pub penalties : CopyabilityPenalties

-- Up to five seconds, a minute, five minutes.
unfoldable pub hold_penalty : Option ℤ → ℕ
hold_penalty none = 0
hold_penalty (some hold) =
    if leb_ℤ hold (pos 5)
    then 60
    else if leb_ℤ hold (pos 60)
    then 30
    else if leb_ℤ hold (pos 300)
    then 10
    else 0

unfoldable pub sell_race_penalty : Option ℤ → ℕ
sell_race_penalty none = 0
sell_race_penalty (some hold) = if leb_ℤ hold (pos 5) then 15 else 0

module _ (dec : Decimal) where
  open dec use {D, add, sub, mul, div, lt, from_int, literal, abs, to_u32}

  -- `x.clamp(low, high)`
  unfoldable pub clamp : D → D → D → D
  clamp low high x = if lt x low then low else if lt high x then high else x

  unfoldable pub default_inputs : ScoreInputs D
  default_inputs = record {
    meaningful_trades = 0;
    tokens_traded = 0;
    realized_pnl_usd = dec.zero;
    size_weighted_roi = dec.zero;
    meaningful_win_rate = dec.zero;
    early_entry_rate = dec.zero;
    history_completeness = dec.zero;
    mev_likelihood = dec.zero;
    avg_hold_seconds = none;
    gmgn_agreement = none;
    liquidity_available = none;
  }

  unfoldable pub normalize_ratio : D → D
  unfolding clamp
  normalize_ratio value =
      div (add (clamp (from_int (negsuc 0)) (from_int (pos 5)) value) (from_int (pos 1)))
        (from_int (pos 6))

  unfoldable pub unit : D → D
  unfolding clamp
  unit x = clamp dec.zero (from_int (pos 1)) x

  unfoldable pub or_half : Option D → D
  or_half none = literal 5 1
  or_half (some d) = d

  unfoldable pub or_none : Option ℕ → ℕ
  or_none none = 0
  or_none (some n) = n

  unfoldable pub skill_total : ScoreInputs D → D
  unfolding normalize_ratio unit or_half
  skill_total inputs =
      let roi = mul (normalize_ratio inputs.size_weighted_roi) (from_int (pos 30)) in
      let win = mul (unit inputs.meaningful_win_rate) (from_int (pos 20)) in
      let early = mul (unit inputs.early_entry_rate) (from_int (pos 15)) in
      let consistency =
        sub (from_int (pos 1)) (abs (sub inputs.meaningful_win_rate (literal 5 1))) in
      let steady = mul (unit consistency) (from_int (pos 10)) in
      let sample =
        mul (div (from_int (pos (min inputs.meaningful_trades 50))) (from_int (pos 50)))
          (from_int (pos 10)) in
      let agreement = mul (unit (or_half inputs.gmgn_agreement)) (from_int (pos 15)) in
      add (add (add (add (add roi win) early) steady) sample) agreement

  unfoldable pub skill_score : ScoreInputs D → ℕ
  unfolding skill_total clamp or_none
  skill_score inputs = or_none (to_u32 (clamp dec.zero (from_int (pos 100)) (skill_total inputs)))

  unfoldable pub liquidity_penalty : Option D → ℕ
  liquidity_penalty none = 0
  liquidity_penalty (some liquidity) =
      if lt liquidity (from_int (pos 10000))
      then 25
      else if lt liquidity (from_int (pos 50000))
      then 10
      else 0

  -- `a >= b` is `!(a < b)` on decimals.
  unfoldable pub drift_penalty : D → ℕ
  drift_penalty mev =
      if not (lt mev (literal 8 1)) then 25 else if not (lt mev (literal 5 1)) then 10 else 0

  unfoldable pub bot_penalty : D → ℕ
  bot_penalty mev = if not (lt mev (literal 9 1)) then 30 else 0

  unfoldable pub penalties_of : ScoreInputs D → CopyabilityPenalties
  unfolding hold_penalty liquidity_penalty drift_penalty sell_race_penalty bot_penalty
  penalties_of inputs = record {
    hold_penalty = hold_penalty inputs.avg_hold_seconds;
    liquidity_penalty = liquidity_penalty inputs.liquidity_available;
    drift_penalty = drift_penalty inputs.mev_likelihood;
    sell_race_penalty = sell_race_penalty inputs.avg_hold_seconds;
    bot_penalty = bot_penalty inputs.mev_likelihood;
  }

unfoldable pub total_penalty : CopyabilityPenalties → ℕ
total_penalty p =
    p.hold_penalty + p.liquidity_penalty + p.drift_penalty + p.sell_race_penalty + p.bot_penalty

-- `i64`, clamped between 0 and 100.
unfoldable pub score_after : ℕ → ℕ
score_after total =
    let score = pos 100 -ℤ pos total in
    if leb_ℤ score (pos 0)
    then 0
    else if leb_ℤ (pos 100) score
    then 100
    else elim score [ pos n ↦ n | negsuc _ ↦ 0 ]

module _ (dec : Decimal) where
  open dec use {D, add, div, lt, from_int, literal, to_u32}

  unfoldable pub copyability_score : ScoreInputs D → ℕ × CopyabilityPenalties
  unfolding penalties_of total_penalty score_after
  copyability_score inputs =
      let penalties = penalties_of dec inputs in (score_after (total_penalty penalties), penalties)

  unfoldable pub floor_of : Option D → D
  floor_of none = literal 8 1
  floor_of (some d) = d

  unfoldable pub base_conviction : ℕ → ℕ → ℕ
  unfolding or_none
  base_conviction skill copyability =
      or_none dec
        (to_u32 (div (add (from_int (pos skill)) (from_int (pos copyability))) (from_int (pos 2))))

  unfoldable pub compute_wallet_score : ScoreInputs D → ScoringConfig D → WalletScoreResult D
  unfolding skill_score copyability_score floor_of base_conviction
  compute_wallet_score inputs config =
      let skill = skill_score dec inputs in
      let (copyability, penalties) = copyability_score inputs in
      let base = base_conviction skill copyability in
      record {
        skill = skill;
        copyability = copyability;
        conviction =
            if lt inputs.history_completeness (floor_of config.floor)
            then min base config.conviction_cap_below_completeness
            else min base 100;
        provisional =
            ltb inputs.meaningful_trades config.min_meaningful_trades
            || ltb inputs.tokens_traded config.min_tokens_traded;
        history_completeness = inputs.history_completeness;
        penalties = penalties;
      }

  unfoldable pub full_entry_eligible : WalletScoreResult D → ScoringConfig D → Bool
  full_entry_eligible result config =
      leb config.full_skill_score result.skill
      && leb config.full_copyability_score result.copyability
      && not result.provisional
