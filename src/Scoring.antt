-- ===== src/Scoring.antt =====
-- src/scoring.rs: the matching of trades, the skill and copyability scores and the conviction.
-- Decimals are the parameter of Decimal.antt; the floor of the completeness is the decimal that
-- `format!` and `from_str_exact` make of the configured `f64`, if any. The row that
-- `store_wallet_score` writes is not modelled. The loop of a sell runs on fuel.
pub mod Lots
pub mod Rounds
pub mod Scores
pub mod Laws
mod Examples
use solana_whale_intelligenc.Prelude.{
  ℕ, zero, suc, ◌+◌, ◌-◌, ◌≡◌, Bool, true, false, not, ◌&&◌, ◌||◌, Option, none, some, List, [],
  ◌∷◌, ◌++◌, String, length, is_empty, each, if◌then◌else◌, leb, ltb, min, str_eq,
}
use solana_whale_intelligenc.Prelude.Int.{ℤ, pos, negsuc, leb_ℤ, max_ℤ, ◌-ℤ◌}
use solana_whale_intelligenc.Prelude.Dict.{get, put}
use solana_whale_intelligenc.Decimal.{Decimal}

pub data TradeSide : Type 0 where
  buy sell : TradeSide

pub record ScoredTrade (D : Type 0) : Type 0 where
  pub mint : String
  pub side : TradeSide
  pub token_amount : D
  pub usd_value : Option D
  pub block_time : Option ℤ

pub record MatchedPosition (D : Type 0) : Type 0 where
  pub mint : String
  pub realized_pnl_usd : Option D
  pub roi : Option D
  pub hold_seconds : Option ℤ

pub record OpenLot (D : Type 0) : Type 0 where
  pub amount : D
  pub usd : D
  pub time : Option ℤ

-- The variables of the loop of a sell.
pub record Sale (D : Type 0) : Type 0 where
  pub remaining : D
  pub cost : D
  pub open_time : Option ℤ
  pub lots : List (OpenLot D)

-- The open lots by mint, and the positions matched so far.
pub record Matching (D : Type 0) : Type 0 where
  pub open_lots : List (String × List (OpenLot D))
  pub matched : List (MatchedPosition D)

unfoldable pub lots_of : {D : Type 0} → Option (List (OpenLot D)) → List (OpenLot D)
lots_of none = []
lots_of (some lots) = lots

module _ (dec : Decimal) where
  open dec use {D, add, sub, mul, div, least, eq, lt}

  -- `value.or_else(|| amount.checked_mul(ZERO)).unwrap_or(ZERO)`, and `unwrap_or(ZERO)`
  unfoldable pub value_or_zero : Option D → D
  value_or_zero none = dec.zero
  value_or_zero (some d) = d

  -- One round of the loop, on the first lot.
  unfoldable pub sell_round : Sale D → List (OpenLot D) → Sale D
  sell_round s [] = s
  sell_round s (lot ∷ rest) =
      let take = least s.remaining lot.amount in
      let left = sub lot.amount take in
      record {
        remaining = sub s.remaining take;
        cost =
            if not (eq lot.usd dec.zero) && not (eq lot.amount dec.zero)
            then add s.cost (mul lot.usd (div take lot.amount))
            else s.cost;
        open_time = elim s.open_time [ none ↦ lot.time | some t ↦ some t ];
        lots =
            if eq left dec.zero
            then rest
            else record { amount = left; usd = lot.usd; time = lot.time } ∷ rest;
      }

  unfoldable pub goes_on : Sale D → Bool
  goes_on s = lt dec.zero s.remaining && not (is_empty s.lots)

  -- The loop; `none` is the want of fuel.
  unfoldable pub sell_loop : ℕ → Sale D → Option (Sale D)
  unfolding sell_round goes_on
  sell_loop zero s = if goes_on s then none else some s
  sell_loop (suc n) s =
      let result = sell_loop n (sell_round s s.lots) in if goes_on s then result else some s

  unfoldable pub hold_seconds : Option ℤ → Option ℤ → Option ℤ
  hold_seconds (some opened) (some closed) = some (max_ℤ (closed -ℤ opened) (pos 0))
  hold_seconds _ _ = none

  unfoldable pub position_of : ScoredTrade D → Sale D → MatchedPosition D
  unfolding hold_seconds value_or_zero
  position_of trade s =
      let proceeds = value_or_zero trade.usd_value in
      record {
        mint = trade.mint;
        realized_pnl_usd = some (sub proceeds s.cost);
        roi = if eq s.cost dec.zero then none else some (div (sub proceeds s.cost) s.cost);
        hold_seconds = hold_seconds s.open_time trade.block_time;
      }

  unfoldable pub open_lot : ScoredTrade D → OpenLot D
  unfolding value_or_zero
  open_lot trade = record {
    amount = trade.token_amount;
    usd = value_or_zero trade.usd_value;
    time = trade.block_time;
  }

  unfoldable pub start_sale : ScoredTrade D → List (OpenLot D) → Sale D
  start_sale trade lots = record {
    remaining = trade.token_amount;
    cost = dec.zero;
    open_time = none;
    lots = lots;
  }

  unfoldable pub apply_trade : TradeSide → Matching D → ScoredTrade D → Option (Matching D)
  unfolding lots_of open_lot sell_loop position_of start_sale
  apply_trade buy m trade =
      let lots = lots_of (get trade.mint m.open_lots) in
      some (record {
        open_lots = put trade.mint (lots ++ open_lot trade ∷ []) m.open_lots;
        matched = m.matched;
      })
  apply_trade sell m trade =
      let lots = lots_of (get trade.mint m.open_lots) in
      elim (sell_loop (suc (length lots)) (start_sale trade lots)) [
        | none ↦ none
        | some sale ↦ some (record {
          open_lots = put trade.mint sale.lots m.open_lots;
          matched = m.matched ++ position_of trade sale ∷ [];
        })
      ]

  -- The trades in their order; the totals that the code sums up beside them are never read.
  unfoldable pub fifo_match : List (ScoredTrade D) → Option (List (MatchedPosition D))
  unfolding apply_trade
  fifo_match trades =
      elim (each (λ o t. elim o [ none ↦ none | some m ↦ apply_trade t.side m t ])
        (some (record { open_lots = []; matched = [] })) trades) [
          | none ↦ none
          | some m ↦ some m.matched
        ]
