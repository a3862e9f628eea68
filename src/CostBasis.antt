-- ===== src/CostBasis.antt =====
-- src/sf/cost_basis.rs and the swaps of src/sf/wallet.rs: the first-in-first-out matching of sells
-- with the lots that buys opened. The time of a text is chrono's, and the order in which a
-- `HashMap` gives its entries is the standard library's: both are parameters. Decimals are the
-- parameter of Decimal.antt. The `while` loop of a sell runs on fuel.
pub mod Lots
pub mod Balance
pub mod Wallets
mod Examples
use solana_whale_intelligenc.Prelude.{
  ℕ, zero, suc, ◌+◌, ◌≡◌, Bool, true, false, not, ◌&&◌, Option, none, some, List, [], ◌∷◌, ◌++◌,
  map, String, length, is_empty, each, if◌then◌else◌, str_eq,
}
use solana_whale_intelligenc.Prelude.Int.{ℤ, pos, ltb_ℤ, max_ℤ, ◌-ℤ◌}
use solana_whale_intelligenc.Prelude.Dict.{alter}
use solana_whale_intelligenc.Prelude.Sort.{sort_by}
use solana_whale_intelligenc.Decimal.{Decimal, parse_decimal}

pub data SwapDirection : Type 0 where
  buy sell : SwapDirection

pub record Swap : Type 0 where
  pub chain : String
  pub wallet : String
  pub token : String
  pub direction : SwapDirection
  pub amount_in : String
  pub amount_out : String
  pub timestamp : String
  pub tx_hash : String

pub record ScoredSwap (D : Type 0) : Type 0 where
  pub swap : Swap
  pub usd_value : D

pub record MatchedPosition (D : Type 0) : Type 0 where
  pub token : String
  pub realized_pnl : D
  pub roi : Option D
  pub hold_seconds : Option ℤ
  pub unmatched_sell_amount : D

pub record OpenLot (D : Type 0) : Type 0 where
  pub amount : D
  pub cost_usd : D
  pub time : Option ℤ

-- The variables of the loop over the lots.
pub record Sale (D : Type 0) : Type 0 where
  pub remaining : D
  pub cost : D
  pub open_time : Option ℤ
  pub matched_amount : D
  pub lots : List (OpenLot D)

-- What the swaps of one key have led to so far.
pub record Book (D : Type 0) : Type 0 where
  pub lots : List (OpenLot D)
  pub positions : List (MatchedPosition D)

-- (chain, wallet, token)
pub record Key : Type 0 where
  pub chain : String
  pub wallet : String
  pub token : String

unfoldable pub same_swap_key : Key → Key → Bool
same_swap_key a b = str_eq a.chain b.chain && str_eq a.wallet b.wallet && str_eq a.token b.token

unfoldable pub swap_key : {D : Type 0} → ScoredSwap D → Key
swap_key s = record { chain = s.swap.chain; wallet = s.swap.wallet; token = s.swap.token }

abbrev pub SwapGroups : Type 0 → Type 0
SwapGroups D = List (Key × List (ScoredSwap D))

unfoldable pub group : {D : Type 0} → List (ScoredSwap D) → SwapGroups D
unfolding swap_key same_swap_key alter
group swaps =
    each (λ groups s. alter same_swap_key (swap_key s) [] (λ l. l ++ s ∷ []) groups) [] swaps

module _ (dec : Decimal) (secs : String → Option ℤ) where
  open dec use {D}

  -- `timestamp_secs().unwrap_or(0)`
  unfoldable pub time_key : ScoredSwap D → ℤ
  time_key s = elim (secs s.swap.timestamp) [ none ↦ pos 0 | some t ↦ t ]

  unfoldable pub earlier : ScoredSwap D → ScoredSwap D → Bool
  unfolding time_key
  earlier a b = ltb_ℤ (time_key a) (time_key b)

  unfoldable pub open_lot : ScoredSwap D → OpenLot D
  unfolding parse_decimal
  open_lot s = record {
    amount = parse_decimal dec s.swap.amount_out;
    cost_usd = s.usd_value;
    time = secs s.swap.timestamp;
  }

module _ (dec : Decimal) where
  open dec use {D, add, sub, mul, div, least, eq, lt}

  unfoldable pub taken_cost : OpenLot D → D → D
  taken_cost lot take = mul lot.cost_usd (div take lot.amount)

  -- One round of the loop, on the first lot.
  unfoldable pub sell_round : Sale D → List (OpenLot D) → Sale D
  unfolding taken_cost
  sell_round s [] = s
  sell_round s (lot ∷ rest) =
      let take = least s.remaining lot.amount in
      let has_amount = not (eq lot.amount dec.zero) in
      let taken = taken_cost lot take in
      let left = sub lot.amount take in
      record {
        remaining = sub s.remaining take;
        cost = if has_amount then add s.cost taken else s.cost;
        open_time = elim s.open_time [ none ↦ lot.time | some t ↦ some t ];
        matched_amount = add s.matched_amount take;
        lots =
            if eq left dec.zero
            then rest
            else record {
              amount = left;
              cost_usd = if has_amount then sub lot.cost_usd taken else lot.cost_usd;
              time = lot.time;
            }
              ∷ rest;
      }

  -- `remaining > 0`, and a lot is left: without one the loop breaks.
  unfoldable pub goes_on : Sale D → Bool
  goes_on s = lt dec.zero s.remaining && not (is_empty s.lots)

  -- The loop; `none` is the want of fuel.
  unfoldable pub sell_loop : ℕ → Sale D → Option (Sale D)
  unfolding sell_round goes_on
  sell_loop zero s = if goes_on s then none else some s
  sell_loop (suc n) s =
      let result = sell_loop n (sell_round s s.lots) in if goes_on s then result else some s

  unfoldable pub start_sale : D → List (OpenLot D) → Sale D
  start_sale amount lots = record {
    remaining = amount;
    cost = dec.zero;
    open_time = none;
    matched_amount = dec.zero;
    lots = lots;
  }

  unfoldable pub hold_seconds : Option ℤ → Option ℤ → Option ℤ
  hold_seconds (some o) (some c) = some (max_ℤ (c -ℤ o) (pos 0))
  hold_seconds _ _ = none

  -- The position that a sell of this amount closes, at the end of its loop.
  unfoldable pub position_of : String → D → D → Option ℤ → Sale D → MatchedPosition D
  unfolding hold_seconds
  position_of token usd_value sell_amount time s =
      let proceeds =
        if eq sell_amount dec.zero
        then dec.zero
        else mul usd_value (div s.matched_amount sell_amount) in
      let pnl = sub proceeds s.cost in
      record {
        token = token;
        realized_pnl = pnl;
        roi = if eq s.cost dec.zero then none else some (div pnl s.cost);
        hold_seconds = hold_seconds s.open_time time;
        unmatched_sell_amount = s.remaining;
      }

module _ (dec : Decimal) (secs : String → Option ℤ) where
  open dec use {D, add}

  -- A swap of a key: a buy opens a lot, a sell closes the oldest. A round takes a lot away or ends
  -- the loop, so that as many rounds as there are lots are enough.
  -- What a sell leaves when its loop has ended.
  unfoldable pub closed : String → Book D → ScoredSwap D → Sale D → Book D
  unfolding parse_decimal position_of
  closed token b s sale = record {
    lots = sale.lots;
    positions =
        b.positions
        ++ position_of dec token s.usd_value (parse_decimal dec s.swap.amount_in)
            (secs s.swap.timestamp) sale
          ∷ [];
  }

  unfoldable pub apply_to : SwapDirection → String → Book D → ScoredSwap D → Option (Book D)
  unfolding open_lot parse_decimal start_sale sell_loop closed
  apply_to buy token b s =
      some (record { lots = b.lots ++ open_lot dec secs s ∷ []; positions = b.positions })
  apply_to sell token b s =
      let start = start_sale dec (parse_decimal dec s.swap.amount_in) b.lots in
      elim (sell_loop dec (suc (length b.lots)) start) [
        | none ↦ none
        | some sale ↦ some (closed token b s sale)
      ]

  unfoldable pub apply_swap : String → Book D → ScoredSwap D → Option (Book D)
  unfolding apply_to
  apply_swap token b s = apply_to s.swap.direction token b s

  unfoldable pub apply_swaps : String → Option (Book D) → List (ScoredSwap D) → Option (Book D)
  unfolding apply_swap
  apply_swaps token o swaps =
      each (λ b s. elim b [ none ↦ none | some b ↦ apply_swap token b s ]) o swaps

  -- The swaps of one key, from the earliest on.
  unfoldable pub match_key : Key → List (ScoredSwap D) → Option (Book D)
  unfolding sort_by earlier apply_swaps
  match_key key swaps =
      apply_swaps key.token (some (record { lots = []; positions = [] }))
        (sort_by (earlier dec secs) swaps)

  unfoldable pub residual_of : List (OpenLot D) → D × D
  residual_of lots =
      each (λ (sums : D × D) lot. (add sums.0 lot.amount, add sums.1 lot.cost_usd))
        (dec.zero, dec.zero) lots

-- The positions, and (open amount, open cost) per key.
abbrev pub Matched : Type 0 → Type 0
Matched D = List (MatchedPosition D) × List (Key × (D × D))

module _ (dec : Decimal) (secs : String → Option ℤ) where
  open dec use {D, add}

  unfoldable pub match_entry : Option (Matched D) → Key × List (ScoredSwap D) → Option (Matched D)
  unfolding match_key residual_of
  match_entry none entry = none
  match_entry (some (positions, residual)) (key, swaps) = elim (match_key dec secs key swaps) [
    | none ↦ none
    | some book ↦
        some (positions ++ book.positions, residual ++ (key, residual_of dec secs book.lots) ∷ [])
  ]

  -- The keys are taken in the order `iter` of the map.
  unfoldable pub fifo_match :
      (SwapGroups D → SwapGroups D) → List (ScoredSwap D) → Option (Matched D)
  unfolding group match_entry
  fifo_match iter swaps = each match_entry (some ([], [])) (iter (group swaps))

  -- `CostBasisResidual::total_cost`
  unfoldable pub total_cost : List (Key × (D × D)) → D
  total_cost residual = each (λ sum (entry : Key × (D × D)). add sum entry.1.1) dec.zero residual
