-- ===== src/CostBasis/Examples.antt =====
-- The cost basis at concrete swaps, in whole numbers.
use solana_whale_intelligenc.Prelude.{
  ◌≡◌, refl, true, Option, none, some, List, [], ◌∷◌, String, is_empty, All, ◌/◌, arith,
}
use solana_whale_intelligenc.Prelude.Int.{ℤ, pos, pos_part, neg_part, difference, ltb_ℤ, ◌+ℤ◌, ◌-ℤ◌}
use solana_whale_intelligenc.Prelude.Sort.{insert_by}
use solana_whale_intelligenc.Decimal.Sample.{sample, sample-IsExact}
use solana_whale_intelligenc.CostBasis.{
  SwapDirection, buy, sell, Swap, ScoredSwap, MatchedPosition, OpenLot, Sale, Key, Matched,
  fifo_match, sell_loop, start_sale,
}
use solana_whale_intelligenc.CostBasis.Lots.{Balance, IsCovered, held_cost, sell_loop-settles}
use solana_whale_intelligenc.CostBasis.Wallets.{IsOwnPosition, IsOwnResidual, fifo_match-Books}

-- Times in seconds, written in digits.
abbrev secs : String → Option ℤ
secs s = elim (sample.parse s) [
  | none ↦ none
  | some t ↦ some (difference (pos_part t / 1000) (neg_part t / 1000))
]

abbrev swap : String → SwapDirection → String → String → String → Swap
swap wallet direction in_ out time = record {
  chain = "solana";
  wallet = wallet;
  token = "WIF";
  direction = direction;
  amount_in = in_;
  amount_out = out;
  timestamp = time;
  tx_hash = "";
}

abbrev key : String → Key
key wallet = record { chain = "solana"; wallet = wallet; token = "WIF" }

abbrev trades : List (ScoredSwap ℤ)
trades =
    record { swap = swap "a" buy "1" "5" "100"; usd_value = pos 50000 }
    ∷ record { swap = swap "b" buy "1" "7" "110"; usd_value = pos 30000 }
    ∷ record { swap = swap "a" sell "10" "1" "160"; usd_value = pos 140000 }
    ∷ record { swap = swap "a" buy "1" "5" "120"; usd_value = pos 60000 }
    ∷ record { swap = swap "b" sell "9" "1" "170"; usd_value = pos 90000 }
    ∷ []

abbrev position : ℤ → Option ℤ → ℤ → ℤ → MatchedPosition ℤ
position pnl roi hold left = record {
  token = "WIF";
  realized_pnl = pnl;
  roi = roi;
  hold_seconds = some hold;
  unmatched_sell_amount = left;
}

-- The sell of `a` takes both of its lots, the later listed too; that of `b` finds 7 of its 9.
matched :
    fifo_match sample secs (λ m. m) trades
    ≡ some (
      position (pos 30000) (some (pos 272)) (pos 60) (pos 0)
          ∷ position (pos 39930) (some (pos 1331)) (pos 60) (pos 2000)
          ∷ [],
      (key "a", (pos 0, pos 0)) ∷ (key "b", (pos 0, pos 0)) ∷ [],
    )
unfolding fifo_match insert_by ◌-ℤ◌ ◌+ℤ◌
matched = refl

fifo_match-Books_example :
    (r : Matched ℤ) × (fifo_match sample secs (λ m. m) trades ≡ some r)
    × All (IsOwnPosition sample sample-IsExact secs trades) r.0
    × All (IsOwnResidual sample sample-IsExact secs trades) r.1
fifo_match-Books_example = fifo_match-Books sample sample-IsExact secs (λ m. m) (λ m x i. i) trades

abbrev lots : List (OpenLot ℤ)
lots =
    record { amount = pos 5000; cost_usd = pos 50000; time = some (pos 100) }
    ∷ record { amount = pos 4000; cost_usd = pos 60000; time = none }
    ∷ []

abbrev sale : Sale ℤ
sale = start_sale sample (pos 7000) lots

sell_loop-settles_example :
    (t : Sale ℤ) × (sell_loop sample 3 sale ≡ some t)
    × Balance sample sample-IsExact sale t
    × IsCovered sample sample-IsExact t
    × (t.cost +ℤ held_cost sample t.lots ≡ sale.cost +ℤ held_cost sample sale.lots)
    × (ltb_ℤ (pos 0) t.remaining ≡ true → is_empty t.lots ≡ true)
unfolding start_sale
sell_loop-settles_example =
    sell_loop-settles sample sample-IsExact 3 sale (omega arith)
      (refl, ((refl, refl), ((refl, refl), tt)))
