-- ===== src/Wallet/Examples.antt =====
-- A wallet's outcome at concrete swaps, in thousandths.
use solana_whale_intelligenc.Prelude.{ℕ, ◌≡◌, refl, Option, none, List, [], ◌∷◌, ◌++◌, String}
use solana_whale_intelligenc.Prelude.Int.{ℤ, pos}
use solana_whale_intelligenc.Decimal.Sample.{sample}
use solana_whale_intelligenc.CostBasis.{SwapDirection, buy, sell}
use solana_whale_intelligenc.Wallet.{PricedSwap, build_wallet_intelligence}
use solana_whale_intelligenc.Wallet.Outcome.{foreign-ignored}

abbrev secs : String → Option ℤ
secs s = none

abbrev swap : String → String → SwapDirection → String → String → ℕ → PricedSwap ℤ
swap wallet token direction in_ out usd = record {
  swap = record {
    chain = "solana";
    wallet = wallet;
    token = token;
    direction = direction;
    amount_in = in_;
    amount_out = out;
    timestamp = "";
    tx_hash = "";
  };
  usd_value = pos usd;
}

abbrev first : List (PricedSwap ℤ)
first = swap "a" "T" buy "1" "10" 50000 ∷ swap "a" "U" buy "1" "4" 8000 ∷ []

abbrev last : List (PricedSwap ℤ)
last = swap "a" "T" sell "5" "1" 40000 ∷ swap "a" "U" sell "4" "1" 9000 ∷ []

foreign-ignored_example :
    build_wallet_intelligence sample secs
      (λ m. m)
      (λ l. l)
      "solana"
      "a"
      none
      (first ++ swap "b" "T" sell "9" "1" 90000 ∷ last)
      none
      []
    ≡ build_wallet_intelligence sample secs
        (λ m. m)
        (λ l. l)
        "solana"
        "a"
        none
        (first ++ last)
        none
        []
foreign-ignored_example =
    foreign-ignored sample secs (λ m. m) (λ l. l) "solana" "a" none none [] first last
      (swap "b" "T" sell "9" "1" 90000) refl
