-- ===== src/Portfolio/Examples.antt =====
-- The portfolio at concrete lines: the first and the last are connected by the one between them.
use solana_whale_intelligenc.Prelude.{
  ℕ, ◌≡◌, ◌<◌, ◌↔◌, refl, Option, none, some, List, [], ◌∷◌, map, String,
}
use solana_whale_intelligenc.Prelude.Int.{ℤ, pos, ◌+ℤ◌}
use solana_whale_intelligenc.Decimal.{sum, parse_decimal}
use solana_whale_intelligenc.Decimal.Sample.{sample, sample-IsExact}
use solana_whale_intelligenc.Portfolio.{
  Exposure, PortfolioProjection, Links, find, links, key_count, project,
}
use solana_whale_intelligenc.Portfolio.Linking.{Connected, declarations}
use solana_whale_intelligenc.Portfolio.Lines.{links_iff}
use solana_whale_intelligenc.Portfolio.Sums.{values, notional_of, correlated_of, project-sums}

abbrev line : String → String → Option (List String) → Exposure
line kind notional correlated = record {
  kind = kind;
  key = "k";
  notional = notional;
  correlated = correlated;
}

abbrev lines : List Exposure
lines =
    line "token" "10" (some ("a" ∷ []))
    ∷ line "pool" "20" none
    ∷ line "token" "30" (some ("b" ∷ []))
    ∷ line "chain" "" (some ("a" ∷ "b" ∷ []))
    ∷ line "chain" "5" (some [])
    ∷ []

projected :
    project sample lines
    ≡ some (record {
      total_notional = pos 65000;
      by_kind = ("token", pos 40000) ∷ ("pool", pos 20000) ∷ ("chain", pos 5000) ∷ [];
      correlated_notional = pos 45000;
      correlation_groups = 2;
    })
unfolding project ◌+ℤ◌ parse_decimal
projected = refl

links_iff_example :
    (l : Links) × (links 5 lines ≡ some l)
    × ((cls : ℕ → ℕ) × ((i : ℕ) → i < 5 → (p : List ℕ) × (find 5 l.parent i ≡ some (cls i, p)))
        × ((i j : ℕ) → (cls i ≡ cls j) ↔ Connected (declarations 0 lines) i j))
unfolding links find key_count
links_iff_example = links_iff lines

project-sums_example :
    (r : PortfolioProjection ℤ) × (project sample lines ≡ some r)
    × (r.total_notional ≡ sum sample (map (notional_of sample) lines))
    × (values sample r.by_kind ≡ sum sample (map (notional_of sample) lines))
    × (r.correlated_notional ≡ sum sample (map (correlated_of sample) lines))
project-sums_example = project-sums sample sample-IsExact lines
