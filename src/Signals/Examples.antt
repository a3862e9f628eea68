-- ===== src/Signals/Examples.antt =====
-- The signals at concrete gates and claims, in thousandths.
use solana_whale_intelligenc.Prelude.{◌≡◌, ◌⊎◌, refl, true, false, none, some, [], ◌∷◌, String}
use solana_whale_intelligenc.Prelude.Int.{ℤ, pos}
use solana_whale_intelligenc.Decimal.Sample.{sample}
use solana_whale_intelligenc.Models.{solana, graduated}
use solana_whale_intelligenc.Signals.{
  SignalsConfig, MarketGate, TokenGate, ClusterSummary, WalletEligibility, ExitGates, SignalStore,
  Subject, exit_rejection, fenced,
}
use solana_whale_intelligenc.Signals.Gates.{exit_rejection-codes}
use solana_whale_intelligenc.Signals.Fence.{Written, fenced-once}

abbrev config : SignalsConfig ℤ
config = record {
  entry_max_token_age_hours = 24;
  entry_min_liquidity_usd = 20000;
  market_max_age_seconds = 300;
  exit_liquidity_drop_ratio = pos 500;
}

abbrev token : TokenGate
token = record { lifecycle = graduated; age_hours = some (pos 3); risk_flags = "low_holders" ∷ [] }

abbrev market : MarketGate ℤ
market = record { liquidity_usd = some (pos 30000000); observed_at = some (pos 900) }

abbrev clusters : ClusterSummary
clusters = record { eligible_clusters = 3; meaningful_buys = 4 }

abbrev wallets : WalletEligibility ℤ
wallets = record {
  eligible_wallets = 2;
  max_skill = 80;
  max_copyability = 70;
  min_history_completeness = pos 900;
}

abbrev exit_gates : ExitGates ℤ
exit_gates = record {
  clusters_selling = 0;
  material_fresh_transfer = false;
  dev_distribution = false;
  liquidity_drop_ratio = some (pos 100);
  tracked_selling = true;
}

abbrev code : String
code = "no_fresh_transfer"

exit_rejection-codes_example :
    ((code ≡ "no_cluster_sells") × (exit_gates.clusters_selling ≡ 1)) ⊎ (code ≡ "no_fresh_transfer")
unfolding exit_rejection
exit_rejection-codes_example = exit_rejection-codes sample exit_gates config code refl

abbrev about : Subject
about = record { workspace_id = 1; chain = solana; mint = "M"; now = pos 1000; next_id = 7 }

abbrev store : SignalStore
store = record {
  claims =
      record {
        workspace_id = 1;
        chain = solana;
        mint = "M";
        claimed_by = "w";
        expires_at = pos 1100;
      }
      ∷ [];
  evaluations = [];
  signals = [];
}

abbrev after : SignalStore
after = record {
  claims = [];
  evaluations =
      record {
        workspace_id = 1;
        chain = solana;
        mint = "M";
        signal_kind = "entry";
        evaluated_at = pos 1000;
        status = "accepted";
        rejection_code = none;
      }
      ∷ [];
  signals =
      record {
        id = 7;
        workspace_id = 1;
        chain = solana;
        mint = "M";
        signal_kind = "entry";
        created_at = pos 1000;
        score = 61;
      }
      ∷ [];
}

fenced-once_example : Written store about "w" (pos 1000) none after
unfolding fenced
fenced-once_example = fenced-once store about "w" (pos 1000) "entry" none 61 after (some 7) refl
