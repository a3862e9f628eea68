-- ===== src/Signals/Gates.antt =====
-- What an accepted signal has, and what a rejected exit is told.
use solana_whale_intelligenc.Prelude.{
  ◌≤◌, ◌≡◌, refl, sym, ◌∙◌, inl, inr, ◌⊎◌, true, false, none, some, String, if-keeps, ◌==◌, ==_iff,
  Bool-cases, arith,
}
use mathlib.Core.Option.{some-injective, none-ne-some}
use solana_whale_intelligenc.Prelude.Int.{ℤ}
use solana_whale_intelligenc.Decimal.{Decimal}
use solana_whale_intelligenc.Models.{entry_supported}
use solana_whale_intelligenc.Signals.{
  SignalsConfig, MarketGate, TokenGate, ClusterSummary, WalletEligibility, ExitGates, too_old,
  is_liquid, has_critical_flag, is_fresh, entry_rejection, triggered, exit_code, exit_rejection,
}

module _ (dec : Decimal) where
  open dec use {D, lt, literal}

  -- The entry gates let a token through, with no code recorded, only where it has two eligible
  -- clusters and two meaningful buys, a supported lifecycle, a known age within the limit, the liquidity, no
  -- critical flag, market data that is not too old, a wallet with the skill and one with the
  -- copyability, and a history that is complete enough.
  pub accepted-Entry :
      (now : ℤ) (config : SignalsConfig D) (token : TokenGate) (market : MarketGate D)
      (clusters : ClusterSummary) (wallets : WalletEligibility D)
      → entry_rejection dec now config token market clusters wallets ≡ none
      → (2 ≤ clusters.eligible_clusters)
        × (2 ≤ clusters.meaningful_buys)
        × (entry_supported token.lifecycle ≡ true)
        × (too_old token.age_hours config.entry_max_token_age_hours ≡ false)
        × (is_liquid dec market.liquidity_usd config.entry_min_liquidity_usd ≡ true)
        × (has_critical_flag token.risk_flags ≡ false)
        × (is_fresh market.observed_at now config.market_max_age_seconds ≡ true)
        × (70 ≤ wallets.max_skill)
        × (60 ≤ wallets.max_copyability)
        × (lt wallets.min_history_completeness (literal 80 2) ≡ false)
  unfolding entry_rejection
  accepted-Entry now config token market clusters wallets h = ground (arith)

  not_triggered :
      (gates : ExitGates D) (config : SignalsConfig D)
      → triggered dec gates config ≡ false
      → gates.material_fresh_transfer ≡ false
  unfolding triggered
  not_triggered gates config h = ground (arith)

  coded :
      (gates : ExitGates D) (code : String)
      → gates.material_fresh_transfer ≡ false
      → exit_code dec gates ≡ code
      → ((code ≡ "no_cluster_sells") × (gates.clusters_selling ≡ 1)) ⊎ (code ≡ "no_fresh_transfer")
  unfolding exit_code
  coded gates code m q = elim (Bool-cases (gates.clusters_selling == 1)) [
    | inl e ↦ inl (sym q ∙ simp e refl, (==_iff gates.clusters_selling 1).0 e)
    | inr e ↦ inr (sym q ∙ simp (e, m) refl)
  ]

  -- An exit that is rejected is told that no cluster sells, where exactly one sells, or that there is
  -- no fresh transfer; the code for a liquidity drop that does not suffice is never given.
  pub exit_rejection-codes :
      (gates : ExitGates D) (config : SignalsConfig D) (code : String)
      → exit_rejection dec gates config ≡ some code
      → ((code ≡ "no_cluster_sells") × (gates.clusters_selling ≡ 1)) ⊎ (code ≡ "no_fresh_transfer")
  unfolding exit_rejection
  exit_rejection-codes gates config code =
      if-keeps
        (λ o.
          o ≡ some code
          → ((code ≡ "no_cluster_sells") × (gates.clusters_selling ≡ 1))
            ⊎ (code ≡ "no_fresh_transfer"))
        (triggered dec gates config) (λ _ q. absurd (none-ne-some code q))
        (λ t q. coded gates code (not_triggered gates config t) (some-injective _ _ q))
