-- ===== src/Signals.antt =====
-- src/signals.rs: the gates of an entry signal and of an exit signal, the rows that an evaluation
-- writes, and the claim that fences it. The state is the rows of the claims, the evaluations and the
-- signals; a transaction either gives the state after all its writes or fails with none of them.
-- Times are seconds; `clock` is the database's `now()`. The evidence of a row is not modelled.
pub mod Gates
pub mod Fence
mod Examples
use solana_whale_intelligenc.Prelude.{
  ℕ, ◌+◌, ◌*◌, ◌/◌, Bool, true, false, not, ◌&&◌, ◌||◌, Option, none, some, List, [], ◌∷◌, ◌++◌,
  String, any, filter, if◌then◌else◌, leb, ltb, min, ◌==◌, str_eq,
}
use solana_whale_intelligenc.Prelude.Int.{ℤ, pos, leb_ℤ, ltb_ℤ, ◌-ℤ◌}
use solana_whale_intelligenc.Decimal.{Decimal}
use solana_whale_intelligenc.Models.{ChainKind, chain_str, LifecycleState, entry_supported}

-- `exit_liquidity_drop_ratio` is the decimal that `decimal_from_ratio` makes of it.
pub record SignalsConfig (D : Type 0) : Type 0 where
  pub entry_max_token_age_hours : ℕ
  pub entry_min_liquidity_usd : ℕ
  pub market_max_age_seconds : ℕ
  pub exit_liquidity_drop_ratio : D

pub record MarketGate (D : Type 0) : Type 0 where
  pub liquidity_usd : Option D
  pub observed_at : Option ℤ

pub record TokenGate : Type 0 where
  pub lifecycle : LifecycleState
  pub age_hours : Option ℤ
  pub risk_flags : List String

pub record ClusterSummary : Type 0 where
  pub eligible_clusters : ℕ
  pub meaningful_buys : ℕ

pub record WalletEligibility (D : Type 0) : Type 0 where
  pub eligible_wallets : ℕ
  pub max_skill : ℕ
  pub max_copyability : ℕ
  pub min_history_completeness : D

pub record ExitGates (D : Type 0) : Type 0 where
  pub clusters_selling : ℕ
  pub material_fresh_transfer : Bool
  pub dev_distribution : Bool
  pub liquidity_drop_ratio : Option D
  pub tracked_selling : Bool

-- The rows.
pub record EvalClaim : Type 0 where
  pub workspace_id : ℕ
  pub chain : ChainKind
  pub mint : String
  pub claimed_by : String
  pub expires_at : ℤ

pub record Evaluation : Type 0 where
  pub workspace_id : ℕ
  pub chain : ChainKind
  pub mint : String
  pub signal_kind : String
  pub evaluated_at : ℤ
  pub status : String
  pub rejection_code : Option String

pub record Signal : Type 0 where
  pub id : ℕ
  pub workspace_id : ℕ
  pub chain : ChainKind
  pub mint : String
  pub signal_kind : String
  pub created_at : ℤ
  pub score : ℕ

pub record SignalStore : Type 0 where
  pub claims : List EvalClaim
  pub evaluations : List Evaluation
  pub signals : List Signal

-- The workspace and the token that an evaluation is about, its time, and the id of a new signal.
pub record Subject : Type 0 where
  pub workspace_id : ℕ
  pub chain : ChainKind
  pub mint : String
  pub now : ℤ
  pub next_id : ℕ

abbrev pub flagged : List String → String → Bool
flagged flags flag = any flags (λ f. str_eq f flag)

unfoldable pub has_critical_flag : List String → Bool
has_critical_flag flags = any flags (λ f.
    str_eq f "critical_risk" || str_eq f "wash_trading" || str_eq f "honeypot" || str_eq f "rugged")

unfoldable pub too_old : Option ℤ → ℕ → Bool
too_old none hours = true
too_old (some age) hours = ltb_ℤ (pos hours) age

unfoldable pub is_fresh : Option ℤ → ℤ → ℕ → Bool
is_fresh none now seconds = false
is_fresh (some t) now seconds = leb_ℤ (now -ℤ t) (pos seconds)

unfoldable pub confidence_or_zero : Option ℕ → ℕ
confidence_or_zero none = 0
confidence_or_zero (some n) = n

module _ (dec : Decimal) where
  open dec use {D, lt, from_int, literal}

  unfoldable pub is_liquid : Option D → ℕ → Bool
  is_liquid none usd = false
  is_liquid (some l) usd = not (lt l (from_int (pos usd)))

  -- The gates in their order: the code of the first that fails.
  unfoldable pub entry_rejection :
      ℤ
      → SignalsConfig D
      → TokenGate
      → MarketGate D
      → ClusterSummary
      → WalletEligibility D
      → Option String
  unfolding entry_supported too_old is_liquid has_critical_flag is_fresh
  entry_rejection now config token market clusters wallets =
      if ltb clusters.eligible_clusters 2
      then some "insufficient_clusters"
      else if ltb clusters.meaningful_buys 2
      then some "insufficient_buys"
      else if not (entry_supported token.lifecycle)
      then some "unsupported_lifecycle"
      else if too_old token.age_hours config.entry_max_token_age_hours
      then some "token_too_old"
      else if not (is_liquid market.liquidity_usd config.entry_min_liquidity_usd)
      then some "insufficient_liquidity"
      else if has_critical_flag token.risk_flags
      then some (if flagged token.risk_flags "wash_trading" then "wash_risk" else "critical_risk")
      else if not (is_fresh market.observed_at now config.market_max_age_seconds)
      then some "stale_market"
      else if ltb wallets.max_skill 70
      then some "ineligible_skill"
      else if ltb wallets.max_copyability 60
      then some "ineligible_copyability"
      else if lt wallets.min_history_completeness (literal 80 2)
      then some "incomplete_history"
      else none

  unfoldable pub compute_entry_score : ClusterSummary → WalletEligibility D → Option ℕ → ℕ
  unfolding confidence_or_zero
  compute_entry_score clusters wallets narrative_confidence =
      min
        (min clusters.eligible_clusters 5 * 8
          + (min wallets.max_skill 100 + min wallets.max_copyability 100) / 4
          + min (confidence_or_zero narrative_confidence) 100 / 5)
        100

  unfoldable pub liquidity_drop_ok : Option D → SignalsConfig D → Bool
  liquidity_drop_ok none config = false
  liquidity_drop_ok (some r) config = not (lt r config.exit_liquidity_drop_ratio)

  unfoldable pub triggered : ExitGates D → SignalsConfig D → Bool
  unfolding liquidity_drop_ok
  triggered gates config =
      leb 2 gates.clusters_selling
      || gates.material_fresh_transfer
      || gates.dev_distribution
      || (liquidity_drop_ok gates.liquidity_drop_ratio config && gates.tracked_selling)

  unfoldable pub exit_code : ExitGates D → String
  exit_code gates =
      if gates.clusters_selling == 1
      then "no_cluster_sells"
      else if not gates.material_fresh_transfer
      then "no_fresh_transfer"
      else "insufficient_liquidity_drop"

  unfoldable pub exit_rejection : ExitGates D → SignalsConfig D → Option String
  unfolding triggered exit_code
  exit_rejection gates config = if triggered gates config then none else some (exit_code gates)

  unfoldable pub exit_score : ExitGates D → ℕ
  exit_score gates =
      if leb 2 gates.clusters_selling
      then 80
      else if gates.dev_distribution
      then 75
      else if gates.material_fresh_transfer
      then 70
      else 65

unfoldable pub record_evaluation :
    SignalStore → Subject → String → String → Option String → SignalStore
record_evaluation s about kind status code = record s {
  evaluations =
      s.evaluations
      ++ (record {
        workspace_id = about.workspace_id;
        chain = about.chain;
        mint = about.mint;
        signal_kind = kind;
        evaluated_at = about.now;
        status = status;
        rejection_code = code;
      })
        ∷ [];
}

unfoldable pub insert_signal : SignalStore → Subject → String → ℕ → SignalStore
insert_signal s about kind score = record s {
  signals =
      s.signals
      ++ (record {
        id = about.next_id;
        workspace_id = about.workspace_id;
        chain = about.chain;
        mint = about.mint;
        signal_kind = kind;
        created_at = about.now;
        score = score;
      })
        ∷ [];
}

-- What an evaluation writes: one row for its outcome, and the signal where no gate failed.
unfoldable pub write_outcome :
    SignalStore → Subject → String → Option String → ℕ → SignalStore × Option ℕ
unfolding record_evaluation insert_signal
write_outcome s about kind (some code) score =
    (record_evaluation s about kind "rejected" (some code), none)
write_outcome s about kind none score = (
  record_evaluation (insert_signal s about kind score) about kind "accepted" none,
  some about.next_id,
)

-- The row of the claim.
unfoldable pub is_claim : Subject → String → EvalClaim → Bool
unfolding chain_str
is_claim about token c =
    (c.workspace_id == about.workspace_id)
    && str_eq (chain_str c.chain) (chain_str about.chain)
    && str_eq c.mint about.mint
    && str_eq c.claimed_by token

unfoldable pub owns_claim : SignalStore → Subject → String → ℤ → Bool
unfolding is_claim
owns_claim s about token clock =
    any s.claims (λ c. is_claim about token c && ltb_ℤ clock c.expires_at)

unfoldable pub release_eval_claim : SignalStore → Subject → String → SignalStore
unfolding is_claim
release_eval_claim s about token = record s {
  claims = filter (λ c. not (is_claim about token c)) s.claims;
}

-- One transaction: the claim is verified, the outcome written, the claim released; `none` is the
-- refusal, which writes nothing.
unfoldable pub fenced :
    SignalStore
    → Subject
    → String
    → ℤ
    → String
    → Option String
    → ℕ
    → Option (SignalStore × Option ℕ)
unfolding owns_claim write_outcome release_eval_claim
fenced s about token clock kind code score =
    let out = write_outcome s about kind code score in
    if owns_claim s about token clock
    then some (release_eval_claim out.0 about token, out.1)
    else none

module _ (dec : Decimal) where
  open dec use {D}

  unfoldable pub evaluate_token :
      SignalStore
      → Subject
      → SignalsConfig D
      → TokenGate
      → MarketGate D
      → ClusterSummary
      → WalletEligibility D
      → Option ℕ
      → SignalStore × Option ℕ
  unfolding entry_rejection compute_entry_score write_outcome
  evaluate_token s about config token market clusters wallets narrative =
      write_outcome s about "entry"
        (entry_rejection dec about.now config token market clusters wallets)
        (compute_entry_score dec clusters wallets narrative)

  unfoldable pub evaluate_token_fenced :
      SignalStore
      → Subject
      → String
      → ℤ
      → SignalsConfig D
      → TokenGate
      → MarketGate D
      → ClusterSummary
      → WalletEligibility D
      → Option ℕ
      → Option (SignalStore × Option ℕ)
  unfolding entry_rejection compute_entry_score fenced
  evaluate_token_fenced s about claim clock config token market clusters wallets narrative =
      fenced s about claim clock "entry"
        (entry_rejection dec about.now config token market clusters wallets)
        (compute_entry_score dec clusters wallets narrative)

  unfoldable pub evaluate_exit_fenced :
      SignalStore
      → Subject
      → String
      → ℤ
      → SignalsConfig D
      → ExitGates D
      → Option (SignalStore × Option ℕ)
  unfolding exit_rejection exit_score fenced
  evaluate_exit_fenced s about claim clock config gates =
      fenced s about claim clock "exit" (exit_rejection dec gates config) (exit_score dec gates)
