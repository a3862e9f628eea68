-- ===== src/Wallet.antt =====
-- src/sf/wallet_runtime.rs and what it fills of src/sf/wallet.rs: the outcome of one wallet's swaps
-- on top of the matching of CostBasis.antt. A map is a list of its entries; the order in which a
-- `HashMap` gives them is a parameter where it chooses among equals. Counts do not reach 2^32.
pub mod Outcome
mod Examples
use solana_whale_intelligenc.Prelude.{
  ℕ, zero, suc, ◌+◌, Bool, true, false, not, ◌&&◌, Option, none, some, List, [], ◌∷◌, ◌++◌, map,
  String, length, filter, any, each, if◌then◌else◌, leb, str_eq,
}
use solana_whale_intelligenc.Prelude.Int.{ℤ, leb_ℤ, ◌-ℤ◌}
use solana_whale_intelligenc.Prelude.Dict.{get, put, alter}
use solana_whale_intelligenc.Decimal.{Decimal, sum}
use solana_whale_intelligenc.CostBasis.{
  Swap, ScoredSwap, MatchedPosition, Key, SwapGroups, Matched, fifo_match,
}

pub record PricedSwap (D : Type 0) : Type 0 where
  pub swap : Swap
  pub usd_value : D

pub record SwapReconstruction (D : Type 0) : Type 0 where
  pub average_cost : List (String × D)
  pub realized_pnl : D
  pub realized_pnl_by_token : List (String × D)
  pub unrealized_pnl : D
  pub tokens_traded : ℕ
  pub distinct_clusters : ℕ

pub record CostBasis : Type 0 where
  pub token : String
  pub average_cost : String
  pub realized_pnl : Option String

pub record Recurrence : Type 0 where
  pub tokens_traded : ℕ
  pub distinct_clusters : ℕ

-- Without the tags, which are always empty here.
pub record WalletIntelligence : Type 0 where
  pub chain : String
  pub address : String
  pub cluster_id : Option String
  pub cost_basis : Option CostBasis
  pub realized_outcome : Option String
  pub unrealized_outcome : Option String
  pub recurrence : Option Recurrence

unfoldable pub to_scored : {D : Type 0} → List (PricedSwap D) → List (ScoredSwap D)
to_scored swaps = map (λ p. record { swap = p.swap; usd_value = p.usd_value }) swaps

-- The items of a `HashSet`, each once.
unfoldable pub distinct : List String → List String
distinct [] = []
distinct (s ∷ ss) = let rest = distinct ss in if any ss (λ t. str_eq s t) then rest else s ∷ rest

unfoldable pub tokens_of : {D : Type 0} → List (PricedSwap D) → List String
unfolding distinct
tokens_of swaps = distinct (map (λ p. p.swap.token) swaps)

module _ (dec : Decimal) where
  open dec use {D, add, sub, div, eq}

  unfoldable pub pnl_by_token : List (MatchedPosition D) → List (String × D)
  unfolding alter
  pnl_by_token positions =
      each (λ m p. alter str_eq p.token dec.zero (λ s. add s p.realized_pnl) m) [] positions

  unfoldable pub average : D → D → D
  average amount cost = if not (eq amount dec.zero) then div cost amount else dec.zero

  unfoldable pub averages : List (Key × (D × D)) → List (String × D)
  unfolding average
  averages residual =
      each (λ m (entry : Key × (D × D)). put entry.0.token (average entry.1.0 entry.1.1) m) []
        residual

  unfoldable pub mark_of : Option (List (String × D)) → String → D
  mark_of none token = dec.zero
  mark_of (some marks) token = elim (get token marks) [ none ↦ dec.zero | some d ↦ d ]

  unfoldable pub unrealized : Option (List (String × D)) → List (Key × (D × D)) → D
  unfolding mark_of
  unrealized marks residual =
      each (λ s (entry : Key × (D × D)). add s (sub (mark_of marks entry.0.token) entry.1.1))
        dec.zero residual

  unfoldable pub reconstruction :
      List (PricedSwap D) → Option (List (String × D)) → Matched D → SwapReconstruction D
  unfolding sum pnl_by_token averages unrealized tokens_of
  reconstruction swaps marks (positions, residual) = record {
    average_cost = averages residual;
    realized_pnl = sum dec (map (λ p. p.realized_pnl) positions);
    realized_pnl_by_token = pnl_by_token positions;
    unrealized_pnl = unrealized marks residual;
    tokens_traded = length (tokens_of swaps);
    distinct_clusters = 0;
  }

  -- `None` is the want of fuel in the matching.
  unfoldable pub reconstruct_swaps :
      (String → Option ℤ)
      → (SwapGroups D → SwapGroups D)
      → List (PricedSwap D)
      → Option (List (String × D))
      → Option (SwapReconstruction D)
  unfolding to_scored reconstruction
  reconstruct_swaps secs iter swaps marks = elim (fifo_match dec secs iter (to_scored swaps)) [
    | none ↦ none
    | some matched ↦ some (reconstruction swaps marks matched)
  ]

module _ {D : Type 0} (secs : String → Option ℤ) where
  unfoldable pub earliest : Option ℤ → List (PricedSwap D) → Option ℤ
  earliest best [] = best
  earliest best (p ∷ ps) =
      earliest
        (elim (secs p.swap.timestamp) [
          | none ↦ best
          | some t ↦ elim best [ none ↦ some t | some b ↦ if leb_ℤ b t then some b else some t ]
        ])
        ps

  unfoldable pub early_entry_timing : List (PricedSwap D) → Option ℤ → Option ℤ
  unfolding earliest
  early_entry_timing swaps token_birth_ts = elim (earliest none swaps) [
    | none ↦ none
    | some w ↦ elim token_birth_ts [ none ↦ none | some t ↦ some (w -ℤ t) ]
  ]

unfoldable pub clusters_of :
    {D : Type 0} → List (PricedSwap D) → List (String × String) → List String
clusters_of [] clusters = []
clusters_of (p ∷ ps) clusters = elim (get p.swap.wallet clusters) [
  | none ↦ clusters_of ps clusters
  | some c ↦ c ∷ clusters_of ps clusters
]

unfoldable pub compute_recurrence :
    {D : Type 0} → List (PricedSwap D) → List (String × String) → Recurrence
unfolding tokens_of clusters_of distinct
compute_recurrence swaps clusters = record {
  tokens_traded = length (tokens_of swaps);
  distinct_clusters = length (distinct (clusters_of swaps clusters));
}

-- The wallet's own swaps on the chain.
unfoldable pub own_swaps :
    {D : Type 0} → String → String → List (PricedSwap D) → List (PricedSwap D)
own_swaps chain address swaps =
    filter (λ p. str_eq p.swap.chain chain && str_eq p.swap.wallet address) swaps

unfoldable pub trades_of : {D : Type 0} → List (PricedSwap D) → String → ℕ
trades_of own token = length (filter (λ p. str_eq p.swap.token token) own)

-- `max_by`, which gives the last of equal entries.
unfoldable pub most_traded :
    {D : Type 0} → (String → ℕ) → Option (String × D) → List (String × D) → Option (String × D)
most_traded count best [] = best
most_traded count best (entry ∷ entries) =
    most_traded count
      (elim best [
        | none ↦ some entry
        | some b ↦ if leb (count b.0) (count entry.0) then some entry else some b
      ])
      entries

module _ (dec : Decimal) where
  open dec use {D, text}

  unfoldable pub cost_basis_of :
      (List (String × D) → List (String × D))
      → List (PricedSwap D)
      → SwapReconstruction D
      → Option CostBasis
  unfolding most_traded trades_of
  cost_basis_of order own rec = elim (most_traded (trades_of own) none (order rec.average_cost)) [
    | none ↦ none
    | some entry ↦ some (record {
      token = entry.0;
      average_cost = text entry.1;
      realized_pnl = elim (get entry.0 rec.realized_pnl_by_token) [
        | none ↦ none
        | some v ↦ some (text v)
      ];
    })
  ]

  -- `order` and `iter` are the orders of the maps.
  unfoldable pub build_wallet_intelligence :
      (String → Option ℤ)
      → (SwapGroups D → SwapGroups D)
      → (List (String × D) → List (String × D))
      → String
      → String
      → Option String
      → List (PricedSwap D)
      → Option (List (String × D))
      → List (String × String)
      → Option WalletIntelligence
  unfolding own_swaps reconstruct_swaps compute_recurrence cost_basis_of
  build_wallet_intelligence secs iter order chain address cluster_id swaps marks clusters =
      let own = own_swaps chain address swaps in
      elim (reconstruct_swaps dec secs iter own marks) [
        | none ↦ none
        | some rec ↦ some (record {
          chain = chain;
          address = address;
          cluster_id = cluster_id;
          cost_basis = cost_basis_of order own rec;
          realized_outcome = some (text rec.realized_pnl);
          unrealized_outcome = some (text rec.unrealized_pnl);
          recurrence = some (compute_recurrence own clusters);
        })
      ]
