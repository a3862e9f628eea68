-- ===== src/Wallet/Outcome.antt =====
-- What a wallet's outcome is made of.
use solana_whale_intelligenc.Prelude.{
  ◌≡◌, sym, ap, ◌∙◌, false, ◌&&◌, Option, none, some, List, [], ◌∷◌, ◌++◌, map, String, each,
  if◌then◌else◌, str_eq, In,
}
use solana_whale_intelligenc.Prelude.Int.{ℤ}
use solana_whale_intelligenc.Prelude.Dict.{alter}
use solana_whale_intelligenc.Decimal.{Decimal, IsExact, sum}
use solana_whale_intelligenc.CostBasis.{ScoredSwap, MatchedPosition, Key, SwapGroups}
use solana_whale_intelligenc.CostBasis.Wallets.{fifo_match-Books}
use solana_whale_intelligenc.Portfolio.Sums.{values, alter-values}
use solana_whale_intelligenc.Wallet.{
  PricedSwap, SwapReconstruction, to_scored, pnl_by_token, reconstruction, reconstruct_swaps,
  compute_recurrence, own_swaps, cost_basis_of, build_wallet_intelligence,
}

module _ {D : Type 0} (chain address : String) where
  foreign_skipped :
      (before after : List (PricedSwap D)) (p : PricedSwap D)
      → (str_eq p.swap.chain chain && str_eq p.swap.wallet address) ≡ false
      → own_swaps chain address (before ++ p ∷ after) ≡ own_swaps chain address (before ++ after)
  unfolding own_swaps
  foreign_skipped [] after p h =
      ap (λ b. if b then p ∷ own_swaps chain address after else own_swaps chain address after) h
  foreign_skipped (q ∷ before) after p h =
      ap (λ l. if str_eq q.swap.chain chain && str_eq q.swap.wallet address then q ∷ l else l)
        (foreign_skipped before after p h)

module _ (dec : Decimal) (secs : String → Option ℤ) where
  open dec use {D, add, text}

  -- A swap of another wallet or on another chain, wherever it stands among the swaps, changes
  -- nothing in the intelligence of a wallet.
  pub foreign-ignored :
      (iter : SwapGroups D → SwapGroups D) (order : List (String × D) → List (String × D))
      (chain address : String) (cluster_id : Option String) (marks : Option (List (String × D)))
      (clusters : List (String × String)) (before after : List (PricedSwap D)) (p : PricedSwap D)
      → (str_eq p.swap.chain chain && str_eq p.swap.wallet address) ≡ false
      → build_wallet_intelligence dec secs iter order chain address cluster_id
          (before ++ p ∷ after)
          marks
          clusters
        ≡ build_wallet_intelligence dec secs iter order chain address cluster_id
            (before ++ after)
            marks
            clusters
  unfolding build_wallet_intelligence
  foreign-ignored iter order chain address cluster_id marks clusters before after p h =
      ap
        (λ own. elim (reconstruct_swaps dec secs iter own marks) [
          | none ↦ none
          | some rec ↦ some (record {
            chain = chain;
            address = address;
            cluster_id = cluster_id;
            cost_basis = cost_basis_of dec order own rec;
            realized_outcome = some (text rec.realized_pnl);
            unrealized_outcome = some (text rec.unrealized_pnl);
            recurrence = some (compute_recurrence own clusters);
          })
        ])
        (foreign_skipped chain address before after p h)

  module _ (e : IsExact dec) where
    by_token_from :
        (positions : List (MatchedPosition D)) (m : List (String × D))
        → values dec
            (each (λ m p. alter str_eq p.token dec.zero (λ s. add s p.realized_pnl) m) m positions)
          ≡ add (values dec m) (sum dec (map (λ p. p.realized_pnl) positions))
    unfolding sum
    by_token_from [] m = sym (e.add_comm _ dec.zero ∙ e.zero-add (values dec m))
    by_token_from (p ∷ positions) m =
        by_token_from positions (alter str_eq p.token dec.zero (λ s. add s p.realized_pnl) m)
        ∙ ap (λ d. add d (sum dec (map (λ p. p.realized_pnl) positions)))
            (alter-values dec e str_eq p.token p.realized_pnl m)
        ∙ e.add_assoc (values dec m) p.realized_pnl _

    pnl_by_token_lem :
        (positions : List (MatchedPosition D))
        → values dec (pnl_by_token dec positions)
          ≡ sum dec (map (λ (p : MatchedPosition D). p.realized_pnl) positions)
    unfolding pnl_by_token values sum
    pnl_by_token_lem positions = by_token_from positions [] ∙ e.zero-add _

    -- Where the decimals are exact and the map gives its own entries, the swaps are reconstructed, and the
    -- realized outcomes of the tokens sum up to the realized outcome of all positions.
    pub reconstruct_swaps-sums :
        (iter : SwapGroups D → SwapGroups D)
        → ((m : SwapGroups D) (entry : Key × List (ScoredSwap D)) → In entry (iter m) → In entry m)
        → (swaps : List (PricedSwap D)) (marks : Option (List (String × D)))
        → (r : SwapReconstruction D) × (reconstruct_swaps dec secs iter swaps marks ≡ some r)
          × (values dec r.realized_pnl_by_token ≡ r.realized_pnl)
    unfolding reconstruct_swaps reconstruction
    reconstruct_swaps-sums iter h swaps marks =
        let ((positions, residual), q, _, _) =
          fifo_match-Books dec e secs iter h (to_scored swaps) in
        (
          reconstruction dec swaps marks (positions, residual),
          ap (λ o. elim o [ none ↦ none | some m ↦ some (reconstruction dec swaps marks m) ]) q,
          pnl_by_token_lem positions,
        )
