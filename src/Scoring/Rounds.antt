-- ===== src/Scoring/Rounds.antt =====
-- The rounds of the loop of a sell, and the loop over the trades.
use solana_whale_intelligenc.Prelude.{
  ◌≡◌, refl, ap, ◌∙◌, ◌⊎◌, inl, inr, ◌<◌, ℕ, zero, suc, false, none, some, List, [], ◌∷◌, ◌++◌,
  length, is_empty, each-keeps, if◌then◌else◌, Bool-cases, arith,
}
use solana_whale_intelligenc.Prelude.Dict.{get, put}
use solana_whale_intelligenc.Decimal.{Decimal, IsExact}
use solana_whale_intelligenc.Decimal.Laws.{sub_self}
use solana_whale_intelligenc.Scoring.{
  TradeSide, buy, sell, ScoredTrade, MatchedPosition, OpenLot, Sale, Matching, sell_round, goes_on,
  sell_loop, start_sale, lots_of, position_of, apply_trade, fifo_match,
}

module _ (dec : Decimal) (e : IsExact dec) where
  open dec use {D, sub, least, eq, lt}

  -- A round takes the first lot away, or nothing remains.
  round_ends :
      (s : Sale D) (lot : OpenLot D) (rest : List (OpenLot D))
      → ((sell_round dec s (lot ∷ rest)).lots ≡ rest)
        ⊎ (lt dec.zero (sell_round dec s (lot ∷ rest)).remaining ≡ false)
  unfolding sell_round
  round_ends s lot rest = elim (e.least_cases s.remaining lot.amount) [
    | inl (x, _) ↦ inr (
        ap (λ t. lt dec.zero (sub s.remaining t)) x
        ∙ ap (lt dec.zero) (sub_self dec e s.remaining)
        ∙ e.lt_irrefl dec.zero)
    | inr (x, _) ↦
        let z = (e.eq_iff _ dec.zero).1 (ap (sub lot.amount) x ∙ sub_self dec e lot.amount) in
        inl (ground (arith))
  ]

  stops : (n : ℕ) (s : Sale D) → goes_on dec s ≡ false → sell_loop dec n s ≡ some s
  unfolding sell_loop
  stops zero s g = ap (λ b. if b then none else some s) g
  stops (suc n) s g = ap (λ b. if b then sell_loop dec n (sell_round dec s s.lots) else some s) g

  over : (s : Sale D) → (s.lots ≡ []) ⊎ (lt dec.zero s.remaining ≡ false) → goes_on dec s ≡ false
  unfolding goes_on
  over s (inl q) = let r = ap is_empty q in ground (arith)
  over s (inr q) = ground (arith)

  ends_from :
      (n : ℕ) (s : Sale D) (lots : List (OpenLot D))
      → s.lots ≡ lots
      → length lots < n
      → (t : Sale D) × (sell_loop dec n s ≡ some t)
  unfolding sell_loop
  ends_from n s [] q h = (s, stops n s (over s (inl q)))
  ends_from zero s (lot ∷ rest) q h = absurd (omega arith)
  ends_from (suc n) s (lot ∷ rest) q h = elim (Bool-cases (goes_on dec s)) [
    | inr g ↦ (s, stops (suc n) s g)
    | inl g ↦
        let next = sell_round dec s s.lots in
        let go = ap (λ b. if b then sell_loop dec n next else some s) g in
        elim (round_ends s lot rest) [
          | inl r ↦
              let (t, p) =
                ends_from n next rest (ap (λ l. (sell_round dec s l).lots) q ∙ r) (omega arith) in
              (t, go ∙ p)
          | inr r ↦ (
            next,
            go
                ∙ stops n next
                    (over next (inr (ap (λ l. lt dec.zero (sell_round dec s l).remaining) q ∙ r))),
          )
        ]
  ]

  apply_trade-ends :
      (side : TradeSide) (m : Matching D) (trade : ScoredTrade D)
      → (r : Matching D) × (apply_trade dec side m trade ≡ some r)
  unfolding apply_trade start_sale
  apply_trade-ends buy m trade = (_, refl)
  apply_trade-ends sell m trade =
      let lots = lots_of (get trade.mint m.open_lots) in
      let (t, q) =
        ends_from (suc (length lots)) (start_sale dec trade lots) lots refl (omega arith) in
      let after : Sale D → Matching D = λ sale. record {
        open_lots = put trade.mint sale.lots m.open_lots;
        matched = m.matched ++ position_of dec trade sale ∷ [];
      } in
      (after t, ap (λ o. elim o [ none ↦ none | some sale ↦ some (after sale) ]) q)

  -- Where the decimals are exact, the matching ends for every list of trades: the loop of each sell has
  -- one round more than there are open lots of its mint, and needs no more.
  pub fifo_match-ends :
      (trades : List (ScoredTrade D))
      → (r : List (MatchedPosition D)) × (fifo_match dec trades ≡ some r)
  unfolding fifo_match
  fifo_match-ends trades =
      let (m, q) =
        each-keeps (λ o. (m : Matching D) × (o ≡ some m))
          (λ o t. elim o [ none ↦ none | some m ↦ apply_trade dec t.side m t ]) trades
          (λ o t _ (m, q).
            let (r, p) = apply_trade-ends t.side m t in
            (r, ap (λ o. elim o [ none ↦ none | some m ↦ apply_trade dec t.side m t ]) q ∙ p))
          (some (record { open_lots = []; matched = [] }))
          (record { open_lots = []; matched = [] }, refl) in
      (m.matched, ap (λ o. elim o [ none ↦ none | some m ↦ some m.matched ]) q)
