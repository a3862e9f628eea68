-- ===== src/CostBasis/Balance.antt =====
-- The books of one key: what is bought, sold, held and left unmatched.
use solana_whale_intelligenc.Prelude.{
  suc, ◌≡◌, refl, sym, ap, ◌∙◌, Option, none, some, List, [], ◌∷◌, ◌++◌, map, String, length, arith,
}
use mathlib.Core.Option.{some-injective, none-ne-some}
use mathlib.Core.List.{map-append, append-nil, append_assoc}
use solana_whale_intelligenc.Prelude.Int.{ℤ}
use solana_whale_intelligenc.Prelude.Sort.{sort_by}
use solana_whale_intelligenc.Decimal.{Decimal, IsExact, sum, parse_decimal}
use solana_whale_intelligenc.Decimal.Laws.{add-zero, add_interchange, sum-append, sum-sort_by}
use solana_whale_intelligenc.CostBasis.{
  SwapDirection, buy, sell, ScoredSwap, MatchedPosition, OpenLot, Sale, Book, Key, open_lot,
  earlier, sell_loop, start_sale, position_of, closed, apply_to, apply_swap, apply_swaps, match_key,
}
use solana_whale_intelligenc.CostBasis.Lots.{held, sell_loop-Balance, sell_loop-ends}

module _ (dec : Decimal) where
  open dec use {D, add}

  -- What the swaps buy and sell, and what their sells leave unmatched.
  unfoldable pub buys : SwapDirection → ScoredSwap D → D
  buys buy s = parse_decimal dec s.swap.amount_out
  buys sell s = dec.zero

  unfoldable pub sells : SwapDirection → ScoredSwap D → D
  sells buy s = dec.zero
  sells sell s = parse_decimal dec s.swap.amount_in

  unfoldable pub bought : List (ScoredSwap D) → D
  bought swaps = sum dec (map (λ (s : ScoredSwap D). buys s.swap.direction s) swaps)

  unfoldable pub sold : List (ScoredSwap D) → D
  sold swaps = sum dec (map (λ (s : ScoredSwap D). sells s.swap.direction s) swaps)

  unfoldable pub unmatched : List (MatchedPosition D) → D
  unmatched positions = sum dec (map (λ (p : MatchedPosition D). p.unmatched_sell_amount) positions)

module _ (dec : Decimal) (e : IsExact dec) (secs : String → Option ℤ) where
  open dec use {D, add}

  abbrev Step : SwapDirection → Book D → ScoredSwap D → Book D → Type 0
  Step d b s c =
      (ps : List (MatchedPosition D)) × (c.positions ≡ b.positions ++ ps)
      × (add (sells dec d s) (held dec c.lots)
          ≡ add (held dec b.lots) (add (buys dec d s) (unmatched dec ps)))

  held-append : (ls ms : List (OpenLot D)) → held dec (ls ++ ms) ≡ add (held dec ls) (held dec ms)
  unfolding held
  held-append ls ms = ap (sum dec) (map-append _ ls ms) ∙ sum-append dec e _ _

  unmatched-append :
      (ps qs : List (MatchedPosition D))
      → unmatched dec (ps ++ qs) ≡ add (unmatched dec ps) (unmatched dec qs)
  unfolding unmatched
  unmatched-append ps qs = ap (sum dec) (map-append _ ps qs) ∙ sum-append dec e _ _

  sale-balance :
      (h k m r a : D) → add r m ≡ add a dec.zero → add k m ≡ add h dec.zero → add a k ≡ add h r
  sale-balance h k m r a p q =
      ap (λ d. add d k) (sym (add-zero dec e a) ∙ sym p)
      ∙ e.add_assoc r m k
      ∙ ap (add r) (e.add_comm m k ∙ q ∙ add-zero dec e h)
      ∙ e.add_comm r h

  start : Book D → ScoredSwap D → Sale D
  start b s = start_sale dec (parse_decimal dec s.swap.amount_in) b.lots

  position : String → ScoredSwap D → Sale D → MatchedPosition D
  position token s sale =
      position_of dec token s.usd_value (parse_decimal dec s.swap.amount_in) (secs s.swap.timestamp)
        sale

  sell-Step :
      (token : String) (b : Book D) (s : ScoredSwap D) (c : Book D) (o : Option (Sale D))
      → sell_loop dec (suc (length b.lots)) (start b s) ≡ o
      → elim o [ none ↦ none | some sale ↦ some (closed dec secs token b s sale) ] ≡ some c
      → Step sell b s c
  unfolding start position closed position_of start_sale sells buys unmatched sum
  sell-Step token b s c none l q = absurd (none-ne-some _ q)
  sell-Step token b s c (some sale) l q =
      let (h, k) = sell_loop-Balance dec e _ _ _ l in
      let r = some-injective _ _ q in
      let amount = parse_decimal dec s.swap.amount_in in
      (
        position token s sale ∷ [],
        ap (λ (b : Book D). b.positions) (sym r),
        ap (λ (b : Book D). add amount (held dec b.lots)) (sym r)
            ∙ sale-balance (held dec b.lots) (held dec sale.lots) sale.matched_amount sale.remaining
                amount h k
            ∙ ap (add (held dec b.lots))
                (sym (e.zero-add (add sale.remaining dec.zero) ∙ add-zero dec e sale.remaining)),
      )

  apply_to-Step :
      (d : SwapDirection) (token : String) (b : Book D) (s : ScoredSwap D) (c : Book D)
      → apply_to dec secs d token b s ≡ some c
      → Step d b s c
  unfolding apply_to buys sells unmatched sum open_lot held start
  apply_to-Step buy token b s c q =
      let r = some-injective _ _ q in
      (
        [],
        ap (λ (b : Book D). b.positions) (sym r) ∙ sym (append-nil b.positions),
        e.zero-add (held dec c.lots)
            ∙ ap (λ (b : Book D). held dec b.lots) (sym r)
            ∙ held-append b.lots (open_lot dec secs s ∷ []),
      )
  apply_to-Step sell token b s c q =
      sell-Step token b s c (sell_loop dec (suc (length b.lots)) (start b s)) refl q

  apply_to_ends :
      (d : SwapDirection) (token : String) (b : Book D) (s : ScoredSwap D)
      → (c : Book D) × (apply_to dec secs d token b s ≡ some c)
  unfolding apply_to start
  apply_to_ends buy token b s = (_, refl)
  apply_to_ends sell token b s =
      let (t, p) = sell_loop-ends dec e (suc (length b.lots)) (start b s) (omega arith) in
      (
        closed dec secs token b s t,
        ap (λ o. elim o [ none ↦ none | some sale ↦ some (closed dec secs token b s sale) ]) p,
      )

  apply_swaps-none :
      (token : String) (swaps : List (ScoredSwap D)) → apply_swaps dec secs token none swaps ≡ none
  unfolding apply_swaps
  apply_swaps-none token [] = refl
  apply_swaps-none token (s ∷ swaps) = apply_swaps-none token swaps

  abbrev Steps : Book D → List (ScoredSwap D) → Book D → Type 0
  Steps b swaps c =
      (ps : List (MatchedPosition D)) × (c.positions ≡ b.positions ++ ps)
      × (add (sold dec swaps) (held dec c.lots)
          ≡ add (held dec b.lots) (add (bought dec swaps) (unmatched dec ps)))

  joined :
      (h k l s t b c u v : D)
      → add s k ≡ add h (add b u)
      → add t l ≡ add k (add c v)
      → add (add s t) l ≡ add h (add (add b c) (add u v))
  joined h k l s t b c u v p q =
      e.add_assoc s t l
      ∙ ap (add s) q
      ∙ sym (e.add_assoc s k (add c v))
      ∙ ap (λ d. add d (add c v)) p
      ∙ e.add_assoc h (add b u) (add c v)
      ∙ ap (add h) (add_interchange dec e b u c v)

  apply_swaps-Steps :
      (token : String) (b : Book D) (swaps : List (ScoredSwap D))
      → (c : Book D) × (apply_swaps dec secs token (some b) swaps ≡ some c) × Steps b swaps c
  unfolding apply_swaps apply_swap bought sold unmatched sum
  apply_swaps-Steps token b [] = (
    b,
    refl,
    (
      [],
      sym (append-nil b.positions),
      e.zero-add (held dec b.lots)
          ∙ sym
              (ap (add (held dec b.lots)) (e.zero-add dec.zero) ∙ add-zero dec e (held dec b.lots)),
    ),
  )
  apply_swaps-Steps token b (s ∷ swaps) =
      let d = s.swap.direction in
      let (m, p) = apply_to_ends d token b s in
      let (ps, i, h) = apply_to-Step d token b s m p in
      let (c, q, (qs, j, k)) = apply_swaps-Steps token m swaps in
      (
        c,
        ap (λ o. apply_swaps dec secs token o swaps) p ∙ q,
        (
          ps ++ qs,
          j ∙ ap (λ l. l ++ qs) i ∙ append_assoc b.positions ps qs,
          joined (held dec b.lots) (held dec m.lots) (held dec c.lots) (sells dec d s)
                (sold dec swaps) (buys dec d s) (bought dec swaps) (unmatched dec ps)
                (unmatched dec qs) h k
              ∙ ap (λ u. add (held dec b.lots) (add (bought dec (s ∷ swaps)) u))
                  (sym (unmatched-append ps qs)),
        ),
      )

  -- The books of a key: what was sold and what is still held is what was bought and what the sells
  -- left unmatched.
  abbrev pub IsBalanced : List (ScoredSwap D) → Book D → Type 0
  IsBalanced swaps b =
      add (sold dec swaps) (held dec b.lots) ≡ add (bought dec swaps) (unmatched dec b.positions)

  pub match_key-IsBalanced :
      (key : Key) (swaps : List (ScoredSwap D))
      → (b : Book D) × (match_key dec secs key swaps ≡ some b) × IsBalanced swaps b
  unfolding match_key held sold bought sum
  match_key-IsBalanced key swaps =
      let (b, q, (ps, i, h)) =
        apply_swaps-Steps key.token (record { lots = []; positions = [] })
          (sort_by (earlier dec secs) swaps) in
      (
        b,
        q,
        ap (λ d. add d (held dec b.lots)) (sym (sum-sort_by dec e _ (earlier dec secs) swaps))
            ∙ h
            ∙ e.zero-add _
            ∙ ap (λ d. add d (unmatched dec ps)) (sum-sort_by dec e _ (earlier dec secs) swaps)
            ∙ ap (λ l. add (bought dec swaps) (unmatched dec l)) (sym i),
      )
