-- ===== src/CostBasis/Wallets.antt =====
-- The grouping of the swaps by key, and the books of a key.
use solana_whale_intelligenc.Prelude.{
  ◌≡◌, ◌↔◌, refl, sym, ap, ◌∙◌, subst, Bool, true, false, Option, none, some, List, [], ◌∷◌, ◌++◌,
  String, filter, each, each-keeps, if◌then◌else◌, In, All, All-of-In, All-append, and→both,
  both→and, str_eq→≡, ≡→str_eq,
}
use mathlib.Core.Path.{ap₂}
use mathlib.Core.Option.{some-injective, none-ne-some}
use mathlib.Core.List.{append_assoc, append-nil}
use solana_whale_intelligenc.Prelude.Int.{ℤ}
use solana_whale_intelligenc.Prelude.Dict.{
  lookup_or, alter, lookup_or-alter, DistinctKeys, alter-DistinctKeys, lookup_or-In,
}
use solana_whale_intelligenc.Prelude.Sort.{All-snoc}
use solana_whale_intelligenc.Decimal.{Decimal, IsExact, sum}
use solana_whale_intelligenc.Decimal.Laws.{add-zero}
use solana_whale_intelligenc.CostBasis.{
  ScoredSwap, MatchedPosition, OpenLot, Book, Key, SwapGroups, Matched, same_swap_key, swap_key,
  group, match_key, residual_of, match_entry, fifo_match,
}
use solana_whale_intelligenc.CostBasis.Lots.{held, held_cost}
use solana_whale_intelligenc.CostBasis.Balance.{IsBalanced, match_key-IsBalanced}

same_key_iff : (a b : Key) → (same_swap_key a b ≡ true) ↔ (a ≡ b)
unfolding same_swap_key
same_key_iff a b = (
  λ h.
      let (p, r) = and→both _ _ h in
      let (p, q) = and→both _ _ p in equal a b (str_eq→≡ _ _ p) (str_eq→≡ _ _ q) (str_eq→≡ _ _ r),
  λ e.
      both→and
        (both→and (≡→str_eq _ _ (ap (λ (k : Key). k.chain) e))
          (≡→str_eq _ _ (ap (λ (k : Key). k.wallet) e)))
        (≡→str_eq _ _ (ap (λ (k : Key). k.token) e)),
)
  where
    equal : (a b : Key) → a.chain ≡ b.chain → a.wallet ≡ b.wallet → a.token ≡ b.token → a ≡ b
    equal a b p q r = λ i. record { chain = p i; wallet = q i; token = r i }

module _ {D : Type 0} where
  -- The swaps of a key, in their order.
  unfoldable pub own : Key → List (ScoredSwap D) → List (ScoredSwap D)
  own key swaps = filter (λ s. same_swap_key (swap_key s) key) swaps

  push : SwapGroups D → ScoredSwap D → SwapGroups D
  push groups s = alter same_swap_key (swap_key s) [] (λ l. l ++ s ∷ []) groups

  pushed :
      (key : Key) (m : SwapGroups D) (swaps : List (ScoredSwap D))
      → lookup_or same_swap_key [] key (each push m swaps)
        ≡ lookup_or same_swap_key [] key m ++ own key swaps
  unfolding own push
  pushed key m [] = sym (append-nil _)
  pushed key m (s ∷ swaps) =
      pushed key (push m s) swaps
      ∙ ap (λ l. l ++ own key swaps)
          (lookup_or-alter same_swap_key same_key_iff [] (λ l. l ++ s ∷ []) key (swap_key s) m)
      ∙ snoc (same_swap_key (swap_key s) key) (lookup_or same_swap_key [] key m)
    where
      snoc :
          (b : Bool) (l : List (ScoredSwap D))
          → (if b then l ++ s ∷ [] else l) ++ own key swaps
            ≡ l ++ (if b then s ∷ own key swaps else own key swaps)
      snoc true l = append_assoc l (s ∷ []) (own key swaps)
      snoc false l = refl

  group-DistinctKeys : (swaps : List (ScoredSwap D)) → DistinctKeys same_swap_key (group swaps)
  unfolding group
  group-DistinctKeys swaps =
      each-keeps (DistinctKeys same_swap_key) _ swaps
        (λ m s _ h. alter-DistinctKeys same_swap_key (swap_key s) [] (λ l. l ++ s ∷ []) m h) [] tt

  -- Under each key stand its swaps, all of them, in their order.
  pub group-own :
      (swaps : List (ScoredSwap D)) (key : Key) (l : List (ScoredSwap D))
      → In (key, l) (group swaps)
      → l ≡ own key swaps
  unfolding group push lookup_or
  group-own swaps key l i =
      sym (
        lookup_or-In same_swap_key same_key_iff [] (group swaps) key l (group-DistinctKeys swaps) i)
      ∙ pushed key [] swaps

module _ (dec : Decimal) (e : IsExact dec) (secs : String → Option ℤ) where
  open dec use {D, add}

  residual_from :
      (a c : D) (lots : List (OpenLot D))
      → each (λ (sums : D × D) lot. (add sums.0 lot.amount, add sums.1 lot.cost_usd)) (a, c) lots
        ≡ (add a (held dec lots), add c (held_cost dec lots))
  unfolding held held_cost sum
  residual_from a c [] = ap₂ (λ x y. (x, y)) (sym (add-zero dec e a)) (sym (add-zero dec e c))
  residual_from a c (l ∷ ls) =
      residual_from (add a l.amount) (add c l.cost_usd) ls
      ∙ ap₂ (λ x y. (x, y)) (e.add_assoc a l.amount (held dec ls))
          (e.add_assoc c l.cost_usd (held_cost dec ls))

  residual_of-held :
      (lots : List (OpenLot D)) → residual_of dec secs lots ≡ (held dec lots, held_cost dec lots)
  unfolding residual_of
  residual_of-held lots =
      residual_from dec.zero dec.zero lots
      ∙ ap₂ (λ x y. (x, y)) (e.zero-add (held dec lots)) (e.zero-add (held_cost dec lots))

  -- The books of the key's own swaps, balanced.
  abbrev Books : List (ScoredSwap D) → Key → Book D → Type 0
  Books swaps key b =
      (match_key dec secs key (own key swaps) ≡ some b) × IsBalanced dec e secs (own key swaps) b

  abbrev pub IsOwnResidual : List (ScoredSwap D) → Key × (D × D) → Type 0
  IsOwnResidual swaps (key, sums) =
      (b : Book D) × Books swaps key b × (sums ≡ (held dec b.lots, held_cost dec b.lots))

  abbrev pub IsOwnPosition : List (ScoredSwap D) → MatchedPosition D → Type 0
  IsOwnPosition swaps p = (key : Key) × (b : Book D) × Books swaps key b × In p b.positions

  abbrev Good : List (ScoredSwap D) → Option (Matched D) → Type 0
  Good swaps o =
      (r : Matched D) × (o ≡ some r) × All (IsOwnPosition swaps) r.0 × All (IsOwnResidual swaps) r.1

  match_entry-Good :
      (swaps : List (ScoredSwap D)) (o : Option (Matched D)) (key : Key) (l : List (ScoredSwap D))
      → l ≡ own key swaps
      → Good swaps o
      → Good swaps (match_entry dec secs o (key, l))
  unfolding match_entry residual_of
  match_entry-Good swaps none key l h (r, q, _, _) = absurd (none-ne-some _ q)
  match_entry-Good swaps (some (ps, rs)) key l h ((ps', rs'), q, k, m) =
      let (b, i, c) = match_key-IsBalanced dec e secs key l in
      let books =
        subst
          (λ (l : List (ScoredSwap D)).
            (match_key dec secs key l ≡ some b) × IsBalanced dec e secs l b)
          h (i, c) in
      let r = some-injective _ _ q in
      (
        (ps ++ b.positions, rs ++ (key, residual_of dec secs b.lots) ∷ []),
        ap
            (λ o. elim o [
              | none ↦ none
              | some book ↦
                  some (ps ++ book.positions, rs ++ (key, residual_of dec secs book.lots) ∷ [])
            ])
            i,
        All-append (IsOwnPosition swaps) ps b.positions
            (subst (All (IsOwnPosition swaps)) (sym (ap (λ (r : Matched D). r.0) r)) k)
            (All-of-In (IsOwnPosition swaps) b.positions (λ p j. (key, b, books, j))),
        All-snoc (IsOwnResidual swaps) rs (key, residual_of dec secs b.lots)
            (subst (All (IsOwnResidual swaps)) (sym (ap (λ (r : Matched D). r.1) r)) m)
            (b, books, residual_of-held b.lots),
      )

  -- For every list of swaps whose decimal arithmetic is exact, and for every order in which the map
  -- gives its entries, the matching ends. Each residual (chain, wallet, token) entry and each
  -- realized position then comes from the books of the swaps of one key alone, which are balanced:
  -- what they sold and still hold is what they bought and what their sells left unmatched.
  pub fifo_match-Books :
      (iter : SwapGroups D → SwapGroups D)
      → ((m : SwapGroups D) (entry : Key × List (ScoredSwap D)) → In entry (iter m) → In entry m)
      → (swaps : List (ScoredSwap D))
      → (r : Matched D) × (fifo_match dec secs iter swaps ≡ some r)
        × All (IsOwnPosition swaps) r.0
        × All (IsOwnResidual swaps) r.1
  unfolding fifo_match
  fifo_match-Books iter h swaps =
      each-keeps (Good swaps) (match_entry dec secs) (iter (group swaps))
        (λ o (key, l) i.
          match_entry-Good swaps o key l (group-own swaps key l (h (group swaps) (key, l) i)))
        (some ([], [])) (([], []), refl, tt, tt)
