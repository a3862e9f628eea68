-- ===== src/CostBasis/Lots.antt =====
-- The loop of one sell over the open lots.
use solana_whale_intelligenc.Prelude.{
  ℕ, zero, suc, ◌<◌, ◌≡◌, refl, sym, ap, ◌∙◌, subst, inl, inr, ◌⊎◌, true, false, not, none, some,
  List, [], ◌∷◌, map, length, is_empty, if◌then◌else◌, if-keeps, Bool-cases, All, and→both, arith,
}
use mathlib.Core.Bool.{true≢false}
use mathlib.Core.Option.{some-injective, none-ne-some}
use solana_whale_intelligenc.Decimal.{Decimal, IsExact, sum}
use solana_whale_intelligenc.Decimal.Laws.{sub-add_move, sub-zero→≡, sub_self, add_left_comm}
use solana_whale_intelligenc.CostBasis.{OpenLot, Sale, sell_round, goes_on, sell_loop, taken_cost}

module _ (dec : Decimal) where
  open dec use {D, add, sub, least, eq, lt}

  -- The amount and the cost that lie in lots.
  unfoldable pub held : List (OpenLot D) → D
  held lots = sum dec (map (λ (l : OpenLot D). l.amount) lots)

  unfoldable pub held_cost : List (OpenLot D) → D
  held_cost lots = sum dec (map (λ (l : OpenLot D). l.cost_usd) lots)

  -- What a round on a first lot keeps, the loop keeps, and it ends where it does not go on.
  module _ {κ} (P : Sale D → Type κ)
      (k : (s : Sale D) (lot : OpenLot D) (rest : List (OpenLot D))
        → s.lots ≡ lot ∷ rest
        → lt dec.zero s.remaining ≡ true
        → P s
        → P (sell_round dec s (lot ∷ rest))) where
    round_keeps :
        (s : Sale D) (lots : List (OpenLot D))
        → s.lots ≡ lots
        → goes_on dec s ≡ true
        → P s
        → P (sell_round dec s lots)
    unfolding goes_on
    round_keeps s [] q g h =
        absurd (true≢false (sym (and→both _ _ g).1 ∙ ap (λ l. not (is_empty l)) q))
    round_keeps s (lot ∷ rest) q g h = k s lot rest q (and→both _ _ g).0 h

    pub sell_loop-keeps :
        (n : ℕ) (s t : Sale D) → P s → sell_loop dec n s ≡ some t → P t × (goes_on dec t ≡ false)
    unfolding sell_loop
    sell_loop-keeps zero s t h =
        if-keeps (λ o. o ≡ some t → P t × (goes_on dec t ≡ false)) (goes_on dec s)
          (λ g q. absurd (none-ne-some _ q))
          (λ g q. let r = some-injective _ _ q in (subst P r h, sym (ap (goes_on dec) r) ∙ g))
    sell_loop-keeps (suc n) s t h =
        if-keeps (λ o. o ≡ some t → P t × (goes_on dec t ≡ false)) (goes_on dec s)
          (λ g. sell_loop-keeps n (sell_round dec s s.lots) t (round_keeps s s.lots refl g h))
          (λ g q. let r = some-injective _ _ q in (subst P r h, sym (ap (goes_on dec) r) ∙ g))

  module _ (e : IsExact dec) where
    held-left :
        (lot : OpenLot D) (rest : List (OpenLot D)) (r c : D)
        → add
            (held (
              if eq (sub lot.amount r) dec.zero
              then rest
              else record { amount = sub lot.amount r; cost_usd = c; time = lot.time } ∷ rest))
            r
          ≡ held (lot ∷ rest)
    unfolding held sum
    held-left lot rest r c =
        if-keeps (λ l. add (held l) r ≡ held (lot ∷ rest)) (eq (sub lot.amount r) dec.zero)
          (λ q.
            e.add_comm (held rest) r
            ∙ ap (λ d. add d (held rest)) (sub-zero→≡ dec e lot.amount r q))
          (λ _.
            e.add_comm _ r
            ∙ sym (e.add_assoc r _ _)
            ∙ ap (λ d. add d (held rest)) (e.add_comm r _ ∙ e.sub_cancel lot.amount r))

    -- Of the amount to sell, what is matched and what remains; of the lots, what is matched and held.
    abbrev pub Balance : Sale D → Sale D → Type 0
    Balance s t =
        (add t.remaining t.matched_amount ≡ add s.remaining s.matched_amount)
        × (add (held t.lots) t.matched_amount ≡ add (held s.lots) s.matched_amount)

    round-Balance :
        (s₀ s : Sale D) (lot : OpenLot D) (rest : List (OpenLot D))
        → s.lots ≡ lot ∷ rest
        → Balance s₀ s
        → Balance s₀ (sell_round dec s (lot ∷ rest))
    unfolding sell_round
    round-Balance s₀ s lot rest q h =
        let t = least s.remaining lot.amount in
        (
          sub-add_move dec e s.remaining s.matched_amount t ∙ h.0,
          add_left_comm dec e _ s.matched_amount t
              ∙ ap (add s.matched_amount) (held-left lot rest t _ ∙ sym (ap held q))
              ∙ e.add_comm s.matched_amount (held s.lots)
              ∙ h.1,
        )

    pub sell_loop-Balance : (n : ℕ) (s t : Sale D) → sell_loop dec n s ≡ some t → Balance s t
    sell_loop-Balance n s t q =
        (sell_loop-keeps (Balance s) (λ r lot rest e _. round-Balance s r lot rest e) n s t
          (refl, refl) q).0

    -- A sell leaves no part of its amount unmatched while a lot is left.
    pub oversell-empty :
        (n : ℕ) (s t : Sale D)
        → sell_loop dec n s ≡ some t
        → lt dec.zero t.remaining ≡ true
        → is_empty t.lots ≡ true
    unfolding goes_on
    oversell-empty n s t q h =
        let g = (sell_loop-keeps {0} (λ _. Unit) (λ _ _ _ _ _ _. tt) n s t tt q).1 in ground (arith)

    abbrev pub IsHeld : OpenLot D → Type 0
    IsHeld lot = (lt lot.amount dec.zero ≡ false) × (eq lot.amount dec.zero ≡ false)

    -- Neither the rest of the sell nor a lot is below zero, and no lot is empty.
    abbrev pub IsCovered : Sale D → Type 0
    IsCovered s = (lt s.remaining dec.zero ≡ false) × All IsHeld s.lots

    round-IsCovered :
        (s : Sale D) (lot : OpenLot D) (rest : List (OpenLot D))
        → s.lots ≡ lot ∷ rest
        → IsCovered s
        → IsCovered (sell_round dec s (lot ∷ rest))
    unfolding sell_round
    round-IsCovered s lot rest q h =
        let (k, ks) = subst (All IsHeld) q h.1 in
        let (a, b) = taken s.remaining lot.amount in
        (
          e.lt-sub _ _ ∙ a,
          if-keeps (All IsHeld) (eq (sub lot.amount (least s.remaining lot.amount)) dec.zero)
              (λ _. ks) (λ z. ((e.lt-sub _ _ ∙ b, z), ks)),
        )
      where
        taken : (a b : D) → (lt a (least a b) ≡ false) × (lt b (least a b) ≡ false)
        taken a b = elim (e.least_cases a b) [
          | inl (x, y) ↦ (ap (lt a) x ∙ e.lt_irrefl a, ap (lt b) x ∙ y)
          | inr (x, y) ↦ (ap (lt a) x ∙ y, ap (lt b) x ∙ e.lt_irrefl b)
        ]

    pub sell_loop-IsCovered :
        (n : ℕ) (s t : Sale D) → IsCovered s → sell_loop dec n s ≡ some t → IsCovered t
    sell_loop-IsCovered n s t h q =
        (sell_loop-keeps IsCovered (λ r lot rest e _. round-IsCovered r lot rest e) n s t h q).0

    -- A round takes the first lot away, or nothing remains.
    round_ends :
        (s : Sale D) (lot : OpenLot D) (rest : List (OpenLot D))
        → ((sell_round dec s (lot ∷ rest)).lots ≡ rest)
          ⊎ (lt dec.zero (sell_round dec s (lot ∷ rest)).remaining ≡ false)
    unfolding sell_round
    round_ends s lot rest = elim (e.least_cases s.remaining lot.amount) [
      | inl (x, _) ↦ inr (
          ap (λ t. lt dec.zero (sub s.remaining t)) x
          ∙ ap (lt dec.zero) (sub_self dec e s.remaining)
          ∙ e.lt_irrefl dec.zero)
      | inr (x, _) ↦
          let z = (e.eq_iff _ dec.zero).1 (ap (sub lot.amount) x ∙ sub_self dec e lot.amount) in
          inl (ground (arith))
    ]

    stops : (n : ℕ) (s : Sale D) → goes_on dec s ≡ false → sell_loop dec n s ≡ some s
    unfolding sell_loop
    stops zero s g = ap (λ b. if b then none else some s) g
    stops (suc n) s g = ap (λ b. if b then sell_loop dec n (sell_round dec s s.lots) else some s) g

    not_left : (s : Sale D) → s.lots ≡ [] → goes_on dec s ≡ false
    unfolding goes_on
    not_left s q = let r = ap is_empty q in ground (arith)

    none_remains : (s : Sale D) → lt dec.zero s.remaining ≡ false → goes_on dec s ≡ false
    unfolding goes_on
    none_remains s q = ground (arith)

    continue :
        (n : ℕ) (s : Sale D)
        → goes_on dec s ≡ true
        → sell_loop dec (suc n) s ≡ sell_loop dec n (sell_round dec s s.lots)
    unfolding sell_loop
    continue n s g = ap (λ b. if b then sell_loop dec n (sell_round dec s s.lots) else some s) g

    ends_from :
        (n : ℕ) (s : Sale D) (lots : List (OpenLot D))
        → s.lots ≡ lots
        → length lots < n
        → (t : Sale D) × (sell_loop dec n s ≡ some t)
    ends_from n s [] q h = (s, stops n s (not_left s q))
    ends_from zero s (lot ∷ rest) q h = absurd (omega arith)
    ends_from (suc n) s (lot ∷ rest) q h = elim (Bool-cases (goes_on dec s)) [
      | inr g ↦ (s, stops (suc n) s g)
      | inl g ↦
          let next = sell_round dec s s.lots in
          elim (round_ends s lot rest) [
            | inl r ↦
                let (t, p) =
                  ends_from n next rest (ap (λ l. (sell_round dec s l).lots) q ∙ r) (omega arith) in
                (t, continue n s g ∙ p)
            | inr r ↦ (
              next,
              continue n s g
                  ∙ stops n next (
                      none_remains next
                        (ap (λ l. lt dec.zero (sell_round dec s l).remaining) q ∙ r)),
            )
          ]
    ]

    -- One round more than there are lots is enough.
    pub sell_loop-ends :
        (n : ℕ) (s : Sale D) → length s.lots < n → (t : Sale D) × (sell_loop dec n s ≡ some t)
    sell_loop-ends n s h = ends_from n s s.lots refl h

    whole :
        (lot : OpenLot D) (take : D)
        → eq lot.amount dec.zero ≡ false
        → eq (sub lot.amount take) dec.zero ≡ true
        → taken_cost dec lot take ≡ lot.cost_usd
    unfolding taken_cost
    whole lot take z q =
        ap (taken_cost dec lot) (sub-zero→≡ dec e lot.amount take q)
        ∙ e.mul-div_self lot.cost_usd lot.amount z

    -- The cost that a round charges is the cost that leaves the lots.
    charged :
        (s : Sale D) (lot : OpenLot D) (rest : List (OpenLot D))
        → eq lot.amount dec.zero ≡ false
        → add (sell_round dec s (lot ∷ rest)).cost (held_cost (sell_round dec s (lot ∷ rest)).lots)
          ≡ add s.cost (held_cost (lot ∷ rest))
    unfolding sell_round held_cost sum
    charged s lot rest z =
        let c = taken_cost dec lot (least s.remaining lot.amount) in
        let h = held_cost rest in
        simp z (
          if-keeps
            (λ (l : List (OpenLot D)).
              add (add s.cost c) (sum dec (map (λ (l : OpenLot D). l.cost_usd) l))
              ≡ add s.cost (add lot.cost_usd h))
            (eq (sub lot.amount (least s.remaining lot.amount)) dec.zero)
            (λ q. e.add_assoc s.cost c h ∙ ap (λ d. add s.cost (add d h)) (whole lot _ z q))
            (λ _.
              e.add_assoc s.cost c (add (sub lot.cost_usd c) h)
              ∙ ap (add s.cost) (
                  sym (e.add_assoc c (sub lot.cost_usd c) h)
                  ∙ ap (λ d. add d h)
                      (e.add_comm c (sub lot.cost_usd c) ∙ e.sub_cancel lot.cost_usd c))))

    -- No cost is lost: what the sell is charged has left the lots.
    pub sell_loop-charges :
        (n : ℕ) (s t : Sale D)
        → IsCovered s
        → sell_loop dec n s ≡ some t
        → add t.cost (held_cost t.lots) ≡ add s.cost (held_cost s.lots)
    sell_loop-charges n s t h q =
        (sell_loop-keeps
          (λ (r : Sale D).
            IsCovered r × (add r.cost (held_cost r.lots) ≡ add s.cost (held_cost s.lots)))
          (λ r lot rest e _ k. (
            round-IsCovered r lot rest e k.0,
            charged r lot rest (subst (All IsHeld) e k.0.1).0.1
                ∙ ap (λ l. add r.cost (held_cost l)) (sym e)
                ∙ k.1,
          ))
          n s t (h, refl) q).0.1

    -- Where no open lot is empty or below zero and neither is what is to sell, a loop with more rounds
    -- than lots ends. It splits the sell into what is matched and what remains, and takes the matched
    -- amount from the lots; no lot is below zero after it or empty; what it charges is the cost that has
    -- left the lots; and something remains to sell only where no lot is left.
    pub sell_loop-settles :
        (n : ℕ) (s : Sale D)
        → length s.lots < n
        → IsCovered s
        → (t : Sale D) × (sell_loop dec n s ≡ some t)
          × Balance s t
          × IsCovered t
          × (add t.cost (held_cost t.lots) ≡ add s.cost (held_cost s.lots))
          × (lt dec.zero t.remaining ≡ true → is_empty t.lots ≡ true)
    sell_loop-settles n s h c =
        let (t, q) = sell_loop-ends n s h in
        (
          t,
          q,
          sell_loop-Balance n s t q,
          sell_loop-IsCovered n s t c q,
          sell_loop-charges n s t c q,
          oversell-empty n s t q,
        )
