-- ===== src/Scoring/Lots.antt =====
-- The cost that a lot keeps when a part of it is sold.
use solana_whale_intelligenc.Prelude.{
  ◌≡◌, refl, sym, ap, ◌∙◌, inl, inr, true, false, not, ◌&&◌, Option, none, some, [], ◌∷◌,
  if◌then◌else◌, Bool-cases,
}
use mathlib.Core.Bool.{true≢false}
use solana_whale_intelligenc.Decimal.{Decimal, IsExact}
use solana_whale_intelligenc.Decimal.Laws.{sub_self, add_cancel}
use solana_whale_intelligenc.Scoring.{OpenLot, Sale, sell_round, goes_on, sell_loop}

module _ (dec : Decimal) (e : IsExact dec) where
  open dec use {D, add, sub, mul, div, least, eq, lt}

  -- A sell of `amount` from one lot.
  abbrev pub sell_from : D → OpenLot D → Option (Sale D)
  sell_from amount lot =
      sell_loop dec 2
        (record { remaining = amount; cost = dec.zero; open_time = none; lots = lot ∷ [] })

  least_left : (a b : D) → lt b a ≡ false → lt a b ≡ true → least a b ≡ a
  least_left a b h k = elim (e.least_cases a b) [
    | inl (p, _) ↦ p
    | inr (_, q) ↦ absurd (true≢false (sym k ∙ q))
  ]

  least_self : (a : D) → least a a ≡ a
  least_self a = elim (e.least_cases a a) [ inl (p, _) ↦ p | inr (p, _) ↦ p ]

  sub_flip : (a x : D) → sub dec.zero (sub a x) ≡ sub x a
  sub_flip a x =
      add_cancel dec e (sub dec.zero (sub a x)) (sub x a) (sub a x)
        (e.sub_cancel dec.zero (sub a x) ∙ sym opposite)
    where
      opposite : add (sub x a) (sub a x) ≡ dec.zero
      opposite = add_cancel dec e (add (sub x a) (sub a x)) dec.zero x (
          e.add_assoc (sub x a) (sub a x) x
          ∙ ap (add (sub x a)) (e.sub_cancel a x)
          ∙ e.sub_cancel x a
          ∙ sym (e.zero-add x))

  sub_pos : (a x : D) → lt x a ≡ true → lt dec.zero (sub a x) ≡ true
  sub_pos a x h =
      sym (e.lt-sub dec.zero (sub a x)) ∙ ap (λ d. lt d dec.zero) (sub_flip a x) ∙ e.lt-sub x a ∙ h

  not_zero : (a : D) → lt dec.zero a ≡ true → eq a dec.zero ≡ false
  not_zero a h = elim (Bool-cases (eq a dec.zero)) [
    | inr z ↦ z
    | inl z ↦
        absurd
          (true≢false (sym h ∙ ap (lt dec.zero) ((e.eq_iff a dec.zero).0 z) ∙ e.lt_irrefl dec.zero))
  ]

  -- A sell that the first round ends.
  one_round :
      (amount : D) (lot : OpenLot D)
      → lt dec.zero amount ≡ true
      → least amount lot.amount ≡ amount
      → sell_from amount lot
        ≡ some (record {
          remaining = sub amount amount;
          cost =
              if not (eq lot.usd dec.zero) && not (eq lot.amount dec.zero)
              then add dec.zero (mul lot.usd (div amount lot.amount))
              else dec.zero;
          open_time = lot.time;
          lots =
              if eq (sub lot.amount amount) dec.zero
              then []
              else record { amount = sub lot.amount amount; usd = lot.usd; time = lot.time } ∷ [];
        })
  unfolding sell_loop sell_round goes_on
  one_round amount lot h l = simp (h, l, sub_self dec e amount, e.lt_irrefl dec.zero) refl

  abbrev pub rest_of : D → OpenLot D → OpenLot D
  rest_of x lot = record { amount = sub lot.amount x; usd = lot.usd; time = lot.time }

  -- Where the decimals are exact: a sell of a part of a lot that has a cost is charged its share of
  -- the cost and leaves the lot's cost as it was, so that the sell of the rest is charged the whole
  -- cost of the lot once more.
  pub split_sells :
      (x : D) (lot : OpenLot D)
      → lt dec.zero x ≡ true
      → lt x lot.amount ≡ true
      → lt lot.amount x ≡ false
      → lt dec.zero lot.amount ≡ true
      → eq lot.usd dec.zero ≡ false
      → (s : Sale D) × (sell_from x lot ≡ some s)
        × (s.cost ≡ mul lot.usd (div x lot.amount))
        × (s.lots ≡ rest_of x lot ∷ [])
        × ((t : Sale D) × (sell_from (sub lot.amount x) (rest_of x lot) ≡ some t)
            × (t.cost ≡ lot.usd)
            × (t.lots ≡ []))
  split_sells x lot h k l p u =
      let r = sub_pos lot.amount x k in
      let z = not_zero lot.amount p in
      let w = not_zero (sub lot.amount x) r in
      (
        _,
        one_round x lot h (least_left x lot.amount l k),
        simp (u, z) (e.zero-add (mul lot.usd (div x lot.amount))),
        ap (λ b. if b then [] else rest_of x lot ∷ []) w,
        (
          _,
          one_round (sub lot.amount x) (rest_of x lot) r (least_self (sub lot.amount x)),
          simp (u, w) (e.zero-add _ ∙ e.mul-div_self lot.usd (sub lot.amount x) w),
          ap (λ b. if b then [] else rest_of (sub lot.amount x) (rest_of x lot) ∷ [])
              ((e.eq_iff _ dec.zero).1 (sub_self dec e (sub lot.amount x))),
        ),
      )
