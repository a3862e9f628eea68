-- ===== src/Decimal/Laws.antt =====
-- What follows from the laws of exact decimals.
use solana_whale_intelligenc.Prelude.{
  ◌≡◌, if-keeps, map, refl, sym, ap, ◌∙◌, Bool, true, List, [], ◌∷◌, ◌++◌, if-keeps, map,
}
use solana_whale_intelligenc.Prelude.Sort.{sort_by, insert_by}
use solana_whale_intelligenc.Decimal.{Decimal, IsExact, sum}

module _ (dec : Decimal) (e : IsExact dec) where
  open dec use {D, add, sub, least, eq, lt}

  pub add-zero : (a : D) → add a dec.zero ≡ a
  add-zero a = e.add_comm a dec.zero ∙ e.zero-add a

  pub add_left_comm : (a b c : D) → add a (add b c) ≡ add b (add a c)
  add_left_comm a b c =
      sym (e.add_assoc a b c) ∙ ap (λ d. add d c) (e.add_comm a b) ∙ e.add_assoc b a c

  pub add_interchange : (a b c d : D) → add (add a b) (add c d) ≡ add (add a c) (add b d)
  add_interchange a b c d =
      e.add_assoc a b (add c d) ∙ ap (add a) (add_left_comm b c d) ∙ sym (e.add_assoc a c (add b d))

  -- What is taken from one number and given to another.
  pub sub-add_move : (a b t : D) → add (sub a t) (add b t) ≡ add a b
  sub-add_move a b t = add_left_comm (sub a t) b t ∙ ap (add b) (e.sub_cancel a t) ∙ e.add_comm b a

  -- A difference of zero is no difference.
  pub sub-zero→≡ : (a b : D) → eq (sub a b) dec.zero ≡ true → b ≡ a
  sub-zero→≡ a b h =
      sym (e.zero-add b)
      ∙ ap (λ d. add d b) (sym ((e.eq_iff (sub a b) dec.zero).0 h))
      ∙ e.sub_cancel a b

  pub add_cancel : (a b c : D) → add a c ≡ add b c → a ≡ b
  add_cancel a b c h = sym (back a) ∙ ap (λ d. add d (sub dec.zero c)) h ∙ back b
    where
      back : (d : D) → add (add d c) (sub dec.zero c) ≡ d
      back d =
          e.add_assoc d c (sub dec.zero c)
          ∙ ap (add d) (e.add_comm c (sub dec.zero c) ∙ e.sub_cancel dec.zero c)
          ∙ add-zero d

  pub sub_self : (a : D) → sub a a ≡ dec.zero
  sub_self a = add_cancel (sub a a) dec.zero a (e.sub_cancel a a ∙ sym (e.zero-add a))

  pub sum-append : (xs ys : List D) → sum dec (xs ++ ys) ≡ add (sum dec xs) (sum dec ys)
  unfolding sum
  sum-append [] ys = sym (e.zero-add (sum dec ys))
  sum-append (x ∷ xs) ys =
      ap (add x) (sum-append xs ys) ∙ sym (e.add_assoc x (sum dec xs) (sum dec ys))

  insert_by-sum :
      {A : Type 0} (f : A → D) (before : A → A → Bool) (x : A) (xs : List A)
      → sum dec (map f (insert_by before x xs)) ≡ add (f x) (sum dec (map f xs))
  unfolding insert_by sum
  insert_by-sum f before x [] = refl
  insert_by-sum f before x (y ∷ ys) =
      if-keeps (λ l. sum dec (map f l) ≡ add (f x) (add (f y) (sum dec (map f ys)))) (before y x)
        (λ _. ap (add (f y)) (insert_by-sum f before x ys) ∙ add_left_comm (f y) (f x) _)
        (λ _. refl)

  -- A sum does not ask for the order.
  pub sum-sort_by :
      {A : Type 0} (f : A → D) (before : A → A → Bool) (xs : List A)
      → sum dec (map f (sort_by before xs)) ≡ sum dec (map f xs)
  unfolding sort_by sum
  sum-sort_by f before [] = refl
  sum-sort_by f before (x ∷ xs) =
      insert_by-sum f before x (sort_by before xs) ∙ ap (add (f x)) (sum-sort_by f before xs)
