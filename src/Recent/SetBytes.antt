-- ===== src/Recent/SetBytes.antt =====
-- The bytes of a canonical set.
use solana_whale_intelligenc.Prelude.{
  ℕ, ◌^◌, ◌≡◌, refl, sym, ap, ◌↔◌, List, [], ◌∷◌, ◌++◌, ◌%◌, subst, In, String, arith, All, All-in,
  All-of-In, length, length-append,
}
use solana_whale_intelligenc.Prelude.Utf8.{as_bytes, as_bytes_inj}
use solana_whale_intelligenc.Recent.{
  le_bytes, framed, dedup, sort_texts, framed_items, canonical_set_bytes,
}
use solana_whale_intelligenc.Recent.Encoding.{length-le_bytes, Fits, framed-append}
use solana_whale_intelligenc.Recent.Sets.{
  SameMembers, Strict-unique, canonical-Strict, In-canonical,
}

abbrev pub FitsText : String → Type 0
FitsText t = Fits (as_bytes t)

framed-nil : (a x : List ℕ) → framed a ++ x ≡ [] → ⊥
unfolding framed
framed-nil a x h = absurd (
    omega (
      arith,
      ap length h,
      length-append (framed a) x,
      length-append (le_bytes 8 (length a % 2 ^ 64)) a,
      length-le_bytes 8 (length a % 2 ^ 64),
    ))

framed_items_inj :
    (xs ys : List String)
    → All FitsText xs
    → All FitsText ys
    → framed_items xs ≡ framed_items ys
    → xs ≡ ys
unfolding framed_items
framed_items_inj [] [] p q h = refl
framed_items_inj [] (y ∷ ys) p q h = absurd (framed-nil (as_bytes y) (framed_items ys) (sym h))
framed_items_inj (x ∷ xs) [] p q h = absurd (framed-nil (as_bytes x) (framed_items xs) h)
framed_items_inj (x ∷ xs) (y ∷ ys) p q h =
    let (e, r) =
      framed-append (as_bytes x) (as_bytes y) (framed_items xs) (framed_items ys) p.0 q.0 h in
    let same = as_bytes_inj x y e in let rest = framed_items_inj xs ys p.1 q.1 r in cc

canonical-All : (P : String → Type 0) (xs : List String) → All P xs → All P (dedup (sort_texts xs))
canonical-All P xs h =
    All-of-In P (dedup (sort_texts xs)) (λ x i. All-in P xs ((In-canonical x xs).0 i) h)

-- The bytes of a list of texts stand for the set of its members: two lists have the same bytes
-- exactly when they have the same members, in whatever order and however often, and whatever
-- characters the texts hold, as long as each fits into memory.
pub canonical_set_bytes_iff :
    (xs ys : List String)
    → All FitsText xs
    → All FitsText ys
    → (canonical_set_bytes xs ≡ canonical_set_bytes ys) ↔ SameMembers xs ys
unfolding canonical_set_bytes
canonical_set_bytes_iff xs ys p q = (
  λ h x.
      let e =
        framed_items_inj (dedup (sort_texts xs)) (dedup (sort_texts ys))
          (canonical-All FitsText xs p) (canonical-All FitsText ys q) h in
      let (f, g) = In-canonical x xs in
      let (u, v) = In-canonical x ys in
      (λ i. u (subst (In x) e (g i)), λ j. f (subst (In x) (sym e) (v j))),
  λ same. ap framed_items (
      Strict-unique (dedup (sort_texts xs)) (dedup (sort_texts ys)) (canonical-Strict xs)
        (canonical-Strict ys)
        (λ x.
          let (f, g) = In-canonical x xs in
          let (u, v) = In-canonical x ys in
          let (s, t) = same x in (λ i. v (s (f i)), λ j. g (t (u j))))),
)
