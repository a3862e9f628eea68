-- ===== src/Ingest/Store.antt =====
-- The idempotency store: what a commit adds, and what the pipeline then makes of the key.
use solana_whale_intelligenc.Prelude.{
  ◌≡◌, subst, ◌↔◌, ◌⊎◌, inl, inr, true, List, String, arith, any, str_eq, eq_iff, Bool-cases,
}
use solana_whale_intelligenc.Ingest.{
  DurableAppendReceipt, matches, InMemoryIdempotency, contains, insert_key, commit,
}

insert_key-any :
    (key other : String) (keys : List String)
    → (any (insert_key key keys) (λ k. str_eq k other) ≡ true)
      ↔ ((any keys (λ k. str_eq k other) ≡ true) ⊎ (key ≡ other))
unfolding insert_key
insert_key-any key other keys = elim (Bool-cases (any keys (λ k. str_eq k key))) [
  | inl h ↦ (
    λ g. inl (ground arith),
    λ g. elim g [
      | inl a ↦ ground arith
      | inr e ↦ subst (λ o. any (insert_key key keys) (λ k. str_eq k o) ≡ true) e (ground arith)
    ],
  )
  | inr h ↦ (λ g. ground (arith, eq_iff key other), λ g. ground (arith, eq_iff key other))
]

-- A commit adds the one key that its receipt is bound to, and nothing else: afterwards a key is in
-- the store exactly when it was there before, or is the key of the receipt and of the call.
pub commit-contains :
    (s : InMemoryIdempotency) (key other : String) (r : DurableAppendReceipt)
    → (contains (commit s key r) other ≡ true)
      ↔ ((contains s other ≡ true) ⊎ ((r.key ≡ key) × (key ≡ other)))
unfolding contains commit matches
commit-contains s key other r = (
  λ h. ground (arith, insert_key-any key other s.committed, eq_iff r.key key),
  λ h. ground (arith, insert_key-any key other s.committed, eq_iff r.key key),
)
