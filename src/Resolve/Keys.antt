-- ===== src/Resolve/Keys.antt =====
-- `resolve_candidates`: the keys of the candidates, and the final order.
use mathlib.Core.Bool.{true≢false}
use solana_whale_intelligenc.Prelude.{
  ◌≡◌, sym, ap, ◌∙◌, ◌≢◌, true, false, Option, List, [], ◌∷◌, String, any, All, ltb, if-keeps,
  option-keeps, eq_iff, arith,
}
use solana_whale_intelligenc.Prelude.Int.{ℤ}
use solana_whale_intelligenc.Prelude.Lex.{lex_lt, lex_asym, lex_trans}
use solana_whale_intelligenc.Prelude.Utf8.{as_bytes}
use solana_whale_intelligenc.Prelude.Sort.{
  All-snoc, Apart-snoc, IsWeakOrder, then_by-IsWeakOrder, Sorted, sort_by-Sorted, Apart,
  sort_by-Apart,
}
use solana_whale_intelligenc.Recent.{
  IdentityKind, RecentRelation, relation_str, RecentConfidence, confidence_rank, ActorExtraction,
}
use solana_whale_intelligenc.Graph.{EntityNode, EntityEdge}
use solana_whale_intelligenc.Resolve.Identity.{normalize_identity, canonical_chain}
use solana_whale_intelligenc.Resolve.Social.{SocialIdentityRecord}
use solana_whale_intelligenc.Resolve.Candidates.{
  CandidateRelation, SeenKey, Emitted, seen_key, key_eq, emit, candidate_lt,
}
use solana_whale_intelligenc.Resolve.Rounds.{resolve_candidates}
use solana_whale_intelligenc.Resolve.Emission.{candidate, Emissions, loops_keep}

-- The key under which a candidate stands in `seen`.
abbrev pub key : CandidateRelation → SeenKey
key c = seen_key c.to_identity c.relation

key_eq_refl : (k : SeenKey) → key_eq k k ≡ true
key_eq_refl k = grind (arith, eq_iff)

-- Distinct keys, all of them recorded.
record IsRecorded (s : Emitted) : Type 0 where
  apart : Apart (λ c d. key c ≢ key d) s.out
  recorded : All (λ c. any s.seen (λ k. key_eq k (key c)) ≡ true) s.out

absent :
    (seen : List SeenKey) (k : SeenKey) (out : List CandidateRelation)
    → any seen (λ l. key_eq l k) ≡ false
    → All (λ c. any seen (λ l. key_eq l (key c)) ≡ true) out
    → All (λ c. key c ≢ k) out
absent seen k [] h r = tt
absent seen k (c ∷ out) h r = (
  (λ e. true≢false (sym r.0 ∙ ap (λ k. any seen (λ l. key_eq l k)) e ∙ h)),
  absent seen k out h r.1,
)

still_recorded :
    (seen : List SeenKey) (k : SeenKey) (out : List CandidateRelation)
    → All (λ c. any seen (λ l. key_eq l (key c)) ≡ true) out
    → All (λ c. any (k ∷ seen) (λ l. key_eq l (key c)) ≡ true) out
still_recorded seen k [] h = tt
still_recorded seen k (c ∷ out) h = (ground (arith, h.0), still_recorded seen k out h.1)

emit-IsRecorded :
    (url_host : String → Option String) (s : Emitted) (kind : IdentityKind) (raw : String)
    (r : RecentRelation) (c : RecentConfidence) (refs : List String)
    → IsRecorded s
    → IsRecorded (emit url_host s kind raw r c refs)
unfolding emit
emit-IsRecorded url_host s kind raw r c refs h =
    option-keeps IsRecorded (normalize_identity url_host kind raw) (λ _. h)
      (λ id _.
        if-keeps IsRecorded (any s.seen (λ k. key_eq k (seen_key id r))) (λ _. h)
          (λ e. record {
            apart =
                Apart-snoc (λ c d. key c ≢ key d) s.out (candidate id r c refs) h.apart
                  (absent s.seen (seen_key id r) s.out e h.recorded);
            recorded =
                All-snoc _ s.out (candidate id r c refs)
                  (still_recorded s.seen (seen_key id r) s.out h.recorded)
                  (ground (arith, key_eq_refl (seen_key id r)));
          }))

by_key-IsWeakOrder :
    (f : CandidateRelation → String) → IsWeakOrder (λ a b. lex_lt (as_bytes (f a)) (as_bytes (f b)))
by_key-IsWeakOrder f = record {
  asym = λ a b. lex_asym (as_bytes (f a)) (as_bytes (f b));
  trans = λ a b c. lex_trans (as_bytes (f a)) (as_bytes (f b)) (as_bytes (f c));
}

by_rank-IsWeakOrder :
    IsWeakOrder (λ (a : CandidateRelation) b.
      ltb (confidence_rank b.confidence) (confidence_rank a.confidence))
by_rank-IsWeakOrder = record { asym = λ a b h. ground arith; trans = λ a b c h k. ground arith }

candidate_lt-IsWeakOrder : IsWeakOrder candidate_lt
unfolding candidate_lt
candidate_lt-IsWeakOrder =
    then_by-IsWeakOrder _ _
      (then_by-IsWeakOrder _ _ by_rank-IsWeakOrder
        (by_key-IsWeakOrder (λ c. relation_str c.relation)))
      (by_key-IsWeakOrder (λ c. c.to_identity.value))

module _ {F : Type 0} (url_host : String → Option String) (parse_secs : String → Option ℤ)
    (anchor : ActorExtraction) (nodes : List EntityNode) (edges : List (EntityEdge F))
    (bindings : List SocialIdentityRecord) (now : ℤ) where
  recording :
      (chain : String)
      → Emissions url_host parse_secs IsRecorded anchor chain nodes edges bindings now
  recording chain = record {
    start = record { apart = tt; recorded = tt };
    crossing = λ s e _ _ _ _. emit-IsRecorded url_host s _ _ _ _ _;
    acting = λ n s e k r _ _ _ _ _. emit-IsRecorded url_host s _ _ _ _ _;
    funding = λ s e _ _ _ _. emit-IsRecorded url_host s _ _ _ _ _;
    reusing = λ s e _ _. emit-IsRecorded url_host s _ _ _ _ _;
  }

  -- No two candidates have the same value, kind and relation.
  pub resolve_candidates-Apart :
      Apart
        (λ c d. key c ≢ key d)
        (resolve_candidates url_host parse_secs anchor nodes edges bindings now)
  unfolding resolve_candidates
  resolve_candidates-Apart =
      option-keeps (Apart (λ c d. key c ≢ key d)) (canonical_chain anchor.token) (λ _. tt)
        (λ chain _.
          sort_by-Apart candidate_lt (λ c d. key c ≢ key d) (λ c d h e. h (sym e)) _
            (loops_keep url_host parse_secs IsRecorded anchor chain nodes edges bindings now
              (recording chain)).apart)

  -- The candidates stand by rank, downwards, then by the relation's name, then by the value.
  pub resolve_candidates-Sorted :
      Sorted candidate_lt (resolve_candidates url_host parse_secs anchor nodes edges bindings now)
  unfolding resolve_candidates Sorted
  resolve_candidates-Sorted =
      option-keeps (Sorted candidate_lt) (canonical_chain anchor.token) (λ _. tt)
        (λ chain _. sort_by-Sorted candidate_lt candidate_lt-IsWeakOrder _)
