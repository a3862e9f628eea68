-- ===== src/Resolve/Examples.antt =====
-- An anchor with a token of its deployer, a funded wallet, and a social account; the theorems at them.
use solana_whale_intelligenc.Prelude.{
  ◌≡◌, ◌≢◌, refl, sym, subst, ℕ, false, Option, none, some, List, [], ◌∷◌, String, In, inl, inr,
  str_eq, if◌then◌else◌,
}
use solana_whale_intelligenc.Prelude.Int.{ℤ, pos}
use solana_whale_intelligenc.Prelude.Sort.{Apart, Sorted, then_by, insert_by, sort_by}
use solana_whale_intelligenc.Prelude.Strings.{
  is_empty_str, is_space, trim_start, trim_end, trim, split_colon, to_ascii_lowercase,
}
use solana_whale_intelligenc.Event.{confirmed}
use solana_whale_intelligenc.Recent.{
  token, wallet, kind_str, same_deployer, funded_by_known_deployer, reused_social_link,
  relation_str, exact, reconstructed, insufficient, confidence_rank, ActorExtraction,
}
use solana_whale_intelligenc.Graph.{
  NodeType, EdgeType, EntityNode, EntityEdge, edge_index, is_confirmed, until_ok,
  edge_is_authoritative,
}
use solana_whale_intelligenc.Resolve.Identity.{
  known_chain, canonical_chain, chain_prefix, qualified, prefixed, same_key, key_for,
  normalize_identity, same_wallet, same_token, same_actor,
}
use solana_whale_intelligenc.Resolve.Social.{
  StoredSocialIdentity, SocialIdentityRecord, is_handle, names_account,
  is_immutable_social_identity, record_of, records_from_store, same_text, canonical_social_key,
  same_social_identity,
}
use solana_whale_intelligenc.Resolve.Candidates.{
  CandidateRelation, emit, direct_relation, explicit_relation, actor_relation, distinct_chain,
  funding_confidence, candidate_lt,
}
use solana_whale_intelligenc.Resolve.Rounds.{
  cross_chain_round, actor_round, node_round, window_has, names_anchor, corroborates,
  is_corroborated, funding_round, social_round, social_rounds, loops, resolve_candidates,
}
use solana_whale_intelligenc.Resolve.Emission.{candidate}
use solana_whale_intelligenc.Resolve.Canonical.{normalize_identity_idem}
use solana_whale_intelligenc.Resolve.Evidence.{
  Backing, Corroboration, candidate-Backing, reconstructed-Corroboration,
}
use solana_whale_intelligenc.Resolve.Keys.{key, resolve_candidates-Apart, resolve_candidates-Sorted}
use solana_whale_intelligenc.Resolve.Exclusion.{actor_candidate_not_anchor}

abbrev host : String → Option String
host url = some url

abbrev secs : String → Option ℤ
secs text = if str_eq text "1" then some (pos 1) else if str_eq text "5" then some (pos 5) else none

abbrev anchor : ActorExtraction
anchor = record {
  token = "sol:AAA";
  deployer = some "solana:D";
  authority = none;
  fee_payer = none;
  factory = some "solana:FACTORY";
  initial_funder = none;
  authority_changes = [];
  social_identities = "X:1" ∷ [];
}

abbrev nodes : List EntityNode
nodes =
    record { entity_key = "solana:AAA"; node_type = NodeType.token }
    ∷ record { entity_key = "sol:BBB"; node_type = NodeType.token }
    ∷ record { entity_key = "sol:W"; node_type = NodeType.wallet }
    ∷ []

abbrev edge : EdgeType → String → String → String → EntityEdge ℕ
edge edge_type from to ref = record {
  from_entity_key = from;
  to_entity_key = to;
  edge_type = edge_type;
  occurred_at = "5";
  source_id = none;
  truth_status = confirmed;
  confidence = none;
  valid_from = "1";
  valid_until = none;
  supersedes = none;
  evidence_refs = ref ∷ [];
}

abbrev edges : List (EntityEdge ℕ)
edges =
    edge EdgeType.deployed_by "sol:D" "solana:BBB" "tx1"
    ∷ edge EdgeType.funded_by "solana:D" "solana:W" "tx2"
    ∷ edge EdgeType.reused_social_link "sol:W" "x:1" "post"
    ∷ []

abbrev rows : List StoredSocialIdentity
rows = record { platform = "X"; immutable_user_id = " 1"; handles = "@one" ∷ [] } ∷ []

abbrev bindings : List SocialIdentityRecord
bindings = record { platform = "x"; immutable_user_id = "1"; handles = "@one" ∷ [] } ∷ []

stored : records_from_store rows ≡ bindings
unfolding records_from_store record_of is_handle trim trim_start trim_end is_space is_empty_str
    to_ascii_lowercase
stored = refl

abbrev deployed : CandidateRelation
deployed =
    candidate (record { kind = token; value = "solana:BBB" }) same_deployer exact ("tx1" ∷ [])

abbrev funded : CandidateRelation
funded =
    candidate (record { kind = wallet; value = "solana:W" }) funded_by_known_deployer reconstructed
      ("tx2" ∷ [])

abbrev results : List CandidateRelation
results = resolve_candidates host secs anchor nodes edges bindings (pos 5)

resolved : results ≡ deployed ∷ funded ∷ []
unfolding resolve_candidates loops social_rounds social_round funding_round node_round actor_round
    cross_chain_round emit direct_relation explicit_relation actor_relation distinct_chain
    funding_confidence candidate_lt window_has names_anchor corroborates is_corroborated then_by
    insert_by sort_by trim trim_start trim_end is_space is_empty_str split_colon to_ascii_lowercase
    kind_str relation_str confidence_rank edge_index is_confirmed until_ok edge_is_authoritative
    known_chain canonical_chain chain_prefix qualified prefixed same_key key_for normalize_identity
    same_wallet same_token same_actor is_handle names_account is_immutable_social_identity same_text
    canonical_social_key same_social_identity
resolved = refl

deployed-In : In deployed results
deployed-In = subst (In deployed) (sym resolved) (inl refl)

funded-In : In funded results
funded-In = subst (In funded) (sym resolved) (inr (inl refl))

-- A reuse edge that starts at the anchor's own token is a relation of the anchor to itself.
reused_by_itself :
    resolve_candidates host secs anchor nodes
      (edge EdgeType.reused_social_link "solana:AAA" "x:1" "post" ∷ [])
      bindings
      (pos 5)
    ≡ candidate
        (record { kind = token; value = "solana:AAA" })
        reused_social_link
        insufficient
        ("post" ∷ [])
      ∷ []
unfolding resolve_candidates loops social_rounds social_round funding_round node_round actor_round
    cross_chain_round emit direct_relation explicit_relation actor_relation distinct_chain
    funding_confidence candidate_lt window_has names_anchor corroborates is_corroborated then_by
    insert_by sort_by trim trim_start trim_end is_space is_empty_str split_colon to_ascii_lowercase
    kind_str relation_str confidence_rank edge_index is_confirmed until_ok edge_is_authoritative
    known_chain canonical_chain chain_prefix qualified prefixed same_key key_for normalize_identity
    same_wallet same_token same_actor is_handle names_account is_immutable_social_identity same_text
    canonical_social_key same_social_identity
reused_by_itself = refl

candidate-Backing_example : Backing secs edges (pos 5) deployed
candidate-Backing_example =
    candidate-Backing host secs anchor nodes edges bindings (pos 5) deployed deployed-In

reconstructed-Corroboration_example : Corroboration host secs anchor edges bindings (pos 5) funded
reconstructed-Corroboration_example =
    reconstructed-Corroboration host secs anchor nodes edges bindings (pos 5) funded funded-In refl

resolve_candidates-Apart_example : Apart (λ c d. key c ≢ key d) results
resolve_candidates-Apart_example =
    resolve_candidates-Apart host secs anchor nodes edges bindings (pos 5)

resolve_candidates-Sorted_example : Sorted candidate_lt results
resolve_candidates-Sorted_example =
    resolve_candidates-Sorted host secs anchor nodes edges bindings (pos 5)

actor_candidate_not_anchor_example :
    (deployed.to_identity.kind ≡ token) × (same_token host "solana:BBB" "sol:AAA" ≡ false)
actor_candidate_not_anchor_example =
    actor_candidate_not_anchor host secs anchor nodes edges bindings (pos 5) deployed deployed-In
      refl

parsed :
    normalize_identity host token " sol:AAA " ≡ some (record { kind = token; value = "solana:AAA" })
unfolding normalize_identity key_for qualified canonical_chain known_chain split_colon trim
    trim_start trim_end is_space is_empty_str to_ascii_lowercase
parsed = refl

normalize_identity_idem_example :
    normalize_identity host token "solana:AAA"
    ≡ some (record { kind = token; value = "solana:AAA" })
normalize_identity_idem_example =
    normalize_identity_idem host token " sol:AAA " (record { kind = token; value = "solana:AAA" })
      refl parsed
