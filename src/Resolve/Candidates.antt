-- ===== src/Resolve/Candidates.antt =====
-- `resolve_candidates`: the candidates, the one function that emits them, and their order.
use solana_whale_intelligenc.Prelude.{
  Bool, true, false, not, ◌&&◌, Option, none, some, List, [], ◌∷◌, ◌++◌, String, any, str_eq, ltb,
  if◌then◌else◌,
}
use solana_whale_intelligenc.Prelude.Lex.{lex_lt}
use solana_whale_intelligenc.Prelude.Sort.{then_by}
use solana_whale_intelligenc.Prelude.Utf8.{as_bytes}
use solana_whale_intelligenc.Recent.{
  IdentityKind, kind_str, RecentRelation, same_deployer, same_authority, same_fee_payer,
  same_funder, relation_str, RecentConfidence, reconstructed, estimated, insufficient,
  confidence_rank, ActorExtraction,
}
use solana_whale_intelligenc.Graph.{NodeType, EdgeType}
use solana_whale_intelligenc.Resolve.Identity.{
  IdentityKey, normalize_identity, canonical_chain, same_actor,
}

pub record CandidateRelation : Type 0 where
  pub to_identity : IdentityKey
  pub relation : RecentRelation
  pub confidence : RecentConfidence
  pub evidence_refs : List String

-- The key of `seen`: canonical value, kind, relation.
abbrev pub SeenKey : Type 0
SeenKey = String × String × String

pub record Emitted : Type 0 where
  pub out : List CandidateRelation
  pub seen : List SeenKey

abbrev pub nothing : Emitted
nothing = record { out = []; seen = [] }

-- The kind and the relation stand for themselves by their wire names.
abbrev pub seen_key : IdentityKey → RecentRelation → SeenKey
seen_key identity relation = (identity.value, kind_str identity.kind, relation_str relation)

abbrev pub key_eq : SeenKey → SeenKey → Bool
key_eq a b = str_eq a.0 b.0 && str_eq a.1 b.1 && str_eq a.2 b.2

abbrev pub is_token_node : NodeType → Bool
is_token_node NodeType.token = true
is_token_node _ = false

abbrev pub is_wallet_node : NodeType → Bool
is_wallet_node NodeType.wallet = true
is_wallet_node _ = false

module _ (url_host : String → Option String) where
  unfoldable pub emit :
      Emitted → IdentityKind → String → RecentRelation → RecentConfidence → List String → Emitted
  emit s kind raw_value relation confidence evidence_refs =
      elim (normalize_identity url_host kind raw_value) [
        | none ↦ s
        | some identity ↦
            if any s.seen (λ k. key_eq k (seen_key identity relation)) then s else record {
              out =
                  s.out
                  ++ record {
                    to_identity = identity;
                    relation = relation;
                    confidence = confidence;
                    evidence_refs = evidence_refs;
                  }
                    ∷ [];
              seen = seen_key identity relation ∷ s.seen;
            }
      ]

  -- The two `match e.edge_type`, and the `or_else` between them.
  unfoldable pub direct_relation : ActorExtraction → EdgeType → String → Option RecentRelation
  direct_relation anchor EdgeType.deployed_by actor =
      if same_actor url_host anchor.deployer actor then some same_deployer else none
  direct_relation anchor EdgeType.funded_by actor =
      if same_actor url_host anchor.initial_funder actor then some same_funder else none
  direct_relation anchor _ actor = none

  unfoldable pub explicit_relation : ActorExtraction → EdgeType → String → Option RecentRelation
  explicit_relation anchor EdgeType.same_authority actor =
      if same_actor url_host anchor.authority actor then some same_authority else none
  explicit_relation anchor EdgeType.same_fee_payer actor =
      if same_actor url_host anchor.fee_payer actor then some same_fee_payer else none
  explicit_relation anchor _ actor = none

  unfoldable pub actor_relation : ActorExtraction → EdgeType → String → Option RecentRelation
  actor_relation anchor edge_type actor = elim (direct_relation anchor edge_type actor) [
    | some relation ↦ some relation
    | none ↦ explicit_relation anchor edge_type actor
  ]

-- `match to_chain`
unfoldable pub distinct_chain : String → String → Bool
distinct_chain to anchor_chain = elim (canonical_chain to) [
  | none ↦ false
  | some t ↦ not (str_eq t anchor_chain)
]

unfoldable pub funding_confidence : Bool → Bool → RecentConfidence
funding_confidence authoritative corroborated =
    if authoritative && corroborated
    then reconstructed
    else if authoritative
    then estimated
    else insufficient

-- The final order: rank, downwards, then the relation's name, then the value.
unfoldable pub candidate_lt : CandidateRelation → CandidateRelation → Bool
candidate_lt =
    then_by
      (then_by (λ a b. ltb (confidence_rank b.confidence) (confidence_rank a.confidence))
        (λ a b. lex_lt (as_bytes (relation_str a.relation)) (as_bytes (relation_str b.relation))))
      (λ a b. lex_lt (as_bytes a.to_identity.value) (as_bytes b.to_identity.value))
