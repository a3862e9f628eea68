-- ===== src/Resolve/Rounds.antt =====
-- `resolve_candidates`: the rounds of the four loops, the loops, and the final order.
use solana_whale_intelligenc.Prelude.{
  Bool, true, false, ◌&&◌, Option, none, some, List, [], String, any, each, filter, if◌then◌else◌,
}
use solana_whale_intelligenc.Prelude.Int.{ℤ, leb_ℤ}
use solana_whale_intelligenc.Prelude.Sort.{sort_by}
use solana_whale_intelligenc.Prelude.Utf8.{}
use solana_whale_intelligenc.Recent.{
  token, wallet, funded_by_known_deployer, reused_social_link, cross_chain_deployment, exact,
  insufficient, ActorExtraction,
}
use solana_whale_intelligenc.Graph.{
  EntityNode, EdgeType, EntityEdge, is_edge, edge_is_authoritative,
}
use solana_whale_intelligenc.Resolve.Identity.{
  normalize_identity, canonical_chain, same_wallet, same_token, same_actor,
}
use solana_whale_intelligenc.Resolve.Social.{
  SocialIdentityRecord, same_social_identity, is_immutable_social_identity,
}
use solana_whale_intelligenc.Resolve.Candidates.{
  CandidateRelation, Emitted, nothing, is_token_node, is_wallet_node, emit, actor_relation,
  distinct_chain, funding_confidence, candidate_lt,
}

module _ {F : Type 0} (url_host : String → Option String) (parse_secs : String → Option ℤ) where
  -- The rounds of the four loops; an edge that a `continue` passes leaves the state.
  unfoldable pub cross_chain_round : ActorExtraction → String → ℤ → Emitted → EntityEdge F → Emitted
  cross_chain_round anchor anchor_chain now s e =
      if is_edge e.edge_type EdgeType.cross_chain_deployment
        && same_token url_host e.from_entity_key anchor.token
        && distinct_chain e.to_entity_key anchor_chain
        && edge_is_authoritative parse_secs e now
      then emit url_host s token e.to_entity_key cross_chain_deployment exact e.evidence_refs
      else s

  unfoldable pub actor_round : ActorExtraction → String → ℤ → Emitted → EntityEdge F → Emitted
  actor_round anchor other_canonical now s e =
      if same_actor url_host anchor.factory e.from_entity_key
      then s
      else elim (actor_relation url_host anchor e.edge_type e.from_entity_key) [
        | none ↦ s
        | some relation ↦
            emit url_host s token other_canonical relation
              (if edge_is_authoritative parse_secs e now then exact else insufficient)
              e.evidence_refs
      ]

  unfoldable pub node_round :
      ActorExtraction → List (EntityEdge F) → ℤ → Emitted → EntityNode → Emitted
  node_round anchor edges now s node =
      if same_token url_host node.entity_key anchor.token
      then s
      else elim (normalize_identity url_host token node.entity_key) [
        | none ↦ s
        | some k ↦
            each (actor_round anchor k.value now) s
              (filter (λ e. same_token url_host e.to_entity_key node.entity_key) edges)
      ]

  -- The closure of `find`, at the time of the funding.
  unfoldable pub window_has : EntityEdge F → ℤ → Bool
  window_has re occ =
      elim (parse_secs re.valid_from) [ none ↦ false | some vf ↦ leb_ℤ vf occ ]
      && elim re.valid_until [
        | none ↦ true
        | some text ↦ elim (parse_secs text) [ none ↦ true | some vu ↦ leb_ℤ occ vu ]
      ]

  unfoldable pub names_anchor : ActorExtraction → List SocialIdentityRecord → EntityEdge F → Bool
  names_anchor anchor social_bindings re = any anchor.social_identities (λ i.
      same_social_identity url_host re.to_entity_key i
      && is_immutable_social_identity i social_bindings)

  unfoldable pub corroborates :
      ActorExtraction → List SocialIdentityRecord → ℤ → EntityEdge F → ℤ → EntityEdge F → Bool
  corroborates anchor social_bindings now e occ re =
      is_edge re.edge_type EdgeType.reused_social_link
      && same_wallet url_host re.from_entity_key e.to_entity_key
      && edge_is_authoritative parse_secs re now
      && names_anchor anchor social_bindings re
      && window_has re occ

  -- `corroborating_social_edge.is_some()`
  unfoldable pub is_corroborated :
      ActorExtraction → List (EntityEdge F) → List SocialIdentityRecord → ℤ → EntityEdge F → Bool
  is_corroborated anchor edges social_bindings now e = elim (parse_secs e.occurred_at) [
    | none ↦ false
    | some occ ↦ any edges (corroborates anchor social_bindings now e occ)
  ]

  unfoldable pub funding_round :
      ActorExtraction
      → List EntityNode
      → List (EntityEdge F)
      → List SocialIdentityRecord
      → ℤ
      → Emitted
      → EntityEdge F
      → Emitted
  funding_round anchor nodes edges social_bindings now s e =
      if is_edge e.edge_type EdgeType.funded_by
        && same_actor url_host anchor.deployer e.from_entity_key
        && any nodes
            (λ n. same_wallet url_host n.entity_key e.to_entity_key && is_wallet_node n.node_type)
      then emit url_host s wallet e.to_entity_key funded_by_known_deployer
          (funding_confidence (edge_is_authoritative parse_secs e now)
            (is_corroborated anchor edges social_bindings now e))
          e.evidence_refs
      else s

  unfoldable pub social_round : List EntityNode → String → Emitted → EntityEdge F → Emitted
  social_round nodes identity s e =
      if is_edge e.edge_type EdgeType.reused_social_link
        && same_social_identity url_host e.to_entity_key identity
        && any nodes
            (λ n. same_token url_host n.entity_key e.from_entity_key && is_token_node n.node_type)
      then emit url_host s token e.from_entity_key reused_social_link insufficient e.evidence_refs
      else s

  unfoldable pub social_rounds : List EntityNode → List (EntityEdge F) → Emitted → String → Emitted
  social_rounds nodes edges s identity = each (social_round nodes identity) s edges

  -- The four loops, one after the other.
  unfoldable pub loops :
      ActorExtraction
      → String
      → List EntityNode
      → List (EntityEdge F)
      → List SocialIdentityRecord
      → ℤ
      → Emitted
  loops anchor anchor_chain nodes edges social_bindings now =
      let crossed = each (cross_chain_round anchor anchor_chain now) nothing edges in
      let acted =
        each (node_round anchor edges now) crossed
          (filter (λ n. is_token_node n.node_type) nodes) in
      let funded = each (funding_round anchor nodes edges social_bindings now) acted edges in
      each (social_rounds nodes edges) funded anchor.social_identities

  unfoldable pub resolve_candidates :
      ActorExtraction
      → List EntityNode
      → List (EntityEdge F)
      → List SocialIdentityRecord
      → ℤ
      → List CandidateRelation
  resolve_candidates anchor nodes edges social_bindings now = elim (canonical_chain anchor.token) [
    | none ↦ []
    | some anchor_chain ↦
        sort_by candidate_lt (loops anchor anchor_chain nodes edges social_bindings now).out
  ]
