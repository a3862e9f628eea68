-- ===== src/Resolve/Emission.antt =====
-- `resolve_candidates`: the emissions of the four loops, and the candidates.
use solana_whale_intelligenc.Prelude.{
  ◌≡◌, true, false, ◌&&◌, Option, some, List, String, any, All, In, filter, if◌then◌else◌, if-keeps,
  option-keeps, and→both, each-keeps, In-filter,
}
use solana_whale_intelligenc.Prelude.Int.{ℤ}
use solana_whale_intelligenc.Prelude.Sort.{All-snoc, sort_by-All}
use solana_whale_intelligenc.Recent.{
  IdentityKind, token, wallet, RecentRelation, funded_by_known_deployer, reused_social_link,
  cross_chain_deployment, RecentConfidence, exact, insufficient, ActorExtraction,
}
use solana_whale_intelligenc.Graph.{
  EntityNode, EdgeType, EntityEdge, is_edge, edge_is_authoritative,
}
use solana_whale_intelligenc.Resolve.Identity.{
  IdentityKey, normalize_identity, canonical_chain, same_token, same_wallet, same_actor,
}
use solana_whale_intelligenc.Resolve.Social.{SocialIdentityRecord}
use solana_whale_intelligenc.Resolve.Candidates.{
  CandidateRelation, Emitted, nothing, seen_key, key_eq, is_token_node, is_wallet_node, emit,
  actor_relation, distinct_chain, candidate_lt, funding_confidence,
}
use solana_whale_intelligenc.Resolve.Rounds.{
  cross_chain_round, actor_round, node_round, is_corroborated, funding_round, social_round,
  social_rounds, loops, resolve_candidates,
}

abbrev pub candidate :
    IdentityKey → RecentRelation → RecentConfidence → List String → CandidateRelation
candidate identity relation confidence evidence_refs = record {
  to_identity = identity;
  relation = relation;
  confidence = confidence;
  evidence_refs = evidence_refs;
}

module _ (url_host : String → Option String) (P : CandidateRelation → Type 0) where
  abbrev pub Kept : Emitted → Type 0
  Kept s = All P s.out

  pub emit_keeps :
      (s : Emitted) (kind : IdentityKind) (raw : String) (r : RecentRelation) (c : RecentConfidence)
      (refs : List String)
      → ((id : IdentityKey)
          → normalize_identity url_host kind raw ≡ some id
          → P (candidate id r c refs))
      → Kept s
      → Kept (emit url_host s kind raw r c refs)
  unfolding emit
  emit_keeps s kind raw r c refs k h =
      option-keeps Kept (normalize_identity url_host kind raw) (λ _. h)
        (λ id e.
          if-keeps Kept (any s.seen (λ k. key_eq k (seen_key id r))) (λ _. h)
            (λ _. All-snoc P s.out (candidate id r c refs) h (k id e)))

-- Where the loops emit: what is known there, and that the emission keeps a property of the state.
pub record Emissions {F : Type 0} (url_host : String → Option String)
    (parse_secs : String → Option ℤ) (K : Emitted → Type 0) (anchor : ActorExtraction)
    (anchor_chain : String) (nodes : List EntityNode) (edges : List (EntityEdge F))
    (bindings : List SocialIdentityRecord) (now : ℤ) : Type 0 where
  pub start : K nothing
  pub crossing :
      (s : Emitted) (e : EntityEdge F)
      → In e edges
      → is_edge e.edge_type EdgeType.cross_chain_deployment ≡ true
      → distinct_chain e.to_entity_key anchor_chain ≡ true
      → edge_is_authoritative parse_secs e now ≡ true
      → K s
      → K (emit url_host s token e.to_entity_key cross_chain_deployment exact e.evidence_refs)
  pub acting :
      (n : EntityNode) (s : Emitted) (e : EntityEdge F) (k : IdentityKey) (r : RecentRelation)
      → In e edges
      → same_token url_host n.entity_key anchor.token ≡ false
      → normalize_identity url_host token n.entity_key ≡ some k
      → same_actor url_host anchor.factory e.from_entity_key ≡ false
      → actor_relation url_host anchor e.edge_type e.from_entity_key ≡ some r
      → K s
      → K (
          emit url_host s token k.value r
            (if edge_is_authoritative parse_secs e now then exact else insufficient)
            e.evidence_refs)
  pub funding :
      (s : Emitted) (e : EntityEdge F)
      → In e edges
      → is_edge e.edge_type EdgeType.funded_by ≡ true
      → same_actor url_host anchor.deployer e.from_entity_key ≡ true
      → any nodes
          (λ n. same_wallet url_host n.entity_key e.to_entity_key && is_wallet_node n.node_type)
        ≡ true
      → K s
      → K (
          emit url_host s wallet e.to_entity_key funded_by_known_deployer
            (funding_confidence
              (edge_is_authoritative parse_secs e now)
              (is_corroborated url_host parse_secs anchor edges bindings now e))
            e.evidence_refs)
  pub reusing :
      (s : Emitted) (e : EntityEdge F)
      → In e edges
      → is_edge e.edge_type EdgeType.reused_social_link ≡ true
      → K s
      → K (emit url_host s token e.from_entity_key reused_social_link insufficient e.evidence_refs)

module _ {F : Type 0} (url_host : String → Option String) (parse_secs : String → Option ℤ)
    (K : Emitted → Type 0) (anchor : ActorExtraction) (anchor_chain : String)
    (nodes : List EntityNode) (edges : List (EntityEdge F)) (bindings : List SocialIdentityRecord)
    (now : ℤ)
    (law : Emissions url_host parse_secs K anchor anchor_chain nodes edges bindings now) where
  cross_chain_keeps :
      (s : Emitted) (e : EntityEdge F)
      → In e edges
      → K s
      → K (cross_chain_round url_host parse_secs anchor anchor_chain now s e)
  unfolding cross_chain_round
  cross_chain_keeps s e i h =
      if-keeps K _
        (λ t.
          let (t, d) = and→both _ _ t in
          let (t, c) = and→both _ _ t in let (a, _) = and→both _ _ t in law.crossing s e i a c d h)
        (λ _. h)

  actor_keeps :
      (n : EntityNode) (k : IdentityKey)
      → same_token url_host n.entity_key anchor.token ≡ false
      → normalize_identity url_host token n.entity_key ≡ some k
      → (s : Emitted) (e : EntityEdge F) → In e edges
      → K s
      → K (actor_round url_host parse_secs anchor k.value now s e)
  unfolding actor_round
  actor_keeps n k d q s e i h =
      if-keeps K _ (λ _. h)
        (λ a.
          option-keeps K (actor_relation url_host anchor e.edge_type e.from_entity_key) (λ _. h)
            (λ r b. law.acting n s e k r i d q a b h))

  node_keeps :
      (s : Emitted) (n : EntityNode) → K s → K (node_round url_host parse_secs anchor edges now s n)
  unfolding node_round
  node_keeps s n h =
      if-keeps K _ (λ _. h)
        (λ a.
          option-keeps K (normalize_identity url_host token n.entity_key) (λ _. h)
            (λ k b.
              each-keeps K (actor_round url_host parse_secs anchor k.value now)
                (filter (λ e. same_token url_host e.to_entity_key n.entity_key) edges)
                (λ s e i.
                  actor_keeps n k a b s e
                    (In-filter (λ e. same_token url_host e.to_entity_key n.entity_key) edges i).0)
                s h))

  funding_keeps :
      (s : Emitted) (e : EntityEdge F)
      → In e edges
      → K s
      → K (funding_round url_host parse_secs anchor nodes edges bindings now s e)
  unfolding funding_round
  funding_keeps s e i h =
      if-keeps K _
        (λ t.
          let (t, n) = and→both _ _ t in let (a, b) = and→both _ _ t in law.funding s e i a b n h)
        (λ _. h)

  social_keeps :
      (identity : String) (s : Emitted) (e : EntityEdge F)
      → In e edges
      → K s
      → K (social_round url_host parse_secs nodes identity s e)
  unfolding social_round
  social_keeps identity s e i h =
      if-keeps K _
        (λ t. let (t, _) = and→both _ _ t in let (a, _) = and→both _ _ t in law.reusing s e i a h)
        (λ _. h)

  pub loops_keep : K (loops url_host parse_secs anchor anchor_chain nodes edges bindings now)
  unfolding loops social_rounds
  loops_keep =
      each-keeps K (social_rounds url_host parse_secs nodes edges) anchor.social_identities
        (λ s identity _.
          each-keeps K (social_round url_host parse_secs nodes identity) edges
            (social_keeps identity) s)
        _
        (each-keeps K _ edges funding_keeps _ (
          each-keeps K _ (filter (λ n. is_token_node n.node_type) nodes) (λ s n _. node_keeps s n) _
            (each-keeps K _ edges cross_chain_keeps nothing law.start)))

module _ {F : Type 0} (url_host : String → Option String) (parse_secs : String → Option ℤ)
    (P : CandidateRelation → Type 0) (anchor : ActorExtraction) (nodes : List EntityNode)
    (edges : List (EntityEdge F)) (bindings : List SocialIdentityRecord) (now : ℤ) where
  pub resolve_candidates-All :
      ((chain : String)
        → canonical_chain anchor.token ≡ some chain
        → Emissions url_host parse_secs (Kept url_host P) anchor chain nodes edges bindings now)
      → All P (resolve_candidates url_host parse_secs anchor nodes edges bindings now)
  unfolding resolve_candidates
  resolve_candidates-All law =
      option-keeps (All P) (canonical_chain anchor.token) (λ _. tt)
        (λ chain e. sort_by-All candidate_lt P _ (
          loops_keep url_host parse_secs (Kept url_host P) anchor chain nodes edges bindings now
            (law chain e)))
