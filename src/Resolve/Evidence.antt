-- ===== src/Resolve/Evidence.antt =====
-- `resolve_candidates`: what a candidate rests on.
use solana_whale_intelligenc.Prelude.{
  ◌≡◌, refl, ◌⊎◌, Bool, true, false, Option, none, some, List, String, any, In, if◌then◌else◌,
  In-any, All-in, inl, inr, and→both, option-test, arith,
}
use solana_whale_intelligenc.Prelude.Int.{ℤ}
use solana_whale_intelligenc.Recent.{
  token, wallet, RecentRelation, funded_by_known_deployer, reused_social_link,
  cross_chain_deployment, exact, reconstructed, insufficient, ActorExtraction, same_deployer,
  same_funder, same_authority, same_fee_payer,
}
use solana_whale_intelligenc.Graph.{
  EntityNode, EdgeType, EntityEdge, is_edge, edge_index, edge_is_authoritative,
}
use solana_whale_intelligenc.Resolve.Identity.{normalize_identity, same_wallet, same_actor}
use solana_whale_intelligenc.Resolve.Social.{SocialIdentityRecord}
use solana_whale_intelligenc.Resolve.Candidates.{
  CandidateRelation, actor_relation, direct_relation, explicit_relation, funding_confidence,
}
use solana_whale_intelligenc.Resolve.Rounds.{
  is_corroborated, corroborates, names_anchor, window_has, resolve_candidates,
}
use solana_whale_intelligenc.Resolve.Emission.{Kept, emit_keeps, Emissions, resolve_candidates-All}

-- The type of the edge that a relation rests on.
abbrev rests_on : RecentRelation → Option EdgeType
rests_on same_deployer = some EdgeType.deployed_by
rests_on same_funder = some EdgeType.funded_by
rests_on same_authority = some EdgeType.same_authority
rests_on same_fee_payer = some EdgeType.same_fee_payer
rests_on funded_by_known_deployer = some EdgeType.funded_by
rests_on reused_social_link = some EdgeType.reused_social_link
rests_on cross_chain_deployment = some EdgeType.cross_chain_deployment
rests_on _ = none

abbrev supports : RecentRelation → EdgeType → Bool
supports r t = elim (rests_on r) [ none ↦ false | some u ↦ is_edge t u ]

-- The edge that a candidate of `edges` rests on.
pub record Backing {F : Type 0} (parse_secs : String → Option ℤ) (edges : List (EntityEdge F))
    (now : ℤ) (c : CandidateRelation) : Type 0 where
  edge : EntityEdge F
  given : In edge edges
  refs : c.evidence_refs ≡ edge.evidence_refs
  typed : supports c.relation edge.edge_type ≡ true
  authority : (c.confidence ≡ insufficient) ⊎ (edge_is_authoritative parse_secs edge now ≡ true)

module _ (url_host : String → Option String) where
  supported :
      (anchor : ActorExtraction) (t : EdgeType) (actor : String) (r : RecentRelation)
      → actor_relation url_host anchor t actor ≡ some r
      → supports r t ≡ true
  unfolding actor_relation direct_relation explicit_relation edge_index
  supported anchor t actor r h = ground arith

-- The edges that a reconstructed candidate rests on, and what they say of each other.
pub record Corroboration {F : Type 0} (url_host : String → Option String)
    (parse_secs : String → Option ℤ) (anchor : ActorExtraction) (edges : List (EntityEdge F))
    (bindings : List SocialIdentityRecord) (now : ℤ) (c : CandidateRelation) : Type 0 where
  relation : c.relation ≡ funded_by_known_deployer
  funding : EntityEdge F
  reuse : EntityEdge F
  funding_given : In funding edges
  reuse_given : In reuse edges
  funding_typed : is_edge funding.edge_type EdgeType.funded_by ≡ true
  reuse_typed : is_edge reuse.edge_type EdgeType.reused_social_link ≡ true
  refs : c.evidence_refs ≡ funding.evidence_refs
  target : normalize_identity url_host wallet funding.to_entity_key ≡ some c.to_identity
  by_deployer : same_actor url_host anchor.deployer funding.from_entity_key ≡ true
  same_funded_wallet : same_wallet url_host reuse.from_entity_key funding.to_entity_key ≡ true
  funding_authority : edge_is_authoritative parse_secs funding now ≡ true
  reuse_authority : edge_is_authoritative parse_secs reuse now ≡ true
  immutable_account : names_anchor url_host parse_secs anchor bindings reuse ≡ true
  occurred : ℤ
  at_funding : parse_secs funding.occurred_at ≡ some occurred
  in_window : window_has url_host parse_secs reuse occurred ≡ true

reconstructed_iff : (a b : Bool) → funding_confidence a b ≡ reconstructed → (a ≡ true) × (b ≡ true)
unfolding funding_confidence
reconstructed_iff a b h = ground arith

not_reconstructed : (a : Bool) → (if a then exact else insufficient) ≡ reconstructed → ⊥
not_reconstructed a h = ground arith

acting_authority : (a : Bool) → ((if a then exact else insufficient) ≡ insufficient) ⊎ (a ≡ true)
acting_authority true = inr refl
acting_authority false = inl refl

funding_authority : (a b : Bool) → (funding_confidence a b ≡ insufficient) ⊎ (a ≡ true)
unfolding funding_confidence
funding_authority true b = inr refl
funding_authority false b = inl refl

module _ {F : Type 0} (url_host : String → Option String) (parse_secs : String → Option ℤ)
    (anchor : ActorExtraction) (nodes : List EntityNode) (edges : List (EntityEdge F))
    (bindings : List SocialIdentityRecord) (now : ℤ) where
  backed :
      (chain : String)
      → Emissions url_host parse_secs
          (Kept url_host (Backing parse_secs edges now))
          anchor
          chain
          nodes
          edges
          bindings
          now
  unfolding edge_index
  backed chain = record {
    start = tt;
    crossing = λ s e i t _ a.
        emit_keeps url_host _ s token e.to_entity_key _ _ _
          (λ id _. record { edge = e; given = i; refs = refl; typed = t; authority = inr a });
    acting = λ n s e k r i _ _ _ q. emit_keeps url_host _ s token k.value r _ _ (λ id _. record {
      edge = e;
      given = i;
      refs = refl;
      typed = supported url_host anchor e.edge_type e.from_entity_key r q;
      authority = acting_authority (edge_is_authoritative parse_secs e now);
    });
    funding = λ s e i t _ _. emit_keeps url_host _ s wallet e.to_entity_key _ _ _ (λ id _. record {
      edge = e;
      given = i;
      refs = refl;
      typed = t;
      authority = funding_authority (edge_is_authoritative parse_secs e now) _;
    });
    reusing = λ s e i t.
        emit_keeps url_host _ s token e.from_entity_key _ _ _
          (λ id _. record { edge = e; given = i; refs = refl; typed = t; authority = inl refl });
  }

  -- Every candidate carries the evidence of one of the given edges, of the type that its relation
  -- rests on, and that edge is authoritative unless the candidate is `Insufficient`.
  pub candidate-Backing :
      (c : CandidateRelation)
      → In c (resolve_candidates url_host parse_secs anchor nodes edges bindings now)
      → Backing parse_secs edges now c
  candidate-Backing c i = All-in (Backing parse_secs edges now) _ i (
      resolve_candidates-All url_host parse_secs _ anchor nodes edges bindings now
        (λ chain _. backed chain))

  corroborated :
      (e : EntityEdge F) (c : CandidateRelation)
      → c.relation ≡ funded_by_known_deployer
      → c.evidence_refs ≡ e.evidence_refs
      → normalize_identity url_host wallet e.to_entity_key ≡ some c.to_identity
      → In e edges
      → is_edge e.edge_type EdgeType.funded_by ≡ true
      → same_actor url_host anchor.deployer e.from_entity_key ≡ true
      → edge_is_authoritative parse_secs e now ≡ true
      → is_corroborated url_host parse_secs anchor edges bindings now e ≡ true
      → Corroboration url_host parse_secs anchor edges bindings now c
  unfolding is_corroborated corroborates
  corroborated e c q f m i k d a h =
      let (occ, o, h) =
        option-test (parse_secs e.occurred_at)
          (λ occ. any edges (corroborates url_host parse_secs anchor bindings now e occ)) h in
      let (re, j, t) =
        In-any (corroborates url_host parse_secs anchor bindings now e occ) edges h in
      let (t, window) = and→both _ _ t in
      let (t, account) = and→both _ _ t in
      let (t, authority) = and→both _ _ t in
      let (u, w) = and→both _ _ t in
      record {
        relation = q;
        funding = e;
        reuse = re;
        funding_given = i;
        reuse_given = j;
        funding_typed = k;
        reuse_typed = u;
        refs = f;
        target = m;
        by_deployer = d;
        same_funded_wallet = w;
        funding_authority = a;
        reuse_authority = authority;
        immutable_account = account;
        occurred = occ;
        at_funding = o;
        in_window = window;
      }

  Corroborated : CandidateRelation → Type 0
  Corroborated c =
      c.confidence ≡ reconstructed → Corroboration url_host parse_secs anchor edges bindings now c

  corroborations :
      (chain : String)
      → Emissions url_host parse_secs
          (Kept url_host Corroborated)
          anchor
          chain
          nodes
          edges
          bindings
          now
  unfolding Corroborated
  corroborations chain = record {
    start = tt;
    crossing = λ s e _ _ _ _.
        emit_keeps url_host Corroborated s token e.to_entity_key _ exact _
          (λ _ _ h. absurd (not_reconstructed true h));
    acting = λ n s e k r _ _ _ _ _.
        emit_keeps url_host Corroborated s token k.value r _ _
          (λ _ _ h. absurd (not_reconstructed (edge_is_authoritative parse_secs e now) h));
    funding = λ s e i t d _.
        emit_keeps url_host Corroborated s wallet e.to_entity_key _ _ _ (λ id m h.
          let (a, b) = reconstructed_iff _ _ h in corroborated e _ refl refl m i t d a b);
    reusing = λ s e _ _.
        emit_keeps url_host Corroborated s token e.from_entity_key _ insufficient _
          (λ _ _ h. absurd (not_reconstructed false h));
  }

  -- A `Reconstructed` candidate is a funding by the anchor's deployer: it rests on one of the given
  -- edges, an authoritative `FundedBy` edge that starts at the deployer, it carries that edge's evidence,
  -- and its target is the funded wallet in canonical form. Next to that edge there is a single
  -- other one, an authoritative `ReusedSocialLink` that starts at the funded wallet, that names an
  -- immutable account of the anchor, and in whose own window the funding lies.
  pub reconstructed-Corroboration :
      (c : CandidateRelation)
      → In c (resolve_candidates url_host parse_secs anchor nodes edges bindings now)
      → c.confidence ≡ reconstructed
      → Corroboration url_host parse_secs anchor edges bindings now c
  unfolding Corroborated
  reconstructed-Corroboration c i = All-in Corroborated _ i (
      resolve_candidates-All url_host parse_secs _ anchor nodes edges bindings now
        (λ chain _. corroborations chain))
