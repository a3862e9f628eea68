-- ===== src/Resolve/Exclusion.antt =====
-- `resolve_candidates`: the candidates that share an actor with the anchor, against the anchor.
use mathlib.Core.Bool.{false≢true}
use mathlib.Core.Option.{some-injective}
use solana_whale_intelligenc.Prelude.{
  ◌≡◌, refl, sym, ◌∙◌, Bool, true, false, Option, some, List, String, In, All-in,
}
use solana_whale_intelligenc.Prelude.Int.{ℤ}
use solana_whale_intelligenc.Recent.{
  token, wallet, RecentRelation, same_deployer, same_authority, same_fee_payer, same_funder,
  funded_by_known_deployer, reused_social_link, cross_chain_deployment, exact, insufficient,
  ActorExtraction,
}
use solana_whale_intelligenc.Graph.{EntityNode, EntityEdge}
use solana_whale_intelligenc.Resolve.Identity.{IdentityKey, normalize_identity, same_token}
use solana_whale_intelligenc.Resolve.Social.{SocialIdentityRecord}
use solana_whale_intelligenc.Resolve.Candidates.{CandidateRelation}
use solana_whale_intelligenc.Resolve.Rounds.{resolve_candidates}
use solana_whale_intelligenc.Resolve.Emission.{Kept, emit_keeps, Emissions, resolve_candidates-All}
use solana_whale_intelligenc.Resolve.Canonical.{normalize_identity-kind, normalize_identity_idem}

-- The relations that the reverse lookup by an actor gives.
abbrev pub shares_actor : RecentRelation → Bool
shares_actor same_deployer = true
shares_actor same_authority = true
shares_actor same_fee_payer = true
shares_actor same_funder = true
shares_actor _ = false

module _ {F : Type 0} (url_host : String → Option String) (parse_secs : String → Option ℤ)
    (anchor : ActorExtraction) (nodes : List EntityNode) (edges : List (EntityEdge F))
    (bindings : List SocialIdentityRecord) (now : ℤ) where
  Excluded : CandidateRelation → Type 0
  Excluded c =
      shares_actor c.relation ≡ true
      → (c.to_identity.kind ≡ token)
        × (same_token url_host c.to_identity.value anchor.token ≡ false)

  -- A canonical key is excluded where the key of the node is.
  excluded :
      (raw : String) (k id : IdentityKey)
      → same_token url_host raw anchor.token ≡ false
      → normalize_identity url_host token raw ≡ some k
      → normalize_identity url_host token k.value ≡ some id
      → same_token url_host id.value anchor.token ≡ false
  unfolding same_token
  excluded raw k id h n m =
      let e = some-injective _ _ (sym (normalize_identity_idem url_host token raw k refl n) ∙ m) in
      rw (same_token, ← e, normalize_identity_idem url_host token raw k refl n)
        (rw (same_token, n) at h)

  exclusions :
      (chain : String)
      → Emissions url_host parse_secs (Kept url_host Excluded) anchor chain nodes edges bindings now
  unfolding Excluded
  exclusions chain = record {
    start = tt;
    crossing = λ s e _ _ _ _.
        emit_keeps url_host Excluded s token e.to_entity_key cross_chain_deployment exact _
          (λ _ _ h. absurd (false≢true h));
    acting = λ n s e k r _ d q _ _. emit_keeps url_host Excluded s token k.value r _ _ (λ id m _. (
      normalize_identity-kind url_host token k.value id refl m,
      excluded n.entity_key k id d q m,
    ));
    funding = λ s e _ _ _ _.
        emit_keeps url_host Excluded s wallet e.to_entity_key funded_by_known_deployer _ _
          (λ _ _ h. absurd (false≢true h));
    reusing = λ s e _ _.
        emit_keeps url_host Excluded s token e.from_entity_key reused_social_link insufficient _
          (λ _ _ h. absurd (false≢true h));
  }

  -- A candidate that shares a deployer, an authority, a fee payer or a funder with the anchor is a
  -- token that differs from the anchor, however the two keys are spelt.
  pub actor_candidate_not_anchor :
      (c : CandidateRelation)
      → In c (resolve_candidates url_host parse_secs anchor nodes edges bindings now)
      → shares_actor c.relation ≡ true
      → (c.to_identity.kind ≡ token)
        × (same_token url_host c.to_identity.value anchor.token ≡ false)
  unfolding Excluded
  actor_candidate_not_anchor c i = All-in Excluded _ i (
      resolve_candidates-All url_host parse_secs _ anchor nodes edges bindings now
        (λ chain _. exclusions chain))
