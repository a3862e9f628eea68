-- ===== src/Timeline/Announcements.antt =====
-- `classify_social`: when an observation is an official announcement.
use solana_whale_intelligenc.Prelude.{
  ◌≡◌, refl, ap, ◌∙◌, ◌⊎◌, inl, inr, true, false, Option, none, some, String, str_eq, str_eq→≡,
  and→both, option-test, arith,
}
use solana_whale_intelligenc.Prelude.Int.{ℤ, ◌≤ℤ◌, leb_ℤ}
use solana_whale_intelligenc.Prelude.Strings.{trim, is_empty_str}
use solana_whale_intelligenc.Recent.{official_ca_announcement}
use solana_whale_intelligenc.Timeline.{
  SocialEvidenceKind, SocialEvidenceObservation, OfficialSocialBinding, ca_matches, binding_valid,
  classify_announcement, classify_social,
}

-- What has to hold, in words of the observation and of the binding.
pub record IsOfficial (obs : SocialEvidenceObservation) (anchor : String)
    (official : Option OfficialSocialBinding) : Type 0 where
  announced : obs.relation_kind ≡ SocialEvidenceKind.official_ca_announcement
  exact_contract : obs.announced_contract ≡ some anchor
  binding : OfficialSocialBinding
  bound : official ≡ some binding
  account : binding.immutable_account_id ≡ obs.immutable_account_id
  contract : binding.chain_qualified_contract ≡ anchor
  started : binding.valid_from ≤ℤ obs.published_at
  ended :
      (binding.valid_until ≡ none)
      ⊎ ((u : ℤ) × (binding.valid_until ≡ some u) × (obs.published_at ≤ℤ u))
  evidence : is_empty_str (trim obs.raw_ref) ≡ false

announced_kind :
    (obs : SocialEvidenceObservation) (anchor : String) (official : Option OfficialSocialBinding)
    → classify_social obs anchor official ≡ official_ca_announcement
    → obs.relation_kind ≡ SocialEvidenceKind.official_ca_announcement
unfolding classify_social
announced_kind obs anchor official h = ground arith

three_tests :
    (obs : SocialEvidenceObservation) (anchor : String) (official : Option OfficialSocialBinding)
    → classify_social obs anchor official ≡ official_ca_announcement
    → (ca_matches obs anchor ≡ true)
      × (binding_valid obs anchor official ≡ true)
      × (is_empty_str (trim obs.raw_ref) ≡ false)
unfolding classify_social classify_announcement
three_tests obs anchor official h = ground arith

window_end :
    (o : Option ℤ) (p : ℤ)
    → elim o [ none ↦ true | some u ↦ leb_ℤ p u ] ≡ true
    → (o ≡ none) ⊎ ((u : ℤ) × (o ≡ some u) × (p ≤ℤ u))
window_end none p h = inl refl
window_end (some u) p h = inr (u, refl, ground arith)

-- An observation is classed as the official announcement of a contract only where it announces that
-- contract, its author has a binding to that contract that is in force when it is published, and the
-- reference of its evidence is not blank.
pub classify_social-IsOfficial :
    (obs : SocialEvidenceObservation) (anchor : String) (official : Option OfficialSocialBinding)
    → classify_social obs anchor official ≡ official_ca_announcement
    → IsOfficial obs anchor official
unfolding ca_matches binding_valid
classify_social-IsOfficial obs anchor official h =
    let (ca, valid, evidence) = three_tests obs anchor official h in
    let (c, announced, same) = option-test obs.announced_contract (λ ca. str_eq ca anchor) ca in
    let (b, bound, t) = option-test official _ valid in
    let (t, ended) = and→both _ _ t in
    let (t, started) = and→both _ _ t in
    let (account, contract) = and→both _ _ t in
    record {
      announced = announced_kind obs anchor official h;
      exact_contract = announced ∙ ap some (str_eq→≡ c anchor same);
      binding = b;
      bound = bound;
      account = str_eq→≡ b.immutable_account_id obs.immutable_account_id account;
      contract = str_eq→≡ b.chain_qualified_contract anchor contract;
      started = ground (arith, started);
      ended = window_end b.valid_until obs.published_at ended;
      evidence = evidence;
    }
