-- ===== src/Timeline.antt =====
-- src/sf/recent.rs and src/sf/recent_runtime.rs: the events of a token, their order, retractions,
-- coverage and dependency groups, the lookup of a token, and the class of a social observation.
-- A `DateTime<Utc>` is a number of nanoseconds.
pub mod Dependency
pub mod Order
pub mod Retractions
pub mod Lookup
pub mod Announcements
pub mod Roots
pub mod Lifecycle
mod Examples
use solana_whale_intelligenc.Prelude.{
  ℕ, Bool, true, false, not, ◌&&◌, ◌||◌, Option, none, some, List, [], ◌∷◌, ◌++◌, String, any, all,
  each, filter, is_empty, str_eq, ◌==◌, if◌then◌else◌,
}
use solana_whale_intelligenc.Prelude.Int.{ℤ, ltb_ℤ, leb_ℤ}
use solana_whale_intelligenc.Prelude.Sort.{then_by, sort_by}
use solana_whale_intelligenc.Prelude.Strings.{trim, is_empty_str}
use solana_whale_intelligenc.Event.{TruthStatus, superseded, erroneous}
use solana_whale_intelligenc.Recent.{
  RecentRelation, reused_social_link, same_social_account, RecentConfidence, ActorExtraction,
}
use solana_whale_intelligenc.Resolve.Identity.{IdentityKey}

pub data ActivationTrigger : Type 0 where
  first_liquidity migration credible_caller smart_wallet_entry fresh_wallet_burst :
      ActivationTrigger
  revival_wake volume_activation social_profile_change operator_request : ActivationTrigger

pub data Coverage : Type 0 where
  full degraded on_demand unavailable : Coverage

pub data CapabilityStatus : Type 0 where
  available insufficient unavailable : CapabilityStatus

-- Of src/sf/token.rs.
pub data TokenLifecycle : Type 0 where
  created pre_graduation migrated first_liquidity active cooling : TokenLifecycle
  dormant archived tombstoned : TokenLifecycle

pub data SocialEvidenceKind : Type 0 where
  official_ca_announcement mention profile_ca_change profile_link_change : SocialEvidenceKind

pub record Freshness : Type 0 where
  pub checked_at : ℤ
  pub age_seconds : ℕ

pub record Retraction : Type 0 where
  pub target_event_id : String
  pub retracted_at : ℤ
  pub truth_status : TruthStatus

pub record OfficialSocialBinding : Type 0 where
  pub immutable_account_id : String
  pub chain_qualified_contract : String
  pub valid_from : ℤ
  pub valid_until : Option ℤ

pub record RecentEvent (F : Type 0) : Type 0 where
  pub event_id : String
  pub event_type : String
  pub anchor_identity : String
  pub related_identities : List IdentityKey
  pub chain_qualified_contract : String
  pub occurred_at : ℤ
  pub observed_at : ℤ
  pub relation : Option RecentRelation
  pub truth_status : TruthStatus
  pub confidence : Option F
  pub confidence_level : RecentConfidence
  pub evidence_refs : List String
  pub dependency_group : Option String
  pub freshness : Option Freshness
  pub coverage : Coverage
  pub capability_status : CapabilityStatus
  pub missing_inputs : List String
  pub retraction : Option Retraction
  pub is_current_coverage : Bool

pub record RecentTimeline (F : Type 0) : Type 0 where
  pub token : String
  pub events : List (RecentEvent F)

-- Of src/sf/browser.rs.
pub data BrowserPlatform : Type 0 where
  x tiktok web : BrowserPlatform

pub data SessionHealth : Type 0 where
  ok expired invalid : SessionHealth

pub record SocialEvidenceObservation : Type 0 where
  pub platform : BrowserPlatform
  pub post_or_profile_id : String
  pub immutable_account_id : String
  pub text_media_hash : String
  pub published_at : ℤ
  pub observed_at : ℤ
  pub announced_contract : Option String
  pub relation_kind : SocialEvidenceKind
  pub raw_ref : String
  pub parser_version : String
  pub coverage : Coverage
  pub session_health : SessionHealth

unfoldable pub coverage_index : Coverage → ℕ
coverage_index full = 0
coverage_index degraded = 1
coverage_index on_demand = 2
coverage_index Coverage.unavailable = 3

abbrev pub is_coverage : Coverage → Coverage → Bool
is_coverage a b = coverage_index a == coverage_index b

-- The two statuses of `is_legal`.
unfoldable pub is_legal : TruthStatus → Bool
is_legal superseded = true
is_legal erroneous = true
is_legal _ = false

module _ {F : Type 0} where
  unfoldable pub event_lt : RecentEvent F → RecentEvent F → Bool
  event_lt =
      then_by (λ a b. ltb_ℤ a.occurred_at b.occurred_at) (λ a b. ltb_ℤ a.observed_at b.observed_at)

  unfoldable pub build_timeline : String → List (RecentEvent F) → RecentTimeline F
  build_timeline anchor events = record {
    token = anchor;
    events = sort_by event_lt (filter (λ e. str_eq e.anchor_identity anchor) events);
  }

  -- The first event of that id, with its status and its retraction.
  unfoldable pub retract : Retraction → List (RecentEvent F) → List (RecentEvent F)
  retract r [] = []
  retract r (e ∷ events) =
      let rest = retract r events in
      if str_eq e.event_id r.target_event_id
      then record e { truth_status = r.truth_status; retraction = some r } ∷ events
      else e ∷ rest

  unfoldable pub retraction_round : List (RecentEvent F) → Retraction → List (RecentEvent F)
  retraction_round out r = if not (is_legal r.truth_status) then out else retract r out

  unfoldable pub apply_retraction : List (RecentEvent F) → List Retraction → List (RecentEvent F)
  apply_retraction events retractions = each retraction_round events retractions

  unfoldable pub coverage_status : List (RecentEvent F) → Coverage
  coverage_status events =
      if is_empty events
      then Coverage.unavailable
      else if all events (λ e. is_coverage e.coverage full)
      then full
      else if all events (λ e. is_coverage e.coverage on_demand)
      then on_demand
      else if all events (λ e. is_coverage e.coverage Coverage.unavailable)
      then Coverage.unavailable
      else degraded

-- `matches!(trigger, RevivalWake | OperatorRequest)`
unfoldable pub is_wake : ActivationTrigger → Bool
is_wake revival_wake = true
is_wake operator_request = true
is_wake _ = false

unfoldable pub should_trigger_lookup : TokenLifecycle → Option ActivationTrigger → Bool
should_trigger_lookup lifecycle none = false
should_trigger_lookup dormant (some trigger) = is_wake trigger
should_trigger_lookup archived (some trigger) = is_wake trigger
should_trigger_lookup tombstoned (some trigger) = is_wake trigger
should_trigger_lookup created (some trigger) = true
should_trigger_lookup pre_graduation (some trigger) = true
should_trigger_lookup migrated (some trigger) = true
should_trigger_lookup TokenLifecycle.first_liquidity (some trigger) = true
should_trigger_lookup active (some trigger) = true
should_trigger_lookup cooling (some trigger) = true

-- The closure `push`.
unfoldable pub push : List String → String → List String
push terms t =
    let t = trim t in
    if is_empty_str t then terms else if any terms (λ u. str_eq u t) then terms else terms ++ t ∷ []

unfoldable pub push_option : List String → Option String → List String
push_option terms none = terms
push_option terms (some t) = push terms t

unfoldable pub build_lookup_query : ActorExtraction → List String
build_lookup_query actor =
    let terms = push [] actor.token in
    let terms = push_option terms actor.deployer in
    let terms = push_option terms actor.authority in
    let terms = push_option terms actor.fee_payer in
    let terms = push_option terms actor.factory in
    let terms = push_option terms actor.initial_funder in
    let terms = each push terms actor.authority_changes in each push terms actor.social_identities

-- The three conditions of an official announcement.
unfoldable pub ca_matches : SocialEvidenceObservation → String → Bool
ca_matches obs anchor_contract = elim obs.announced_contract [
  | none ↦ false
  | some ca ↦ str_eq ca anchor_contract
]

unfoldable pub binding_valid :
    SocialEvidenceObservation → String → Option OfficialSocialBinding → Bool
binding_valid obs anchor_contract official_binding = elim official_binding [
  | none ↦ false
  | some b ↦
      str_eq b.immutable_account_id obs.immutable_account_id
      && str_eq b.chain_qualified_contract anchor_contract
      && leb_ℤ b.valid_from obs.published_at
      && elim b.valid_until [ none ↦ true | some u ↦ leb_ℤ obs.published_at u ]
]

unfoldable pub classify_announcement :
    SocialEvidenceObservation → String → Option OfficialSocialBinding → RecentRelation
classify_announcement obs anchor_contract official_binding =
    if ca_matches obs anchor_contract
      && binding_valid obs anchor_contract official_binding
      && not (is_empty_str (trim obs.raw_ref))
    then RecentRelation.official_ca_announcement
    else same_social_account

unfoldable pub classify_social :
    SocialEvidenceObservation → String → Option OfficialSocialBinding → RecentRelation
classify_social obs anchor_contract official_binding = elim obs.relation_kind [
  | profile_ca_change ↦ reused_social_link
  | profile_link_change ↦ reused_social_link
  | SocialEvidenceKind.official_ca_announcement ↦
      classify_announcement obs anchor_contract official_binding
  | mention ↦ same_social_account
]
