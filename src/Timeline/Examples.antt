-- ===== src/Timeline/Examples.antt =====
-- Two events of a token, a copied reference, an announcement, and the theorems at them.
use mathlib.Core.Option.{some-injective, none-ne-some}
use solana_whale_intelligenc.Prelude.{
  ℕ, ◌<◌, ◌≤◌, ◌≡◌, ◌↔◌, refl, subst, Bool-cases, arith, false, none, some, List, [], ◌∷◌, String,
  In, str_eq, each, inl, inr, if◌then◌else◌,
}
use solana_whale_intelligenc.Prelude.Int.{pos}
use solana_whale_intelligenc.Prelude.Sort.{then_by, insert_by, sort_by}
use solana_whale_intelligenc.Prelude.Strings.{trim, trim_start, trim_end, is_space, is_empty_str}
use solana_whale_intelligenc.Event.{unknown, superseded, confirmed}
use solana_whale_intelligenc.Recent.{RecentRelation, insufficient, ActorExtraction}
use solana_whale_intelligenc.Timeline.{
  BrowserPlatform, SessionHealth, Coverage, CapabilityStatus, SocialEvidenceKind,
  SocialEvidenceObservation, OfficialSocialBinding, RecentEvent, Retraction, active, created,
  archived, event_lt, build_timeline, apply_retraction, push, push_option, build_lookup_query,
  ca_matches, binding_valid, classify_announcement, classify_social,
}
use solana_whale_intelligenc.Timeline.Dependency.{
  Refs, parents, find_root, root_all, or_insert, dependency_roots, cited_root, group_root,
  assign_group, assign_groups, assign_dependency_group,
}
use solana_whale_intelligenc.Timeline.Order.{build_timeline-In}
use solana_whale_intelligenc.Timeline.Retractions.{Aligned, apply_retraction-Aligned}
use solana_whale_intelligenc.Timeline.Announcements.{IsOfficial, classify_social-IsOfficial}
use solana_whale_intelligenc.Timeline.Roots.{IsAcyclic, IsRooted, dependency_roots-IsRooted}
use solana_whale_intelligenc.Timeline.Lifecycle.{stage_index, advance, lifecycle_never_back}

abbrev event : String → String → ℕ → RecentEvent ℕ
event id ref at = record {
  event_id = id;
  event_type = "funding";
  anchor_identity = "solana:A";
  related_identities = [];
  chain_qualified_contract = "solana:A";
  occurred_at = pos at;
  observed_at = pos at;
  relation = none;
  truth_status = unknown;
  confidence = none;
  confidence_level = insufficient;
  evidence_refs = ref ∷ [];
  dependency_group = none;
  freshness = none;
  coverage = Coverage.full;
  capability_status = CapabilityStatus.available;
  missing_inputs = [];
  retraction = none;
  is_current_coverage = false;
}

abbrev events : List (RecentEvent ℕ)
events = event "e2" "d2" 20 ∷ event "e1" "u" 10 ∷ []

in_order : (build_timeline "solana:A" events).events ≡ event "e1" "u" 10 ∷ event "e2" "d2" 20 ∷ []
unfolding build_timeline event_lt then_by sort_by insert_by
in_order = refl

build_timeline-In_example :
    In (event "e1" "u" 10) (build_timeline "solana:A" events).events
    ↔ (In (event "e1" "u" 10) events × ((event "e1" "u" 10).anchor_identity ≡ "solana:A"))
build_timeline-In_example = build_timeline-In "solana:A" events (event "e1" "u" 10)

abbrev retractions : List Retraction
retractions =
    record { target_event_id = "e1"; retracted_at = pos 30; truth_status = superseded }
    ∷ record { target_event_id = "e2"; retracted_at = pos 31; truth_status = confirmed }
    ∷ []

apply_retraction-Aligned_example : Aligned retractions events (apply_retraction events retractions)
apply_retraction-Aligned_example = apply_retraction-Aligned events retractions

-- The second reference copies the first, and the third the second.
abbrev deps : Refs
deps = ("u", "d") ∷ ("d", "d2") ∷ []

abbrev rank : String → ℕ
rank r = if str_eq "d" r then 1 else if str_eq "d2" r then 2 else 0

acyclic : IsAcyclic (parents [] deps) rank
unfolding parents
acyclic r up h = elim (Bool-cases (str_eq "d" r)) [
  | inl e ↦ subst (λ x. rank x < rank r) (some-injective _ _ (rw e at h)) (rw e (omega arith))
  | inr e ↦ elim (Bool-cases (str_eq "d2" r)) [
    | inl f ↦
        subst (λ x. rank x < rank r) (some-injective _ _ (rw (e, f) at h)) (rw (e, f) (omega arith))
    | inr f ↦ absurd (none-ne-some up (rw (e, f) at h))
  ]
]

small : (r : String) → rank r < 3
small r = ground arith

dependency_roots-IsRooted_example :
    (roots : Refs) × (dependency_roots 3 deps ≡ some roots) × IsRooted (parents [] deps) roots
dependency_roots-IsRooted_example = dependency_roots-IsRooted deps rank 3 acyclic small

rooted : dependency_roots 3 deps ≡ some (("u", "u") ∷ ("d", "u") ∷ ("d2", "u") ∷ [])
unfolding dependency_roots parents root_all find_root or_insert
rooted = refl

grouped :
    assign_dependency_group 3 events deps
    ≡ some (
        record (event "e2" "d2" 20) { dependency_group = some "group:u" }
        ∷ record (event "e1" "u" 10) { dependency_group = some "group:u" }
        ∷ [])
unfolding assign_dependency_group assign_groups assign_group group_root cited_root dependency_roots
    parents root_all find_root or_insert
grouped = refl

abbrev post : SocialEvidenceObservation
post = record {
  platform = BrowserPlatform.x;
  post_or_profile_id = "p";
  text_media_hash = "h";
  observed_at = pos 11;
  parser_version = "1";
  coverage = Coverage.full;
  session_health = SessionHealth.ok;
  immutable_account_id = "x:1";
  published_at = pos 10;
  announced_contract = some "solana:A";
  relation_kind = SocialEvidenceKind.official_ca_announcement;
  raw_ref = "raw";
}

abbrev binding : OfficialSocialBinding
binding = record {
  immutable_account_id = "x:1";
  chain_qualified_contract = "solana:A";
  valid_from = pos 5;
  valid_until = none;
}

announced : classify_social post "solana:A" (some binding) ≡ RecentRelation.official_ca_announcement
unfolding classify_social classify_announcement ca_matches binding_valid trim trim_start trim_end
    is_space is_empty_str
announced = refl

classify_social-IsOfficial_example : IsOfficial post "solana:A" (some binding)
classify_social-IsOfficial_example =
    classify_social-IsOfficial post "solana:A" (some binding) announced

abbrev actor : ActorExtraction
actor = record {
  token = "solana:A";
  deployer = some " solana:D ";
  authority = some "solana:D";
  fee_payer = none;
  factory = none;
  initial_funder = some "";
  authority_changes = [];
  social_identities = "x:1" ∷ [];
}

terms : build_lookup_query actor ≡ "solana:A" ∷ "solana:D" ∷ "x:1" ∷ []
unfolding build_lookup_query push_option push trim trim_start trim_end is_space is_empty_str
terms = refl

lifecycle_never_back_example :
    stage_index (each advance created (active ∷ []))
    ≤ stage_index (each advance created (active ∷ archived ∷ active ∷ []))
lifecycle_never_back_example = lifecycle_never_back created (active ∷ []) (archived ∷ active ∷ [])
