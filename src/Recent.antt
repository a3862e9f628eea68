-- ===== src/Recent.antt =====
-- src/sf/recent.rs and the event keys of src/sf/recent_pipeline.rs: what is hashed for a relation
-- and for a coverage disclosure, now and in the two superseded generations. The digest of SHA-256
-- in hexadecimal is a parameter; a hasher is the bytes that it has absorbed.
pub mod Encoding
pub mod Sets
pub mod SetBytes
pub mod Names
pub mod Relations
pub mod Coverage
mod Examples
use solana_whale_intelligenc.Prelude.{
  ℕ, zero, suc, ◌+◌, ◌-◌, ◌*◌, ◌/◌, ◌%◌, ◌^◌, Bool, true, false, Option, none, some, List, [], ◌∷◌,
  ◌++◌, String, map, length, leb, if◌then◌else◌, str_eq,
}
use solana_whale_intelligenc.Prelude.Int.{ℤ, pos, negsuc}
use solana_whale_intelligenc.Prelude.Lex.{lex_lt}
use solana_whale_intelligenc.Prelude.Utf8.{as_bytes}
use Prim.Native.String.{◌++◌ as append}

pub data RecentRelation : Type 0 where
  same_deployer same_authority same_fee_payer same_funder : RecentRelation
  funded_by_known_deployer same_social_account reused_social_link : RecentRelation
  official_ca_announcement cross_chain_deployment derivative_of : RecentRelation
  suspected_copycat liquidity_attention_rotated_to : RecentRelation

-- `RecentRelation::as_str`
unfoldable pub relation_str : RecentRelation → String
relation_str same_deployer = "same_deployer"
relation_str same_authority = "same_authority"
relation_str same_fee_payer = "same_fee_payer"
relation_str same_funder = "same_funder"
relation_str funded_by_known_deployer = "funded_by_known_deployer"
relation_str same_social_account = "same_social_account"
relation_str reused_social_link = "reused_social_link"
relation_str official_ca_announcement = "official_ca_announcement"
relation_str cross_chain_deployment = "cross_chain_deployment"
relation_str derivative_of = "derivative_of"
relation_str suspected_copycat = "suspected_copycat"
relation_str liquidity_attention_rotated_to = "liquidity_attention_rotated_to"

pub data RecentConfidence : Type 0 where
  exact reconstructed estimated insufficient : RecentConfidence

-- `RecentConfidence::as_str`
unfoldable pub confidence_str : RecentConfidence → String
confidence_str exact = "exact"
confidence_str reconstructed = "reconstructed"
confidence_str estimated = "estimated"
confidence_str insufficient = "insufficient"

-- `RecentConfidence::rank`
unfoldable pub confidence_rank : RecentConfidence → ℕ
confidence_rank exact = 3
confidence_rank reconstructed = 2
confidence_rank estimated = 1
confidence_rank insufficient = 0

pub data IdentityKind : Type 0 where
  token wallet social website telegram : IdentityKind

-- `IdentityKind::as_str`
unfoldable pub kind_str : IdentityKind → String
kind_str token = "token"
kind_str wallet = "wallet"
kind_str social = "social"
kind_str website = "website"
kind_str telegram = "telegram"

pub record ActorExtraction : Type 0 where
  pub token : String
  pub deployer : Option String
  pub authority : Option String
  pub fee_payer : Option String
  pub factory : Option String
  pub initial_funder : Option String
  pub authority_changes : List String
  pub social_identities : List String

pub record WorkspaceScope : Type 0 where
  pub id : ℤ  -- i64

-- `None` stands for the error.
unfoldable pub from_job_context : ℤ → Option WorkspaceScope
from_job_context (pos zero) = none
from_job_context (pos (suc n)) = some (record { id = pos (suc n) })
from_job_context (negsuc n) = none

-- `to_le_bytes` of an unsigned number of `k` bytes.
unfoldable pub le_bytes : ℕ → ℕ → List ℕ
le_bytes zero n = []
le_bytes (suc k) n = (n % 256) ∷ le_bytes k (n / 256)

-- `to_le_bytes` of an `i64`, in two's complement.
unfoldable pub i64_bytes : ℤ → List ℕ
i64_bytes (pos n) = le_bytes 8 n
i64_bytes (negsuc n) = le_bytes 8 (2 ^ 64 - 1 - n)

-- One field: its length as `u64`, and its bytes.
unfoldable pub framed : List ℕ → List ℕ
framed bytes = le_bytes 8 (length bytes % 2 ^ 64) ++ bytes

-- `sort_unstable`, by the bytes of the texts.
unfoldable pub insert_sorted : String → List String → List String
insert_sorted x [] = x ∷ []
insert_sorted x (y ∷ ys) =
    let rest = insert_sorted x ys in
    if lex_lt (as_bytes y) (as_bytes x) then y ∷ rest else x ∷ y ∷ ys

unfoldable pub sort_texts : List String → List String
sort_texts [] = []
sort_texts (x ∷ xs) = insert_sorted x (sort_texts xs)

-- `dedup`: of equal neighbours one stays.
unfoldable pub push_new : String → List String → List String
push_new x [] = x ∷ []
push_new x (y ∷ ys) = if str_eq x y then y ∷ ys else x ∷ y ∷ ys

unfoldable pub dedup : List String → List String
dedup [] = []
dedup (x ∷ xs) = push_new x (dedup xs)

-- The loop that appends the items.
unfoldable pub framed_items : List String → List ℕ
framed_items [] = []
framed_items (x ∷ xs) = framed (as_bytes x) ++ framed_items xs

unfoldable pub canonical_set_bytes : List String → List ℕ
canonical_set_bytes items = framed_items (dedup (sort_texts items))

-- The arguments of the key functions of a relation, and of a coverage disclosure.
pub record RelationFact : Type 0 where
  pub workspace : WorkspaceScope
  pub anchor : String
  pub relation : String
  pub target : String
  pub target_kind : IdentityKind
  pub confidence : RecentConfidence
  pub evidence_refs : List String

pub record CoverageFact : Type 0 where
  pub workspace : WorkspaceScope
  pub anchor : String
  pub missing_inputs : List String
  pub refresh_bucket : ℤ  -- i64
  pub predecessor : String

abbrev pub relation_key_version : ℕ
relation_key_version = 2

abbrev pub coverage_key_version : ℕ
coverage_key_version = 2

-- Successive updates of a hasher, with framed fields and with bytes as they are.
abbrev pub framed_fields : List (List ℕ) → List ℕ
framed_fields [] = []
framed_fields (field ∷ fields) = framed field ++ framed_fields fields

abbrev updates : List (List ℕ) → List ℕ
updates [] = []
updates (bytes ∷ rest) = bytes ++ updates rest

-- The fields that every framed generation absorbs.
abbrev pub relation_fields : RelationFact → List (List ℕ)
relation_fields f =
    i64_bytes f.workspace.id
    ∷ as_bytes f.anchor
    ∷ as_bytes f.relation
    ∷ as_bytes f.target
    ∷ as_bytes (kind_str f.target_kind)
    ∷ as_bytes (confidence_str f.confidence)
    ∷ canonical_set_bytes f.evidence_refs
    ∷ []

abbrev pub coverage_fields : CoverageFact → List (List ℕ)
coverage_fields f =
    i64_bytes f.workspace.id
    ∷ as_bytes f.anchor
    ∷ canonical_set_bytes f.missing_inputs
    ∷ i64_bytes f.refresh_bucket
    ∷ as_bytes f.predecessor
    ∷ []

-- What the current keys hash.
unfoldable pub relation_bytes : RelationFact → List ℕ
relation_bytes f = framed_fields (le_bytes 4 relation_key_version ∷ relation_fields f)

unfoldable pub coverage_bytes : CoverageFact → List ℕ
coverage_bytes f = framed_fields (le_bytes 4 coverage_key_version ∷ coverage_fields f)

-- The superseded generation without a version.
unfoldable pub relation_bytes_rev065 : RelationFact → List ℕ
relation_bytes_rev065 f = framed_fields (relation_fields f)

unfoldable pub coverage_bytes_rev065 : CoverageFact → List ℕ
coverage_bytes_rev065 f = framed_fields (coverage_fields f)

-- The superseded generation with bare separators.
abbrev with_bars : List (List ℕ) → List (List ℕ)
with_bars [] = []
with_bars (field ∷ []) = field ∷ []
with_bars (field ∷ next ∷ fields) = field ∷ as_bytes "|" ∷ with_bars (next ∷ fields)

unfoldable pub relation_bytes_rev063 : RelationFact → List ℕ
relation_bytes_rev063 f = updates (with_bars (relation_fields f))

unfoldable pub coverage_bytes_rev063 : CoverageFact → List ℕ
coverage_bytes_rev063 f = updates (with_bars (coverage_fields f))

module _ (sha256_hex : List ℕ → String) where
  unfoldable pub relation_event_key : RelationFact → String
  relation_event_key f = append "rel:" (sha256_hex (relation_bytes f))

  unfoldable pub relation_event_key_rev065 : RelationFact → String
  relation_event_key_rev065 f = append "rel:" (sha256_hex (relation_bytes_rev065 f))

  unfoldable pub relation_event_key_rev063 : RelationFact → String
  relation_event_key_rev063 f = append "rel:" (sha256_hex (relation_bytes_rev063 f))

  unfoldable pub legacy_relation_event_keys : RelationFact → List String
  legacy_relation_event_keys f = relation_event_key_rev065 f ∷ relation_event_key_rev063 f ∷ []

  unfoldable pub coverage_event_key : CoverageFact → String
  coverage_event_key f = append "cov:" (sha256_hex (coverage_bytes f))

  unfoldable pub coverage_event_key_rev065 : CoverageFact → String
  coverage_event_key_rev065 f = append "cov:" (sha256_hex (coverage_bytes_rev065 f))

  unfoldable pub coverage_event_key_rev063 : CoverageFact → String
  coverage_event_key_rev063 f = append "cov:" (sha256_hex (coverage_bytes_rev063 f))

  unfoldable pub legacy_coverage_event_keys : CoverageFact → List String
  legacy_coverage_event_keys f = coverage_event_key_rev065 f ∷ coverage_event_key_rev063 f ∷ []

-- `None` adds the name of the input.
missing_if : Option String → String → List String
missing_if none name = name ∷ []
missing_if (some value) name = []

unfoldable pub missing_actor_inputs : ActorExtraction → List String
unfolding missing_if
missing_actor_inputs anchor =
    missing_if anchor.deployer "deployer"
    ++ missing_if anchor.authority "authority"
    ++ missing_if anchor.initial_funder "initial_funder"
