-- ===== src/Resolve/Social.antt =====
-- Social identities: the authoritative records, and when a key is an immutable account.
use Prim.Native.String.{◌++◌ as append}
use solana_whale_intelligenc.Prelude.{
  Bool, false, not, ◌&&◌, ◌||◌, Option, none, some, List, [], ◌∷◌, String, any, str_eq,
  if◌then◌else◌,
}
use solana_whale_intelligenc.Prelude.Strings.{is_empty_str, trim, split_colon, to_ascii_lowercase}
use solana_whale_intelligenc.Recent.{social}
use solana_whale_intelligenc.Resolve.Identity.{normalize_identity}

-- A row of the authoritative view.
pub record StoredSocialIdentity : Type 0 where
  pub platform : String
  pub immutable_user_id : String
  pub handles : List String

pub record SocialIdentityRecord : Type 0 where
  pub platform : String
  pub immutable_user_id : String
  pub handles : List String

-- `h.trim().eq_ignore_ascii_case(id)` for some handle.
unfoldable pub is_handle : List String → String → Bool
is_handle handles id =
    any handles (λ h. str_eq (to_ascii_lowercase (trim h)) (to_ascii_lowercase id))

-- The closure over the records, for a platform and an account.
unfoldable pub names_account : String → String → SocialIdentityRecord → Bool
names_account platform id b =
    str_eq (to_ascii_lowercase (trim b.platform)) platform
    && str_eq (trim b.immutable_user_id) id
    && not (is_handle b.handles id)

unfoldable pub is_immutable_social_identity : String → List SocialIdentityRecord → Bool
is_immutable_social_identity key bindings = elim (split_colon key) [
  | none ↦ false
  | some (platform, id) ↦
      let platform = to_ascii_lowercase (trim platform) in
      let id = trim id in
      if is_empty_str platform || is_empty_str id
      then false
      else any bindings (names_account platform id)
]

-- The closure of `filter_map`.
unfoldable pub record_of : StoredSocialIdentity → Option SocialIdentityRecord
record_of r =
    let platform = to_ascii_lowercase (trim r.platform) in
    let id = trim r.immutable_user_id in
    if is_empty_str platform || is_empty_str id
    then none
    else if is_handle r.handles id
    then none
    else some (record { platform = platform; immutable_user_id = id; handles = r.handles })

unfoldable pub records_from_store : List StoredSocialIdentity → List SocialIdentityRecord
records_from_store [] = []
records_from_store (r ∷ rows) =
    let rest = records_from_store rows in elim (record_of r) [ none ↦ rest | some b ↦ b ∷ rest ]

-- `(Some(a), Some(b)) => a == b`
unfoldable pub same_text : Option String → Option String → Bool
same_text none b = false
same_text (some a) none = false
same_text (some a) (some b) = str_eq a b

module _ (url_host : String → Option String) where
  unfoldable pub canonical_social_key : String → Option String
  canonical_social_key key = elim (normalize_identity url_host social key) [
    | none ↦ none
    | some shape ↦ elim (split_colon key) [
      | none ↦ none
      | some (platform, id) ↦
          let platform = to_ascii_lowercase (trim platform) in
          let id = trim id in
          if is_empty_str platform || is_empty_str id
          then none
          else some (append platform (append ":" id))
    ]
  ]

  unfoldable pub same_social_identity : String → String → Bool
  same_social_identity a b = same_text (canonical_social_key a) (canonical_social_key b)
