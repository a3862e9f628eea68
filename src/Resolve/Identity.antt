-- ===== src/Resolve/Identity.antt =====
-- Identity keys in canonical form, and when two keys denote one wallet, token or account.
use Prim.Native.Char.{code}
use Prim.Native.String.{◌++◌ as append}
use solana_whale_intelligenc.Prelude.{
  Bool, false, ◌&&◌, ◌||◌, Option, none, some, String, str_eq, ◌==◌, if◌then◌else◌,
}
use solana_whale_intelligenc.Prelude.Strings.{is_empty_str, trim, split_colon, to_ascii_lowercase}
use solana_whale_intelligenc.Recent.{IdentityKind, token, wallet, social, website, telegram}

pub record IdentityKey : Type 0 where
  pub kind : IdentityKind
  pub value : String

-- The `match` on the lowercased prefix.
unfoldable pub known_chain : String → Option String
known_chain chain =
    if str_eq chain "sol" || str_eq chain "solana"
    then some "solana"
    else if str_eq chain "rh" || str_eq chain "robinhood"
    then some "robinhood"
    else if str_eq chain "eth" || str_eq chain "ethereum"
    then some "ethereum"
    else if str_eq chain "base"
    then some "base"
    else if str_eq chain "bsc"
    then some "bsc"
    else none

unfoldable pub canonical_chain : String → Option String
canonical_chain key = elim (split_colon key) [
  | none ↦ none
  | some (chain, rest) ↦
      if is_empty_str chain || is_empty_str rest
      then none
      else known_chain (to_ascii_lowercase chain)
]

unfoldable pub chain_prefix : String → Option String
chain_prefix key = elim (split_colon key) [
  | none ↦ none
  | some (chain, rest) ↦ if is_empty_str chain || is_empty_str rest then none else some chain
]

-- `trim_start_matches("www.")`, which takes off every such prefix.
unfoldable pub strip_www : String → String
strip_www (String.◌∷◌ a (String.◌∷◌ b (String.◌∷◌ c (String.◌∷◌ d rest)))) =
    let stripped = strip_www rest in
    if code a == b'w' && code b == b'w' && code c == b'w' && code d == b'.'
    then stripped
    else String.◌∷◌ a (String.◌∷◌ b (String.◌∷◌ c (String.◌∷◌ d rest)))
strip_www s = s

-- `format!("{chain}:{rest}")`, with the rest that `split_once` finds.
unfoldable pub qualified : IdentityKind → String → Option IdentityKey
qualified kind value = elim (canonical_chain value) [
  | none ↦ none
  | some chain ↦ elim (split_colon value) [
    | none ↦ none
    | some (prefix, rest) ↦ some (record { kind = kind; value = append chain (append ":" rest) })
  ]
]

-- A key that `chain_prefix` accepts stays as it is.
unfoldable pub prefixed : IdentityKind → String → Option IdentityKey
prefixed kind value = elim (chain_prefix value) [
  | none ↦ none
  | some prefix ↦ some (record { kind = kind; value = value })
]

-- `a.value == b.value`, where both keys are there.
unfoldable pub same_key : Option IdentityKey → Option IdentityKey → Bool
same_key none b = false
same_key (some a) none = false
same_key (some a) (some b) = str_eq a.value b.value

module _ (url_host : String → Option String) where
  unfoldable pub website_key : String → Option IdentityKey
  website_key value = elim (url_host value) [
    | none ↦ none
    | some host ↦
        let host = to_ascii_lowercase (strip_www host) in
        if is_empty_str host then none else some (record { kind = website; value = host })
  ]

  -- The `match kind`, on the trimmed value.
  unfoldable pub key_for : IdentityKind → String → Option IdentityKey
  key_for website value = website_key value
  key_for token value = qualified token value
  key_for wallet value = qualified wallet value
  key_for social value = prefixed social value
  key_for telegram value = prefixed telegram value

  unfoldable pub normalize_identity : IdentityKind → String → Option IdentityKey
  normalize_identity kind value =
      let value = trim value in if is_empty_str value then none else key_for kind value

  unfoldable pub same_wallet : String → String → Bool
  same_wallet a b = same_key (normalize_identity wallet a) (normalize_identity wallet b)

  unfoldable pub same_token : String → String → Bool
  same_token a b = same_key (normalize_identity token a) (normalize_identity token b)

  unfoldable pub same_actor : Option String → String → Bool
  same_actor none edge_actor = false
  same_actor (some anchor_actor) edge_actor =
      same_key (normalize_identity wallet anchor_actor) (normalize_identity wallet edge_actor)
