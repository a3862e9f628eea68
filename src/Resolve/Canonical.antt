-- ===== src/Resolve/Canonical.antt =====
-- The identity keys of tokens and wallets as canonical forms.
use mathlib.Core.Option.{some-injective}
use Prim.Native.String.{◌++◌ as append}
use solana_whale_intelligenc.Prelude.{
  ◌||◌, ◌≡◌, refl, sym, ap, ◌⊎◌, inl, inr, Bool, true, false, Option, some, String, any, codes,
  ◌==◌, arith, Option-cases, Bool-cases,
}
use solana_whale_intelligenc.Prelude.Strings.{
  is_empty_str, is_space, trim_start, trim_end, trim, split_colon, to_ascii_lowercase,
  is_empty_str-append, split_colon-append, split_colon-trim_end, trim_end-append, trim_start-append,
  trim-trim_end,
}
use solana_whale_intelligenc.Recent.{IdentityKind, token, wallet}
use solana_whale_intelligenc.Resolve.Identity.{
  IdentityKey, known_chain, canonical_chain, qualified, key_for, normalize_identity,
}

-- The five canonical names.
known_chain-cases :
    (k chain : String)
    → known_chain k ≡ some chain
    → (chain ≡ "solana")
      ⊎ ((chain ≡ "robinhood") ⊎ ((chain ≡ "ethereum") ⊎ ((chain ≡ "base") ⊎ (chain ≡ "bsc"))))
unfolding known_chain
known_chain-cases k chain h = ground arith

-- What makes a name a canonical one.
record IsCanonicalName (chain : String) : Type 0 where
  no_colon : any (codes chain) (λ c. c == b':') ≡ false
  nonempty : is_empty_str chain ≡ false
  known : known_chain (to_ascii_lowercase chain) ≡ some chain
  front : (t : String) → trim_start (append chain t) ≡ append chain t

solana_name : IsCanonicalName "solana"
unfolding is_empty_str is_space known_chain to_ascii_lowercase
solana_name = record {
  no_colon = refl;
  nonempty = refl;
  known = refl;
  front = λ t. trim_start-append "s" "olana" t refl;
}

robinhood_name : IsCanonicalName "robinhood"
unfolding is_empty_str is_space known_chain to_ascii_lowercase
robinhood_name = record {
  no_colon = refl;
  nonempty = refl;
  known = refl;
  front = λ t. trim_start-append "r" "obinhood" t refl;
}

ethereum_name : IsCanonicalName "ethereum"
unfolding is_empty_str is_space known_chain to_ascii_lowercase
ethereum_name = record {
  no_colon = refl;
  nonempty = refl;
  known = refl;
  front = λ t. trim_start-append "e" "thereum" t refl;
}

base_name : IsCanonicalName "base"
unfolding is_empty_str is_space known_chain to_ascii_lowercase
base_name = record {
  no_colon = refl;
  nonempty = refl;
  known = refl;
  front = λ t. trim_start-append "b" "ase" t refl;
}

bsc_name : IsCanonicalName "bsc"
unfolding is_empty_str is_space known_chain to_ascii_lowercase
bsc_name = record {
  no_colon = refl;
  nonempty = refl;
  known = refl;
  front = λ t. trim_start-append "b" "sc" t refl;
}

known_chain-IsCanonicalName :
    (k chain : String) → known_chain k ≡ some chain → IsCanonicalName chain
known_chain-IsCanonicalName k chain h = elim (known_chain-cases k chain h) [
  | inl e ↦ rw e solana_name
  | inr (inl e) ↦ rw e robinhood_name
  | inr (inr (inl e)) ↦ rw e ethereum_name
  | inr (inr (inr (inl e))) ↦ rw e base_name
  | inr (inr (inr (inr e))) ↦ rw e bsc_name
]

-- What `canonical_chain` has seen of a key that it accepts.
record Qualified (w chain : String) : Type 0 where
  prefix : String
  rest : String
  split : split_colon w ≡ some (prefix, rest)
  filled : is_empty_str rest ≡ false
  name : IsCanonicalName chain

canonical_chain-Qualified : (w chain : String) → canonical_chain w ≡ some chain → Qualified w chain
unfolding canonical_chain
canonical_chain-Qualified w chain h = elim (Option-cases (split_colon w)) [
  | inl e ↦ cc (rw (canonical_chain, e) at h)
  | inr ((p, rest), e) ↦ elim (Bool-cases (is_empty_str p || is_empty_str rest)) [
    | inl f ↦ cc (rw (canonical_chain, e, f) at h)
    | inr f ↦ record {
      prefix = p;
      rest = rest;
      split = e;
      filled = ground arith;
      name =
          known_chain-IsCanonicalName (to_ascii_lowercase p) chain
            (rw (canonical_chain, e, f) at h);
    }
  ]
]

canonical_chain-joined :
    (chain rest : String)
    → IsCanonicalName chain
    → is_empty_str rest ≡ false
    → canonical_chain (append chain (append ":" rest)) ≡ some chain
unfolding canonical_chain
canonical_chain-joined chain rest n h =
    rw (canonical_chain, split_colon-append chain rest n.no_colon, n.nonempty, h) n.known

-- The value that is made of a canonical name and a rest.
abbrev joined : String → String → String
joined chain rest = append chain (append ":" rest)

qualified-joined :
    (kind : IdentityKind) (chain rest : String)
    → IsCanonicalName chain
    → is_empty_str rest ≡ false
    → qualified kind (joined chain rest) ≡ some (record { kind = kind; value = joined chain rest })
unfolding qualified
qualified-joined kind chain rest n h =
    rw (qualified, canonical_chain-joined chain rest n h, split_colon-append chain rest n.no_colon)
      refl

trim-joined :
    (chain rest : String)
    → IsCanonicalName chain
    → is_empty_str rest ≡ false
    → trim_end rest ≡ rest
    → trim (joined chain rest) ≡ joined chain rest
unfolding trim
trim-joined chain rest n h t =
    rw (trim, n.front (append ":" rest))
      (trim_end-append chain (append ":" rest) (trim_end-append ":" rest t h)
        (is_empty_str-append ":" rest h))

-- What `qualified` makes of a trimmed text.
record Joined (kind : IdentityKind) (id : IdentityKey) : Type 0 where
  pub chain : String
  pub rest : String
  pub value : id ≡ record { kind = kind; value = joined chain rest }
  pub name : IsCanonicalName chain
  pub filled : is_empty_str rest ≡ false
  pub trimmed : trim_end rest ≡ rest

qualified-Joined :
    (kind : IdentityKind) (w : String) (id : IdentityKey)
    → trim_end w ≡ w
    → qualified kind w ≡ some id
    → Joined kind id
unfolding qualified
qualified-Joined kind w id t h = elim (Option-cases (canonical_chain w)) [
  | inl e ↦ cc (rw (qualified, e) at h)
  | inr (chain, e) ↦
      let q = canonical_chain-Qualified w chain e in
      record {
        chain = chain;
        rest = q.rest;
        value = sym (some-injective _ _ (rw (qualified, e, q.split) at h));
        name = q.name;
        filled = q.filled;
        trimmed = split_colon-trim_end w q.prefix q.rest q.split t;
      }
]

-- The kinds whose values carry a chain.
abbrev is_chain_kind : IdentityKind → Bool
is_chain_kind token = true
is_chain_kind wallet = true
is_chain_kind _ = false

key_for-chain_kind :
    (url_host : String → Option String) (kind : IdentityKind) (w : String)
    → is_chain_kind kind ≡ true
    → key_for url_host kind w ≡ qualified kind w
unfolding key_for
key_for-chain_kind url_host kind w h = ground arith

module _ (url_host : String → Option String) where
  normalize_identity-Joined :
      (kind : IdentityKind) (raw : String) (id : IdentityKey)
      → is_chain_kind kind ≡ true
      → normalize_identity url_host kind raw ≡ some id
      → Joined kind id
  unfolding normalize_identity
  normalize_identity-Joined kind raw id k h = elim (Bool-cases (is_empty_str (trim raw))) [
    | inl e ↦ cc (rw (normalize_identity, e) at h)
    | inr e ↦
        qualified-Joined kind (trim raw) id (trim-trim_end raw)
          (rw (normalize_identity, e, key_for-chain_kind url_host kind (trim raw) k) at h)
  ]

  pub normalize_identity-kind :
      (kind : IdentityKind) (raw : String) (id : IdentityKey)
      → is_chain_kind kind ≡ true
      → normalize_identity url_host kind raw ≡ some id
      → id.kind ≡ kind
  normalize_identity-kind kind raw id k h =
      ap (λ (i : IdentityKey). i.kind) (normalize_identity-Joined kind raw id k h).value

  normalize_identity-joined :
      (kind : IdentityKind) (chain rest : String)
      → is_chain_kind kind ≡ true
      → IsCanonicalName chain
      → is_empty_str rest ≡ false
      → trim_end rest ≡ rest
      → normalize_identity url_host kind (joined chain rest)
        ≡ some (record { kind = kind; value = joined chain rest })
  unfolding normalize_identity
  normalize_identity-joined kind chain rest k n f t =
      rw
        (
          normalize_identity,
          trim-joined chain rest n f t,
          is_empty_str-append chain (append ":" rest) (is_empty_str-append ":" rest f),
          key_for-chain_kind url_host kind (joined chain rest) k,
        )
        (qualified-joined kind chain rest n f)

  -- The key of a token or a wallet is its own canonical form.
  pub normalize_identity_idem :
      (kind : IdentityKind) (raw : String) (id : IdentityKey)
      → is_chain_kind kind ≡ true
      → normalize_identity url_host kind raw ≡ some id
      → normalize_identity url_host kind id.value ≡ some id
  normalize_identity_idem kind raw id k h =
      let j = normalize_identity-Joined kind raw id k h in
      rw j.value (normalize_identity-joined kind j.chain j.rest k j.name j.filled j.trimmed)
