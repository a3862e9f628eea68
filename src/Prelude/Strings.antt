-- ===== src/Prelude/Strings.antt =====
-- What the code uses of `str` beyond equality: `trim`, `split_once`, `to_ascii_lowercase`.
use Prim.Native.Char.{Char, code}
use Prim.Native.Nat.{ℕ, zero, suc, ◌-◌}
use Prim.Native.String.{String, ◌++◌}
use mathlib.Core.Bool.{Bool, true, false, ◌&&◌}
use mathlib.Core.Option.{Option, none, some, some-injective}
use mathlib.Core.Path.{◌≡◌, refl, ap}
use mathlib.Core.Logic.{inl, inr}
use native.Mathlib.Omega.{arith}
use text.Mathlib.TextLemmas.{nil-append, cons-append, tail-eq_of_cons-eq}
use solana_whale_intelligenc.Prelude.Tests.{Bool-cases, Option-cases, leb, ◌==◌, if◌then◌else◌}
use solana_whale_intelligenc.Prelude.Texts.{is_whitespace, codes}
use solana_whale_intelligenc.Prelude.Lists.{any}

unfoldable pub is_empty_str : String → Bool
is_empty_str String.[] = true
is_empty_str (String.◌∷◌ c s) = false

-- `char::is_whitespace`
unfoldable pub is_space : Char → Bool
is_space c = is_whitespace (code c)

unfoldable pub trim_start : String → String
trim_start String.[] = String.[]
trim_start (String.◌∷◌ c s) = let rest = trim_start s in if is_space c then rest else String.◌∷◌ c s

unfoldable pub trim_end : String → String
trim_end String.[] = String.[]
trim_end (String.◌∷◌ c s) =
    let rest = trim_end s in
    if is_space c && is_empty_str rest then String.[] else String.◌∷◌ c rest

unfoldable pub trim : String → String
trim s = trim_end (trim_start s)

-- `split_once(':')`
unfoldable pub split_colon : String → Option (String × String)
split_colon String.[] = none
split_colon (String.◌∷◌ c s) =
    if code c == b':'
    then some (String.[], s)
    else elim (split_colon s) [ none ↦ none | some (a, b) ↦ some (String.◌∷◌ c a, b) ]

nth : String → ℕ → Char → Char
nth String.[] i d = d
nth (String.◌∷◌ c s) zero d = c
nth (String.◌∷◌ c s) (suc i) d = nth s i d

lower_char : Char → Char
unfolding nth
lower_char c =
    if leb b'A' (code c) && leb (code c) b'Z'
    then nth "abcdefghijklmnopqrstuvwxyz" (code c - b'A') c
    else c

unfoldable pub to_ascii_lowercase : String → String
unfolding lower_char
to_ascii_lowercase String.[] = String.[]
to_ascii_lowercase (String.◌∷◌ c s) = String.◌∷◌ (lower_char c) (to_ascii_lowercase s)

lowered : to_ascii_lowercase "SoL:9Zz" ≡ "sol:9zz"
unfolding to_ascii_lowercase
lowered = refl

trimmed : trim " a b\n" ≡ "a b"
unfolding trim trim_start trim_end is_empty_str is_space
trimmed = refl

split_twice : split_colon "a:b:c" ≡ some ("a", "b:c")
unfolding split_colon
split_twice = refl

-- A text without a colon in front of one is split there.
pub split_colon-append :
    (a b : String)
    → any (codes a) (λ c. c == b':') ≡ false
    → split_colon (a ++ (":" ++ b)) ≡ some (a, b)
unfolding split_colon
split_colon-append String.[] b h = rw (nil-append, cons-append, nil-append) refl
split_colon-append (String.◌∷◌ c a) b h = rw cons-append (ground (arith, split_colon-append a b))

tail_trim_end :
    (c : Char) (s : String) → trim_end (String.◌∷◌ c s) ≡ String.◌∷◌ c s → trim_end s ≡ s
unfolding trim_end
tail_trim_end c s h = elim (Bool-cases (is_space c && is_empty_str (trim_end s))) [
  | inl e ↦ cc (rw e at h)
  | inr e ↦ tail-eq_of_cons-eq (rw e at h)
]

-- `trim_end` leaves what it has trimmed.
pub trim_end-trim_end : (s : String) → trim_end (trim_end s) ≡ trim_end s
unfolding trim_end
trim_end-trim_end String.[] = refl
trim_end-trim_end (String.◌∷◌ c s) = elim (Bool-cases (is_space c && is_empty_str (trim_end s))) [
  | inl e ↦ rw e refl
  | inr e ↦ rw (e, trim_end-trim_end s, e) refl
]

-- What is behind the colon of a trimmed text is trimmed.
pub split_colon-trim_end :
    (s a b : String) → split_colon s ≡ some (a, b) → trim_end s ≡ s → trim_end b ≡ b
unfolding split_colon
split_colon-trim_end String.[] a b h t = cc
split_colon-trim_end (String.◌∷◌ c s) a b h t = elim (Bool-cases (code c == b':')) [
  | inl e ↦
      let f : (String.[], s) ≡ (a, b) = some-injective _ _ (rw e at h) in
      rw (← ap (λ p. p.1) f) (tail_trim_end c s t)
  | inr e ↦ elim (Option-cases (split_colon s)) [
    | inl f ↦ cc (rw (e, f) at h)
    | inr ((u, v), f) ↦
        let g : (String.◌∷◌ c u, v) ≡ (a, b) = some-injective _ _ (rw (e, f) at h) in
        rw (← ap (λ p. p.1) g) (split_colon-trim_end s u v f (tail_trim_end c s t))
  ]
]

-- A text with a part that is not empty.
pub is_empty_str-append : (a b : String) → is_empty_str b ≡ false → is_empty_str (a ++ b) ≡ false
unfolding is_empty_str
is_empty_str-append String.[] b e = rw nil-append e
is_empty_str-append (String.◌∷◌ c a) b e = rw cons-append refl

pub trim_end-append :
    (a b : String) → trim_end b ≡ b → is_empty_str b ≡ false → trim_end (a ++ b) ≡ a ++ b
unfolding trim_end
trim_end-append String.[] b h e = rw nil-append h
trim_end-append (String.◌∷◌ c a) b h e =
    rw cons-append (ground (arith, trim_end-append a b h e, is_empty_str-append a b e))

pub trim_start-append :
    (c : Char) (a b : String)
    → is_space c ≡ false
    → trim_start (String.◌∷◌ c a ++ b) ≡ String.◌∷◌ c a ++ b
unfolding trim_start
trim_start-append c a b h = rw (cons-append, h) refl

pub trim-trim_end : (s : String) → trim_end (trim s) ≡ trim s
unfolding trim
trim-trim_end s = trim_end-trim_end (trim_start s)
