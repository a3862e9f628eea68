-- ===== src/Recent/Names.antt =====
-- The wire names of kinds and confidences, and their bytes.
use solana_whale_intelligenc.Prelude.{◌≡◌, refl, sym, ap, ◌∙◌, String, str_eq, if◌then◌else◌, arith}
use solana_whale_intelligenc.Prelude.Int.{ℤ}
use solana_whale_intelligenc.Prelude.Utf8.{as_bytes, as_bytes_inj, utf8_char}
use solana_whale_intelligenc.Recent.{
  RecentConfidence, exact, reconstructed, estimated, insufficient, confidence_str, IdentityKind,
  token, wallet, social, website, telegram, kind_str, i64_bytes,
}
use solana_whale_intelligenc.Recent.Encoding.{length-i64_bytes, Fits}
use solana_whale_intelligenc.Recent.SetBytes.{FitsText}

kind_of : String → IdentityKind
kind_of s =
    if str_eq s "token"
    then token
    else if str_eq s "wallet"
    then wallet
    else if str_eq s "social"
    then social
    else if str_eq s "website"
    then website
    else telegram

kind_of-kind_str : (a : IdentityKind) → kind_of (kind_str a) ≡ a
unfolding kind_str kind_of
kind_of-kind_str token = refl
kind_of-kind_str wallet = refl
kind_of-kind_str social = refl
kind_of-kind_str website = refl
kind_of-kind_str telegram = refl

pub kind_str_inj : (a b : IdentityKind) → as_bytes (kind_str a) ≡ as_bytes (kind_str b) → a ≡ b
kind_str_inj a b h =
    sym (kind_of-kind_str a)
    ∙ ap kind_of (as_bytes_inj (kind_str a) (kind_str b) h)
    ∙ kind_of-kind_str b

confidence_of : String → RecentConfidence
confidence_of s =
    if str_eq s "exact"
    then exact
    else if str_eq s "reconstructed"
    then reconstructed
    else if str_eq s "estimated"
    then estimated
    else insufficient

confidence_of-confidence_str : (a : RecentConfidence) → confidence_of (confidence_str a) ≡ a
unfolding confidence_str confidence_of
confidence_of-confidence_str exact = refl
confidence_of-confidence_str reconstructed = refl
confidence_of-confidence_str estimated = refl
confidence_of-confidence_str insufficient = refl

pub confidence_str_inj :
    (a b : RecentConfidence) → as_bytes (confidence_str a) ≡ as_bytes (confidence_str b) → a ≡ b
confidence_str_inj a b h =
    sym (confidence_of-confidence_str a)
    ∙ ap confidence_of (as_bytes_inj (confidence_str a) (confidence_str b) h)
    ∙ confidence_of-confidence_str b

pub kind_str-Fits : (a : IdentityKind) → FitsText (kind_str a)
unfolding kind_str as_bytes utf8_char
kind_str-Fits token = omega arith
kind_str-Fits wallet = omega arith
kind_str-Fits social = omega arith
kind_str-Fits website = omega arith
kind_str-Fits telegram = omega arith

pub confidence_str-Fits : (a : RecentConfidence) → FitsText (confidence_str a)
unfolding confidence_str as_bytes utf8_char
confidence_str-Fits exact = omega arith
confidence_str-Fits reconstructed = omega arith
confidence_str-Fits estimated = omega arith
confidence_str-Fits insufficient = omega arith

pub i64_bytes-Fits : (a : ℤ) → Fits (i64_bytes a)
i64_bytes-Fits a = omega (arith, length-i64_bytes a)
