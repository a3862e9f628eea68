-- ===== src/Prelude/Utf8.antt =====
-- `str::as_bytes`: the bytes of a text in UTF-8.
use Prim.Native.Nat.{ℕ, ◌+◌, ◌/◌, ◌%◌}
use Prim.Native.String.{String}
use mathlib.Core.Path.{◌≡◌, refl, sym}
use mathlib.Core.List.{List, [], ◌∷◌}
use native.Mathlib.Omega.{arith}
use solana_whale_intelligenc.Prelude.Tests.{ltb, if◌then◌else◌}
use solana_whale_intelligenc.Prelude.Texts.{codes, codes_inj}

-- A code point in front of the bytes that follow it.
unfoldable pub utf8_char : ℕ → List ℕ → List ℕ
utf8_char c rest =
    if ltb c 128
    then c ∷ rest
    else if ltb c 2048
    then (192 + c / 64) ∷ (128 + c % 64) ∷ rest
    else if ltb c 65_536
    then (224 + c / 4096) ∷ (128 + c / 64 % 64) ∷ (128 + c % 64) ∷ rest
    else (240 + c / 262_144) ∷ (128 + c / 4096 % 64) ∷ (128 + c / 64 % 64) ∷ (128 + c % 64) ∷ rest

unfoldable pub utf8 : List ℕ → List ℕ
utf8 [] = []
utf8 (c ∷ cs) = utf8_char c (utf8 cs)

unfoldable pub as_bytes : String → List ℕ
unfolding utf8
as_bytes s = utf8 (codes s)

utf8_char_inj : (c d : ℕ) (s t : List ℕ) → utf8_char c s ≡ utf8_char d t → (c ≡ d) × (s ≡ t)
unfolding utf8_char
utf8_char_inj c d s t h = ground arith

utf8-nil : (c : ℕ) (s : List ℕ) → utf8_char c s ≡ [] → ⊥
unfolding utf8_char
utf8-nil c s h = ground arith

utf8_inj : (cs ds : List ℕ) → utf8 cs ≡ utf8 ds → cs ≡ ds
unfolding utf8
utf8_inj [] [] h = refl
utf8_inj (c ∷ cs) [] h = absurd (utf8-nil c (utf8 cs) h)
utf8_inj [] (d ∷ ds) h = absurd (utf8-nil d (utf8 ds) (sym h))
utf8_inj (c ∷ cs) (d ∷ ds) h =
    let (e, r) = utf8_char_inj c d (utf8 cs) (utf8 ds) h in cc (utf8_inj cs ds r)

pub as_bytes_inj : (s t : String) → as_bytes s ≡ as_bytes t → s ≡ t
unfolding as_bytes
as_bytes_inj s t h = codes_inj s t (utf8_inj (codes s) (codes t) h)
