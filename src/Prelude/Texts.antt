-- ===== src/Prelude/Texts.antt =====
-- What the code uses of `&str`: equality, `trim().is_empty()`, and the order of `str`.
use Prim.Native.Char.{code}
use Prim.Native.String.{String, ◌++◌ as append}
use Prim.Native.Nat.{ℕ, zero, suc, ◌/◌, ◌%◌}
use mathlib.Core.Bool.{Bool, ◌&&◌, ◌||◌}
use mathlib.Core.List.{List, [], ◌∷◌, cons-eq-cons}
use mathlib.Core.Path.{◌≡◌, refl, ap₂}
use text.Mathlib.Text.{◌==◌}
use text.Mathlib.TextEquality.{Char-path}
use solana_whale_intelligenc.Prelude.Tests.{leb, ltb, if◌then◌else◌, ◌==◌ as ◌=ℕ◌}
use solana_whale_intelligenc.Prelude.Int.{ℤ, pos, negsuc}
use solana_whale_intelligenc.Prelude.Lists.{all}

abbrev pub str_eq : String → String → Bool
str_eq s t = s == t

-- The code points of a text.
abbrev pub codes : String → List ℕ
codes String.[] = []
codes (String.◌∷◌ c s) = code c ∷ codes s

-- The Unicode property White_Space, by which `trim` cuts.
abbrev pub is_whitespace : ℕ → Bool
is_whitespace c =
    leb 9 c && leb c 13
    || ◌=ℕ◌ c 32
    || ◌=ℕ◌ c 133
    || ◌=ℕ◌ c 160
    || ◌=ℕ◌ c 5760
    || leb 8192 c && leb c 8202
    || ◌=ℕ◌ c 8232
    || ◌=ℕ◌ c 8233
    || ◌=ℕ◌ c 8239
    || ◌=ℕ◌ c 8287
    || ◌=ℕ◌ c 12288

-- `s.trim().is_empty()`: nothing but white space.
unfoldable pub is_blank : String → Bool
is_blank s = all (codes s) is_whitespace

-- A text is determined by its code points.
pub codes_inj : (s t : String) → codes s ≡ codes t → s ≡ t
codes_inj String.[] String.[] h = refl
codes_inj String.[] (String.◌∷◌ d t) h = cc
codes_inj (String.◌∷◌ c s) String.[] h = cc
codes_inj (String.◌∷◌ c s) (String.◌∷◌ d t) h =
    let (e, r) = cons-eq-cons.0 h in
    ap₂ {C = String} (λ x y. String.◌∷◌ x y) (Char-path c d e) (codes_inj s t r)

-- `to_string` of an unsigned number. The fuel is one more than the number, which has no more digits.
digit : ℕ → String
digit n = elim n [
  | zero ↦ "0"
  | suc zero ↦ "1"
  | suc (suc zero) ↦ "2"
  | suc (suc (suc zero)) ↦ "3"
  | suc (suc (suc (suc zero))) ↦ "4"
  | suc (suc (suc (suc (suc zero)))) ↦ "5"
  | suc (suc (suc (suc (suc (suc zero))))) ↦ "6"
  | suc (suc (suc (suc (suc (suc (suc zero)))))) ↦ "7"
  | suc (suc (suc (suc (suc (suc (suc (suc zero))))))) ↦ "8"
  | suc (suc (suc (suc (suc (suc (suc (suc (suc _)))))))) ↦ "9"
]

show_fuel : ℕ → ℕ → String
show_fuel zero n = ""
show_fuel (suc k) n =
    let front = show_fuel k (n / 10) in if ltb n 10 then digit n else append front (digit (n % 10))

unfoldable pub show_ℕ : ℕ → String
unfolding digit show_fuel
show_ℕ n = show_fuel (suc n) n

unfoldable pub show_ℤ : ℤ → String
unfolding show_ℕ
show_ℤ (pos n) = show_ℕ n
show_ℤ (negsuc n) = append "-" (show_ℕ (suc n))

-- `items.join(sep)`
unfoldable pub join : String → List String → String
join sep [] = ""
join sep (x ∷ []) = x
join sep (x ∷ y ∷ rest) = append x (append sep (join sep (y ∷ rest)))

show_1758 : show_ℕ 1758 ≡ "1758"
unfolding show_ℕ
show_1758 = refl
