-- ===== src/Recent/Encoding.antt =====
-- The encoding of numbers and of framed fields.
use solana_whale_intelligenc.Prelude.{
  ℕ, zero, suc, ◌+◌, ◌-◌, ◌*◌, ◌/◌, ◌%◌, ◌^◌, ◌<◌, ◌≡◌, refl, sym, ap, ◌∙◌, List, [], ◌∷◌, ◌++◌,
  arith, length,
}
use mathlib.Core.List.{cons-eq-cons, append_assoc}
use solana_whale_intelligenc.Prelude.Int.{ℤ, pos, negsuc}
use solana_whale_intelligenc.Recent.{le_bytes, i64_bytes, framed}

-- How many numbers `k` bytes hold.
abbrev pub bound : ℕ → ℕ
bound zero = 1
bound (suc k) = 256 * bound k

from_le : List ℕ → ℕ
from_le [] = 0
from_le (b ∷ bs) = b + 256 * from_le bs

from_le_bytes : (k n : ℕ) → n < bound k → from_le (le_bytes k n) ≡ n
unfolding from_le le_bytes
from_le_bytes zero n h = omega arith
from_le_bytes (suc k) n h = omega (arith, from_le_bytes k (n / 256) (omega arith))

pub le_bytes_inj : (k m n : ℕ) → m < bound k → n < bound k → le_bytes k m ≡ le_bytes k n → m ≡ n
le_bytes_inj k m n p q h = sym (from_le_bytes k m p) ∙ ap from_le h ∙ from_le_bytes k n q

pub length-le_bytes : (k n : ℕ) → length (le_bytes k n) ≡ k
unfolding le_bytes
length-le_bytes zero n = refl
length-le_bytes (suc k) n = omega (arith, length-le_bytes k (n / 256))

pub append_split : (a b x y : List ℕ) → length a ≡ length b → a ++ x ≡ b ++ y → (a ≡ b) × (x ≡ y)
append_split [] [] x y l h = (refl, h)
append_split [] (c ∷ b) x y l h = absurd (omega arith)
append_split (c ∷ a) [] x y l h = absurd (omega arith)
append_split (c ∷ a) (d ∷ b) x y l h =
    let (e, r) = cons-eq-cons.0 h in let (f, g) = append_split a b x y (omega arith) r in (cc, g)

-- The numbers of an `i64`.
abbrev pub IsI64 : ℤ → Type 0
IsI64 (pos n) = n < 2 ^ 63
IsI64 (negsuc n) = n < 2 ^ 63

pub i64_bytes_inj : (a b : ℤ) → IsI64 a → IsI64 b → i64_bytes a ≡ i64_bytes b → a ≡ b
unfolding i64_bytes
i64_bytes_inj (pos m) (pos n) p q h = ap pos (le_bytes_inj 8 m n (omega arith) (omega arith) h)
i64_bytes_inj (negsuc m) (negsuc n) p q h =
    ap negsuc (
      omega (arith, le_bytes_inj 8 (2 ^ 64 - 1 - m) (2 ^ 64 - 1 - n) (omega arith) (omega arith) h))
i64_bytes_inj (pos m) (negsuc n) p q h =
    absurd (omega (arith, le_bytes_inj 8 m (2 ^ 64 - 1 - n) (omega arith) (omega arith) h))
i64_bytes_inj (negsuc m) (pos n) p q h =
    absurd (omega (arith, le_bytes_inj 8 (2 ^ 64 - 1 - m) n (omega arith) (omega arith) h))

pub length-i64_bytes : (a : ℤ) → length (i64_bytes a) ≡ 8
unfolding i64_bytes
length-i64_bytes (pos n) = length-le_bytes 8 n
length-i64_bytes (negsuc n) = length-le_bytes 8 (2 ^ 64 - 1 - n)

-- A field that fits into memory.
abbrev pub Fits : List ℕ → Type 0
Fits bytes = length bytes < 2 ^ 64

-- A framed field is read back with all that follows it, whatever bytes it holds.
pub framed-append :
    (a b x y : List ℕ) → Fits a → Fits b → framed a ++ x ≡ framed b ++ y → (a ≡ b) × (x ≡ y)
unfolding framed
framed-append a b x y p q h =
    let la = length a % 2 ^ 64 in
    let lb = length b % 2 ^ 64 in
    let flat = sym (append_assoc (le_bytes 8 la) a x) ∙ h ∙ append_assoc (le_bytes 8 lb) b y in
    let (e, r) =
      append_split (le_bytes 8 la) (le_bytes 8 lb) (a ++ x) (b ++ y)
        (length-le_bytes 8 la ∙ sym (length-le_bytes 8 lb)) flat in
    let same = le_bytes_inj 8 la lb (omega arith) (omega arith) e in
    append_split a b x y (omega arith) r
