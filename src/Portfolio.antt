-- ===== src/Portfolio.antt =====
-- src/sf/portfolio_runtime.rs and the exposure lines of src/sf/portfolio.rs: the totals of the lines
-- and the groups of lines that share a correlation key, by union-find with path compression. A
-- map is a list of its entries in the order of their insertion; indexing out of range, where Rust
-- panics, and a `while` loop that wants fuel give `none`. Counts do not reach 2^32.
pub mod Forest
pub mod Joins
pub mod Linking
pub mod Lines
pub mod Sums
mod Examples
use solana_whale_intelligenc.Prelude.{
  ℕ, zero, suc, ◌+◌, Bool, true, false, Option, none, some, List, [], ◌∷◌, map, String, length,
  get_at, set_at, each, if◌then◌else◌, ◌==◌, str_eq,
}
use solana_whale_intelligenc.Prelude.Dict.{get, put, alter}
use solana_whale_intelligenc.Decimal.{Decimal, parse_decimal, sum}

pub record Exposure : Type 0 where
  pub kind : String
  pub key : String
  pub notional : String
  pub correlated : Option (List String)

pub record PortfolioProjection (D : Type 0) : Type 0 where
  pub total_notional : D
  pub by_kind : List (String × D)
  pub correlated_notional : D
  pub correlation_groups : ℕ

-- `while parent[r] != r { r = parent[r]; }`
unfoldable pub root : ℕ → List ℕ → ℕ → Option ℕ
root zero parent r = none
root (suc n) parent r = elim (get_at r parent) [
  | none ↦ none
  | some next ↦ let rest = root n parent next in if next == r then some r else rest
]

-- `while parent[c] != c { next = parent[c]; parent[c] = r; c = next; }`
unfoldable pub compress : ℕ → ℕ → List ℕ → ℕ → Option (List ℕ)
compress zero r parent c = none
compress (suc n) r parent c = elim (get_at c parent) [
  | none ↦ none
  | some next ↦
      let rest = compress n r (set_at c r parent) next in if next == c then some parent else rest
]

unfoldable pub find : ℕ → List ℕ → ℕ → Option (ℕ × List ℕ)
unfolding root compress
find fuel parent x = elim (root fuel parent x) [
  | none ↦ none
  | some r ↦ elim (compress fuel r parent x) [ none ↦ none | some parent ↦ some (r, parent) ]
]

unfoldable pub union : ℕ → List ℕ → ℕ → ℕ → Option (List ℕ)
unfolding find
union fuel parent a b = elim (find fuel parent a) [
  | none ↦ none
  | some (ra, p) ↦ elim (find fuel p b) [
    | none ↦ none
    | some (rb, p) ↦ some (if ra == rb then p else set_at rb ra p)
  ]
]

-- The trees, and the line that first declares each correlation key.
pub record Links : Type 0 where
  pub parent : List ℕ
  pub key_owner : List (String × ℕ)

unfoldable pub link_to : ℕ → ℕ → Links → String → Option ℕ → Option Links
unfolding union
link_to fuel i l k (some owner) = elim (union fuel l.parent i owner) [
  | none ↦ none
  | some parent ↦ some (record { parent = parent; key_owner = l.key_owner })
]
link_to fuel i l k none = some (record { parent = l.parent; key_owner = put k i l.key_owner })

unfoldable pub link : ℕ → ℕ → Option Links → String → Option Links
unfolding link_to
link fuel i none k = none
link fuel i (some l) k = link_to fuel i l k (get k l.key_owner)

-- `iter().enumerate()`, from a first index on.
abbrev pub enumerate {ℓ} : {A : Type ℓ} → ℕ → List A → List (ℕ × A)
enumerate i [] = []
enumerate i (x ∷ xs) = (i, x) ∷ enumerate (suc i) xs

unfoldable pub link_keys : ℕ → ℕ → Option Links → Option (List String) → Option Links
unfolding link
link_keys fuel i o none = o
link_keys fuel i o (some keys) = each (link fuel i) o keys

unfoldable pub link_line : ℕ → Option Links → ℕ × Exposure → Option Links
unfolding link_keys
link_line fuel o line = link_keys fuel line.0 o line.1.correlated

-- `(0..n).collect()`
abbrev pub upto : ℕ → ℕ → List ℕ
upto i zero = []
upto i (suc n) = i ∷ upto (suc i) n

unfoldable pub links : ℕ → List Exposure → Option Links
unfolding link_line
links fuel exposures =
    each (link_line fuel) (some (record { parent = upto 0 (length exposures); key_owner = [] }))
      (enumerate 0 exposures)

-- Each key joins two lines at most, so that a path to a root is no longer than there are keys.
unfoldable pub keys_of : Option (List String) → ℕ
keys_of none = 0
keys_of (some keys) = length keys

unfoldable pub key_count : List Exposure → ℕ
unfolding keys_of
key_count [] = 0
key_count (e ∷ es) = keys_of e.correlated + key_count es

module _ (dec : Decimal) where
  open dec use {D, add}

  -- The subtotals of the groups, and the trees that the look-ups compress.
  pub record Groups : Type 0 where
    pub parent : List ℕ
    pub group_notional : List (ℕ × D)

  unfoldable pub add_keyed : ℕ → Groups → ℕ → Exposure → Option (List String) → Option Groups
  unfolding find alter
  add_keyed fuel g i e none = some g
  add_keyed fuel g i e (some keys) = elim (find fuel g.parent i) [
    | none ↦ none
    | some (r, parent) ↦ some (record {
      parent = parent;
      group_notional =
          alter ◌==◌ r dec.zero (λ sum. add sum (parse_decimal dec e.notional)) g.group_notional;
    })
  ]

  unfoldable pub add_line : ℕ → Option Groups → ℕ × Exposure → Option Groups
  unfolding add_keyed
  add_line fuel none line = none
  add_line fuel (some g) (i, e) = add_keyed fuel g i e e.correlated

  unfoldable pub add_lines : ℕ → Links → List Exposure → Option Groups
  unfolding add_line
  add_lines fuel l exposures =
      each (add_line fuel) (some (record { parent = l.parent; group_notional = [] }))
        (enumerate 0 exposures)

  unfoldable pub groups : ℕ → List Exposure → Option (List (ℕ × D))
  unfolding links add_lines
  groups fuel exposures = elim (links fuel exposures) [
    | none ↦ none
    | some l ↦ elim (add_lines fuel l exposures) [ none ↦ none | some g ↦ some g.group_notional ]
  ]

  unfoldable pub total_of : List Exposure → D
  total_of exposures = each (λ sum e. add sum (parse_decimal dec e.notional)) dec.zero exposures

  unfoldable pub kinds_of : List Exposure → List (String × D)
  kinds_of exposures =
      each (λ m e. alter str_eq e.kind dec.zero (λ sum. add sum (parse_decimal dec e.notional)) m)
        [] exposures

  unfoldable pub projection : List Exposure → List (ℕ × D) → PortfolioProjection D
  unfolding total_of kinds_of
  projection exposures group_notional = record {
    total_notional = total_of exposures;
    by_kind = kinds_of exposures;
    correlated_notional = each (λ sum (entry : ℕ × D). add sum entry.1) dec.zero group_notional;
    correlation_groups = length group_notional;
  }

  unfoldable pub project : List Exposure → Option (PortfolioProjection D)
  unfolding groups projection key_count
  project exposures = elim (groups (suc (key_count exposures)) exposures) [
    | none ↦ none
    | some group_notional ↦ some (projection exposures group_notional)
  ]

-- `Ok(())` is `none`.
unfoldable pub check_treasury_separation : Bool → Option String
check_treasury_separation true = none
check_treasury_separation false = some "treasury and execution hot-wallet are not separated"
