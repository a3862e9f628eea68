-- ===== src/Prelude.antt =====
-- The names that the other modules share: the libraries', passed on, and those of the children.
mod Tests
mod Lists
mod Texts
pub mod Int
pub mod Dict
pub mod Lex
pub mod Utf8
pub mod Strings
pub mod Sort
pub use Tests.*
pub use Lists.*
unfoldable pub use Texts.{str_eq, codes, is_whitespace, is_blank, show_ℕ, show_ℤ, join}
pub use Texts.{codes_inj}
pub use Prim.Native.Nat.{ℕ, zero, suc, ◌+◌, ◌-◌, ◌*◌, ◌/◌, ◌%◌, ◌^◌, ◌≤◌, ◌<◌, min, max}
pub use Prim.Native.String.{String}
pub use mathlib.Core.Path.{◌≡◌, refl, sym, ap, ◌∙◌, subst}
pub use mathlib.Core.Logic.{◌≢◌, ◌↔◌, ◌⊎◌, inl, inr}
pub use mathlib.Core.Bool.{Bool, true, false, not, ◌&&◌, ◌||◌}
pub use mathlib.Core.Option.{Option, none, some}
pub use mathlib.Core.List.{List, [], ◌∷◌, ◌++◌, map}
pub use native.Mathlib.Omega.{arith}
pub use text.Mathlib.TextEquality.{eq_iff}

-- The equality test on texts, in both directions.
pub str_eq→≡ : (s t : String) → str_eq s t ≡ true → s ≡ t
str_eq→≡ s t h = ground (arith, eq_iff s t)

pub ≡→str_eq : (s t : String) → s ≡ t → str_eq s t ≡ true
≡→str_eq s t h = ground (arith, eq_iff s t)
