-- ===== src/Json.antt =====
-- `serde_json::Value` as the code uses it: a parameter with the two readings that the code makes.
pub mod Sample
use solana_whale_intelligenc.Prelude.{Option, List, String}

pub record Json : Type 1 where
  pub Value : Type 0
  -- `as_object`, with the entries of the map in its order
  pub as_object : Value → Option (List (String × Value))
  -- `as_str`
  pub as_str : Value → Option String
