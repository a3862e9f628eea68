-- ===== src/Json/Sample.antt =====
-- One concrete `Json`, by which the examples run: texts, and objects whose values are texts.
use solana_whale_intelligenc.Prelude.{Option, none, some, List, [], ◌∷◌, String}
use solana_whale_intelligenc.Json.{Json}

pub data Sample : Type 0 where
  text : String → Sample
  object : List (String × String) → Sample

abbrev entries : List (String × String) → List (String × Sample)
entries [] = []
entries ((k, v) ∷ rest) = (k, text v) ∷ entries rest

abbrev as_object : Sample → Option (List (String × Sample))
as_object (object fields) = some (entries fields)
as_object (text s) = none

abbrev as_str : Sample → Option String
as_str (text s) = some s
as_str (object fields) = none

abbrev pub sample_json : Json
sample_json = record { Value = Sample; as_object = as_object; as_str = as_str }
