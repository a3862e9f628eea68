-- ===== src/Models/Examples.antt =====
-- A stored label, and one as a provider writes it.
use solana_whale_intelligenc.Prelude.{◌≡◌, refl, some, none}
use solana_whale_intelligenc.Prelude.Strings.{
  trim, trim_start, trim_end, is_space, is_empty_str, to_ascii_lowercase,
}
use solana_whale_intelligenc.Models.{
  rat_trader, dev, parse_label, label_str, LifecycleState, lifecycle_str, parse_lifecycle,
}
use solana_whale_intelligenc.Models.RoundTrips.{parse_label-label_str}

parse_label-label_str_example : parse_label " Rat_Trader" ≡ some rat_trader
unfolding trim trim_start trim_end is_space is_empty_str to_ascii_lowercase label_str
parse_label-label_str_example = parse_label-label_str rat_trader " Rat_Trader" refl

creator : parse_label "creator" ≡ some dev
unfolding parse_label trim trim_start trim_end is_space is_empty_str to_ascii_lowercase
creator = refl

-- The one stored name that does not parse.
unsupported : parse_lifecycle (lifecycle_str LifecycleState.unsupported) ≡ none
unfolding parse_lifecycle lifecycle_str trim trim_start trim_end is_space is_empty_str
    to_ascii_lowercase
unsupported = refl
