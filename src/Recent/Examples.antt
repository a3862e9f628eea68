-- ===== src/Recent/Examples.antt =====
-- Keys of concrete facts, and the theorems at them.
use solana_whale_intelligenc.Prelude.{
  ℕ, ◌≡◌, refl, ◌↔◌, List, [], ◌∷◌, String, arith, All, show_ℕ, none, some,
}
use Prim.Native.String.{◌++◌ as append}
use solana_whale_intelligenc.Prelude.Int.{pos, negsuc}
use solana_whale_intelligenc.Prelude.Utf8.{as_bytes, utf8_char}
use solana_whale_intelligenc.Recent.{
  wallet, exact, RelationFact, CoverageFact, canonical_set_bytes, relation_bytes, coverage_bytes,
  relation_event_key, le_bytes, i64_bytes, framed, framed_items, dedup, push_new, sort_texts,
  insert_sorted, kind_str, confidence_str, ActorExtraction, missing_actor_inputs, from_job_context,
}
use solana_whale_intelligenc.Recent.Sets.{SameMembers}
use solana_whale_intelligenc.Recent.SetBytes.{FitsText, canonical_set_bytes_iff}
use solana_whale_intelligenc.Recent.Relations.{IsRelation, SameRelation, relation_event_key_iff}
use solana_whale_intelligenc.Recent.Coverage.{IsCoverage}

-- A stand-in for the hash: the number of every byte, and a dot.
abbrev digest : List ℕ → String
digest [] = ""
digest (b ∷ bs) = append (show_ℕ b) (append "." (digest bs))

abbrev fact : RelationFact
fact = record {
  workspace = record { id = pos 1 };
  anchor = "solana:A";
  relation = "same_deployer";
  target = "B|C";
  target_kind = wallet;
  confidence = exact;
  evidence_refs = "e2" ∷ "e1" ∷ "e2" ∷ [];
}

-- The evidence in another order, without repetition.
abbrev retry : RelationFact
retry = record fact { evidence_refs = "e1" ∷ "e2" ∷ [] }

abbrev disclosure : CoverageFact
disclosure = record {
  workspace = record { id = pos 1 };
  anchor = "solana:A";
  missing_inputs = "deployer" ∷ [];
  refresh_bucket = negsuc 0;
  predecessor = "p0";
}

-- The missing input is listed twice.
abbrev doubled : CoverageFact
doubled = record disclosure { missing_inputs = "deployer" ∷ "deployer" ∷ [] }

set_bytes :
    canonical_set_bytes ("b" ∷ "a" ∷ "b" ∷ [])
    ≡ 1 ∷ 0 ∷ 0 ∷ 0 ∷ 0 ∷ 0 ∷ 0 ∷ 0 ∷ 97 ∷ 1 ∷ 0 ∷ 0 ∷ 0 ∷ 0 ∷ 0 ∷ 0 ∷ 0 ∷ 98 ∷ []
unfolding canonical_set_bytes framed_items framed le_bytes dedup push_new sort_texts insert_sorted
    as_bytes utf8_char
set_bytes = refl

minus_one : i64_bytes (negsuc 0) ≡ 255 ∷ 255 ∷ 255 ∷ 255 ∷ 255 ∷ 255 ∷ 255 ∷ 255 ∷ []
unfolding i64_bytes le_bytes
minus_one = refl

commas_differ_Fits : All FitsText ("a,b" ∷ "c" ∷ []) × All FitsText ("a" ∷ "b,c" ∷ [])
unfolding as_bytes utf8_char
commas_differ_Fits = ((omega arith, (omega arith, tt)), (omega arith, (omega arith, tt)))

canonical_set_bytes_iff_example :
    (canonical_set_bytes ("a,b" ∷ "c" ∷ []) ≡ canonical_set_bytes ("a" ∷ "b,c" ∷ []))
    ↔ SameMembers ("a,b" ∷ "c" ∷ []) ("a" ∷ "b,c" ∷ [])
canonical_set_bytes_iff_example =
    canonical_set_bytes_iff ("a,b" ∷ "c" ∷ []) ("a" ∷ "b,c" ∷ []) commas_differ_Fits.0
      commas_differ_Fits.1

fact-IsRelation : IsRelation fact
unfolding canonical_set_bytes framed_items framed le_bytes dedup push_new sort_texts insert_sorted
    as_bytes utf8_char
fact-IsRelation = record {
  workspace = omega arith;
  anchor = omega arith;
  relation = omega arith;
  target = omega arith;
  items = (omega arith, (omega arith, (omega arith, tt)));
  evidence = omega arith;
}

retry-IsRelation : IsRelation retry
unfolding canonical_set_bytes framed_items framed le_bytes dedup push_new sort_texts insert_sorted
    as_bytes utf8_char
retry-IsRelation = record {
  workspace = omega arith;
  anchor = omega arith;
  relation = omega arith;
  target = omega arith;
  items = (omega arith, (omega arith, tt));
  evidence = omega arith;
}

same_bytes : relation_bytes fact ≡ relation_bytes retry
unfolding relation_bytes canonical_set_bytes framed_items framed le_bytes dedup push_new sort_texts
    insert_sorted as_bytes utf8_char i64_bytes kind_str confidence_str
same_bytes = refl

relation_event_key_iff_example :
    (relation_event_key digest fact ≡ relation_event_key digest retry) ↔ SameRelation fact retry
relation_event_key_iff_example =
    relation_event_key_iff digest fact retry fact-IsRelation retry-IsRelation (λ h. same_bytes)

disclosure-IsCoverage : IsCoverage disclosure
unfolding canonical_set_bytes framed_items framed le_bytes dedup push_new sort_texts insert_sorted
    as_bytes utf8_char
disclosure-IsCoverage = record {
  workspace = omega arith;
  anchor = omega arith;
  items = (omega arith, tt);
  missing = omega arith;
  bucket = omega arith;
  predecessor = omega arith;
}

doubled-IsCoverage : IsCoverage doubled
unfolding canonical_set_bytes framed_items framed le_bytes dedup push_new sort_texts insert_sorted
    as_bytes utf8_char
doubled-IsCoverage = record {
  workspace = omega arith;
  anchor = omega arith;
  items = (omega arith, (omega arith, tt));
  missing = omega arith;
  bucket = omega arith;
  predecessor = omega arith;
}

same_disclosure : coverage_bytes disclosure ≡ coverage_bytes doubled
unfolding coverage_bytes canonical_set_bytes framed_items framed le_bytes dedup push_new sort_texts
    insert_sorted as_bytes utf8_char i64_bytes
same_disclosure = refl

abbrev extraction : ActorExtraction
extraction = record {
  token = "solana:A";
  deployer = some "d";
  authority = none;
  fee_payer = none;
  factory = none;
  initial_funder = none;
  authority_changes = [];
  social_identities = [];
}

two_missing : missing_actor_inputs extraction ≡ "authority" ∷ "initial_funder" ∷ []
unfolding missing_actor_inputs
two_missing = refl

zero_refused : from_job_context (pos 0) ≡ none
unfolding from_job_context
zero_refused = refl
