-- ===== src/Recent/Coverage.antt =====
-- When two coverage disclosures have one key.
use solana_whale_intelligenc.Prelude.{ℕ, ◌≡◌, refl, ap, ◌↔◌, List, ◌∷◌, String, All}
use text.Mathlib.TextLemmas.{append_cancel_left}
use Prim.Native.String.{◌++◌ as append}
use solana_whale_intelligenc.Prelude.Utf8.{as_bytes_inj}
use solana_whale_intelligenc.Recent.{
  le_bytes, canonical_set_bytes, CoverageFact, framed_fields, coverage_fields, coverage_bytes,
  coverage_event_key,
}
use solana_whale_intelligenc.Recent.Encoding.{IsI64, i64_bytes_inj, Fits, framed-append}
use solana_whale_intelligenc.Recent.Sets.{SameMembers}
use solana_whale_intelligenc.Recent.SetBytes.{FitsText, canonical_set_bytes_iff}
use solana_whale_intelligenc.Recent.Names.{i64_bytes-Fits}
use solana_whale_intelligenc.Recent.Relations.{version-Fits}

-- A disclosure whose numbers are of the source's type, and whose fields fit into memory.
pub record IsCoverage (f : CoverageFact) : Type 0 where
  pub workspace : IsI64 f.workspace.id
  pub anchor : FitsText f.anchor
  pub items : All FitsText f.missing_inputs
  pub missing : Fits (canonical_set_bytes f.missing_inputs)
  pub bucket : IsI64 f.refresh_bucket
  pub predecessor : FitsText f.predecessor

-- The same disclosure: the missing inputs as a set.
pub record SameCoverage (f g : CoverageFact) : Type 0 where
  pub workspace : f.workspace.id ≡ g.workspace.id
  pub anchor : f.anchor ≡ g.anchor
  pub missing : SameMembers f.missing_inputs g.missing_inputs
  pub bucket : f.refresh_bucket ≡ g.refresh_bucket
  pub predecessor : f.predecessor ≡ g.predecessor

coverage_fields_inj :
    (f g : CoverageFact)
    → IsCoverage f
    → IsCoverage g
    → framed_fields (coverage_fields f) ≡ framed_fields (coverage_fields g)
    → SameCoverage f g
coverage_fields_inj f g p q h =
    let (w, h1) =
      framed-append _ _ _ _ (i64_bytes-Fits f.workspace.id) (i64_bytes-Fits g.workspace.id) h in
    let (a, h2) = framed-append _ _ _ _ p.anchor q.anchor h1 in
    let (m, h3) = framed-append _ _ _ _ p.missing q.missing h2 in
    let (b, h4) =
      framed-append _ _ _ _ (i64_bytes-Fits f.refresh_bucket) (i64_bytes-Fits g.refresh_bucket)
        h3 in
    let (r, h5) = framed-append _ _ _ _ p.predecessor q.predecessor h4 in
    record {
      workspace = i64_bytes_inj f.workspace.id g.workspace.id p.workspace q.workspace w;
      anchor = as_bytes_inj f.anchor g.anchor a;
      missing = (canonical_set_bytes_iff f.missing_inputs g.missing_inputs p.items q.items).0 m;
      bucket = i64_bytes_inj f.refresh_bucket g.refresh_bucket p.bucket q.bucket b;
      predecessor = as_bytes_inj f.predecessor g.predecessor r;
    }

coverage_fields-SameCoverage :
    (f g : CoverageFact)
    → IsCoverage f
    → IsCoverage g
    → SameCoverage f g
    → coverage_fields f ≡ coverage_fields g
coverage_fields-SameCoverage f g p q s =
    let e =
      (canonical_set_bytes_iff f.missing_inputs g.missing_inputs p.items q.items).1 s.missing in
    rw (s.workspace, s.anchor, e, s.bucket, s.predecessor) refl

-- A retry of a disclosure is recognised and every transition is a new row: provided that the hash
-- does not collide on the two inputs, two disclosures have one key exactly when they agree in the
-- workspace, the anchor, the set of the missing inputs, the refresh bucket and the predecessor.
pub coverage_event_key_iff :
    (sha256_hex : List ℕ → String) (f g : CoverageFact)
    → IsCoverage f
    → IsCoverage g
    → (sha256_hex (coverage_bytes f) ≡ sha256_hex (coverage_bytes g)
        → coverage_bytes f ≡ coverage_bytes g)
    → (coverage_event_key sha256_hex f ≡ coverage_event_key sha256_hex g) ↔ SameCoverage f g
unfolding coverage_event_key coverage_bytes
coverage_event_key_iff sha256_hex f g p q free = (
  λ h.
      let (v, r) =
        framed-append _ _ _ _ version-Fits version-Fits (free (append_cancel_left "cov:" _ _ h)) in
      coverage_fields_inj f g p q r,
  λ s.
      ap (λ fields. append "cov:" (sha256_hex (framed_fields (le_bytes 4 2 ∷ fields))))
        (coverage_fields-SameCoverage f g p q s),
)
