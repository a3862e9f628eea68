-- ===== src/Recent/Relations.antt =====
-- What is hashed for a relation, against the fact.
use solana_whale_intelligenc.Prelude.{
  ℕ, ◌≡◌, ◌≢◌, refl, ap, ◌↔◌, List, ◌∷◌, String, arith, All, length,
}
use text.Mathlib.TextLemmas.{append_cancel_left}
use Prim.Native.String.{◌++◌ as append}
use solana_whale_intelligenc.Prelude.Utf8.{as_bytes_inj}
use solana_whale_intelligenc.Recent.{
  le_bytes, canonical_set_bytes, RelationFact, relation_fields, framed_fields,
  relation_bytes_rev065, relation_bytes, relation_event_key,
}
use solana_whale_intelligenc.Recent.Encoding.{
  IsI64, i64_bytes_inj, length-i64_bytes, length-le_bytes, Fits, framed-append,
}
use solana_whale_intelligenc.Recent.Sets.{SameMembers}
use solana_whale_intelligenc.Recent.SetBytes.{FitsText, canonical_set_bytes_iff}
use solana_whale_intelligenc.Recent.Names.{
  kind_str_inj, confidence_str_inj, kind_str-Fits, confidence_str-Fits, i64_bytes-Fits,
}

-- A fact whose numbers are of the source's type, and whose fields fit into memory.
pub record IsRelation (f : RelationFact) : Type 0 where
  pub workspace : IsI64 f.workspace.id
  pub anchor : FitsText f.anchor
  pub relation : FitsText f.relation
  pub target : FitsText f.target
  pub items : All FitsText f.evidence_refs
  pub evidence : Fits (canonical_set_bytes f.evidence_refs)

-- The same fact: the evidence as a set.
pub record SameRelation (f g : RelationFact) : Type 0 where
  pub workspace : f.workspace.id ≡ g.workspace.id
  pub anchor : f.anchor ≡ g.anchor
  pub relation : f.relation ≡ g.relation
  pub target : f.target ≡ g.target
  pub target_kind : f.target_kind ≡ g.target_kind
  pub confidence : f.confidence ≡ g.confidence
  pub evidence : SameMembers f.evidence_refs g.evidence_refs

relation_fields_inj :
    (f g : RelationFact)
    → IsRelation f
    → IsRelation g
    → framed_fields (relation_fields f) ≡ framed_fields (relation_fields g)
    → SameRelation f g
relation_fields_inj f g p q h =
    let (w, h1) =
      framed-append _ _ _ _ (i64_bytes-Fits f.workspace.id) (i64_bytes-Fits g.workspace.id) h in
    let (a, h2) = framed-append _ _ _ _ p.anchor q.anchor h1 in
    let (r, h3) = framed-append _ _ _ _ p.relation q.relation h2 in
    let (t, h4) = framed-append _ _ _ _ p.target q.target h3 in
    let (k, h5) =
      framed-append _ _ _ _ (kind_str-Fits f.target_kind) (kind_str-Fits g.target_kind) h4 in
    let (c, h6) =
      framed-append _ _ _ _ (confidence_str-Fits f.confidence) (confidence_str-Fits g.confidence)
        h5 in
    let (e, h7) = framed-append _ _ _ _ p.evidence q.evidence h6 in
    record {
      workspace = i64_bytes_inj f.workspace.id g.workspace.id p.workspace q.workspace w;
      anchor = as_bytes_inj f.anchor g.anchor a;
      relation = as_bytes_inj f.relation g.relation r;
      target = as_bytes_inj f.target g.target t;
      target_kind = kind_str_inj f.target_kind g.target_kind k;
      confidence = confidence_str_inj f.confidence g.confidence c;
      evidence = (canonical_set_bytes_iff f.evidence_refs g.evidence_refs p.items q.items).0 e;
    }

relation_fields-SameRelation :
    (f g : RelationFact)
    → IsRelation f
    → IsRelation g
    → SameRelation f g
    → relation_fields f ≡ relation_fields g
relation_fields-SameRelation f g p q s =
    let e =
      (canonical_set_bytes_iff f.evidence_refs g.evidence_refs p.items q.items).1 s.evidence in
    rw (s.workspace, s.anchor, s.relation, s.target, s.target_kind, s.confidence, e) refl

pub version-Fits : Fits (le_bytes 4 2)
version-Fits = omega (arith, length-le_bytes 4 2)

-- The current key of a relation is the fact's: provided that the hash does not collide on the two
-- inputs, two facts have one key exactly when they agree in the workspace, the anchor, the
-- relation, the target and its kind, the confidence, and the set of the evidence, in whatever order
-- and however often its references are listed, and whatever characters the fields hold.
pub relation_event_key_iff :
    (sha256_hex : List ℕ → String) (f g : RelationFact)
    → IsRelation f
    → IsRelation g
    → (sha256_hex (relation_bytes f) ≡ sha256_hex (relation_bytes g)
        → relation_bytes f ≡ relation_bytes g)
    → (relation_event_key sha256_hex f ≡ relation_event_key sha256_hex g) ↔ SameRelation f g
unfolding relation_event_key relation_bytes
relation_event_key_iff sha256_hex f g p q free = (
  λ h.
      let (v, r) =
        framed-append _ _ _ _ version-Fits version-Fits (free (append_cancel_left "rel:" _ _ h)) in
      relation_fields_inj f g p q r,
  λ s.
      ap (λ fields. append "rel:" (sha256_hex (framed_fields (le_bytes 4 2 ∷ fields))))
        (relation_fields-SameRelation f g p q s),
)

-- What the current generation hashes for a fact is never what the generation before it hashed, for
-- that fact or any other: the first frame holds four bytes in one and eight in the other.
pub relation_bytes-rev065 : (f g : RelationFact) → relation_bytes f ≢ relation_bytes_rev065 g
unfolding relation_bytes relation_bytes_rev065
relation_bytes-rev065 f g h =
    let (e, r) = framed-append _ _ _ _ version-Fits (i64_bytes-Fits g.workspace.id) h in
    omega (arith, ap length e, length-le_bytes 4 2, length-i64_bytes g.workspace.id)
