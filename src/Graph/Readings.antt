-- ===== src/Graph/Readings.antt =====
-- `is_false_confluence` and `neighbor_count`, and what they count.
use mathlib.Core.Bool.{false≢true}
use solana_whale_intelligenc.Prelude.{
  ◌≡◌, refl, sym, ap, ◌∙◌, ℕ, Bool, true, false, not, ◌&&◌, ◌||◌, Option, none, some, List, [], ◌∷◌,
  ◌++◌, String, In, any, all, each, filter, is_empty, length, str_eq, if◌then◌else◌, arith,
  str_eq→≡, ≡→str_eq, In→any, All-in, all→All,
}
use solana_whale_intelligenc.Float.{F64}
use solana_whale_intelligenc.Graph.{
  EdgeType, EntityNode, EntityEdge, is_edge, edge_index, is_confirmed,
}

module _ (fl : F64) where
  -- Both confidences are there, and both are below one half.
  unfoldable pub low_confidence : Option fl.F → Option fl.F → Bool
  low_confidence none b = false
  low_confidence (some ca) none = false
  low_confidence (some ca) (some cb) =
      fl.lt ca (fl.literal false 5 1) && fl.lt cb (fl.literal false 5 1)

  unfoldable pub is_disjoint : List String → List String → Bool
  is_disjoint a b =
      all a (λ r. not (any b (λ s. str_eq s r))) && not (is_empty a) && not (is_empty b)

  unfoldable pub is_false_confluence : EntityEdge fl.F → EntityEdge fl.F → Bool
  is_false_confluence a b =
      if not (str_eq a.from_entity_key b.from_entity_key)
        || not (str_eq a.to_entity_key b.to_entity_key)
        || not (is_edge a.edge_type b.edge_type)
      then false
      else is_disjoint a.evidence_refs b.evidence_refs
        && low_confidence a.confidence b.confidence
        && (not (is_confirmed a.truth_status) && not (is_confirmed b.truth_status))

  -- What makes two edges a false confluence, whichever comes first.
  pub record FalseConfluence (a b : EntityEdge fl.F) : Type 0 where
    same_from : a.from_entity_key ≡ b.from_entity_key
    same_to : a.to_entity_key ≡ b.to_entity_key
    same_type : edge_index a.edge_type ≡ edge_index b.edge_type
    apart : (r : String) → In r a.evidence_refs → In r b.evidence_refs → ⊥
    low : low_confidence a.confidence b.confidence ≡ true
    first_open : is_confirmed a.truth_status ≡ false
    second_open : is_confirmed b.truth_status ≡ false

  shared :
      (a b : List String) (r : String)
      → all a (λ r. not (any b (λ s. str_eq s r))) ≡ true
      → In r a
      → In r b
      → ⊥
  shared a b r h i j =
      let n = All-in (λ r. not (any b (λ s. str_eq s r)) ≡ true) a i (all→All a _ h) in
      false≢true (ap not (sym (In→any (λ s. str_eq s r) b j (≡→str_eq r r refl))) ∙ n)

  flags :
      (a b : EntityEdge fl.F)
      → is_false_confluence a b ≡ true
      → (str_eq a.from_entity_key b.from_entity_key ≡ true)
        × (str_eq a.to_entity_key b.to_entity_key ≡ true)
        × (edge_index a.edge_type ≡ edge_index b.edge_type)
        × (all a.evidence_refs (λ r. not (any b.evidence_refs (λ s. str_eq s r))) ≡ true)
        × (low_confidence a.confidence b.confidence ≡ true)
        × (is_confirmed a.truth_status ≡ false)
        × (is_confirmed b.truth_status ≡ false)
  unfolding is_false_confluence is_disjoint
  flags a b h = (
    ground arith,
    ground arith,
    ground arith,
    ground arith,
    ground arith,
    ground arith,
    ground arith,
  )

  -- A false confluence is two claims of one relationship that share no evidence, both of low
  -- confidence, and neither confirmed.
  pub is_false_confluence-FalseConfluence :
      (a b : EntityEdge fl.F) → is_false_confluence a b ≡ true → FalseConfluence a b
  is_false_confluence-FalseConfluence a b h =
      let (from, to, type, evidence, low, first, second) = flags a b h in
      record {
        same_from = str_eq→≡ a.from_entity_key b.from_entity_key from;
        same_to = str_eq→≡ a.to_entity_key b.to_entity_key to;
        same_type = type;
        apart = λ r i j. shared a.evidence_refs b.evidence_refs r evidence i j;
        low = low;
        first_open = first;
        second_open = second;
      }

-- The keys that an edge adds: its ends without the node.
unfoldable pub other_ends : {F : Type 0} → EntityNode → EntityEdge F → List String
other_ends node e =
    filter (λ k. not (str_eq k node.entity_key)) (e.from_entity_key ∷ e.to_entity_key ∷ [])

unfoldable pub touches : {F : Type 0} → EntityNode → EdgeType → EntityEdge F → Bool
touches node edge_type e =
    is_edge e.edge_type edge_type
    && (str_eq e.from_entity_key node.entity_key || str_eq e.to_entity_key node.entity_key)

-- Insertion into a set.
unfoldable pub add_key : List String → String → List String
add_key set k = if any set (λ l. str_eq l k) then set else set ++ k ∷ []

unfoldable pub insert_ends : {F : Type 0} → EntityNode → List String → EntityEdge F → List String
insert_ends node set e = each add_key set (other_ends node e)

unfoldable pub neighbors : {F : Type 0} → EntityNode → List (EntityEdge F) → EdgeType → List String
neighbors node edges edge_type = each (insert_ends node) [] (filter (touches node edge_type) edges)

unfoldable pub neighbor_count : {F : Type 0} → EntityNode → List (EntityEdge F) → EdgeType → ℕ
neighbor_count node edges edge_type = length (neighbors node edges edge_type)
