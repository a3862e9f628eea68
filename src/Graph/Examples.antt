-- ===== src/Graph/Examples.antt =====
-- Two claims of one transfer, a node with two neighbors, and the theorems at them.
use solana_whale_intelligenc.Prelude.{◌≡◌, refl, true, false, none, some, List, [], ◌∷◌, String}
use solana_whale_intelligenc.Float.Sample.{sample}
use solana_whale_intelligenc.Event.{disputed}
use solana_whale_intelligenc.Graph.{
  NodeType, EdgeType, EntityNode, EntityEdge, edge_index, is_confirmed,
}
use solana_whale_intelligenc.Graph.Readings.{
  low_confidence, is_disjoint, is_false_confluence, FalseConfluence,
  is_false_confluence-FalseConfluence, other_ends, touches, add_key, insert_ends, neighbors,
  neighbor_count,
}

abbrev claim : String → String → String → EntityEdge sample.F
claim from to ref = record {
  from_entity_key = from;
  to_entity_key = to;
  edge_type = EdgeType.funded_by;
  occurred_at = "1";
  source_id = none;
  truth_status = disputed;
  confidence = some (sample.literal false 2 1);
  valid_from = "1";
  valid_until = none;
  supersedes = none;
  evidence_refs = ref ∷ [];
}

flagged : is_false_confluence sample (claim "a" "b" "r1") (claim "a" "b" "r2") ≡ true
unfolding is_false_confluence is_disjoint low_confidence edge_index is_confirmed
flagged = refl

is_false_confluence-FalseConfluence_example :
    FalseConfluence sample (claim "a" "b" "r1") (claim "a" "b" "r2")
is_false_confluence-FalseConfluence_example =
    is_false_confluence-FalseConfluence sample (claim "a" "b" "r1") (claim "a" "b" "r2") flagged

abbrev node : EntityNode
node = record { entity_key = "a"; node_type = NodeType.wallet }

abbrev some_edges : List (EntityEdge sample.F)
some_edges = claim "a" "b" "r1" ∷ claim "c" "a" "r2" ∷ claim "a" "b" "r3" ∷ claim "b" "c" "r4" ∷ []

two_neighbors : neighbor_count node some_edges EdgeType.funded_by ≡ 2
unfolding neighbor_count neighbors insert_ends add_key touches other_ends edge_index
two_neighbors = refl
