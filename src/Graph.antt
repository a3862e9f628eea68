-- ===== src/Graph.antt =====
-- src/sf/graph.rs: the nodes and edges of the entity graph; src/sf/graph_runtime.rs: their readings.
-- The parser of timestamps is chrono's: it is a parameter.
pub mod Readings
pub mod Neighbors
mod Examples
use solana_whale_intelligenc.Prelude.{
  ℕ, Bool, true, false, not, ◌&&◌, ◌||◌, Option, none, some, List, [], ◌∷◌, ◌++◌, String, all, any,
  filter, is_empty, length, str_eq, ◌==◌, if◌then◌else◌,
}
use solana_whale_intelligenc.Prelude.Int.{ℤ, leb_ℤ, ltb_ℤ}
use solana_whale_intelligenc.Float.{F64}
use solana_whale_intelligenc.Event.{TruthStatus}

pub data NodeType : Type 0 where
  token contract token_family wallet wallet_cluster caller source_account post message : NodeType
  external_event narrative pool position strategy policy decision intent execution : NodeType

pub data EdgeType : Type 0 where
  deployed_by funded_by called_by amplified_by derived_from officially_adopted_by : EdgeType
  first_liquid_on holds swapped lp_provided same_family_as evidenced_by resulted_in : EdgeType
  same_deployer same_authority same_fee_payer same_funder same_social_account : EdgeType
  reused_social_link official_ca_announcement cross_chain_deployment : EdgeType
  suspected_copycat liquidity_attention_rotated_to : EdgeType

pub record EntityNode : Type 0 where
  pub entity_key : String
  pub node_type : NodeType

pub record EntityEdge (F : Type 0) : Type 0 where
  pub from_entity_key : String
  pub to_entity_key : String
  pub edge_type : EdgeType
  pub occurred_at : String
  pub source_id : Option String
  pub truth_status : TruthStatus
  pub confidence : Option F
  pub valid_from : String
  pub valid_until : Option String
  pub supersedes : Option String
  pub evidence_refs : List String

-- The derived equality, by the place of a variant.
unfoldable pub edge_index : EdgeType → ℕ
edge_index deployed_by = 0
edge_index funded_by = 1
edge_index called_by = 2
edge_index amplified_by = 3
edge_index derived_from = 4
edge_index officially_adopted_by = 5
edge_index first_liquid_on = 6
edge_index holds = 7
edge_index swapped = 8
edge_index lp_provided = 9
edge_index same_family_as = 10
edge_index evidenced_by = 11
edge_index resulted_in = 12
edge_index same_deployer = 13
edge_index same_authority = 14
edge_index same_fee_payer = 15
edge_index same_funder = 16
edge_index same_social_account = 17
edge_index reused_social_link = 18
edge_index official_ca_announcement = 19
edge_index cross_chain_deployment = 20
edge_index suspected_copycat = 21
edge_index liquidity_attention_rotated_to = 22

unfoldable pub is_confirmed : TruthStatus → Bool
is_confirmed TruthStatus.confirmed = true
is_confirmed _ = false

-- `parse_secs(until).map(|u| now_secs <= u).unwrap_or(false)`, and `true` where there is none.
unfoldable pub until_ok : (String → Option ℤ) → Option String → ℤ → Bool
until_ok parse_secs none now = true
until_ok parse_secs (some text) now = elim (parse_secs text) [ none ↦ false | some u ↦ leb_ℤ now u ]

module _ {F : Type 0} (parse_secs : String → Option ℤ) where
  unfoldable pub is_edge_valid : EntityEdge F → ℤ → Bool
  is_edge_valid edge now = elim (parse_secs edge.valid_from) [
    | none ↦ false
    | some from ↦ if ltb_ℤ now from then false else until_ok parse_secs edge.valid_until now
  ]

  -- Of src/sf/recent_runtime.rs, with the same window.
  unfoldable pub edge_is_authoritative : EntityEdge F → ℤ → Bool
  edge_is_authoritative edge now =
      if not (is_confirmed edge.truth_status)
      then false
      else if is_empty edge.evidence_refs
      then false
      else elim (parse_secs edge.valid_from) [
        | none ↦ false
        | some from ↦ if ltb_ℤ now from then false else until_ok parse_secs edge.valid_until now
      ]

-- The derived equality of edge types.
abbrev pub is_edge : EdgeType → EdgeType → Bool
is_edge a b = edge_index a == edge_index b
