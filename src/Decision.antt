-- ===== src/Decision.antt =====
-- src/sf/decision.rs and src/sf/decision_runtime.rs: a bundle of component results is judged.
-- `ComponentClass` is that of src/sf/portfolio.rs.
pub mod Laws
mod Examples
use solana_whale_intelligenc.Prelude.{
  ℕ, Bool, true, false, not, ◌&&◌, Option, none, some, List, [], ◌∷◌, String, length, filter, all,
  is_empty, str_eq, if◌then◌else◌,
}
use solana_whale_intelligenc.Float.{F64}
use solana_whale_intelligenc.Json.{Json}
use solana_whale_intelligenc.Event.{TruthStatus}
use solana_whale_intelligenc.Execution.{Action}

pub data ComponentClass : Type 0 where
  mandatory_pass sizing_input strategy_input halt_input : ComponentClass

pub record ComponentResult (V : Type 0) : Type 0 where
  pub component_class : ComponentClass
  pub component_name : String
  pub pass : Option Bool
  pub result : V

pub record DecisionBundle (F V : Type 0) : Type 0 where
  pub target_entity : String
  pub target_action : Action
  pub decision_at : String
  pub evidence_snapshot_ids : List String
  pub component_results : List (ComponentResult V)
  pub missing_capabilities : List String
  pub source_freshness : V
  pub confidence : Option F
  pub truth_status : TruthStatus
  pub strategy_version : Option String
  pub rule_version : Option String
  pub policy_version : Option String
  pub alternatives : List String
  pub final_disposition : String

pub data Disposition : Type 0 where
  approve reject missing_capability insufficient_evidence : Disposition

abbrev pub required_mandatory : List String
required_mandatory = "security" ∷ "contract_identity" ∷ "chain_state" ∷ "mandatory_freshness" ∷ []

abbrev pub is_mandatory : ComponentClass → Bool
is_mandatory mandatory_pass = true
is_mandatory _ = false

-- `pass == Some(true)`
abbrev pub passed : Option Bool → Bool
passed none = false
passed (some b) = b

-- One turn of the second loop.
unfoldable pub by_class : ComponentClass → Option Bool → Bool
by_class mandatory_pass p = passed p
by_class halt_input p = not (passed p)
by_class _ p = true

module _ {V : Type 0} where
  -- The filter of the loop over the required names.
  abbrev pub matches : String → ComponentResult V → Bool
  matches required c = is_mandatory c.component_class && str_eq c.component_name required

  -- `matching.len() != 1 || matching[0].pass != Some(true)` is the refusal.
  unfoldable pub sole_pass : List (ComponentResult V) → Bool
  sole_pass [] = false
  sole_pass (c ∷ []) = passed c.pass
  sole_pass (c ∷ d ∷ rest) = false

  unfoldable pub required_ok : List (ComponentResult V) → String → Bool
  required_ok components required = sole_pass (filter (matches required) components)

  abbrev pub component_ok : ComponentResult V → Bool
  component_ok c = by_class c.component_class c.pass

-- `as_object().map(|o| o.is_empty()).unwrap_or(true)`
unfoldable pub no_freshness : (js : Json) → js.Value → Bool
no_freshness js v = elim (js.as_object v) [ none ↦ true | some o ↦ is_empty o ]

module _ {F : Type 0} (js : Json) where
  open js use {Value}

  unfoldable pub evaluate : DecisionBundle F Value → Disposition
  evaluate b =
      if is_empty b.evidence_snapshot_ids
      then insufficient_evidence
      else if no_freshness js b.source_freshness
      then insufficient_evidence
      else if not (is_empty b.missing_capabilities)
      then missing_capability
      else if not (all required_mandatory (required_ok b.component_results))
      then reject
      else if not (all b.component_results component_ok)
      then reject
      else approve

  unfoldable pub is_reproducible : DecisionBundle F Value → Bool
  is_reproducible b = not (is_empty b.evidence_snapshot_ids)

  unfoldable pub unresolved_mandatory : DecisionBundle F Value → ℕ
  unresolved_mandatory b = length (
      filter (λ (c : ComponentResult Value). is_mandatory c.component_class && not (passed c.pass))
        b.component_results)
