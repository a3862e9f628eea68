-- ===== src/Decision/Examples.antt =====
-- Concrete bundles, and the theorems at them.
use solana_whale_intelligenc.Prelude.{ℕ, ◌≡◌, refl, ◌↔◌, true, false, none, some, [], ◌∷◌, String}
use solana_whale_intelligenc.Json.Sample.{Sample, text, object, sample_json}
use solana_whale_intelligenc.Event.{TruthStatus}
use solana_whale_intelligenc.Execution.{buy, trade}
use solana_whale_intelligenc.Decision.{
  mandatory_pass, halt_input, ComponentResult, DecisionBundle, approve, reject, no_freshness,
  evaluate, required_ok, sole_pass, by_class,
}
use solana_whale_intelligenc.Decision.Laws.{IsApprovable, approve-IsApprovable}

abbrev mandatory : String → ComponentResult Sample
mandatory name = record {
  component_class = mandatory_pass;
  component_name = name;
  pass = some true;
  result = text "ok";
}

abbrev bundle : DecisionBundle ℕ Sample
bundle = record {
  target_entity = "token:solana:m";
  target_action = trade buy;
  decision_at = "10:00";
  evidence_snapshot_ids = "s1" ∷ [];
  component_results =
      mandatory "security"
      ∷ mandatory "contract_identity"
      ∷ mandatory "chain_state"
      ∷ mandatory "mandatory_freshness"
      ∷ record {
        component_class = halt_input;
        component_name = "halt";
        pass = some false;
        result = text "-";
      }
      ∷ [];
  missing_capabilities = [];
  source_freshness = object (("rpc", "10:00") ∷ []);
  confidence = none;
  truth_status = TruthStatus.confirmed;
  strategy_version = none;
  rule_version = none;
  policy_version = none;
  alternatives = [];
  final_disposition = "approve";
}

-- The security component is claimed a second time.
abbrev doubled : DecisionBundle ℕ Sample
doubled = record bundle { component_results = mandatory "security" ∷ bundle.component_results }

bundle_approved : evaluate sample_json bundle ≡ approve
unfolding evaluate no_freshness required_ok sole_pass by_class
bundle_approved = refl

doubled_rejected : evaluate sample_json doubled ≡ reject
unfolding evaluate no_freshness required_ok sole_pass by_class
doubled_rejected = refl

approve-IsApprovable_example :
    (evaluate sample_json bundle ≡ approve) ↔ IsApprovable sample_json bundle
approve-IsApprovable_example = approve-IsApprovable sample_json bundle
