-- ===== src/Intent.antt =====
-- src/sf/intent.rs: the states of an execution intent, its transition table and what a transition
-- does to the reserved capital. `can_transition` of src/sf/execution_runtime.rs is the same table.
pub mod Table
pub mod Runs
mod Examples
use solana_whale_intelligenc.Prelude.{Bool, true, false, Option, String}
use solana_whale_intelligenc.Execution.{Action}

pub data IntentState : Type 0 where
  proposed approved reserved built simulated signed submitted confirmed : IntentState
  failed_safe unknown_reconciliation cancelled : IntentState

unfoldable pub can_transition_to : IntentState → IntentState → Bool
can_transition_to proposed approved = true
can_transition_to approved reserved = true
can_transition_to reserved built = true
can_transition_to built simulated = true
can_transition_to simulated signed = true
can_transition_to signed submitted = true
can_transition_to submitted confirmed = true
can_transition_to proposed cancelled = true
can_transition_to approved cancelled = true
can_transition_to reserved failed_safe = true
can_transition_to built failed_safe = true
can_transition_to simulated failed_safe = true
can_transition_to signed failed_safe = true
can_transition_to submitted failed_safe = true
can_transition_to submitted unknown_reconciliation = true
can_transition_to unknown_reconciliation confirmed = true
can_transition_to unknown_reconciliation failed_safe = true
can_transition_to unknown_reconciliation cancelled = true
can_transition_to _ _ = false

unfoldable pub is_terminal : IntentState → Bool
is_terminal confirmed = true
is_terminal failed_safe = true
is_terminal cancelled = true
is_terminal _ = false

pub record Intent : Type 0 where
  pub intent_hash : String
  pub chain : String
  pub wallet : String
  pub action : Action
  pub target_entity : String
  pub policy_version : String
  pub strategy_version : Option String
  pub source_event_id : Option String
  pub nonce : Option String
  pub state : IntentState

pub data ReservationAction : Type 0 where
  hold release : ReservationAction

unfoldable pub reservation_action : IntentState → ReservationAction
reservation_action confirmed = release
reservation_action failed_safe = release
reservation_action cancelled = release
reservation_action unknown_reconciliation = hold
reservation_action _ = hold

-- `can_transition` of execution_runtime.rs delegates to the table.
unfoldable pub can_transition : IntentState → IntentState → Bool
unfolding can_transition_to
can_transition current next = can_transition_to current next
