-- ===== src/Execution.antt =====
-- src/sf/execution.rs: the closed action types, the kill switch and the signer's checklist.
-- `PolicyLimits` is data that no code of the modelled parts reads; it is left out.
pub mod Halts
pub mod Actions
pub mod Signer
mod Examples
use solana_whale_intelligenc.Prelude.{Bool, Option, String}

pub data TradeAction : Type 0 where
  buy sell partial_sell close emergency_exit : TradeAction

pub data LpAction : Type 0 where
  open_position add_liquidity claim_fees compound_fees partial_withdraw : LpAction
  close_position reseed_position swap_residuals lp_emergency_exit : LpAction

-- `Action::Trade` and `Action::Lp`.
pub data Action : Type 0 where
  trade : TradeAction → Action
  lp : LpAction → Action

pub data KillSwitchScope : Type 0 where
  global chain wallet strategy protocol source_health daily_loss signer_local : KillSwitchScope

pub data KillSwitchMode : Type 0 where
  halt exit_only : KillSwitchMode

pub record KillSwitch : Type 0 where
  pub scope : KillSwitchScope
  pub scope_key : Option String
  pub mode : KillSwitchMode
  pub active : Bool

pub record SignerPolicy : Type 0 where
  pub chain_id : Option String
  pub chain_genesis : Option String
  pub policy_active : Bool
  pub policy_not_expired : Bool
  pub policy_not_halted : Bool
  pub intent_hash_valid : Bool
  pub nonce_valid : Bool
  pub router_allowed : Bool
  pub program_allowed : Bool
  pub function_selector : Option String
  pub token_pair_verified : Bool
  pub recipient_verified : Bool
  pub max_native_debit : Option String
  pub max_token_debit : Option String
  pub min_output : Option String
  pub slippage_ok : Bool
  pub price_impact_ok : Bool
  pub deadline_ok : Bool
  pub simulation_delta_ok : Bool
  pub workspace_binding_valid : Bool
  pub wallet_binding_valid : Bool
  pub policy_binding_valid : Bool
  pub idempotency_binding_valid : Bool
  pub factory_allowed : Bool
  pub manager_allowed : Bool
  pub pool_verified : Bool
  pub authority_verified : Bool
  pub gas_ok : Bool
  pub priority_fee_ok : Bool
  pub tip_ok : Bool
  pub rent_ok : Bool
  pub writable_accounts_allowed : Bool
  pub approvals_bounded : Bool
  pub instructions_decoded : Bool
  pub no_unrelated_operations : Bool
