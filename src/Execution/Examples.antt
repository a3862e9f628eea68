-- ===== src/Execution/Examples.antt =====
-- Kill switches, names and checklists on concrete inputs, and the theorems at them.
use solana_whale_intelligenc.Prelude.{
  ◌≡◌, refl, ◌⊎◌, ◌↔◌, true, false, ◌&&◌, none, some, [], ◌∷◌, All, is_blank,
}
use solana_whale_intelligenc.Execution.{
  buy, sell, KillSwitch, global, wallet, halt, exit_only, SignerPolicy,
}
use solana_whale_intelligenc.Execution.Halts.{
  is_halt, is_risk_reducing, action_permitted, action_permitted_iff,
}
use solana_whale_intelligenc.Execution.Signer.{non_empty, signer_policy_passes}

abbrev exit_switch : KillSwitch
exit_switch = record { scope = global; scope_key = none; mode = exit_only; active = true }

abbrev idle_switch : KillSwitch
idle_switch = record { scope = wallet; scope_key = some "w1"; mode = halt; active = false }

sell_permitted : action_permitted (idle_switch ∷ exit_switch ∷ []) sell ≡ true
unfolding action_permitted is_risk_reducing
sell_permitted = refl

buy_refused : action_permitted (idle_switch ∷ exit_switch ∷ []) buy ≡ false
unfolding action_permitted is_risk_reducing
buy_refused = refl

action_permitted_iff_example : (action_permitted (idle_switch ∷ exit_switch ∷ []) sell ≡ true) ↔ (
    All (λ s. s.active ≡ false) (idle_switch ∷ exit_switch ∷ [])
    ⊎ All (λ s. (s.active && is_halt s.mode) ≡ false) (idle_switch ∷ exit_switch ∷ [])
      × (is_risk_reducing sell ≡ true))
action_permitted_iff_example = action_permitted_iff (idle_switch ∷ exit_switch ∷ []) sell

-- Everything is in order but the minimum output, which is blank.
abbrev blank_output : SignerPolicy
blank_output = record {
  chain_id = some "101";
  chain_genesis = some "g";
  policy_active = true;
  policy_not_expired = true;
  policy_not_halted = true;
  intent_hash_valid = true;
  nonce_valid = true;
  router_allowed = true;
  program_allowed = true;
  function_selector = some "swap";
  token_pair_verified = true;
  recipient_verified = true;
  max_native_debit = some "1";
  max_token_debit = some "1";
  min_output = some " ";
  slippage_ok = true;
  price_impact_ok = true;
  deadline_ok = true;
  simulation_delta_ok = true;
  workspace_binding_valid = true;
  wallet_binding_valid = true;
  policy_binding_valid = true;
  idempotency_binding_valid = true;
  factory_allowed = true;
  manager_allowed = true;
  pool_verified = true;
  authority_verified = true;
  gas_ok = true;
  priority_fee_ok = true;
  tip_ok = true;
  rent_ok = true;
  writable_accounts_allowed = true;
  approvals_bounded = true;
  instructions_decoded = true;
  no_unrelated_operations = true;
}

abbrev complete_policy : SignerPolicy
complete_policy = record blank_output { min_output = some "1" }

blank_refused : signer_policy_passes blank_output ≡ false
unfolding signer_policy_passes non_empty is_blank
blank_refused = refl

complete_passes : signer_policy_passes complete_policy ≡ true
unfolding signer_policy_passes non_empty is_blank
complete_passes = refl
