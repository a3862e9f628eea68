-- ===== src/Execution/Signer.antt =====
-- `signer_policy_passes` of src/sf/execution_runtime.rs: the closed checklist before a signature.
use solana_whale_intelligenc.Prelude.{
  ◌≡◌, refl, ◌↔◌, Bool, true, false, not, ◌&&◌, Option, none, some, List, [], ◌∷◌, String, arith,
  All, all, is_blank, all→All, All→all, and→both, both→and,
}
use mathlib.Core.Bool.{and_assoc, and-true}
use solana_whale_intelligenc.Execution.{SignerPolicy}

-- The closure `non_empty`.
unfoldable pub non_empty : Option String → Bool
non_empty none = false
non_empty (some v) = not (is_blank v)

unfoldable pub signer_policy_passes : SignerPolicy → Bool
signer_policy_passes p =
    non_empty p.chain_id
    && non_empty p.chain_genesis
    && non_empty p.function_selector
    && non_empty p.max_native_debit
    && non_empty p.max_token_debit
    && non_empty p.min_output
    && p.policy_active
    && p.policy_not_expired
    && p.policy_not_halted
    && p.intent_hash_valid
    && p.nonce_valid
    && p.router_allowed
    && p.program_allowed
    && p.token_pair_verified
    && p.recipient_verified
    && p.slippage_ok
    && p.price_impact_ok
    && p.deadline_ok
    && p.simulation_delta_ok
    && p.workspace_binding_valid
    && p.wallet_binding_valid
    && p.policy_binding_valid
    && p.idempotency_binding_valid
    && p.factory_allowed
    && p.manager_allowed
    && p.pool_verified
    && p.authority_verified
    && p.gas_ok
    && p.priority_fee_ok
    && p.tip_ok
    && p.rent_ok
    && p.writable_accounts_allowed
    && p.approvals_bounded
    && p.instructions_decoded
    && p.no_unrelated_operations

-- The texts that must be there and not blank.
abbrev pub texts : SignerPolicy → List (Option String)
texts p =
    p.chain_id ∷ p.chain_genesis ∷ p.function_selector ∷ p.max_native_debit ∷ p.max_token_debit
    ∷ p.min_output ∷ []

-- Every Boolean of the record, in the order of its fields.
abbrev pub checks : SignerPolicy → List Bool
checks p =
    p.policy_active ∷ p.policy_not_expired ∷ p.policy_not_halted ∷ p.intent_hash_valid
    ∷ p.nonce_valid ∷ p.router_allowed ∷ p.program_allowed ∷ p.token_pair_verified
    ∷ p.recipient_verified ∷ p.slippage_ok ∷ p.price_impact_ok ∷ p.deadline_ok
    ∷ p.simulation_delta_ok ∷ p.workspace_binding_valid ∷ p.wallet_binding_valid
    ∷ p.policy_binding_valid ∷ p.idempotency_binding_valid ∷ p.factory_allowed ∷ p.manager_allowed
    ∷ p.pool_verified ∷ p.authority_verified ∷ p.gas_ok ∷ p.priority_fee_ok ∷ p.tip_ok ∷ p.rent_ok
    ∷ p.writable_accounts_allowed ∷ p.approvals_bounded ∷ p.instructions_decoded
    ∷ p.no_unrelated_operations ∷ []

-- A text is present when it is given and holds more than white space.
abbrev pub IsPresent : Option String → Type 0
IsPresent o = (v : String) × (o ≡ some v) × (is_blank v ≡ false)

non_empty→IsPresent : (o : Option String) → non_empty o ≡ true → IsPresent o
unfolding non_empty
non_empty→IsPresent none h = cc
non_empty→IsPresent (some v) h = (v, refl, ground arith)

IsPresent→non_empty : (o : Option String) → IsPresent o → non_empty o ≡ true
unfolding non_empty
IsPresent→non_empty o (v, e, h) = ground arith

passes-all :
    (p : SignerPolicy)
    → signer_policy_passes p ≡ (all (texts p) non_empty && all (checks p) (λ b. b))
unfolding signer_policy_passes
passes-all p = simp (and_assoc, and-true)

All-map :
    {A : Type 0} (P Q : A → Type 0) (xs : List A) → ((x : A) → P x → Q x) → All P xs → All Q xs
All-map P Q [] f h = tt
All-map P Q (x ∷ xs) f h = (f x h.0, All-map P Q xs f h.1)

-- The signer signs exactly when every one of the six mandatory texts is given and not blank, and
-- every one of the twenty-nine checks of the record holds.
pub signer_policy_passes_iff :
    (p : SignerPolicy)
    → (signer_policy_passes p ≡ true) ↔ (All IsPresent (texts p) × All (λ b. b ≡ true) (checks p))
signer_policy_passes_iff p = (
  λ h.
      let (t, c) = and→both _ _ (rw passes-all at h) in
      (
        All-map _ IsPresent (texts p) non_empty→IsPresent (all→All (texts p) non_empty t),
        all→All (checks p) (λ b. b) c,
      ),
  λ h. rw passes-all (
      both→and (All→all (texts p) non_empty (All-map IsPresent _ (texts p) IsPresent→non_empty h.0))
        (All→all (checks p) (λ b. b) h.1)),
)
