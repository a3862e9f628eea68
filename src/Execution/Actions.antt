-- ===== src/Execution/Actions.antt =====
-- `parse_action` of src/sf/execution_runtime.rs: the texts that name an action.
use solana_whale_intelligenc.Prelude.{
  ℕ, ◌-◌, ◌≡◌, refl, sym, subst, ◌⊎◌, ◌↔◌, inl, inr, Bool, true, false, ◌&&◌, ◌||◌, Option, none,
  some, List, [], ◌∷◌, map, String, arith, leb, ◌==◌, if◌then◌else◌, str_eq, eq_iff, codes,
  codes_inj,
}
use solana_whale_intelligenc.Execution.{
  buy, sell, partial_sell, close, emergency_exit, open_position, add_liquidity, claim_fees,
  compound_fees, partial_withdraw, close_position, reseed_position, swap_residuals,
  lp_emergency_exit, Action, trade, lp,
}

-- A `match` arm with three texts.
one_of : String → String → String → String → Bool
one_of s x y z = str_eq s x || str_eq s y || str_eq s z

pub parse_action : String → Option Action
parse_action s =
    if one_of s "buy" "Buy" "BUY"
    then some (trade buy)
    else if one_of s "sell" "Sell" "SELL"
    then some (trade sell)
    else if one_of s "partial_sell" "PartialSell" "PARTIAL_SELL"
    then some (trade partial_sell)
    else if one_of s "close" "Close" "CLOSE"
    then some (trade close)
    else if one_of s "emergency_exit" "EmergencyExit" "EMERGENCY_EXIT"
    then some (trade emergency_exit)
    else if one_of s "lp_emergency_exit" "LpEmergencyExit" "LP_EMERGENCY_EXIT"
    then some (lp lp_emergency_exit)
    else if one_of s "open_position" "OpenPosition" "OPEN_POSITION"
    then some (lp open_position)
    else if one_of s "add_liquidity" "AddLiquidity" "ADD_LIQUIDITY"
    then some (lp add_liquidity)
    else if one_of s "claim_fees" "ClaimFees" "CLAIM_FEES"
    then some (lp claim_fees)
    else if one_of s "compound_fees" "CompoundFees" "COMPOUND_FEES"
    then some (lp compound_fees)
    else if one_of s "partial_withdraw" "PartialWithdraw" "PARTIAL_WITHDRAW"
    then some (lp partial_withdraw)
    else if one_of s "close_position" "ClosePosition" "CLOSE_POSITION"
    then some (lp close_position)
    else if one_of s "reseed_position" "ReseedPosition" "RESEED_POSITION"
    then some (lp reseed_position)
    else if one_of s "swap_residuals" "SwapResiduals" "SWAP_RESIDUALS"
    then some (lp swap_residuals)
    else none

-- The wire name of an action in snake case, and the two other cases computed from it.
abbrev wire : Action → String
wire (trade buy) = "buy"
wire (trade sell) = "sell"
wire (trade partial_sell) = "partial_sell"
wire (trade close) = "close"
wire (trade emergency_exit) = "emergency_exit"
wire (lp open_position) = "open_position"
wire (lp add_liquidity) = "add_liquidity"
wire (lp claim_fees) = "claim_fees"
wire (lp compound_fees) = "compound_fees"
wire (lp partial_withdraw) = "partial_withdraw"
wire (lp close_position) = "close_position"
wire (lp reseed_position) = "reseed_position"
wire (lp swap_residuals) = "swap_residuals"
wire (lp lp_emergency_exit) = "lp_emergency_exit"

abbrev upper : ℕ → ℕ
upper c = if leb b'a' c && leb c b'z' then c - 32 else c

-- Upper camel case: a letter at the start or behind an underscore is raised, underscores go.
abbrev camel_from : Bool → List ℕ → List ℕ
camel_from raised [] = []
camel_from raised (c ∷ cs) =
    let within = camel_from false cs in
    let start = camel_from true cs in
    if c == b'_' then start else (if raised then upper c else c) ∷ within

abbrev Spelled : List ℕ → List ℕ → List ℕ → List ℕ → Type 0
Spelled s x y z = (s ≡ x) ⊎ (s ≡ y) ⊎ (s ≡ z)

-- The text is the action's wire name in snake, upper camel or screaming snake case.
abbrev pub Names : String → Action → Type 0
Names s a = let w = codes (wire a) in Spelled (codes s) w (camel_from true w) (map upper w)

one_of-Spelled :
    (s x y z : String) → one_of s x y z ≡ true → Spelled (codes s) (codes x) (codes y) (codes z)
unfolding one_of
one_of-Spelled s x y z h = ground (arith, eq_iff s x, eq_iff s y, eq_iff s z)

parse_of_Spelled :
    (a : Action) (s x y z : String)
    → parse_action x ≡ some a
    → parse_action y ≡ some a
    → parse_action z ≡ some a
    → Spelled (codes s) (codes x) (codes y) (codes z)
    → parse_action s ≡ some a
parse_of_Spelled a s x y z hx hy hz h = elim h [
  | inl e ↦ subst (λ t. parse_action t ≡ some a) (sym (codes_inj s x e)) hx
  | inr (inl e) ↦ subst (λ t. parse_action t ≡ some a) (sym (codes_inj s y e)) hy
  | inr (inr e) ↦ subst (λ t. parse_action t ≡ some a) (sym (codes_inj s z e)) hz
]

Names-parse : (s : String) (a : Action) → Names s a → parse_action s ≡ some a
unfolding parse_action one_of
Names-parse s (trade buy) h = parse_of_Spelled (trade buy) s "buy" "Buy" "BUY" refl refl refl h
Names-parse s (trade sell) h = parse_of_Spelled (trade sell) s "sell" "Sell" "SELL" refl refl refl h
Names-parse s (trade partial_sell) h =
    parse_of_Spelled (trade partial_sell) s "partial_sell" "PartialSell" "PARTIAL_SELL" refl refl
      refl h
Names-parse s (trade close) h =
    parse_of_Spelled (trade close) s "close" "Close" "CLOSE" refl refl refl h
Names-parse s (trade emergency_exit) h =
    parse_of_Spelled (trade emergency_exit) s "emergency_exit" "EmergencyExit" "EMERGENCY_EXIT" refl
      refl refl h
Names-parse s (lp open_position) h =
    parse_of_Spelled (lp open_position) s "open_position" "OpenPosition" "OPEN_POSITION" refl refl
      refl h
Names-parse s (lp add_liquidity) h =
    parse_of_Spelled (lp add_liquidity) s "add_liquidity" "AddLiquidity" "ADD_LIQUIDITY" refl refl
      refl h
Names-parse s (lp claim_fees) h =
    parse_of_Spelled (lp claim_fees) s "claim_fees" "ClaimFees" "CLAIM_FEES" refl refl refl h
Names-parse s (lp compound_fees) h =
    parse_of_Spelled (lp compound_fees) s "compound_fees" "CompoundFees" "COMPOUND_FEES" refl refl
      refl h
Names-parse s (lp partial_withdraw) h =
    parse_of_Spelled (lp partial_withdraw) s "partial_withdraw" "PartialWithdraw" "PARTIAL_WITHDRAW"
      refl refl refl h
Names-parse s (lp close_position) h =
    parse_of_Spelled (lp close_position) s "close_position" "ClosePosition" "CLOSE_POSITION" refl
      refl refl h
Names-parse s (lp reseed_position) h =
    parse_of_Spelled (lp reseed_position) s "reseed_position" "ReseedPosition" "RESEED_POSITION"
      refl refl refl h
Names-parse s (lp swap_residuals) h =
    parse_of_Spelled (lp swap_residuals) s "swap_residuals" "SwapResiduals" "SWAP_RESIDUALS" refl
      refl refl h
Names-parse s (lp lp_emergency_exit) h =
    parse_of_Spelled (lp lp_emergency_exit) s "lp_emergency_exit" "LpEmergencyExit"
      "LP_EMERGENCY_EXIT" refl refl refl h

-- The arm that answers: the text is spelled as one of its three texts.
parse-Names : (s : String) (a : Action) → parse_action s ≡ some a → Names s a
unfolding parse_action
parse-Names s (trade buy) h = one_of-Spelled s "buy" "Buy" "BUY" (ground arith)
parse-Names s (trade sell) h = one_of-Spelled s "sell" "Sell" "SELL" (ground arith)
parse-Names s (trade partial_sell) h =
    one_of-Spelled s "partial_sell" "PartialSell" "PARTIAL_SELL" (ground arith)
parse-Names s (trade close) h = one_of-Spelled s "close" "Close" "CLOSE" (ground arith)
parse-Names s (trade emergency_exit) h =
    one_of-Spelled s "emergency_exit" "EmergencyExit" "EMERGENCY_EXIT" (ground arith)
parse-Names s (lp open_position) h =
    one_of-Spelled s "open_position" "OpenPosition" "OPEN_POSITION" (ground arith)
parse-Names s (lp add_liquidity) h =
    one_of-Spelled s "add_liquidity" "AddLiquidity" "ADD_LIQUIDITY" (ground arith)
parse-Names s (lp claim_fees) h =
    one_of-Spelled s "claim_fees" "ClaimFees" "CLAIM_FEES" (ground arith)
parse-Names s (lp compound_fees) h =
    one_of-Spelled s "compound_fees" "CompoundFees" "COMPOUND_FEES" (ground arith)
parse-Names s (lp partial_withdraw) h =
    one_of-Spelled s "partial_withdraw" "PartialWithdraw" "PARTIAL_WITHDRAW" (ground arith)
parse-Names s (lp close_position) h =
    one_of-Spelled s "close_position" "ClosePosition" "CLOSE_POSITION" (ground arith)
parse-Names s (lp reseed_position) h =
    one_of-Spelled s "reseed_position" "ReseedPosition" "RESEED_POSITION" (ground arith)
parse-Names s (lp swap_residuals) h =
    one_of-Spelled s "swap_residuals" "SwapResiduals" "SWAP_RESIDUALS" (ground arith)
parse-Names s (lp lp_emergency_exit) h =
    one_of-Spelled s "lp_emergency_exit" "LpEmergencyExit" "LP_EMERGENCY_EXIT" (ground arith)

-- A text parses to an action exactly when it is the action's wire name in snake case, upper camel
-- case or screaming snake case; every other text is refused.
pub parse_action_iff : (s : String) (a : Action) → (parse_action s ≡ some a) ↔ Names s a
parse_action_iff s a = (parse-Names s a, Names-parse s a)
