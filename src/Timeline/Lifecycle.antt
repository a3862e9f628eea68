-- ===== src/Timeline/Lifecycle.antt =====
-- src/sf/token_runtime.rs: the lifecycle of a token and the wake gate.
use solana_whale_intelligenc.Prelude.{
  ◌≡◌, refl, ◌≤◌, ℕ, Bool, true, false, ◌||◌, Option, none, some, List, [], ◌∷◌, ◌++◌, leb, ◌==◌,
  if◌then◌else◌, each, arith,
}
use solana_whale_intelligenc.Float.{F64}
use solana_whale_intelligenc.Timeline.{
  TokenLifecycle, created, pre_graduation, migrated, active, cooling, dormant, archived, tombstoned,
}

unfoldable pub stage_index : TokenLifecycle → ℕ
stage_index created = 0
stage_index pre_graduation = 1
stage_index migrated = 2
stage_index TokenLifecycle.first_liquidity = 3
stage_index active = 4
stage_index cooling = 5
stage_index dormant = 6
stage_index archived = 7
stage_index tombstoned = 8

-- The derived equality is that of the indices.
unfoldable pub can_advance : TokenLifecycle → TokenLifecycle → Bool
can_advance current next =
    if stage_index current == stage_index archived || stage_index current == stage_index tombstoned
    then false
    else leb (stage_index current) (stage_index next)

unfoldable pub advance : TokenLifecycle → TokenLifecycle → TokenLifecycle
advance current next = if can_advance current next then next else current

unfoldable pub wake_gate : (fl : F64) → Option fl.F → Option fl.F → Bool
wake_gate fl none signal_value = false
wake_gate fl (some base) none = false
wake_gate fl (some base) (some sig) = fl.lt base sig

-- The stages that a token cannot leave.
abbrev pub is_last_stage : TokenLifecycle → Bool
is_last_stage archived = true
is_last_stage tombstoned = true
is_last_stage _ = false

advance_up :
    (current next : TokenLifecycle) → stage_index current ≤ stage_index (advance current next)
unfolding advance can_advance stage_index
advance_up current next = ground arith

advance_terminal :
    (current next : TokenLifecycle) → is_last_stage current ≡ true → advance current next ≡ current
unfolding advance can_advance stage_index
advance_terminal current next h = ground arith

stays_terminal :
    (current : TokenLifecycle) (later : List TokenLifecycle)
    → is_last_stage current ≡ true
    → each advance current later ≡ current
stays_terminal current [] h = refl
stays_terminal current (next ∷ later) h =
    rw (advance_terminal current next h) (stays_terminal current later h)

goes_up :
    (current : TokenLifecycle) (later : List TokenLifecycle)
    → stage_index current ≤ stage_index (each advance current later)
goes_up current [] = omega arith
goes_up current (next ∷ later) =
    omega (arith, advance_up current next, goes_up (advance current next) later)

each-append :
    (current : TokenLifecycle) (xs ys : List TokenLifecycle)
    → each advance current (xs ++ ys) ≡ each advance (each advance current xs) ys
each-append current [] ys = refl
each-append current (x ∷ xs) ys = each-append (advance current x) xs ys

-- Whatever stages are asked for, one after the other, a token never goes back.
pub lifecycle_never_back :
    (current : TokenLifecycle) (earlier later : List TokenLifecycle)
    → stage_index (each advance current earlier)
      ≤ stage_index (each advance current (earlier ++ later))
lifecycle_never_back current earlier later =
    rw (each-append current earlier later) (goes_up (each advance current earlier) later)

-- And from an archived or tombstoned token nothing leads away.
pub lifecycle_terminal :
    (current : TokenLifecycle) (earlier later : List TokenLifecycle)
    → is_last_stage (each advance current earlier) ≡ true
    → each advance current (earlier ++ later) ≡ each advance current earlier
lifecycle_terminal current earlier later h =
    rw (each-append current earlier later) (stays_terminal (each advance current earlier) later h)
