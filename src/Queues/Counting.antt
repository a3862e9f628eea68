-- ===== src/Queues/Counting.antt =====
-- How many queues the backpressure pauses.
use mathlib.Core.List.{reverse}
use solana_whale_intelligenc.Prelude.{
  ℕ, suc, ◌+◌, ◌≡◌, refl, ap, inl, inr, Bool, true, false, ◌||◌, List, [], ◌∷◌, String, arith, leb,
  min, max, length, All, filter, str_eq, if◌then◌else◌, Bool-cases, leb→le, tests,
}
use solana_whale_intelligenc.Prelude.Dict.{get, put}
use solana_whale_intelligenc.Queues.{
  QueueState, queue_live_watch, all_queues, or_else, is_paused, set_paused, paused_count,
  pause_loop, pause_bottom_up,
}
use solana_whale_intelligenc.Queues.Pausing.{is_paused-set_paused, loop-stop, loop-skip, loop-pause}

-- How many queues of a list are running, the live watch not counted.
unfoldable pub idle : List String → QueueState → ℕ
idle [] s = 0
idle (k ∷ ks) s =
    let rest = idle ks s in if str_eq k queue_live_watch || is_paused s k then rest else suc rest

abbrev Distinct : List String → Type 0
Distinct [] = Unit
Distinct (k ∷ ks) = All (λ j. str_eq k j ≡ false) ks × Distinct ks

idle-set_paused :
    (ks : List String) (s : QueueState) (k : String)
    → All (λ j. str_eq k j ≡ false) ks
    → idle ks (set_paused s k true) ≡ idle ks s
unfolding idle
idle-set_paused [] s k h = refl
idle-set_paused (j ∷ ks) s k h =
    ground (arith, idle-set_paused ks s k h.1, is_paused-set_paused s k j true)

abbrev is_set : String × Bool → Bool
is_set e = e.1

count-put :
    (k : String) (m : List (String × Bool))
    → or_else (get k m) false ≡ false
    → length (filter is_set (put k true m)) ≡ suc (length (filter is_set m))
count-put k [] h = refl
count-put k ((j, b) ∷ m) h = ground (arith, count-put k m)

paused_count-set_paused :
    (s : QueueState) (k : String)
    → is_paused s k ≡ false
    → paused_count (set_paused s k true) ≡ suc (paused_count s)
unfolding paused_count set_paused is_paused
paused_count-set_paused s k h = count-put k s.paused h

idle-skip :
    (k : String) (ks : List String) (s : QueueState)
    → (str_eq k queue_live_watch || is_paused s k) ≡ true
    → idle (k ∷ ks) s ≡ idle ks s
unfolding idle
idle-skip k ks s h = ground arith

idle-pause :
    (k : String) (ks : List String) (s : QueueState)
    → All (λ j. str_eq k j ≡ false) ks
    → (str_eq k queue_live_watch || is_paused s k) ≡ false
    → idle (k ∷ ks) s ≡ suc (idle ks (set_paused s k true))
unfolding idle
idle-pause k ks s apart h = ground (arith, idle-set_paused ks s k apart)

or-false_right : (a b : Bool) → (a || b) ≡ false → b ≡ false
or-false_right a b h = ground arith

abbrev reached : ℕ → List String → QueueState → ℕ
reached target ks s = max (paused_count s) (min target (paused_count s + idle ks s))

-- The loop pauses running queues until the target is met or none is left.
loop_count :
    (target : ℕ) (ks : List String) (count : ℕ) (s : QueueState)
    → Distinct ks
    → count ≡ paused_count s
    → paused_count (pause_loop target ks count s) ≡ reached target ks s
unfolding pause_loop idle
loop_count target [] count s h e = omega arith
loop_count target (k ∷ ks) count s (apart, rest) e = elim (Bool-cases (leb target count)) [
  | inl stop ↦ rw (loop-stop target k ks count s stop) (omega (tests, leb→le target count stop))
  | inr more ↦ elim (Bool-cases (str_eq k queue_live_watch || is_paused s k)) [
    | inl skip ↦ omega (
      arith,
      ap paused_count (loop-skip target k ks count s more skip),
      idle-skip k ks s skip,
      loop_count target ks count s rest e,
    )
    | inr free ↦
        let t = set_paused s k true in
        let one : paused_count t ≡ suc (paused_count s) =
          paused_count-set_paused s k
            (or-false_right (str_eq k queue_live_watch) (is_paused s k) free) in
        ground (
          arith,
          ap paused_count (loop-pause target k ks count s more free),
          idle-pause k ks s apart free,
          one,
          loop_count target ks (count + 1) t rest (omega arith),
        )
  ]
]

-- A call with a target leaves exactly as many queues paused as the target asks: the number paused
-- before where that is enough already, else the target, as far as there are running queues other
-- than the live watch.
pub pause_bottom_up_count :
    (s : QueueState) (target : ℕ)
    → paused_count (pause_bottom_up s target)
      ≡ max (paused_count s) (min target (paused_count s + idle (reverse all_queues) s))
unfolding pause_bottom_up
pause_bottom_up_count s target =
    loop_count target (reverse all_queues) (paused_count s) s (ground arith) refl
