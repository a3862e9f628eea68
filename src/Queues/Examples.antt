-- ===== src/Queues/Examples.antt =====
-- Backpressure on a concrete state, and the theorems at it.
use mathlib.Core.List.{reverse}
use solana_whale_intelligenc.Prelude.{◌+◌, ◌≡◌, refl, true, false, [], ◌∷◌, All, max, min}
use solana_whale_intelligenc.Queues.{
  queue_funding_radar, queue_seed_sync, queue_historical_backfill, queue_signal_eval, all_queues,
  QueueState, is_paused, set_paused, paused_count, pause_loop, pause_bottom_up,
}
use solana_whale_intelligenc.Queues.Counting.{idle, pause_bottom_up_count}

-- The funding radar is paused by hand.
abbrev manual : QueueState
manual = record { paused = (queue_funding_radar, true) ∷ []; lag_seconds = [] }

three_paused :
    All
      (λ q. is_paused (pause_bottom_up manual 3) q ≡ true)
      (queue_signal_eval ∷ queue_historical_backfill ∷ queue_funding_radar ∷ [])
unfolding pause_bottom_up pause_loop is_paused set_paused paused_count
three_paused = (refl, (refl, (refl, tt)))

seed_running : is_paused manual queue_seed_sync ≡ false
unfolding is_paused
seed_running = refl

seed_paused : is_paused (pause_bottom_up manual 4) queue_seed_sync ≡ true
unfolding pause_bottom_up pause_loop is_paused set_paused paused_count
seed_paused = refl

pause_bottom_up_count_example :
    paused_count (pause_bottom_up manual 3)
    ≡ max (paused_count manual) (min 3 (paused_count manual + idle (reverse all_queues) manual))
pause_bottom_up_count_example = pause_bottom_up_count manual 3
