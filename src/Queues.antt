-- ===== src/Queues.antt =====
-- src/queues.rs: the six queues in fixed precedence, paused from the bottom upward.
pub mod Pausing
pub mod Counting
mod Examples
use mathlib.Core.List.{reverse}
use solana_whale_intelligenc.Prelude.{
  ℕ, ◌+◌, Bool, true, false, not, ◌&&◌, List, [], ◌∷◌, String, Option, none, some, ltb, leb, length,
  filter, str_eq, if◌then◌else◌,
}
use solana_whale_intelligenc.Prelude.Dict.{get, put}

abbrev pub queue_live_watch : String
queue_live_watch = "live_watch"

abbrev pub queue_funding_radar : String
queue_funding_radar = "funding_radar"

abbrev pub queue_telegram_ingest : String
queue_telegram_ingest = "telegram_ingest"

abbrev pub queue_seed_sync : String
queue_seed_sync = "seed_sync"

abbrev pub queue_historical_backfill : String
queue_historical_backfill = "historical_backfill"

abbrev pub queue_signal_eval : String
queue_signal_eval = "signal_eval"

abbrev pub all_queues : List String
all_queues =
    queue_live_watch ∷ queue_funding_radar ∷ queue_telegram_ingest ∷ queue_seed_sync
    ∷ queue_historical_backfill ∷ queue_signal_eval ∷ []

pub record QueueState : Type 0 where
  pub paused : List (String × Bool)
  pub lag_seconds : List (String × ℕ)  -- u64

unfoldable pub new : QueueState
new = record { paused = []; lag_seconds = [] }

-- `.copied().unwrap_or(d)`
abbrev pub or_else {ℓ} : {A : Type ℓ} → Option A → A → A
or_else none d = d
or_else (some a) d = a

unfoldable pub is_paused : QueueState → String → Bool
is_paused s queue = or_else (get queue s.paused) false

unfoldable pub set_paused : QueueState → String → Bool → QueueState
set_paused s queue paused = record s { paused = put queue paused s.paused }

unfoldable pub set_lag : QueueState → String → ℕ → QueueState
set_lag s queue seconds = record s { lag_seconds = put queue seconds s.lag_seconds }

-- `self.paused.values().filter(|p| **p).count()`
unfoldable pub paused_count : QueueState → ℕ
paused_count s = length (filter (λ (e : String × Bool). e.1) s.paused)

-- The loop over the queues that are left; returning the state is the `break`.
unfoldable pub pause_loop : ℕ → List String → ℕ → QueueState → QueueState
pause_loop target [] count s = s
pause_loop target (queue ∷ queues) count s =
    let skip = pause_loop target queues count s in
    let pause = pause_loop target queues (count + 1) (set_paused s queue true) in
    if leb target count
    then s
    else if str_eq queue queue_live_watch
    then skip
    else if is_paused s queue
    then skip
    else pause

unfoldable pub pause_bottom_up : QueueState → ℕ → QueueState
pause_bottom_up s target = pause_loop target (reverse all_queues) (paused_count s) s

unfoldable pub resume_loop : List String → QueueState → QueueState
resume_loop [] s = s
resume_loop (queue ∷ queues) s = resume_loop queues (set_paused s queue false)

unfoldable pub resume_all : QueueState → QueueState
resume_all s = resume_loop all_queues s

unfoldable pub backfill_allowed : QueueState → ℕ → Bool
backfill_allowed s pause_lag_seconds =
    let lag = or_else (get queue_historical_backfill s.lag_seconds) 0 in
    not (is_paused s queue_historical_backfill) && ltb lag pause_lag_seconds
