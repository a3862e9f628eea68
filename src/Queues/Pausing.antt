-- ===== src/Queues/Pausing.antt =====
-- Which queues the backpressure pauses.
use mathlib.Core.List.{reverse}
use solana_whale_intelligenc.Prelude.{
  ℕ, ◌+◌, ◌≡◌, refl, sym, subst, ◌⊎◌, inl, inr, Bool, true, false, ◌||◌, List, [], ◌∷◌, ◌++◌,
  String, arith, leb, All, str_eq, eq_iff, if◌then◌else◌, Bool-cases,
}
use solana_whale_intelligenc.Prelude.Dict.{get-put}
use solana_whale_intelligenc.Queues.{
  QueueState, queue_live_watch, queue_signal_eval, queue_historical_backfill, queue_seed_sync,
  queue_telegram_ingest, queue_funding_radar, all_queues, is_paused, set_paused, pause_loop,
  pause_bottom_up, paused_count, resume_loop, resume_all,
}

pub is_paused-set_paused :
    (s : QueueState) (k q : String) (b : Bool)
    → is_paused (set_paused s k b) q ≡ (if str_eq k q then b else is_paused s q)
unfolding is_paused set_paused
is_paused-set_paused s k q b = ground (arith, get-put q k b s.paused)

-- What the loop does to a queue that it does not reach, or that is paused already.
loop_keeps :
    (target : ℕ) (queues : List String) (count : ℕ) (s : QueueState) (q : String)
    → is_paused s q ≡ true
    → is_paused (pause_loop target queues count s) q ≡ true
unfolding pause_loop
loop_keeps target [] count s q h = h
loop_keeps target (k ∷ ks) count s q h = ground (
  arith,
  loop_keeps target ks count s q,
  loop_keeps target ks (count + 1) (set_paused s k true) q,
  is_paused-set_paused s k q true,
)

loop_spares :
    (target : ℕ) (queues : List String) (count : ℕ) (s : QueueState)
    → is_paused (pause_loop target queues count s) queue_live_watch ≡ is_paused s queue_live_watch
unfolding pause_loop
loop_spares target [] count s = refl
loop_spares target (k ∷ ks) count s = ground (
  arith,
  loop_spares target ks count s,
  loop_spares target ks (count + 1) (set_paused s k true),
  is_paused-set_paused s k queue_live_watch true,
)

module _ (target : ℕ) (k : String) (ks : List String) (count : ℕ) (s : QueueState) where
  pub loop-stop : leb target count ≡ true → pause_loop target (k ∷ ks) count s ≡ s
  unfolding pause_loop
  loop-stop h = ground arith

  pub loop-skip :
      leb target count ≡ false
      → (str_eq k queue_live_watch || is_paused s k) ≡ true
      → pause_loop target (k ∷ ks) count s ≡ pause_loop target ks count s
  unfolding pause_loop
  loop-skip h p = ground arith

  pub loop-pause :
      leb target count ≡ false
      → (str_eq k queue_live_watch || is_paused s k) ≡ false
      → pause_loop target (k ∷ ks) count s ≡ pause_loop target ks (count + 1) (set_paused s k true)
  unfolding pause_loop
  loop-pause h p = ground arith

-- A queue is paused only if the queues before it in the loop are.
loop_order :
    (target : ℕ) (before after : List String) (q : String) (count : ℕ) (s : QueueState)
    → All (λ k. (str_eq k queue_live_watch || str_eq k q) ≡ false) before
    → is_paused s q ≡ false
    → is_paused (pause_loop target (before ++ q ∷ after) count s) q ≡ true
    → All (λ k. is_paused (pause_loop target (before ++ q ∷ after) count s) k ≡ true) before
loop_order target [] after q count s other h g = tt
loop_order target (k ∷ ks) after q count s (o, others) h g = elim (Bool-cases (leb target count)) [
  | inl stop ↦ absurd (ground (arith, loop-stop target k (ks ++ q ∷ after) count s))
  | inr more ↦ elim (Bool-cases (is_paused s k)) [
    | inl old ↦
        let same = loop-skip target k (ks ++ q ∷ after) count s more (ground arith) in
        let rest = loop_order target ks after q count s others h (rw same at g) in
        (
          rw same (loop_keeps target (ks ++ q ∷ after) count s k old),
          subst (λ t. All (λ j. is_paused t j ≡ true) ks) (sym same) rest,
        )
    | inr fresh ↦
        let t = set_paused s k true in
        let same = loop-pause target k (ks ++ q ∷ after) count s more (ground arith) in
        let rest =
          loop_order target ks after q (count + 1) t others
            (ground (arith, is_paused-set_paused s k q true)) (rw same at g) in
        (
          rw same (
              loop_keeps target (ks ++ q ∷ after) (count + 1) t k
                (ground (arith, is_paused-set_paused s k k true, eq_iff k k))),
          subst (λ t. All (λ j. is_paused t j ≡ true) ks) (sym same) rest,
        )
  ]
]

-- The queues of lower precedence than a queue, the lowest first.
abbrev pub below_from : List String → String → List String
below_from [] q = []
below_from (k ∷ ks) q = let rest = below_from ks q in if str_eq k q then [] else k ∷ rest

abbrev pub below : String → List String
below q = below_from (reverse all_queues) q

-- Backpressure never touches the pause state of the live watch, and never resumes a queue.
pub pause_bottom_up_keeps :
    (s : QueueState) (target : ℕ) (q : String)
    → (is_paused (pause_bottom_up s target) queue_live_watch ≡ is_paused s queue_live_watch)
      × (is_paused s q ≡ true → is_paused (pause_bottom_up s target) q ≡ true)
unfolding pause_bottom_up
pause_bottom_up_keeps s target q = (
  loop_spares target (reverse all_queues) (paused_count s) s,
  loop_keeps target (reverse all_queues) (paused_count s) s q,
)

abbrev Absent : List String → String → Type 0
Absent ks q = All (λ k. str_eq k q ≡ false) ks

-- A queue is absent, or the list splits at it behind the queues of lower precedence.
found_or_Absent :
    (ks : List String) (q : String)
    → Absent ks q ⊎ ((rest : List String) × (ks ≡ below_from ks q ++ q ∷ rest))
found_or_Absent [] q = inl tt
found_or_Absent (k ∷ ks) q = elim (Bool-cases (str_eq k q)) [
  | inl e ↦ inr (ks, ground (arith, eq_iff k q))
  | inr e ↦ elim (found_or_Absent ks q) [
    | inl a ↦ inl (e, a)
    | inr (rest, split) ↦ inr (rest, ground arith)
  ]
]

below-other : (ks : List String) (q : String) → Absent (below_from ks q) q
below-other [] q = tt
below-other (k ∷ ks) q = ground (arith, below-other ks q)

-- Where the live watch stands last, no queue that is found has it below.
below-live :
    (ks : List String) (q : String)
    → Absent ks queue_live_watch
    → Absent (below_from (ks ++ queue_live_watch ∷ []) q) queue_live_watch
      ⊎ Absent (ks ++ queue_live_watch ∷ []) q
below-live [] q h = ground arith
below-live (k ∷ ks) q h = ground (arith, below-live ks q h.1)

Absent-both :
    (ks : List String) (p q : String)
    → Absent ks p
    → Absent ks q
    → All (λ k. (str_eq k p || str_eq k q) ≡ false) ks
Absent-both [] p q h g = tt
Absent-both (k ∷ ks) p q h g = ground (arith, Absent-both ks p q h.1 g.1)

loop_frame :
    (target : ℕ) (ks : List String) (count : ℕ) (s : QueueState) (q : String)
    → Absent ks q
    → is_paused (pause_loop target ks count s) q ≡ is_paused s q
unfolding pause_loop
loop_frame target [] count s q h = refl
loop_frame target (k ∷ ks) count s q h = ground (
  arith,
  loop_frame target ks count s q h.1,
  loop_frame target ks (count + 1) (set_paused s k true) q h.1,
  is_paused-set_paused s k q true,
)

loop_below :
    (target : ℕ) (ks before after : List String) (q : String) (count : ℕ) (s : QueueState)
    → ks ≡ before ++ q ∷ after
    → Absent before queue_live_watch
    → Absent before q
    → is_paused s q ≡ false
    → is_paused (pause_loop target ks count s) q ≡ true
    → All (λ k. is_paused (pause_loop target ks count s) k ≡ true) before
loop_below target ks before after q count s e live other h =
    subst
      (λ l.
        is_paused (pause_loop target l count s) q ≡ true
        → All (λ k. is_paused (pause_loop target l count s) k ≡ true) before)
      (sym e)
      (loop_order target before after q count s (Absent-both before queue_live_watch q live other)
        h)

-- The queues but the live watch, from the lowest precedence upward.
abbrev pausable : List String
pausable =
    queue_signal_eval ∷ queue_historical_backfill ∷ queue_seed_sync ∷ queue_telegram_ingest
    ∷ queue_funding_radar ∷ []

-- Pausing goes from the bottom upward: whichever queue a call newly pauses, every queue of lower
-- precedence is paused after that call.
pub pause_bottom_up_order :
    (s : QueueState) (target : ℕ) (q : String)
    → is_paused s q ≡ false
    → is_paused (pause_bottom_up s target) q ≡ true
    → All (λ k. is_paused (pause_bottom_up s target) k ≡ true) (below q)
unfolding pause_bottom_up
pause_bottom_up_order s target q h g = elim (below-live pausable q (ground arith)) [
  | inr absent ↦ cc (loop_frame target (reverse all_queues) (paused_count s) s q absent)
  | inl live ↦ elim (found_or_Absent (reverse all_queues) q) [
    | inl absent ↦ cc (loop_frame target (reverse all_queues) (paused_count s) s q absent)
    | inr (rest, e) ↦
        loop_below target (reverse all_queues) (below q) rest q (paused_count s) s e live
          (below-other (reverse all_queues) q) h g
  ]
]

resume_keeps :
    (ks : List String) (s : QueueState) (q : String)
    → is_paused s q ≡ false
    → is_paused (resume_loop ks s) q ≡ false
unfolding resume_loop
resume_keeps [] s q h = h
resume_keeps (k ∷ ks) s q h =
    resume_keeps ks (set_paused s k false) q (ground (arith, is_paused-set_paused s k q false))

resume_loop-All :
    (ks : List String) (s : QueueState) → All (λ k. is_paused (resume_loop ks s) k ≡ false) ks
unfolding resume_loop
resume_loop-All [] s = tt
resume_loop-All (k ∷ ks) s = (
  resume_keeps ks (set_paused s k false) k
      (ground (arith, is_paused-set_paused s k k false, eq_iff k k)),
  resume_loop-All ks (set_paused s k false),
)

-- After a resume none of the six queues is paused, however they were paused before.
pub resume-pause :
    (s : QueueState) (target : ℕ)
    → All (λ k. is_paused (resume_all (pause_bottom_up s target)) k ≡ false) all_queues
unfolding resume_all
resume-pause s target = resume_loop-All all_queues (pause_bottom_up s target)
