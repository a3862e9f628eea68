-- ===== src/Strategy/Life.antt =====
-- What the life of a strategy passes through before it is live.
use solana_whale_intelligenc.Prelude.{◌≡◌, refl, inl, inr, true, List, [], ◌∷◌, arith, In, All}
use solana_whale_intelligenc.Run.{Run, start, step, visited}
use solana_whale_intelligenc.Strategy.{
  StrategyLifecycle, draft, shadow, paper, validated, approved, canary, active, paused, retired,
  can_transition, is_live_ready,
}

-- The stages up to a stage, itself included.
abbrev pub up_to : StrategyLifecycle → List StrategyLifecycle
up_to draft = draft ∷ []
up_to shadow = shadow ∷ draft ∷ []
up_to paper = paper ∷ shadow ∷ draft ∷ []
up_to validated = validated ∷ paper ∷ shadow ∷ draft ∷ []
up_to approved = approved ∷ validated ∷ paper ∷ shadow ∷ draft ∷ []
up_to canary = canary ∷ approved ∷ validated ∷ paper ∷ shadow ∷ draft ∷ []
up_to active = active ∷ canary ∷ approved ∷ validated ∷ paper ∷ shadow ∷ draft ∷ []
up_to paused = paused ∷ active ∷ canary ∷ approved ∷ validated ∷ paper ∷ shadow ∷ draft ∷ []
up_to retired =
    retired ∷ paused ∷ active ∷ canary ∷ approved ∷ validated ∷ paper ∷ shadow ∷ draft ∷ []

In-later :
    (u : StrategyLifecycle) (l ks : List StrategyLifecycle)
    → All (λ k. In k l) ks
    → All (λ k. In k (u ∷ l)) ks
In-later u l [] h = tt
In-later u l (k ∷ ks) h = (inr h.0, In-later u l ks h.1)

In-step :
    (t u : StrategyLifecycle) (l : List StrategyLifecycle)
    → can_transition t u ≡ true
    → All (λ k. In k (u ∷ l)) (up_to t)
    → All (λ k. In k (u ∷ l)) (up_to u)
unfolding can_transition
In-step t u l h a = ground arith

-- No gate is skipped: a run from `Draft` has stood in every stage that comes before the one that it
-- has reached, pauses and resumptions between included.
pub visited-up_to :
    {t : StrategyLifecycle} (r : Run can_transition draft t) → All (λ k. In k (visited r)) (up_to t)
visited-up_to start = (inl refl, tt)
visited-up_to (step {t} r u h) =
    In-step t u (visited r) h (In-later u (visited r) (up_to t) (visited-up_to r))

live-validated :
    (t : StrategyLifecycle) (l : List StrategyLifecycle)
    → is_live_ready t ≡ true
    → All (λ k. In k l) (up_to t)
    → In shadow l × In paper l × In validated l × In approved l
unfolding is_live_ready
live-validated t l h a = ground arith

-- A strategy that is ready to go live has been through shadow, paper, validation and approval.
pub live_ready-visited :
    {t : StrategyLifecycle} (r : Run can_transition draft t)
    → is_live_ready t ≡ true
    → In shadow (visited r)
      × In paper (visited r)
      × In validated (visited r)
      × In approved (visited r)
live_ready-visited {t} r h = live-validated t (visited r) h (visited-up_to r)
