-- ===== src/Scoring/Laws.antt =====
-- The bounds of the scores, and what full eligibility asks for.
use solana_whale_intelligenc.Prelude.{
  ℕ, ◌-◌, ◌≤◌, ◌<◌, ◌≡◌, refl, sym, ap, ◌∙◌, subst, inl, inr, Bool, true, false, Option, none, some,
  if◌then◌else◌, if-keeps, leb→le, Bool-cases, and→both, arith,
}
use mathlib.Core.Bool.{true≢false}
use solana_whale_intelligenc.Prelude.Int.{ℤ, pos, leb_ℤ, ◌-ℤ◌}
use solana_whale_intelligenc.Decimal.{Decimal}
use solana_whale_intelligenc.Scoring.Scores.{
  ScoreInputs, ScoringConfig, hold_penalty, sell_race_penalty, clamp, skill_total, skill_score,
  or_none, drift_penalty, bot_penalty, penalties_of, total_penalty, score_after, copyability_score,
  floor_of, compute_wallet_score, full_entry_eligible,
}

score_after_lem : (n : ℕ) → score_after n ≡ 100 - n
unfolding score_after ◌-ℤ◌
score_after_lem n = ground (arith)

short : (hold : ℤ) → leb_ℤ hold (pos 5) ≡ true → hold_penalty (some hold) ≡ 60
unfolding hold_penalty
short hold h = simp h refl

race : (hold : ℤ) → leb_ℤ hold (pos 5) ≡ true → sell_race_penalty (some hold) ≡ 15
unfolding sell_race_penalty
race hold h = ap (λ b. if b then 15 else 0) h

module _ (dec : Decimal) where
  open dec use {D, lt, literal, from_int, to_u32}

  abbrev copyability : ScoreInputs D → ℕ
  copyability inputs = 100 - total_penalty (penalties_of dec inputs)

  copyability_lem : (inputs : ScoreInputs D) → (copyability_score dec inputs).0 ≡ copyability inputs
  unfolding copyability_score
  copyability_lem inputs = score_after_lem _

  short_hold :
      (inputs : ScoreInputs D) (hold : ℤ)
      → inputs.avg_hold_seconds ≡ some hold
      → leb_ℤ hold (pos 5) ≡ true
      → 75 ≤ total_penalty (penalties_of dec inputs)
  unfolding total_penalty penalties_of
  short_hold inputs hold q h =
      omega (arith, ap hold_penalty q ∙ short hold h, ap sell_race_penalty q ∙ race hold h)

  drifts : (mev : D) → lt mev (literal 8 1) ≡ false → drift_penalty dec mev ≡ 25
  unfolding drift_penalty
  drifts mev h = ground (arith)

  is_bot : (mev : D) → lt mev (literal 9 1) ≡ false → bot_penalty dec mev ≡ 30
  unfolding bot_penalty
  is_bot mev h = ground (arith)

  high_mev :
      (inputs : ScoreInputs D)
      → lt inputs.mev_likelihood (literal 8 1) ≡ false
      → lt inputs.mev_likelihood (literal 9 1) ≡ false
      → 55 ≤ total_penalty (penalties_of dec inputs)
  unfolding total_penalty penalties_of
  high_mev inputs h k =
      omega (arith, drifts inputs.mev_likelihood h, is_bot inputs.mev_likelihood k)

  false_of : (b : Bool) → (b ≡ true → ⊥) → b ≡ false
  false_of true h = absurd (h refl)
  false_of false h = refl

  true_of : (b : Bool) → (b ≡ false → ⊥) → b ≡ true
  true_of true h = refl
  true_of false h = absurd (h refl)

  -- A fully eligible wallet, where the configured copyability is above 45 and a decimal below 0.8
  -- is below 0.9: its average hold, if known, is longer than five seconds, its MEV likelihood is
  -- below 0.9, it has the trades and the tokens that are asked for, and the skill.
  pub full_entry_eligible-IsCopyable :
      ((d : D) → lt d (literal 8 1) ≡ true → lt d (literal 9 1) ≡ true)
      → (inputs : ScoreInputs D) (config : ScoringConfig D) → 45 < config.full_copyability_score
      → full_entry_eligible dec (compute_wallet_score dec inputs config) config ≡ true
      → ((hold : ℤ) → inputs.avg_hold_seconds ≡ some hold → leb_ℤ hold (pos 5) ≡ false)
        × (lt inputs.mev_likelihood (literal 9 1) ≡ true)
        × (config.min_meaningful_trades ≤ inputs.meaningful_trades)
        × (config.min_tokens_traded ≤ inputs.tokens_traded)
        × (config.full_skill_score ≤ skill_score dec inputs)
  unfolding full_entry_eligible compute_wallet_score
  full_entry_eligible-IsCopyable ordered inputs config c h =
      let (r, provisional) = and→both _ _ h in
      let (s, k) = and→both _ _ r in
      let copy =
        subst (λ n. config.full_copyability_score ≤ n) (copyability_lem inputs) (leb→le _ _ k) in
      (
        λ hold q. false_of (leb_ℤ hold (pos 5)) (λ b. omega (arith, short_hold inputs hold q b)),
        true_of (lt inputs.mev_likelihood (literal 9 1)) (λ b.
            elim (Bool-cases (lt inputs.mev_likelihood (literal 8 1))) [
              | inl a ↦ true≢false (sym (ordered inputs.mev_likelihood a) ∙ b)
              | inr a ↦ omega (arith, high_mev inputs a b)
            ]),
        ground (arith),
        ground (arith),
        leb→le _ _ s,
      )

  clamped :
      (hundred : D)
      → lt hundred hundred ≡ false
      → lt hundred dec.zero ≡ false
      → (d : D) → lt hundred (clamp dec dec.zero hundred d) ≡ false
  unfolding clamp
  clamped hundred h k d =
      if-keeps (λ x. lt hundred x ≡ false) (lt d dec.zero) (λ _. k)
        (λ _. if-keeps (λ x. lt hundred x ≡ false) (lt hundred d) (λ _. h) (λ q. q))

  read : (o : Option ℕ) → ((n : ℕ) → o ≡ some n → n ≤ 100) → or_none dec o ≤ 100
  unfolding or_none
  read none h = omega arith
  read (some n) h = h n refl

  -- Where 100 is not below 0 or itself, and a decimal that is not above 100 is not read as more
  -- than 100: the skill and the copyability are at most 100, and the conviction is at most the cap
  -- while the history is less complete than the floor, and at most 100 from there on.
  pub compute_wallet_score-IsBounded :
      lt (from_int (pos 100)) (from_int (pos 100)) ≡ false
      → lt (from_int (pos 100)) dec.zero ≡ false
      → ((d : D) (n : ℕ) → lt (from_int (pos 100)) d ≡ false → to_u32 d ≡ some n → n ≤ 100)
      → (inputs : ScoreInputs D) (config : ScoringConfig D)
      → ((compute_wallet_score dec inputs config).skill ≤ 100)
        × ((compute_wallet_score dec inputs config).copyability ≤ 100)
        × (lt inputs.history_completeness (floor_of dec config.floor) ≡ true
            → (compute_wallet_score dec inputs config).conviction
              ≤ config.conviction_cap_below_completeness)
        × (lt inputs.history_completeness (floor_of dec config.floor) ≡ false
            → (compute_wallet_score dec inputs config).conviction ≤ 100)
  unfolding compute_wallet_score skill_score
  compute_wallet_score-IsBounded h k reads inputs config = (
    read (to_u32 (clamp dec dec.zero (from_int (pos 100)) (skill_total dec inputs)))
        (λ n. reads _ n (clamped (from_int (pos 100)) h k (skill_total dec inputs))),
    subst (λ n. n ≤ 100) (sym (copyability_lem inputs)) (omega arith),
    λ q. ground (arith),
    λ q. ground (arith),
  )
