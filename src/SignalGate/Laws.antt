-- ===== src/SignalGate/Laws.antt =====
-- The entry gate against the conditions that a token has to meet.
use solana_whale_intelligenc.Prelude.{
  ℕ, ◌≤◌, ◌≡◌, refl, sym, ◌∙◌, ◌↔◌, Bool, true, false, not, List, [], ◌∷◌, arith, leb, any,
  if◌then◌else◌, Option, none, some, All, leb→le, le→leb,
}
use solana_whale_intelligenc.Prelude.Int.{ℤ, ◌≤ℤ◌}
use solana_whale_intelligenc.Float.{F64, IsOrdered}
use solana_whale_intelligenc.SignalGate.{
  RejectionCode, insufficient_clusters, insufficient_buys, unsupported_lifecycle, token_too_old,
  insufficient_liquidity, wash_risk, stale_market, ineligible_skill, ineligible_copyability,
  incomplete_history, GateThresholds, RiskFlag, EntryGateInput, GateOutcome, accepted, rejected,
  is_wash, is_critical, at_most, at_least, evaluate_entry_gate,
}

-- The outcome of a row of tests, each with the code of its failure.
abbrev pub first_failure : List (Bool × RejectionCode) → GateOutcome
first_failure [] = accepted
first_failure ((passes, c) ∷ rest) = if passes then first_failure rest else rejected c

module _ (fl : F64) where
  open fl use {F, le, lt}

  -- The gates as positive conditions, in the order of the source: ten, of which the sixth is two rows,
  -- one for each of its codes.
  abbrev pub gates : EntryGateInput F → GateThresholds F → List (Bool × RejectionCode)
  gates i t =
      (leb t.min_eligible_clusters i.eligible_clusters, insufficient_clusters)
      ∷ (leb t.min_meaningful_buys i.meaningful_buys, insufficient_buys)
      ∷ (i.lifecycle_supported, unsupported_lifecycle)
      ∷ (at_most i.token_age_hours t.max_token_age_hours, token_too_old)
      ∷ (at_least i.liquidity_usd t.min_liquidity_usd, insufficient_liquidity)
      ∷ (not (any i.risk_flags is_wash), wash_risk)
      ∷ (not (any i.risk_flags is_critical), RejectionCode.critical_risk)
      ∷ (at_most i.market_age_seconds t.max_market_age_seconds, stale_market)
      ∷ (leb t.min_skill i.max_skill, ineligible_skill)
      ∷ (leb t.min_copyability i.max_copyability, ineligible_copyability)
      ∷ (not (lt i.min_history_completeness t.min_history_completeness), incomplete_history)
      ∷ []

  pub evaluate-first_failure :
      (i : EntryGateInput F) (t : GateThresholds F)
      → evaluate_entry_gate fl i t ≡ first_failure (gates i t)
  unfolding evaluate_entry_gate
  evaluate-first_failure i t = ground arith

first_failure-accepted :
    (l : List (Bool × RejectionCode)) → (first_failure l ≡ accepted) ↔ All (λ g. g.0 ≡ true) l
first_failure-accepted [] = (λ h. tt, λ h. refl)
first_failure-accepted ((true, c) ∷ rest) =
    let (f, g) = first_failure-accepted rest in (λ h. (refl, f h), λ h. g h.1)
first_failure-accepted ((false, c) ∷ rest) = (λ h. cc, λ h. cc h.0)

-- The outcome without the completeness gate, which is the last.
abbrev pub forgive : GateOutcome → GateOutcome
forgive accepted = accepted
forgive (rejected incomplete_history) = accepted
forgive (rejected c) = rejected c

-- Every flag is either the wash flag or one of the critical ones.
no_flags : (l : List RiskFlag) → any l is_wash ≡ false → any l is_critical ≡ false → l ≡ []
no_flags [] h k = refl
no_flags (f ∷ l) h k = ground arith

-- A reading that was made, and is within its bound.
abbrev pub Known : {A : Type 0} → Option A → (A → Type 0) → Type 0
Known {A} o P = (a : A) × (o ≡ some a) × P a

at_most_iff : (o : Option ℤ) (m : ℤ) → (at_most o m ≡ true) ↔ Known o (λ a. a ≤ℤ m)
at_most_iff none m = (λ h. cc, λ (a, e, p). cc)
at_most_iff (some a) m = (λ h. (a, refl, leb→le _ _ h), λ (b, e, p). ground arith)

at_least_iff : (o : Option ℕ) (m : ℕ) → (at_least o m ≡ true) ↔ Known o (λ l. m ≤ l)
at_least_iff none m = (λ h. cc, λ (a, e, p). cc)
at_least_iff (some a) m = (λ h. (a, refl, leb→le _ _ h), λ (b, e, p). ground arith)

module _ (fl : F64) where
  open fl use {F, le, lt}

  -- What an accepted token meets: every reading is there and within its bound.
  pub record Meets (i : EntryGateInput F) (t : GateThresholds F) : Type 0 where
    pub clusters : t.min_eligible_clusters ≤ i.eligible_clusters
    pub buys : t.min_meaningful_buys ≤ i.meaningful_buys
    pub lifecycle : i.lifecycle_supported ≡ true
    pub age : Known i.token_age_hours (λ a. a ≤ℤ t.max_token_age_hours)
    pub liquidity : Known i.liquidity_usd (λ l. t.min_liquidity_usd ≤ l)
    pub risk_free : i.risk_flags ≡ []
    pub fresh : Known i.market_age_seconds (λ a. a ≤ℤ t.max_market_age_seconds)
    pub skill : t.min_skill ≤ i.max_skill
    pub copyability : t.min_copyability ≤ i.max_copyability
    pub complete : lt i.min_history_completeness t.min_history_completeness ≡ false

  Meets-gates :
      (i : EntryGateInput F) (t : GateThresholds F)
      → All (λ g. g.0 ≡ true) (gates fl i t)
      → Meets i t
  Meets-gates i t (c, (b, (l, (a, (q, (w, (r, (m, (s, (y, (h, _))))))))))) = record {
    clusters = leb→le _ _ c;
    buys = leb→le _ _ b;
    lifecycle = l;
    age = (at_most_iff _ _).0 a;
    liquidity = (at_least_iff _ _).0 q;
    risk_free = no_flags i.risk_flags (ground arith) (ground arith);
    fresh = (at_most_iff _ _).0 m;
    skill = leb→le _ _ s;
    copyability = leb→le _ _ y;
    complete = ground arith;
  }

  gates-of_Meets :
      (i : EntryGateInput F) (t : GateThresholds F)
      → Meets i t
      → All (λ g. g.0 ≡ true) (gates fl i t)
  gates-of_Meets i t m = (
    le→leb _ _ m.clusters,
    (
      le→leb _ _ m.buys,
      (
        m.lifecycle,
        (
          (at_most_iff _ _).1 m.age,
          (
            (at_least_iff _ _).1 m.liquidity,
            (
              rw m.risk_free refl,
              (
                rw m.risk_free refl,
                (
                  (at_most_iff _ _).1 m.fresh,
                  (le→leb _ _ m.skill, (le→leb _ _ m.copyability, (rw m.complete refl, tt))),
                ),
              ),
            ),
          ),
        ),
      ),
    ),
  )

  -- A token is accepted exactly when every count reaches its minimum, its lifecycle is supported,
  -- its age, its liquidity and its market age are known and within their bounds, it carries no risk
  -- flag at all, and its history is not less complete than the minimum. An unknown reading refuses.
  pub accepted-Meets :
      (i : EntryGateInput F) (t : GateThresholds F)
      → (evaluate_entry_gate fl i t ≡ accepted) ↔ Meets i t
  accepted-Meets i t = (
    λ h.
        Meets-gates i t
          ((first_failure-accepted (gates fl i t)).0 (sym (evaluate-first_failure fl i t) ∙ h)),
    λ m.
        evaluate-first_failure fl i t
        ∙ (first_failure-accepted (gates fl i t)).1 (gates-of_Meets i t m),
  )

  -- Every bound of `u` is as loose as that of `t`, or looser.
  pub record IsLooser (t u : GateThresholds F) : Type 0 where
    pub clusters : u.min_eligible_clusters ≤ t.min_eligible_clusters
    pub buys : u.min_meaningful_buys ≤ t.min_meaningful_buys
    pub age : t.max_token_age_hours ≤ℤ u.max_token_age_hours
    pub liquidity : u.min_liquidity_usd ≤ t.min_liquidity_usd
    pub market : t.max_market_age_seconds ≤ℤ u.max_market_age_seconds
    pub skill : u.min_skill ≤ t.min_skill
    pub copyability : u.min_copyability ≤ t.min_copyability
    pub history : le u.min_history_completeness t.min_history_completeness ≡ true

  Meets-looser :
      (o : IsOrdered fl) (i : EntryGateInput F) (t u : GateThresholds F)
      → IsLooser t u
      → Meets i t
      → Meets i u
  Meets-looser o i t u l m = record {
    clusters = omega arith;
    buys = omega arith;
    lifecycle = m.lifecycle;
    age = (m.age.0, m.age.1, omega (arith, m.age.2));
    liquidity = (m.liquidity.0, m.liquidity.1, omega (arith, m.liquidity.2));
    risk_free = m.risk_free;
    fresh = (m.fresh.0, m.fresh.1, omega (arith, m.fresh.2));
    skill = omega arith;
    copyability = omega arith;
    complete = ground (
      arith,
      o.lt_le_trans i.min_history_completeness u.min_history_completeness
          t.min_history_completeness,
    );
  }

  -- Where the comparisons of floats chain: a token that is accepted is accepted under any thresholds of
  -- which each is as loose or looser.
  pub accepted_mono :
      (o : IsOrdered fl) (i : EntryGateInput F) (t u : GateThresholds F)
      → IsLooser t u
      → evaluate_entry_gate fl i t ≡ accepted
      → evaluate_entry_gate fl i u ≡ accepted
  accepted_mono o i t u l h =
      (accepted-Meets i u).1 (Meets-looser o i t u l ((accepted-Meets i t).0 h))

  -- A completeness that is below nothing, as NaN is, counts as a complete history: with it a token gets
  -- the outcome that it has with any other completeness, and is accepted where it was rejected as
  -- incomplete, whatever the thresholds are.
  pub unordered_history_forgiven :
      (i : EntryGateInput F) (t : GateThresholds F) (nan : F)
      → ((m : F) → lt nan m ≡ false)
      → evaluate_entry_gate fl (record i { min_history_completeness = nan }) t
        ≡ forgive (evaluate_entry_gate fl i t)
  unfolding evaluate_entry_gate
  unordered_history_forgiven i t nan h = ground (arith, h t.min_history_completeness)
