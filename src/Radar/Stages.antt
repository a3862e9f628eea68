-- ===== src/Radar/Stages.antt =====
-- The step relation of the evaluations of a case, and the alerts of a case's life.
use solana_whale_intelligenc.Prelude.{
  ℕ, ◌+◌, ◌≤◌, ◌≡◌, refl, sym, ap, ◌∙◌, ◌↔◌, true, false, ◌&&◌, Option, none, some, List, [], ◌∷◌,
  String, length, if-keeps, leb→le, le→leb, and→both, arith, Bool, any, str_eq, str_eq→≡, ◌==◌, ◌⊎◌,
  inl, inr, subst, Bool-cases,
}
use mathlib.Core.Bool.{true≢false}
use solana_whale_intelligenc.Prelude.Int.{ℤ, ltb_ℤ, leb_ℤ}
use solana_whale_intelligenc.Models.{RadarStage, funded, preparation, deployed, dismissed}
use solana_whale_intelligenc.Radar.{
  FundingRadarConfig, FundingRadarCase, CaseEvent, RadarAlert, FundingRadarDecision, update_stage,
  dismiss_case, is_funded, is_closed, kinds_at, non_infrastructure, has_kind,
  preparation_confidence,
}
use solana_whale_intelligenc.Radar.Evaluation.{
  decide, alert_of, is_prepared, by_evidence, evaluate_case,
}

module _ {D : Type 0} (config : FundingRadarConfig) where
  abbrev pub kinds : FundingRadarCase D → ℤ → List CaseEvent → List String
  kinds c now events = kinds_at c.id now events

  abbrev pub confidence : FundingRadarCase D → ℤ → List CaseEvent → ℕ
  confidence c now events =
      preparation_confidence c.fanout_count config.fanout_threshold (kinds c now events)

module _ {D : Type 0} (config : FundingRadarConfig) where
  -- Nothing happens to a case any more.
  abbrev pub IsOver : FundingRadarCase D → Type 0
  IsOver c = (c.stage ≡ dismissed) ⊎ (c.stage ≡ deployed)

  -- Some event of the case up to now is a deployment.
  abbrev pub is_deployed : FundingRadarCase D → ℤ → List CaseEvent → Bool
  is_deployed c now events =
      any events
        (λ e. (e.case_id == c.id) && leb_ℤ e.observed_at now && str_eq e.event_kind "deployment")

  -- A funded case after its window.
  abbrev pub Expired : FundingRadarCase D → ℤ → Type 0
  Expired c now = (c.stage ≡ funded) × (ltb_ℤ c.deploy_window_ends_at now ≡ true)

  -- A funded case with as much evidence as is asked for, some of it not of infrastructure.
  abbrev pub Prepared : FundingRadarCase D → ℤ → List CaseEvent → Type 0
  Prepared c now events =
      (c.stage ≡ funded)
      × (config.preparation_evidence_required ≤ length (kinds config c now events))
      × (non_infrastructure c.id now events ≡ true)

-- The case after an evaluation, and the alert.
pub data Evaluated {D : Type 0} (config : FundingRadarConfig) (c : FundingRadarCase D) (now : ℤ)
    (events : List CaseEvent) : FundingRadarCase D → Option RadarAlert → Type 0 where
  is_over : IsOver config c → Evaluated config c now events c none
  waits :
      ¬ IsOver config c
      → ¬ Expired config c now
      → is_deployed config c now events ≡ false
      → ¬ Prepared config c now events
      → Evaluated config c now events c none
  expires :
      Expired config c now
      → Evaluated config c now events
          (record c {
            stage = dismissed;
            dismissed_reason = some "expired window without preparation evidence";
          })
          none
  deploys :
      ¬ IsOver config c
      → ¬ Expired config c now
      → is_deployed config c now events ≡ true
      → Evaluated config c now events (record c { stage = deployed; confidence = 85 }) none
  prepares :
      ¬ Expired config c now
      → is_deployed config c now events ≡ false
      → Prepared config c now events
      → Evaluated config c now events
          (record c { stage = preparation; confidence = confidence config c now events })
          (alert_of config c (confidence config c now events))

pub is_funded_iff : (s : RadarStage) → (is_funded s ≡ true) ↔ (s ≡ funded)
unfolding is_funded
is_funded_iff s = (λ h. ground arith, λ h. ground arith)

is_closed_iff : (s : RadarStage) → (is_closed s ≡ true) ↔ ((s ≡ dismissed) ⊎ (s ≡ deployed))
unfolding is_closed
is_closed_iff s = (λ h. ground arith, λ h. ground arith)

has_kind-kinds_at :
    (id : ℕ) (now : ℤ) (kind : String) (events : List CaseEvent)
    → has_kind (kinds_at id now events) kind
      ≡ any events (λ e. (e.case_id == id) && leb_ℤ e.observed_at now && str_eq e.event_kind kind)
unfolding has_kind kinds_at
has_kind-kinds_at id now kind [] = refl
has_kind-kinds_at id now kind (e ∷ events) = elim (Bool-cases (str_eq e.event_kind kind)) [
  | inl q ↦
      let p =
        subst
          (λ k.
            any (kinds_at id now events) (λ x. str_eq x k)
            ≡ any events
                (λ e. (e.case_id == id) && leb_ℤ e.observed_at now && str_eq e.event_kind kind))
          (sym (str_eq→≡ e.event_kind kind q)) (has_kind-kinds_at id now kind events) in
      ground (arith, has_kind-kinds_at id now kind events)
  | inr q ↦ ground (arith, has_kind-kinds_at id now kind events)
]

unfoldable pub alert_count : Option RadarAlert → ℕ
alert_count none = 0
alert_count (some _) = 1

at_most_one : (a : Option RadarAlert) → alert_count a ≤ 1
unfolding alert_count
at_most_one none = omega arith
at_most_one (some _) = omega arith

module _ {D : Type 0} (config : FundingRadarConfig) where
  abbrev Explained :
      FundingRadarCase D → ℤ → List CaseEvent → FundingRadarCase D × FundingRadarDecision → Type 0
  Explained c now events (d, decision) =
      Evaluated config c now events d decision.alert × (decision.stage ≡ d.stage)

  is_prepared_iff :
      (c : FundingRadarCase D) (now : ℤ) (events : List CaseEvent)
      → (is_prepared config c now events ≡ true) ↔ Prepared config c now events
  unfolding is_prepared
  is_prepared_iff c now events = (
    λ h.
        let (h, f) = and→both _ _ h in
        let (h, n) = and→both _ _ h in ((is_funded_iff c.stage).0 f, leb→le _ _ h, n),
    λ (f, l, n). rw (le→leb _ _ l, n, (is_funded_iff c.stage).1 f) refl,
  )

  by_evidence-Explained :
      (c : FundingRadarCase D) (now : ℤ) (events : List CaseEvent)
      → ¬ IsOver config c
      → ¬ Expired config c now
      → Explained c now events (by_evidence config c now events)
  unfolding by_evidence decide update_stage
  by_evidence-Explained c now events t w =
      if-keeps (Explained c now events) (has_kind (kinds config c now events) "deployment")
        (λ h. (deploys t w (sym (has_kind-kinds_at c.id now "deployment" events) ∙ h), refl))
        (λ h.
          let d = sym (has_kind-kinds_at c.id now "deployment" events) ∙ h in
          if-keeps (Explained c now events) (is_prepared config c now events)
            (λ h. (prepares w d ((is_prepared_iff c now events).0 h), refl))
            (λ h.
              (waits t w d (λ p. true≢false (sym ((is_prepared_iff c now events).1 p) ∙ h)), refl)))

  -- What an evaluation does is decided by the case and its evidence. A dismissed or deployed case
  -- stays as it is. Of the others, a funded case whose window has expired is dismissed; else one with
  -- deployment evidence is deployed; else a funded one that has as many kinds of evidence as are asked
  -- for, and some evidence that is not of infrastructure, goes to preparation with the confidence of
  -- these kinds; and only a case to which none of this applies stays as it is. The step to
  -- preparation alone can raise an alert. The decision names the stage of the case.
  pub evaluate_case-Evaluated :
      (c : FundingRadarCase D) (now : ℤ) (events : List CaseEvent)
      → Evaluated config c now events
          (evaluate_case config c now events).0
          (evaluate_case config c now events).1.alert
        × ((evaluate_case config c now events).1.stage
            ≡ (evaluate_case config c now events).0.stage)
  unfolding evaluate_case decide dismiss_case
  evaluate_case-Evaluated c now events =
      if-keeps (Explained c now events) (is_closed c.stage)
        (λ t. (is_over ((is_closed_iff c.stage).0 t), refl))
        (λ t.
          if-keeps (Explained c now events) (ltb_ℤ c.deploy_window_ends_at now && is_funded c.stage)
            (λ h. let (w, f) = and→both _ _ h in (expires ((is_funded_iff c.stage).0 f, w), refl))
            (λ h.
              by_evidence-Explained c now events
                (λ o. true≢false (sym ((is_closed_iff c.stage).1 o) ∙ t))
                (λ (f, w). true≢false (sym (rw (w, (is_funded_iff c.stage).1 f) refl) ∙ h))))

  -- The alerts of a sequence of evaluations, each at its time and with the events of then.
  unfoldable pub alerts : FundingRadarCase D → List (ℤ × List CaseEvent) → ℕ
  unfolding alert_count
  alerts c [] = 0
  alerts c ((now, events) ∷ later) =
      let (d, decision) = evaluate_case config c now events in
      alert_count decision.alert + alerts d later

  not_funded_again :
      (c : FundingRadarCase D) (now : ℤ) (events : List CaseEvent) (d : FundingRadarCase D)
      (a : Option RadarAlert)
      → Evaluated config c now events d a
      → is_funded c.stage ≡ false
      → (is_funded d.stage ≡ false) × (a ≡ none)
  unfolding update_stage is_funded
  not_funded_again c now events d a (is_over t) h = (h, refl)
  not_funded_again c now events d a (waits t w k n) h = (h, refl)
  not_funded_again c now events d a (expires w) h =
      absurd (true≢false (sym ((is_funded_iff c.stage).1 w.0) ∙ h))
  not_funded_again c now events d a (deploys t w k) h = (refl, refl)
  not_funded_again c now events d a (prepares w k p) h =
      absurd (true≢false (sym ((is_funded_iff c.stage).1 p.0) ∙ h))

  alerts_over :
      (c : FundingRadarCase D) (later : List (ℤ × List CaseEvent))
      → is_funded c.stage ≡ false
      → alerts c later ≡ 0
  unfolding alerts alert_count
  alerts_over c [] h = refl
  alerts_over c ((now, events) ∷ later) h =
      let (e, _) = evaluate_case-Evaluated c now events in
      let (k, q) = not_funded_again c now events _ _ e h in
      let r = alerts_over (evaluate_case config c now events).0 later k in
      let z = ap alert_count q in omega (arith, r, z)

  once :
      (c : FundingRadarCase D) (now : ℤ) (events : List CaseEvent)
      (later : List (ℤ × List CaseEvent)) (d : FundingRadarCase D) (a : Option RadarAlert)
      → Evaluated config c now events d a
      → alerts d later ≤ 1
      → alert_count a + alerts d later ≤ 1
  unfolding alert_count update_stage is_funded
  once c now events later d a (is_over t) h = omega arith
  once c now events later d a (waits t w k n) h = omega arith
  once c now events later d a (expires w) h = omega arith
  once c now events later d a (deploys t w k) h = omega arith
  once c now events later d a (prepares w k p) h = omega (
    arith,
    at_most_one (alert_of config c (confidence config c now events)),
    alerts_over (update_stage c preparation (confidence config c now events)) later refl,
  )

  -- However often a case is evaluated, at whatever times and with whatever events, it raises one alert at most.
  pub alerts-once :
      (c : FundingRadarCase D) (later : List (ℤ × List CaseEvent)) → alerts c later ≤ 1
  unfolding alerts alert_count
  alerts-once c [] = omega arith
  alerts-once c ((now, events) ∷ later) =
      let (e, _) = evaluate_case-Evaluated c now events in
      once c now events later _ _ e (alerts-once (evaluate_case config c now events).0 later)
