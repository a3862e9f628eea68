-- ===== src/Radar/Reopening.antt =====
-- The operations on the store of the radar, and the row of a dismissed case under them.
use solana_whale_intelligenc.Prelude.{
  ℕ, ◌≢◌, ◌≡◌, refl, sym, ap, ◌∙◌, subst, true, Option, none, some, List, [], ◌∷◌, ◌++◌, String,
  any, In, In-snoc, In→any, inl, each, each-keeps, if◌then◌else◌, if-keeps, arith,
}
use mathlib.Core.Bool.{true≢false}
use solana_whale_intelligenc.Prelude.Int.{ℤ}
use solana_whale_intelligenc.Decimal.{Decimal}
use solana_whale_intelligenc.Models.{ChainKind, RadarStage, dismissed, funded}
use solana_whale_intelligenc.Radar.{
  FundingEvent, FundingRadarConfig, FundingRadarCase, CaseEvent, RadarAlert, RadarStore,
  is_dismissed, store_funding_observation, record_case_event, update_case_fanout, update_stage,
  dismiss_case, new_case,
}
use solana_whale_intelligenc.Radar.Funding.{
  is_case_of, fetch_case, put_case, insert_case, upsert_ends, add_funding, opened, open_case,
  apply_funding, opens_case, ingest_funding_event,
}
use solana_whale_intelligenc.Radar.Evaluation.{evaluate_case, evaluate_found, evaluate_radar_case}
use solana_whale_intelligenc.Radar.Stages.{
  Evaluated, is_over, waits, expires, deploys, prepares, evaluate_case-Evaluated,
}
use solana_whale_intelligenc.Radar.Rows.{
  is_same_row, IsKeyed, Same, Same-refl, find_case-In, put-IsKeyed, put-keeps, snoc-IsKeyed,
  one_recipient,
}

-- The operations on the store, with the arguments that they take.
pub data Operation (D : Type 0) : Type 0 where
  ingest : ℕ → ℕ → FundingEvent D → Option D → Operation D
  evaluation : ChainKind → String → ℤ → Operation D
  evidence : CaseEvent → Operation D

Evaluated-Same :
    {D : Type 0} (config : FundingRadarConfig) (c : FundingRadarCase D) (now : ℤ)
    (events : List CaseEvent) (d : FundingRadarCase D) (a : Option RadarAlert)
    → Evaluated config c now events d a
    → Same c d
unfolding dismiss_case update_stage
Evaluated-Same config c now events d a (is_over t) = Same-refl c
Evaluated-Same config c now events d a (waits t w k n) = Same-refl c
Evaluated-Same config c now events d a (expires w) = record {
  id = refl;
  chain = refl;
  recipient = refl;
}
Evaluated-Same config c now events d a (deploys t w k) = record {
  id = refl;
  chain = refl;
  recipient = refl;
}
Evaluated-Same config c now events d a (prepares w k p) = record {
  id = refl;
  chain = refl;
  recipient = refl;
}

over_lem : (stage : RadarStage) → is_dismissed stage ≡ true → stage ≡ dismissed
unfolding is_dismissed
over_lem stage h = ground arith

dismissed≢funded : dismissed ≢ funded
dismissed≢funded h = cc

Evaluated-dismissed :
    {D : Type 0} (config : FundingRadarConfig) (c : FundingRadarCase D) (now : ℤ)
    (events : List CaseEvent) (d : FundingRadarCase D) (a : Option RadarAlert)
    → Evaluated config c now events d a
    → is_dismissed c.stage ≡ true
    → d ≡ c
Evaluated-dismissed config c now events d a (is_over t) h = refl
Evaluated-dismissed config c now events d a (waits t w k n) h = refl
Evaluated-dismissed config c now events d a (expires w) h =
    absurd (dismissed≢funded (sym (over_lem c.stage h) ∙ w.0))
Evaluated-dismissed config c now events d a (deploys t w k) h =
    absurd (t (inl (over_lem c.stage h)))
Evaluated-dismissed config c now events d a (prepares w k p) h =
    absurd (dismissed≢funded (sym (over_lem c.stage h) ∙ p.0))

module _ (dec : Decimal) (config : FundingRadarConfig) where
  open dec use {D}

  unfoldable pub operate : RadarStore D → Operation D → RadarStore D
  unfolding ingest_funding_event evaluate_radar_case record_case_event
  operate s (ingest id fanout event threshold) =
      (ingest_funding_event dec id fanout s event config threshold).0
  operate s (evaluation chain recipient now) = (evaluate_radar_case config chain recipient s now).0
  operate s (evidence event) = record_case_event s event

  -- The table keeps its constraints, and the row of a dismissed case is in it.
  record Kept (c : FundingRadarCase D) (cases : List (FundingRadarCase D)) : Type 0 where
    pub keyed : IsKeyed cases
    pub present : In c cases
    pub over : is_dismissed c.stage ≡ true

  stored-cases :
      (s : RadarStore D) (event : FundingEvent D)
      → (store_funding_observation s event).cases ≡ s.cases
  unfolding store_funding_observation
  stored-cases s event =
      if-keeps (λ (t : RadarStore D). t.cases ≡ s.cases) _ (λ _. refl) (λ _. refl)

  ends-cases :
      (s : RadarStore D) (event : FundingEvent D)
      → (upsert_ends (store_funding_observation s event) event).cases ≡ s.cases
  unfolding upsert_ends
  ends-cases s event = stored-cases s event

  -- An update of a row keeps the row of a dismissed case where it changes no dismissed row.
  put-Kept :
      (s : RadarStore D) (c e d : FundingRadarCase D)
      → Kept c s.cases
      → In e s.cases
      → Same e d
      → (is_dismissed e.stage ≡ true → d ≡ e)
      → Kept c (put_case s d).cases
  unfolding put_case
  put-Kept s c e d k i same fixed = record {
    keyed = put-IsKeyed s.cases k.keyed e d i same;
    present = put-keeps s.cases k.keyed e d i same c k.present (λ q.
        fixed (ap (λ (x : FundingRadarCase D). is_dismissed x.stage) (sym q) ∙ k.over) ∙ sym q);
    over = k.over;
  }

  open-Kept :
      (id : ℕ) (s : RadarStore D) (event : FundingEvent D) (c : FundingRadarCase D)
      → Kept c s.cases
      → Kept c (open_case id s event config).0.cases
  unfolding open_case insert_case opened record_case_event
  open-Kept id s event c k =
      let row = new_case id event config in
      if-keeps (λ o. Kept c (opened id s event o).0.cases) (any s.cases (λ d. is_same_row d row))
        (λ _. k)
        (λ n. record {
          keyed = snoc-IsKeyed s.cases row k.keyed n;
          present = (In-snoc s.cases c row).1 (inl k.present);
          over = k.over;
        })

  apply-Kept :
      (id fanout : ℕ) (s : RadarStore D) (event : FundingEvent D) (c : FundingRadarCase D)
      (o : Option (FundingRadarCase D))
      → fetch_case event.chain event.to_address s ≡ o
      → Kept c s.cases
      → Kept c (apply_funding id fanout s event config o).0.cases
  unfolding apply_funding fetch_case add_funding record_case_event update_case_fanout
  apply-Kept id fanout s event c none q k = open-Kept id s event c k
  apply-Kept id fanout s event c (some e) q k =
      let (i, _) = find_case-In (is_case_of event.chain event.to_address) s.cases q in
      let same : Same e (update_case_fanout e fanout) = record {
        id = refl;
        chain = refl;
        recipient = refl;
      } in
      if-keeps (λ (p : RadarStore D × Option (Option (FundingRadarCase D))). Kept c p.0.cases)
        (is_dismissed e.stage) (λ _. open-Kept id s event c k)
        (λ n. put-Kept s c e _ k i same (λ t. absurd (true≢false (sym t ∙ n))))

  ingest-Kept :
      (id fanout : ℕ) (s : RadarStore D) (event : FundingEvent D) (threshold : Option D)
      (c : FundingRadarCase D)
      → Kept c s.cases
      → Kept c (ingest_funding_event dec id fanout s event config threshold).0.cases
  unfolding ingest_funding_event
  ingest-Kept id fanout s event threshold c k =
      let t = upsert_ends (store_funding_observation s event) event in
      if-keeps (λ (p : RadarStore D × Option (Option (FundingRadarCase D))). Kept c p.0.cases)
        (opens_case dec event config threshold)
        (λ _. apply-Kept id fanout t event c _ refl (subst (Kept c) (sym (ends-cases s event)) k))
        (λ _. subst (Kept c) (sym (stored-cases s event)) k)

  evaluation-Kept :
      (chain : ChainKind) (recipient : String) (now : ℤ) (s : RadarStore D) (c : FundingRadarCase D)
      (o : Option (FundingRadarCase D))
      → fetch_case chain recipient s ≡ o
      → Kept c s.cases
      → Kept c (evaluate_found config chain recipient s now o).0.cases
  unfolding evaluate_found fetch_case
  evaluation-Kept chain recipient now s c none q k = k
  evaluation-Kept chain recipient now s c (some e) q k =
      let (i, _) = find_case-In (is_case_of chain recipient) s.cases q in
      let (v, _) = evaluate_case-Evaluated config e now s.events in
      put-Kept s c e (evaluate_case config e now s.events).0 k i
        (Evaluated-Same config e now s.events _ _ v)
        (Evaluated-dismissed config e now s.events _ _ v)

  operate-Kept :
      (s : RadarStore D) (o : Operation D) (c : FundingRadarCase D)
      → Kept c s.cases
      → Kept c (operate s o).cases
  unfolding operate record_case_event evaluate_radar_case
  operate-Kept s (ingest id fanout event threshold) c k =
      ingest-Kept id fanout s event threshold c k
  operate-Kept s (evaluation chain recipient now) c k =
      evaluation-Kept chain recipient now s c _ refl k
  operate-Kept s (evidence event) c k = k

  -- The insertion meets the row that is there.
  open-refused :
      (id : ℕ) (s : RadarStore D) (event : FundingEvent D) (c : FundingRadarCase D)
      → In c s.cases
      → is_case_of event.chain event.to_address c ≡ true
      → open_case id s event config ≡ (s, none)
  unfolding open_case insert_case opened new_case
  open-refused id s event c i q =
      let row = new_case id event config in
      ap
        (λ b.
          opened id s event (if b then none else some (record s { cases = s.cases ++ row ∷ [] })))
        (In→any (λ d. is_same_row d row) s.cases i (ground (arith)))

  apply-refused :
      (id fanout : ℕ) (s : RadarStore D) (event : FundingEvent D) (c : FundingRadarCase D)
      (o : Option (FundingRadarCase D))
      → fetch_case event.chain event.to_address s ≡ o
      → Kept c s.cases
      → is_case_of event.chain event.to_address c ≡ true
      → apply_funding id fanout s event config o ≡ (s, none)
  unfolding apply_funding fetch_case
  apply-refused id fanout s event c none q k m = open-refused id s event c k.present m
  apply-refused id fanout s event c (some e) q k m =
      let (i, n) = find_case-In (is_case_of event.chain event.to_address) s.cases q in
      let same = k.keyed c e k.present i (one_recipient event.chain event.to_address c e m n) in
      let over = ap (λ (x : FundingRadarCase D). is_dismissed x.stage) (sym same) ∙ k.over in
      simp over (open-refused id s event c k.present m)

  -- In a table of cases that keeps its constraints (ids are unique, and so are the recipients on a
  -- chain), a dismissed case is never reopened: after any operations, on whatever recipients, its row
  -- is there unchanged. And an event that funds its recipient and qualifies for a case is then answered
  -- by an error of the database, with nothing written but the observation of the event and the wallet
  -- rows of its two ends.
  pub ingest_funding_event-refuses :
      (s : RadarStore D) (operations : List (Operation D)) (c : FundingRadarCase D) (id fanout : ℕ)
      (event : FundingEvent D) (threshold : Option D)
      → IsKeyed s.cases
      → In c s.cases
      → is_dismissed c.stage ≡ true
      → is_case_of event.chain event.to_address c ≡ true
      → opens_case dec event config threshold ≡ true
      → In c (each operate s operations).cases
        × (ingest_funding_event dec id fanout (each operate s operations) event config threshold ≡ (
          upsert_ends (store_funding_observation (each operate s operations) event) event,
          none,
        ))
  unfolding ingest_funding_event
  ingest_funding_event-refuses s operations c id fanout event threshold keyed i over m q =
      let last = each operate s operations in
      let k =
        each-keeps (λ (t : RadarStore D). Kept c t.cases) operate operations
          (λ t o _. operate-Kept t o c) s (record { keyed = keyed; present = i; over = over }) in
      let stored = store_funding_observation last event in
      let t = upsert_ends stored event in
      (
        k.present,
        ap
              (λ b.
                if b
                then apply_funding id fanout t event config
                    (fetch_case event.chain event.to_address t)
                else (stored, some (fetch_case event.chain event.to_address stored)))
              q
            ∙ apply-refused id fanout t event c _ refl
                (subst (Kept c) (sym (ends-cases last event)) k) m,
      )
