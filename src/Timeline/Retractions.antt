-- ===== src/Timeline/Retractions.antt =====
-- `apply_retraction` and the events.
use solana_whale_intelligenc.Prelude.{
  ◌≡◌, refl, sym, ap, ◌∙◌, arith, ◌⊎◌, inl, inr, Bool, true, false, not, some, List, [], ◌∷◌, In,
  each-keeps, if-keeps, str_eq, str_eq→≡,
}
use solana_whale_intelligenc.Timeline.{
  RecentEvent, Retraction, is_legal, retract, retraction_round, apply_retraction,
}

legal : (b : Bool) → not b ≡ false → b ≡ true
legal b h = ground arith

module _ {F : Type 0} where
  abbrev pub retracted : RecentEvent F → Retraction → RecentEvent F
  retracted e r = record e { truth_status = r.truth_status; retraction = some r }

  -- An event after some retractions: as before, or with the status of one that is legal and aims at it.
  abbrev pub Amended : List Retraction → RecentEvent F → RecentEvent F → Type 0
  Amended rs e f =
      (f ≡ e)
      ⊎ ((r : Retraction) × In r rs
          × (is_legal r.truth_status ≡ true)
          × (r.target_event_id ≡ e.event_id)
          × (f ≡ retracted e r))

  -- Item by item, with no item lost or new.
  abbrev pub Aligned : List Retraction → List (RecentEvent F) → List (RecentEvent F) → Type 0
  Aligned rs [] [] = Unit
  Aligned rs [] (f ∷ fs) = ⊥
  Aligned rs (e ∷ es) [] = ⊥
  Aligned rs (e ∷ es) (f ∷ fs) = Amended rs e f × Aligned rs es fs

  Aligned-refl : (rs : List Retraction) (es : List (RecentEvent F)) → Aligned rs es es
  Aligned-refl rs [] = tt
  Aligned-refl rs (e ∷ es) = (inl refl, Aligned-refl rs es)

  module _ (rs : List Retraction) (r : Retraction) (i : In r rs)
      (l : is_legal r.truth_status ≡ true) where
    -- One more retraction of an amended event.
    Amended-again :
        (e f : RecentEvent F)
        → Amended rs e f
        → str_eq f.event_id r.target_event_id ≡ true
        → Amended rs e (retracted f r)
    Amended-again e f (inl q) h = inr (
      r,
      i,
      l,
      sym (str_eq→≡ f.event_id r.target_event_id h) ∙ ap (λ x. x.event_id) q,
      ap (λ x. retracted x r) q,
    )
    Amended-again e f (inr (s, _, _, _, q)) h = inr (
      r,
      i,
      l,
      sym (str_eq→≡ f.event_id r.target_event_id h) ∙ ap (λ x. x.event_id) q,
      ap (λ x. retracted x r) q,
    )

    retract-Aligned :
        (es fs : List (RecentEvent F)) → Aligned rs es fs → Aligned rs es (retract r fs)
    unfolding retract
    retract-Aligned [] [] h = tt
    retract-Aligned [] (f ∷ fs) h = absurd h
    retract-Aligned (e ∷ es) [] h = absurd h
    retract-Aligned (e ∷ es) (f ∷ fs) h =
        if-keeps (Aligned rs (e ∷ es)) (str_eq f.event_id r.target_event_id)
          (λ q. (Amended-again e f h.0 q, h.1)) (λ _. (h.0, retract-Aligned es fs h.1))

  -- The events stay, in their order, and each is as it was, or is the same event with the status of a
  -- given legal retraction of its id and that retraction.
  pub apply_retraction-Aligned :
      (events : List (RecentEvent F)) (rs : List Retraction)
      → Aligned rs events (apply_retraction events rs)
  unfolding apply_retraction retraction_round
  apply_retraction-Aligned events rs =
      each-keeps (Aligned rs events) retraction_round rs
        (λ fs r i h.
          if-keeps (Aligned rs events) (not (is_legal r.truth_status)) (λ _. h)
            (λ n. retract-Aligned rs r i (legal (is_legal r.truth_status) n) events fs h))
        events (Aligned-refl rs events)
