-- ===== src/Timeline/Order.antt =====
-- `build_timeline`: which events it has, and in what order.
use solana_whale_intelligenc.Prelude.{
  ◌≡◌, ◌↔◌, ◌&&◌, Bool, true, false, List, String, In, In-filter, In→filter, filter, str_eq,
  str_eq→≡, ≡→str_eq, arith,
}
use solana_whale_intelligenc.Prelude.Int.{ℤ, ltb_ℤ, leb_ℤ}
use solana_whale_intelligenc.Prelude.Sort.{
  then_by, IsWeakOrder, then_by-IsWeakOrder, Sorted, sort_by-Sorted, sort_by-In, sort_by-stable,
}
use solana_whale_intelligenc.Timeline.{RecentEvent, event_lt, build_timeline}

module _ {F : Type 0} where
  by_time-IsWeakOrder : (t : RecentEvent F → ℤ) → IsWeakOrder (λ a b. ltb_ℤ (t a) (t b))
  by_time-IsWeakOrder t = record { asym = λ a b h. ground arith; trans = λ a b c h k. ground arith }

  event_lt-IsWeakOrder : IsWeakOrder {A = RecentEvent F} event_lt
  unfolding event_lt
  event_lt-IsWeakOrder =
      then_by-IsWeakOrder _ _ (by_time-IsWeakOrder (λ e. e.occurred_at))
        (by_time-IsWeakOrder (λ e. e.observed_at))

  -- The events of a timeline stand by `occurred_at`, and where that is equal by `observed_at`.
  pub build_timeline-Sorted :
      (anchor : String) (events : List (RecentEvent F))
      → Sorted event_lt (build_timeline anchor events).events
  unfolding build_timeline
  build_timeline-Sorted anchor events = sort_by-Sorted event_lt event_lt-IsWeakOrder _

  -- A timeline has the events of its anchor, and no other.
  pub build_timeline-In :
      (anchor : String) (events : List (RecentEvent F)) (e : RecentEvent F)
      → In e (build_timeline anchor events).events ↔ (In e events × (e.anchor_identity ≡ anchor))
  unfolding build_timeline
  build_timeline-In anchor events e =
      let own : RecentEvent F → Bool = λ f. str_eq f.anchor_identity anchor in
      let (to, from) = sort_by-In event_lt e (filter own events) in
      (
        λ i. let (j, q) = In-filter own events (to i) in (j, str_eq→≡ e.anchor_identity anchor q),
        λ (i, q). from (In→filter own events i (≡→str_eq e.anchor_identity anchor q)),
      )

  -- The events of two times.
  abbrev pub at_times : ℤ → ℤ → RecentEvent F → Bool
  at_times occurred observed e =
      leb_ℤ e.occurred_at occurred
      && leb_ℤ occurred e.occurred_at
      && leb_ℤ e.observed_at observed
      && leb_ℤ observed e.observed_at

  same_times :
      (o v : ℤ) (a b : RecentEvent F)
      → at_times o v a ≡ true
      → at_times o v b ≡ true
      → event_lt a b ≡ false
  unfolding event_lt then_by
  same_times o v a b h k = ground arith

  -- Events of the same two times keep the order in which they were given.
  pub build_timeline-stable :
      (anchor : String) (events : List (RecentEvent F)) (occurred observed : ℤ)
      → filter (at_times occurred observed) (build_timeline anchor events).events
        ≡ filter (at_times occurred observed) (filter (λ e. str_eq e.anchor_identity anchor) events)
  unfolding build_timeline
  build_timeline-stable anchor events o v =
      sort_by-stable event_lt (at_times o v) (same_times o v) _
