-- ===== src/Scheduling/Deadline.antt =====
-- What `_compute_deadline` promises: until then no row changes state by its dates, and a row with
-- a window is looked at again within the cap.
use mupitech_player.Prelude.{
  ==_iff, All, All-map, Bool, Bool-cases, List, Option, Option-cases, [], ap, arith, false,
  if◌then◌else◌, inl, inr, ltb, min, none, refl, some, subst, sym, true, ℕ, ◌&&◌, ◌++◌, ◌+◌, ◌<◌,
  ◌==◌, ◌∙◌, ◌∷◌, ◌≡◌, ◌≢◌, ◌≤◌,
}
use mupitech_player.Models.{Asset, Runtime, has_window_filter, in_date_range, is_active}
use mupitech_player.Scheduling.{
  boundary, collect, compute_deadline, earliest, flagged, future_boundary, windowed_deadline_cap,
  windowed_now, with_cap,
}
use mupitech_player.Models.Unwindowed.{is_active_unwindowed}
use mupitech_player.Models.Window.{IsLocalTime}

-- `t` is before the deadline; no deadline is never reached.
abbrev pub Before : ℕ → Option ℕ → Type 0
Before t none = Unit
Before t (some d) = t < d

All-append :
    (t : ℕ) (xs ys : List ℕ)
    → All (λ x. t < x) (xs ++ ys)
    → All (λ x. t < x) xs × All (λ x. t < x) ys
All-append t [] ys h = (tt, h)
All-append t (x ∷ xs) ys h = ((h.0, (All-append t xs ys h.1).0), (All-append t xs ys h.1).1)

All-join :
    (t : ℕ) (xs ys : List ℕ)
    → All (λ x. t < x) xs
    → All (λ x. t < x) ys
    → All (λ x. t < x) (xs ++ ys)
All-join t [] ys h k = k
All-join t (x ∷ xs) ys h k = (h.0, All-join t xs ys h.1 k)

future_boundary-future : (now : ℕ) (b : Option ℕ) → All (λ x. now < x) (future_boundary now b)
unfolding future_boundary
future_boundary-future now none = tt
future_boundary-future now (some t) = ground arith

earliest_after : (t : ℕ) (ts : List ℕ) → Before t (earliest ts) → All (λ x. t < x) ts
unfolding earliest
earliest_after t [] h = tt
earliest_after t (x ∷ ts) h = elim (Option-cases (earliest ts)) [
  | inl e ↦ (ground (arith, e, h), earliest_after t ts (rw e tt))
  | inr (u, e) ↦ (ground (arith, e, h), earliest_after t ts (rw e (ground (arith, e, h))))
]

earliest_lower : (t : ℕ) (ts : List ℕ) → All (λ x. t < x) ts → Before t (earliest ts)
unfolding earliest
earliest_lower t [] h = tt
earliest_lower t (x ∷ ts) h = ground (arith, h.0, earliest_lower t ts h.1)

-- The earliest of a list that ends in `c` is there, and at most `c`.
earliest_le_last : (c : ℕ) (ts : List ℕ) → (d : ℕ) × (earliest (ts ++ c ∷ []) ≡ some d) × (d ≤ c)
unfolding earliest
earliest_le_last c [] = (c, refl, omega arith)
earliest_le_last c (x ∷ ts) =
    let (d, e, l) = earliest_le_last c ts in (min x d, rw (e, earliest), omega arith)

module _ (rt : Runtime) (now t : ℕ) (later : now ≤ t) where
  -- The date range of a row whose boundary is not passed reads the same at `now` and at `t`.
  in_date_range_stable :
      (start stop : Option ℕ)
      → start ≢ some now
      → All
          (λ x. t < x)
          (future_boundary now (if in_date_range start stop now then stop else start))
      → in_date_range start stop t ≡ in_date_range start stop now
  unfolding future_boundary
  in_date_range_stable none stop d h = refl
  in_date_range_stable (some a) none d h = refl
  in_date_range_stable (some a) (some b) d h = elim (Bool-cases (ltb a now)) [
    | inl past ↦ ground (arith, h, past)
    | inr ahead ↦ elim (Bool-cases (a == now)) [
      | inl same ↦ absurd (d (ap some ((==_iff a now).0 same)))
      | inr other ↦ ground (arith, h, ahead, other)
    ]
  ]

  abbrev Stable : Asset → Type 0
  Stable a =
      has_window_filter rt a ≡ false
      → a.start_date ≢ some now
      → is_active rt a t ≡ is_active rt a now

  row-Stable :
      (a : Asset)
      → IsLocalTime (rt.localtime now)
      → IsLocalTime (rt.localtime t)
      → All (λ x. t < x) (future_boundary now (boundary a (is_active rt a now)))
      → Stable a
  row-Stable a l k h plain fresh =
      let at_now = is_active_unwindowed rt a now l plain in
      let at_t = is_active_unwindowed rt a t k plain in
      elim (Bool-cases a.is_enabled) [
        | inl on ↦
            at_t
            ∙ ap (λ b. a.is_enabled && b)
                (in_date_range_stable a.start_date a.end_date fresh (
                  subst (λ b. All (λ x. t < x) (future_boundary now (boundary a b)))
                    (at_now ∙ (rw on)) h))
            ∙ sym at_now
        | inr off ↦ ground (arith, at_now, at_t, off)
      ]

  collect-Stable :
      (cs : List Asset)
      → IsLocalTime (rt.localtime now)
      → IsLocalTime (rt.localtime t)
      → All (λ x. t < x) (collect rt now (flagged rt now cs)).0
      → All Stable cs
  unfolding collect flagged
  collect-Stable [] l k h = tt
  collect-Stable (a ∷ cs) l k h =
      let (own, others) =
        All-append t (future_boundary now (boundary a (is_active rt a now)))
          (collect rt now (flagged rt now cs)).0 h in
      (row-Stable a l k own, collect-Stable cs l k others)

windowed_collected :
    (rt : Runtime) (now : ℕ) (cs : List Asset)
    → All (λ a. windowed_now rt now a ≡ true → (collect rt now (flagged rt now cs)).1 ≡ true) cs
unfolding collect flagged
windowed_collected rt now [] = tt
windowed_collected rt now (a ∷ cs) = (
  λ h. ground (arith, h),
  All-map (λ b. windowed_now rt now b ≡ true → (collect rt now (flagged rt now cs)).1 ≡ true) _ cs
      (λ b f h. ground (arith, f h)) (windowed_collected rt now cs),
)

collect_future :
    (rt : Runtime) (now : ℕ) (flags : List (Asset × Bool))
    → All (λ x. now < x) (collect rt now flags).0
unfolding collect
collect_future rt now [] = tt
collect_future rt now ((a, active) ∷ rest) =
    All-join now (future_boundary now (boundary a active)) (collect rt now rest).0
      (future_boundary-future now (boundary a active)) (collect_future rt now rest)

with_cap-future :
    (now : ℕ) (windowed : Bool) (found : List ℕ)
    → All (λ x. now < x) found
    → All (λ x. now < x) (with_cap now windowed found)
unfolding with_cap
with_cap-future now true found h = All-join now found _ h (omega arith, tt)
with_cap-future now false found h = h

-- Between `now` and the deadline that is computed at `now`, each candidate row with no window
-- filter, and whose start date is not `now` itself, stays as active as it is at `now`.
pub compute_deadline_stable :
    (rt : Runtime) (now t : ℕ) (cs : List Asset)
    → IsLocalTime (rt.localtime now)
    → IsLocalTime (rt.localtime t)
    → now ≤ t
    → Before t (compute_deadline rt now (flagged rt now cs))
    → All
        (λ a.
          has_window_filter rt a ≡ false
          → a.start_date ≢ some now
          → is_active rt a t ≡ is_active rt a now)
        cs
unfolding compute_deadline with_cap
compute_deadline_stable rt now t cs l k later h =
    let (found, windowed) = collect rt now (flagged rt now cs) in
    collect-Stable rt now t later cs l k (before_found found windowed h)
  where
    before_found :
        (found : List ℕ) (windowed : Bool)
        → Before t (earliest (with_cap now windowed found))
        → All (λ x. t < x) found
    before_found found true b = (All-append t found _ (earliest_after t _ b)).0
    before_found found false b = earliest_after t found b

-- If a row with a window filter is within its dates at `now`, there is a deadline, and it is at
-- most the cap (a minute) away.
pub compute_deadline_capped :
    (rt : Runtime) (now : ℕ) (cs : List Asset)
    → All
        (λ a.
          has_window_filter rt a ≡ true
          → in_date_range a.start_date a.end_date now ≡ true
          → (d : ℕ) × (compute_deadline rt now (flagged rt now cs) ≡ some d)
            × (d ≤ now + windowed_deadline_cap))
        cs
unfolding compute_deadline with_cap windowed_now
compute_deadline_capped rt now cs =
    All-map (λ a. windowed_now rt now a ≡ true → (collect rt now (flagged rt now cs)).1 ≡ true) _ cs
      (λ a f h k.
        rw (f (ground (arith, h, k)), with_cap)
          (earliest_le_last (now + windowed_deadline_cap) (collect rt now (flagged rt now cs)).0))
      (windowed_collected rt now cs)

-- A deadline always lies ahead: it never makes the next call reload at once.
pub compute_deadline_ahead :
    (rt : Runtime) (now : ℕ) (flags : List (Asset × Bool)) (d : ℕ)
    → compute_deadline rt now flags ≡ some d
    → now < d
unfolding compute_deadline
compute_deadline_ahead rt now flags d h =
    let (found, windowed) = collect rt now flags in
    subst (Before now) h (
      earliest_lower now (with_cap now windowed found)
        (with_cap-future now windowed found (collect_future rt now flags)))
