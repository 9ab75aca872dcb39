-- ===== src/Models/Window.antt =====
-- The play window of an asset against the instants of the week that it stands for.
use mupitech_player.Prelude.{
  ==_iff, All, Bool-cases, List, Option, [], arith, if◌then◌else◌, inl, inr, leb, ltb, none, some,
  true, ℕ, ◌*◌, ◌+◌, ◌-◌, ◌<◌, ◌==◌, ◌↔◌, ◌∷◌, ◌≡◌, ◌≤◌, ◌⊎◌,
}
use mupitech_player.Models.{
  Asset, LocalTime, Runtime, day_length, get_play_days, has_day, in_window, is_active,
  matches_play_window, yesterday,
}
use mupitech_player.Models.PlayDays.{IsDay, get_play_days-IsSchedule}

-- A window opens on a day of the list at `from` and closes at `to`, on the next day if `to` is
-- earlier. It holds the microsecond `m` of the week, counted from the start of day 0.
abbrev closing : ℕ → ℕ → ℕ
closing from to = if leb from to then to else to + day_length

pub record Covers (from to d m : ℕ) : Type 0 where
  pub opened : d * day_length + from ≤ m
  pub not_closed : m < d * day_length + closing from to

-- The local time in the week, and the same instant counted from a week earlier.
abbrev pub moment : LocalTime → ℕ
moment now = now.weekday * day_length + now.time

abbrev pub IsLocalTime : LocalTime → Type 0
IsLocalTime now = (1 ≤ now.weekday) × (now.weekday ≤ 7) × (now.time < day_length)

-- Some window that opens on one of the days holds the moment, this week or from the last.
abbrev pub Plays : ℕ → ℕ → List ℕ → LocalTime → Type 0
Plays from to days now =
    (d : ℕ) × (has_day d days ≡ true)
    × (Covers from to d (moment now) ⊎ Covers from to d (moment now + 7 * day_length))

has_day-IsDay : (x : ℕ) (days : List ℕ) → All IsDay days → has_day x days ≡ true → IsDay x
has_day-IsDay x [] h e = cc
has_day-IsDay x (d ∷ ds) h e = elim (Bool-cases (x == d)) [
  | inl same ↦ rw ((==_iff x d).0 same) h.0
  | inr other ↦ has_day-IsDay x ds h.1 (ground arith)
]

module _ (from to : ℕ) (days : List ℕ) (now : LocalTime) where
  in_window-Plays :
      IsLocalTime now
      → from < day_length
      → in_window (some from) (some to) days now ≡ true
      → Plays from to days now
  unfolding in_window
  in_window-Plays l f h = elim (Bool-cases (leb from now.time)) [
    | inl late ↦ (
      now.weekday,
      ground arith,
      inl (record { opened = ground arith; not_closed = ground arith }),
    )
    | inr early ↦ elim (Bool-cases (ltb 1 now.weekday)) [
      | inl later ↦ (
        now.weekday - 1,
        ground arith,
        inl (record { opened = ground arith; not_closed = ground arith }),
      )
      | inr monday ↦
          (7, ground arith, inr (record { opened = ground arith; not_closed = ground arith }))
    ]
  ]

  day_of_cover :
      (d : ℕ)
      → IsLocalTime now
      → IsDay d
      → from < day_length
      → to < day_length
      → Covers from to d (moment now) ⊎ Covers from to d (moment now + 7 * day_length)
      → (from ≤ now.time) × (d ≡ now.weekday) × ((from ≤ to) → now.time < to)
        ⊎ (now.time < from) × (to < from) × (now.time < to) × (d ≡ yesterday now.weekday)
  unfolding yesterday
  day_of_cover d l e f t (inl c) = elim (Bool-cases (leb from to)) [
    | inl day ↦ inl (ground arith, ground arith, ground arith)
    | inr night ↦ elim (Bool-cases (leb from now.time)) [
      | inl late ↦ inl (ground arith, ground arith, ground arith)
      | inr early ↦ inr (ground arith, ground arith, ground arith, ground arith)
    ]
  ]
  day_of_cover d l e f t (inr c) = inr (ground arith, ground arith, ground arith, ground arith)

  Plays-in_window :
      IsLocalTime now
      → from < day_length
      → to < day_length
      → All IsDay days
      → Plays from to days now
      → in_window (some from) (some to) days now ≡ true
  unfolding in_window
  Plays-in_window l f t w (d, m, c) = elim (day_of_cover d l (has_day-IsDay d days w m) f t c) [
    | inl (a, b, e) ↦ ground (arith, a, b, e)
    | inr (a, b, e, g) ↦ ground (arith, a, b, e, g)
  ]

abbrev pub InRange : Option ℕ → Option ℕ → ℕ → Type 0
InRange (some start) (some stop) now = (start < now) × (now < stop)
InRange _ _ now = ⊥

-- With both ends of the window set, within a day: `is_active` holds exactly if the row is enabled,
-- the instant lies strictly between its dates, and the local time lies in a window that opens at
-- `play_time_from` on one of the row's days and closes at the next `play_time_to`, windows that run
-- past midnight and past the end of the week included.
pub is_active-Plays :
    (rt : Runtime) (a : Asset) (now from to : ℕ)
    → a.play_time_from ≡ some from
    → a.play_time_to ≡ some to
    → from < day_length
    → to < day_length
    → IsLocalTime (rt.localtime now)
    → (is_active rt a now ≡ true) ↔ (
        (a.is_enabled ≡ true)
        × InRange a.start_date a.end_date now
        × Plays from to (get_play_days rt a) (rt.localtime now))
unfolding is_active matches_play_window
is_active-Plays rt a now from to p q f t l =
    let days = get_play_days rt a in
    let local = rt.localtime now in
    (
      λ h. (
        ground (arith, h),
        ground (arith, h),
        in_window-Plays from to days local l f (ground (arith, h, p, q)),
      ),
      λ (e, r, w). ground (
        arith,
        e,
        r,
        p,
        q,
        Plays-in_window from to days local l f t (get_play_days-IsSchedule rt a).in_week w,
      ),
    )

-- With a window end missing, only the day counts: `is_active` holds exactly if the row is enabled,
-- the instant lies strictly between its dates, and the local weekday is one of the row's days.
pub is_active-has_day :
    (rt : Runtime) (a : Asset) (now : ℕ)
    → (a.play_time_from ≡ none) ⊎ (a.play_time_to ≡ none)
    → (is_active rt a now ≡ true) ↔ (
        (a.is_enabled ≡ true)
        × InRange a.start_date a.end_date now
        × (has_day (rt.localtime now).weekday (get_play_days rt a) ≡ true))
unfolding is_active matches_play_window in_window
is_active-has_day rt a now p = (
  λ h. (ground (arith, h), ground (arith, h), ground (arith, h)),
  λ (e, r, w). ground (arith, e, r, w),
)
