-- ===== src/Models/PlayDays.antt =====
-- `Asset.get_play_days`: what a caller may rely on, whatever the column holds.
use mupitech_player.Prelude.{
  All, List, Option, Option-cases, Text, [], arith, inl, inr, none, refl, some, true, ℕ, ◌<◌, ◌==◌,
  ◌||◌, ◌∙◌, ◌∷◌, ◌≡◌, ◌≢◌, ◌≤◌,
}
use mupitech_player.Models.{
  Asset, Items, Json, PlayDaysValue, Runtime, all_days, arr, cons, day_of, days_of_json,
  days_of_list, get_play_days, get_play_days_of, has_day, insert_day, listed, missing, nil,
  or_all_days, sorted_set, text, valid_days,
}

-- Strictly ascending.
abbrev pub IsAscending : List ℕ → Type 0
IsAscending [] = Unit
IsAscending (d ∷ []) = Unit
IsAscending (d ∷ e ∷ es) = (d < e) × IsAscending (e ∷ es)

abbrev pub IsDay : ℕ → Type 0
IsDay d = (1 ≤ d) × (d ≤ 7)

-- `e` is below the first element, if there is one.
abbrev Below : ℕ → List ℕ → Type 0
Below e [] = Unit
Below e (d ∷ ds) = e < d

IsAscending-cons : (e : ℕ) (es : List ℕ) → Below e es → IsAscending es → IsAscending (e ∷ es)
IsAscending-cons e [] b h = tt
IsAscending-cons e (d ∷ ds) b h = (b, h)

IsAscending-tail : (e : ℕ) (es : List ℕ) → IsAscending (e ∷ es) → IsAscending es × Below e es
IsAscending-tail e [] h = (tt, tt)
IsAscending-tail e (d ∷ ds) h = (h.1, h.0)

insert_day-Below : (e d : ℕ) (es : List ℕ) → e < d → Below e es → Below e (insert_day d es)
unfolding insert_day
insert_day-Below e d [] h b = h
insert_day-Below e d (c ∷ cs) h b = ground arith

insert_day-IsAscending : (d : ℕ) (es : List ℕ) → IsAscending es → IsAscending (insert_day d es)
unfolding insert_day
insert_day-IsAscending d [] h = tt
insert_day-IsAscending d (e ∷ es) h =
    let (tail, below) = IsAscending-tail e es h in
    ground (
      arith,
      insert_day-IsAscending d es tail,
      insert_day-Below e d es,
      IsAscending-cons e (insert_day d es),
    )

insert_day-All : (d : ℕ) (es : List ℕ) → IsDay d → All IsDay es → All IsDay (insert_day d es)
unfolding insert_day
insert_day-All d [] h k = (h, tt)
insert_day-All d (e ∷ es) h k = ground (arith, insert_day-All d es h k.1)

has_day-insert_day :
    (x d : ℕ) (es : List ℕ) → has_day x (insert_day d es) ≡ (x == d || has_day x es)
unfolding insert_day
has_day-insert_day x d [] = refl
has_day-insert_day x d (e ∷ es) = ground (arith, has_day-insert_day x d es)

sorted_set-IsAscending : (ds : List ℕ) → IsAscending (sorted_set ds)
unfolding sorted_set
sorted_set-IsAscending [] = tt
sorted_set-IsAscending (d ∷ ds) =
    insert_day-IsAscending d (sorted_set ds) (sorted_set-IsAscending ds)

sorted_set-All : (ds : List ℕ) → All IsDay ds → All IsDay (sorted_set ds)
unfolding sorted_set
sorted_set-All [] h = tt
sorted_set-All (d ∷ ds) h = insert_day-All d (sorted_set ds) h.0 (sorted_set-All ds h.1)

has_day-sorted_set : (x : ℕ) (ds : List ℕ) → has_day x (sorted_set ds) ≡ has_day x ds
unfolding sorted_set
has_day-sorted_set x [] = refl
has_day-sorted_set x (d ∷ ds) =
    ground (arith, has_day-insert_day x d (sorted_set ds), has_day-sorted_set x ds)

day_of-IsDay : (v : Json) (d : ℕ) → day_of v ≡ some d → IsDay d
unfolding day_of
day_of-IsDay v d h = ground arith

valid_days-All : (vs : Items) (ds : List ℕ) → valid_days vs ≡ some ds → All IsDay ds
unfolding valid_days
valid_days-All nil [] h = tt
valid_days-All nil (d ∷ ds) h = cc
valid_days-All (cons v vs) [] h = ground arith
valid_days-All (cons v vs) (d ∷ ds) h = elim (Option-cases (day_of v)) [
  | inl e ↦ absurd (ground (arith, e))
  | inr (x, e) ↦ ground (arith, e, day_of-IsDay v x, valid_days-All vs ds)
]

-- A usable schedule: a day, all of them days of the week, in order and each once.
pub record IsSchedule (days : List ℕ) : Type 0 where
  pub nonempty : days ≢ []
  pub in_week : All IsDay days
  pub ascending : IsAscending days

or_all_days-IsSchedule :
    (days : List ℕ) → All IsDay days → IsAscending days → IsSchedule (or_all_days days)
unfolding or_all_days
or_all_days-IsSchedule [] h k = record {
  nonempty = λ e. cc;
  in_week = omega arith;
  ascending = omega arith;
}
or_all_days-IsSchedule (d ∷ ds) h k = record { nonempty = λ e. cc; in_week = h; ascending = k }

all_days-IsSchedule : IsSchedule all_days
all_days-IsSchedule = record { nonempty = λ e. cc; in_week = omega arith; ascending = omega arith }

days_of_list-IsSchedule : (vs : Items) → IsSchedule (days_of_list vs)
unfolding days_of_list
days_of_list-IsSchedule vs = elim (Option-cases (valid_days vs)) [
  | inl e ↦ rw (e, days_of_list) all_days-IsSchedule
  | inr (ds, e) ↦
      rw (e, days_of_list)
        (or_all_days-IsSchedule (sorted_set ds) (sorted_set-All ds (valid_days-All vs ds e))
          (sorted_set-IsAscending ds))
]

days_of_json-IsSchedule : (j : Option Json) → IsSchedule (days_of_json j)
unfolding days_of_json
days_of_json-IsSchedule (some (arr vs)) = days_of_list-IsSchedule vs
days_of_json-IsSchedule (some _) = all_days-IsSchedule
days_of_json-IsSchedule none = all_days-IsSchedule

-- Whatever the column `play_days` holds (a list, JSON text, broken text or NULL), the days that
-- `get_play_days` returns are a nonempty list of numbers from 1 to 7, strictly ascending.
pub get_play_days-IsSchedule : (rt : Runtime) (a : Asset) → IsSchedule (get_play_days rt a)
unfolding get_play_days get_play_days_of
get_play_days-IsSchedule rt a = go a.play_days
  where
    go : (v : PlayDaysValue) → IsSchedule (get_play_days_of rt v)
    go (listed vs) = days_of_list-IsSchedule vs
    go (text t) = days_of_json-IsSchedule (rt.json_loads t)
    go missing = all_days-IsSchedule

or_all_days_cons : (days : List ℕ) → days ≢ [] → or_all_days days ≡ days
unfolding or_all_days
or_all_days_cons [] h = absurd (h refl)
or_all_days_cons (d ∷ ds) h = refl

has_day-nonempty : (x : ℕ) (days : List ℕ) → has_day x days ≡ true → days ≢ []
has_day-nonempty x [] h e = cc
has_day-nonempty x (d ∷ ds) h e = cc

days_of_list_valid :
    (vs : Items) (d : ℕ) (ds : List ℕ)
    → valid_days vs ≡ some (d ∷ ds)
    → days_of_list vs ≡ sorted_set (d ∷ ds)
unfolding days_of_list
days_of_list_valid vs d ds e =
    rw (e, days_of_list)
      (or_all_days_cons (sorted_set (d ∷ ds))
        (has_day-nonempty d (sorted_set (d ∷ ds)) (rw has_day-sorted_set (ground arith))))

days_of_list_invalid : (vs : Items) → valid_days vs ≡ none → days_of_list vs ≡ all_days
unfolding days_of_list
days_of_list_invalid vs e = rw (e, days_of_list)

get_play_days_text :
    (rt : Runtime) (a : Asset) (t : Text) (vs : Items)
    → a.play_days ≡ text t
    → rt.json_loads t ≡ some (arr vs)
    → get_play_days rt a ≡ days_of_list vs
unfolding get_play_days get_play_days_of days_of_json
get_play_days_text rt a t vs h k = rw (h, k)

-- If the column holds JSON text of a nonempty list of valid days, then `get_play_days` has exactly
-- the days of that list; if it holds text of a list with an invalid element, it has all days.
pub has_day-get_play_days :
    (rt : Runtime) (a : Asset) (t : Text) (vs : Items) (x : ℕ)
    → a.play_days ≡ text t
    → rt.json_loads t ≡ some (arr vs)
    → ((d : ℕ) (ds : List ℕ)
        → valid_days vs ≡ some (d ∷ ds)
        → has_day x (get_play_days rt a) ≡ has_day x (d ∷ ds))
      × (valid_days vs ≡ none → get_play_days rt a ≡ all_days)
has_day-get_play_days rt a t vs x h k =
    let e = get_play_days_text rt a t vs h k in
    (
      λ d ds v. rw (e, days_of_list_valid vs d ds v) (has_day-sorted_set x (d ∷ ds)),
      λ v. e ∙ days_of_list_invalid vs v,
    )
