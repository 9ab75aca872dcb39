-- ===== src/Models.antt =====
-- src/anthias_server/app/models.py: the `Asset` row, the JSON values that its columns hold, and
-- the schedule tests `get_play_days`, `has_window_filter`, `is_active`, `_matches_play_window`.
-- What the row gets from Python's and Django's libraries is the parameter `Runtime`.
pub mod PlayDays
pub mod Window
pub mod Equality
pub mod Unwindowed
pub mod Examples
use mupitech_player.Prelude.{
  Bool, List, Option, Text, [], any, false, if◌then◌else◌, is_some, leb, ltb, none, not, some,
  text_eq, true, ℕ, ◌&&◌, ◌*◌, ◌-◌, ◌==◌, ◌∷◌,
}
use mupitech_player.Prelude.Int.{pos, ℤ}

-- What `int()` makes of a float: its whole part, or an error.
pub data Float : Type 0 where
  finite : ℤ → Float
  infinite nan : Float

-- A decoded JSON value.
mutual
  pub data Json : Type 0 where
    null : Json
    bool : Bool → Json
    int : ℤ → Json
    float : Float → Json
    str : Text → Json
    arr : Items → Json
    obj : Fields → Json

  pub data Items : Type 0 where
    nil : Items
    cons : Json → Items → Items

  pub data Fields : Type 0 where
    end : Fields
    field : Text → Json → Fields → Fields

-- `d.get(key)`
unfoldable pub get_key : Text → Fields → Option Json
get_key k end = none
get_key k (field j v rest) = if text_eq j k then some v else get_key k rest

pub record LocalTime : Type 0 where
  -- `isoweekday()`: Monday is 1, Sunday 7
  pub weekday : ℕ
  -- `time()`, in microseconds since midnight
  pub time : ℕ

-- What the code calls and does not implement: `json.loads` (`none` where it raises), and the
-- conversion of an instant (microseconds) to the local time.
pub record Runtime : Type 0 where
  pub json_loads : Text → Option Json
  pub localtime : ℕ → LocalTime

abbrev pub day_length : ℕ
day_length = 86_400_000_000

-- The column `play_days`: mostly JSON text, a list on an unsaved object, NULL in an edited row.
pub data PlayDaysValue : Type 0 where
  listed : Items → PlayDaysValue
  text : Text → PlayDaysValue
  missing : PlayDaysValue

-- The columns that the playlist's dictionaries keep. Instants and times are in microseconds. Two
-- entries are the same if each column is: in `metadata` that counts the order of the keys, which ==
-- of Python ignores.
pub record Entry : Type 0 where
  pub asset_id : Text
  pub name : Option Text
  pub uri : Option Text
  pub start_date : Option ℕ
  pub end_date : Option ℕ
  pub duration : Option ℤ
  pub mimetype : Option Text
  pub is_enabled : Bool
  pub is_processing : Bool
  pub nocache : Bool
  pub play_order : ℤ
  pub skip_asset_check : Bool
  pub skip_ssl_verify : Bool
  pub play_days : PlayDaysValue
  pub play_time_from : Option ℕ
  pub play_time_to : Option ℕ
  pub is_reachable : Bool
  pub last_reachability_check : Option ℕ
  pub metadata : Json

pub record Asset : Type 0 where
  pub entry : Entry
  pub open entry use *
  pub md5 : Option Text

abbrev pub all_days : List ℕ
all_days = 1 ∷ 2 ∷ 3 ∷ 4 ∷ 5 ∷ 6 ∷ 7 ∷ []

-- `isinstance(d, int) and 1 <= d <= 7`. A Python bool is an int, and `True` is 1.
day_of : Json → Option ℕ
day_of (bool true) = some 1
day_of (int (pos n)) = if leb 1 n && leb n 7 then some n else none
day_of _ = none

push_day : Option ℕ → Option (List ℕ) → Option (List ℕ)
push_day (some d) (some ds) = some (d ∷ ds)
push_day _ _ = none

-- `all(... for d in value)`, with the numbers of the list if the test holds.
pub valid_days : Items → Option (List ℕ)
unfolding push_day day_of
valid_days nil = some []
valid_days (cons v vs) = push_day (day_of v) (valid_days vs)

insert_day : ℕ → List ℕ → List ℕ
insert_day d [] = d ∷ []
insert_day d (e ∷ es) =
    if d == e then e ∷ es else if ltb d e then d ∷ e ∷ es else e ∷ insert_day d es

-- `sorted(set(value))`
sorted_set : List ℕ → List ℕ
unfolding insert_day
sorted_set [] = []
sorted_set (d ∷ ds) = insert_day d (sorted_set ds)

or_all_days : List ℕ → List ℕ
or_all_days [] = all_days
or_all_days (d ∷ ds) = d ∷ ds

days_of_list : Items → List ℕ
unfolding valid_days sorted_set or_all_days
days_of_list vs = elim (valid_days vs) [ none ↦ all_days | some ds ↦ or_all_days (sorted_set ds) ]

days_of_json : Option Json → List ℕ
unfolding days_of_list
days_of_json (some (arr vs)) = days_of_list vs
days_of_json _ = all_days

get_play_days_of : Runtime → PlayDaysValue → List ℕ
unfolding days_of_list days_of_json
get_play_days_of rt (listed vs) = days_of_list vs
get_play_days_of rt (text t) = days_of_json (rt.json_loads t)
get_play_days_of rt missing = all_days

unfoldable pub get_play_days : Runtime → Asset → List ℕ
unfolding get_play_days_of
get_play_days rt a = get_play_days_of rt a.play_days

-- `d in days`
abbrev pub has_day : ℕ → List ℕ → Bool
has_day d days = any (λ e. d == e) days

-- `xs == ys` on lists of numbers
same_days : List ℕ → List ℕ → Bool
same_days [] [] = true
same_days (a ∷ as') (b ∷ bs) = a == b && same_days as' bs
same_days _ _ = false

unfoldable pub has_window_filter : Runtime → Asset → Bool
unfolding same_days
has_window_filter rt a =
    if is_some a.play_time_from && is_some a.play_time_to
    then true
    else not (same_days (get_play_days rt a) all_days)

yesterday : ℕ → ℕ
yesterday weekday = if ltb 1 weekday then weekday - 1 else 7

-- `_matches_play_window`, on the two ends of the window.
in_window : Option ℕ → Option ℕ → List ℕ → LocalTime → Bool
unfolding yesterday
in_window (some from) (some to) days now =
    if leb from to
    then (if not (has_day now.weekday days) then false else leb from now.time && ltb now.time to)
    else if leb from now.time
    then has_day now.weekday days
    else if ltb now.time to
    then has_day (yesterday now.weekday) days
    else false
in_window _ _ days now = has_day now.weekday days

unfoldable pub matches_play_window : Runtime → Asset → LocalTime → Bool
unfolding in_window
matches_play_window rt a now_local =
    in_window a.play_time_from a.play_time_to (get_play_days rt a) now_local

-- `self.start_date < now < self.end_date`, after the test that both are there.
abbrev pub in_date_range : Option ℕ → Option ℕ → ℕ → Bool
in_date_range (some start) (some stop) now = ltb start now && ltb now stop
in_date_range _ _ now = false

unfoldable pub is_active : Runtime → Asset → ℕ → Bool
is_active rt a now =
    if not (a.is_enabled && (is_some a.start_date && is_some a.end_date))
    then false
    else if not (in_date_range a.start_date a.end_date now)
    then false
    else matches_play_window rt a (rt.localtime now)
