-- ===== src/Scheduling.antt =====
-- src/anthias_viewer/scheduling.py: the playlist, its deadline, and the class `Scheduler`.
-- `World` is what a call sees of its surroundings: settings, files, rows and clocks. A Python
-- exception (an index or a key that is not there) is `none`. `World` gives the modification time and
-- the rows as values, so the order in which `update_playlist` reads the two is not modelled.
pub mod Deadline
pub mod Ids
pub mod Update
pub mod Order
pub mod Rotation
pub mod Circle
pub mod Previous
pub mod Files
pub mod Examples
use mathlib.Core.Bool.{decide}
use mupitech_player.Prelude.{
  Bool, List, Option, Text, [], codes, false, get_elem?, if◌then◌else◌, leb, length, ltb, max, min,
  none, not, some, text_eq, text_le, true, ℕ, ◌%◌, ◌&&◌, ◌*◌, ◌++◌, ◌+◌, ◌-◌, ◌==◌, ◌||◌, ◌∷◌,
}
use mupitech_player.Models.{Asset, Entry, Runtime, has_window_filter, in_date_range, is_active}
use mupitech_player.Models.Equality.{Entry-discrete}

abbrev pub windowed_deadline_cap : ℕ
windowed_deadline_cap = 60_000_000

pub record World : Type 0 where
  pub runtime : Runtime
  -- settings['shuffle_playlist'], settings['database']
  pub shuffle_playlist : Bool
  pub database : Text
  -- `path.getmtime`, as `refresh_playlist` and then `update_playlist` see it; `none` is an OSError
  pub getmtime : Text → Option ℕ
  pub getmtime_later : Text → Option ℕ
  -- `timezone.now()`, in `refresh_playlist` and then in `generate_asset_list`
  pub now : ℕ
  pub now_later : ℕ
  -- `Asset.objects.get(asset_id=...)`
  pub find_row : Text → Option Asset
  -- the enabled rows with both dates, by `play_order`
  pub candidates : List Asset
  -- `_sysrandom.shuffle`
  pub shuffle : List Entry → List Entry

-- `[_asset_to_dict(a) for a, ok in zip(candidates, active_flags) if ok]`
playlist_of : List (Asset × Bool) → List Entry
playlist_of [] = []
playlist_of ((a, ok) ∷ rest) = if ok then a.entry ∷ playlist_of rest else playlist_of rest

-- `zip(candidates, [a.is_active(now=now) for a in candidates])`
pub flagged : Runtime → ℕ → List Asset → List (Asset × Bool)
flagged rt now [] = []
flagged rt now (a ∷ rest) = (a, is_active rt a now) ∷ flagged rt now rest

-- `if boundary and boundary > now: candidates.append(boundary)`
future_boundary : ℕ → Option ℕ → List ℕ
future_boundary now none = []
future_boundary now (some t) = if ltb now t then t ∷ [] else []

abbrev pub boundary : Asset → Bool → Option ℕ
boundary a active = if active then a.end_date else a.start_date

windowed_now : Runtime → ℕ → Asset → Bool
windowed_now rt now a = has_window_filter rt a && in_date_range a.start_date a.end_date now

-- The loop of `_compute_deadline`: the boundaries that it collects, and `has_windowed`.
collect : Runtime → ℕ → List (Asset × Bool) → List ℕ × Bool
unfolding future_boundary windowed_now
collect rt now [] = ([], false)
collect rt now ((a, active) ∷ rest) =
    let (found, windowed) = collect rt now rest in
    (future_boundary now (boundary a active) ++ found, windowed_now rt now a || windowed)

-- `min(candidates) if candidates else None`
earliest : List ℕ → Option ℕ
earliest [] = none
earliest (t ∷ ts) = elim (earliest ts) [ none ↦ some t | some u ↦ some (min t u) ]

with_cap : ℕ → Bool → List ℕ → List ℕ
with_cap now windowed found =
    if windowed then found ++ (now + windowed_deadline_cap) ∷ [] else found

pub compute_deadline : Runtime → ℕ → List (Asset × Bool) → Option ℕ
unfolding collect earliest with_cap
compute_deadline rt now flags =
    let (found, windowed) = collect rt now flags in earliest (with_cap now windowed found)

pub generate_asset_list : World → List Entry × Option ℕ
unfolding playlist_of
generate_asset_list w =
    let flags = flagged w.runtime w.now_later w.candidates in
    let playlist = playlist_of flags in
    (
      if w.shuffle_playlist then w.shuffle playlist else playlist,
      compute_deadline w.runtime w.now_later flags,
    )

-- `get_db_mtime`: the newest of the database and its sidecars that can be read.
newest_of : (Text → Option ℕ) → Text → List Text → ℕ → ℕ
newest_of getmtime database [] newest = newest
newest_of getmtime database (suffix ∷ rest) newest =
    newest_of getmtime database rest
      (elim (getmtime (database ++ suffix)) [ none ↦ newest | some t ↦ max newest t ])

pub get_db_mtime : (Text → Option ℕ) → Text → ℕ
unfolding newest_of
get_db_mtime getmtime [] = 0
get_db_mtime getmtime (c ∷ cs) =
    newest_of getmtime (c ∷ cs) ([] ∷ codes "-wal" ∷ codes "-shm" ∷ []) 0

pub record Scheduler : Type 0 where
  pub assets : List Entry
  pub counter : ℕ
  pub current_asset_id : Option Text
  pub deadline : Option ℕ
  pub extra_asset : Option Text
  pub index : ℕ
  pub reverse : Bool
  pub last_update_db_mtime : ℕ

pub ids : List Entry → List Text
ids [] = []
ids (e ∷ es) = e.asset_id ∷ ids es

insert_id : Text → List Text → List Text
insert_id x [] = x ∷ []
insert_id x (y ∷ ys) = if text_le x y then x ∷ y ∷ ys else y ∷ insert_id x ys

pub sorted_ids : List Text → List Text
unfolding insert_id
sorted_ids [] = []
sorted_ids (x ∷ xs) = insert_id x (sorted_ids xs)

pub ids_eq : List Text → List Text → Bool
ids_eq [] [] = true
ids_eq (x ∷ xs) (y ∷ ys) = text_eq x y && ids_eq xs ys
ids_eq _ _ = false

-- `{a['asset_id']: a for a in new_assets}[x]`: a later entry wins.
by_id : List Entry → Text → Option Entry
by_id [] x = none
by_id (e ∷ es) x = elim (by_id es x) [
  | some later ↦ some later
  | none ↦ if text_eq e.asset_id x then some e else none
]

push_entry : Option Entry → Option (List Entry) → Option (List Entry)
push_entry (some e) (some es) = some (e ∷ es)
push_entry _ _ = none

-- `[new_by_id[a['asset_id']] for a in self.assets]`
pub refreshed : List Entry → List Entry → Option (List Entry)
unfolding by_id push_entry
refreshed new_assets [] = some []
refreshed new_assets (a ∷ rest) =
    push_entry (by_id new_assets a.asset_id) (refreshed new_assets rest)

pub entries_eq : List Entry → List Entry → Bool
entries_eq [] [] = true
entries_eq (d ∷ ds) (e ∷ es) = decide (Entry-discrete d e) && entries_eq ds es
entries_eq _ _ = false

pub deadline_eq : Option ℕ → Option ℕ → Bool
deadline_eq none none = true
deadline_eq (some a) (some b) = a == b
deadline_eq _ _ = false

-- `self.index % len(self.assets) if self.assets else 0`
kept_index : ℕ → List Entry → ℕ
kept_index index [] = 0
kept_index index (e ∷ es) = index % length (e ∷ es)

-- The end of `update_playlist`: the new list replaces the old one.
pub replace_playlist : Scheduler → List Entry → Option ℕ → Scheduler
unfolding kept_index
replace_playlist s new_assets new_deadline = record s {
  assets = new_assets;
  deadline = new_deadline;
  counter = 0;
  index = kept_index s.index new_assets;
}

adopt : Scheduler → Option (List Entry) → Option ℕ → Option Scheduler
adopt s none new_deadline = none
adopt s (some entries) new_deadline = some (record s { assets = entries; deadline = new_deadline })

update_from : Bool → Bool → Scheduler → List Entry → Option ℕ → Option Scheduler
unfolding replace_playlist adopt refreshed entries_eq deadline_eq
update_from shuffle_on allow_reshuffle s new_assets new_deadline =
    if shuffle_on && not allow_reshuffle
    then (if ids_eq (sorted_ids (ids s.assets)) (sorted_ids (ids new_assets))
        then adopt s (refreshed new_assets s.assets) new_deadline
        else some (replace_playlist s new_assets new_deadline))
    else if entries_eq new_assets s.assets && deadline_eq new_deadline s.deadline
    then some s
    else some (replace_playlist s new_assets new_deadline)

pub update_playlist : World → Bool → Scheduler → Option Scheduler
unfolding update_from
update_playlist w allow_reshuffle s =
    let s' = record s { last_update_db_mtime = get_db_mtime w.getmtime_later w.database } in
    let (new_assets, new_deadline) = generate_asset_list w in
    update_from w.shuffle_playlist allow_reshuffle s' new_assets new_deadline

-- `self.deadline and self.deadline <= time_cur`
pub is_due : Option ℕ → ℕ → Bool
is_due none now = false
is_due (some t) now = leb t now

pub refresh_playlist : World → Scheduler → Option Scheduler
unfolding is_due
refresh_playlist w s =
    if ltb s.last_update_db_mtime (get_db_mtime w.getmtime w.database)
    then update_playlist w false s
    else if w.shuffle_playlist && leb 5 s.counter
    then update_playlist w true s
    else if is_due s.deadline w.now
    then update_playlist w false s
    else some s

-- Python's `(index - back) % n`, which is never negative, for 0 < n.
back_by : ℕ → ℕ → ℕ → ℕ
back_by back index n = (index + back * n - back) % n

pub bump_counter : Bool → Scheduler → Scheduler
bump_counter shuffle_on s =
    if shuffle_on && s.index == 0 then record s { counter = s.counter + 1 } else s

show : Scheduler → Option Entry → Option (Scheduler × Option Entry)
show s none = none
show s (some e) = some (record s { current_asset_id = some e.asset_id }, some e)

-- The position that is shown, and the index and direction that are left for the next call.
pub turn : Scheduler → ℕ → ℕ × Scheduler
unfolding back_by
turn s n =
    if s.reverse
    then (back_by 2 s.index n, record s { index = back_by 1 s.index n; reverse = false })
    else (s.index, record s { index = (s.index + 1) % n })

pub rotate_among : Bool → Scheduler → List Entry → Option (Scheduler × Option Entry)
unfolding bump_counter show
rotate_among shuffle_on s [] = some (record s { current_asset_id = none }, none)
rotate_among shuffle_on s (e ∷ es) =
    let (idx, s') = turn s (length (e ∷ es)) in
    show (bump_counter shuffle_on s') (get_elem? (e ∷ es) idx)

pub rotate : World → Option Scheduler → Option (Scheduler × Option Entry)
unfolding rotate_among
rotate w none = none
rotate w (some s) = rotate_among w.shuffle_playlist s s.assets

-- An asset that an operator asked for is shown unless it is gone or still processing.
get_requested : World → Scheduler → Text → Option Asset → Option (Scheduler × Option Entry)
get_requested w s x none = rotate w (refresh_playlist w (record s { extra_asset = none }))
get_requested w s x (some a) =
    if not a.is_processing
    then some (record s { current_asset_id = some x; extra_asset = none }, some a.entry)
    else rotate w (refresh_playlist w (record s { extra_asset = none }))

pub get_next_asset : World → Scheduler → Option (Scheduler × Option Entry)
unfolding get_requested
get_next_asset w s = elim s.extra_asset [
  | none ↦ rotate w (refresh_playlist w s)
  | some x ↦ get_requested w s x (w.find_row x)
]

-- `Scheduler.__init__`
pub initial : World → Option Scheduler
initial w = update_playlist w false (record {
  assets = [];
  counter = 0;
  current_asset_id = none;
  deadline = none;
  extra_asset = none;
  index = 0;
  reverse = false;
  last_update_db_mtime = 0;
})
