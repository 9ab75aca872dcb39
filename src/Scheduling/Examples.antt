-- ===== src/Scheduling/Examples.antt =====
-- Small worlds, and the theorems about `scheduling.py` applied to them.
use mathlib.Core.List.{Memᴰ, Perm}
use mathlib.Core.List.Perm
use mupitech_player.Prelude.{
  All, [], arith, codes, false, get_elem?, if◌then◌else◌, none, refl, some, text_eq, true, ◌%◌, ◌+◌,
  ◌∷◌, ◌≡◌, ◌≢◌,
}
use mupitech_player.Models.{
  Asset, Entry, get_play_days, has_window_filter, is_active, matches_play_window,
}
use mupitech_player.Scheduling.{
  Scheduler, World, bump_counter, compute_deadline, flagged, generate_asset_list, get_db_mtime,
  get_next_asset, ids, is_due, refresh_playlist, rotate, rotate_among, show, turn, update_playlist,
}
use mupitech_player.Models.Examples.{night_row, plain_row, runtime}
use mupitech_player.Scheduling.Circle.{
  Quiet, Turned, Undisturbed, after, get_next_asset-Turned, get_next_asset_circle,
}
use mupitech_player.Scheduling.Deadline.{compute_deadline_stable}
use mupitech_player.Scheduling.Files.{refresh_playlist_reloads}
use mupitech_player.Scheduling.Order.{update_playlist_keeps_order}
use mupitech_player.Scheduling.Rotation.{ReturnsFor, get_next_asset-Returns}
use mupitech_player.Scheduling.Update.{IsValid, Updated, update_playlist-Updated}

abbrev second : Asset
second = record { entry = record plain_row.entry { asset_id = codes "second" }; md5 = none }

abbrev calm : World
calm = record {
  runtime = runtime;
  shuffle_playlist = false;
  database = codes "db";
  getmtime = λ t. some 7;
  getmtime_later = λ t. some 7;
  now = 100;
  now_later = 100;
  find_row = λ x. if text_eq x (codes "night") then some night_row else none;
  candidates = plain_row ∷ second ∷ [];
  shuffle = λ es. es;
}

abbrev shuffled : World
shuffled = record calm {
  shuffle_playlist = true;
  shuffle = λ es. second.entry ∷ plain_row.entry ∷ [];
}

-- Two entries, the second one next.
abbrev at_second : Scheduler
at_second = record {
  assets = plain_row.entry ∷ second.entry ∷ [];
  counter = 0;
  current_asset_id = none;
  deadline = none;
  extra_asset = none;
  index = 1;
  reverse = false;
  last_update_db_mtime = 7;
}

at_second-IsValid : IsValid at_second
at_second-IsValid = record { in_list = omega arith }

calm-Quiet : Quiet calm at_second
unfolding is_due get_db_mtime
calm-Quiet = record {
  same_files = omega arith;
  no_reshuffle = refl;
  not_due = refl;
  no_request = refl;
}

-- The world of `calm`, with a row that an operator asked for.
abbrev asking : World
asking = record calm { find_row = λ x. some second }

abbrev asked_second : Scheduler
asked_second = record at_second { extra_asset = some (codes "second") }

asked_second-IsValid : IsValid asked_second
asked_second-IsValid = record { in_list = at_second-IsValid.in_list }

get_next_asset-Returns_example :
    ReturnsFor (some second) asked_second (get_next_asset asking asked_second)
get_next_asset-Returns_example = get_next_asset-Returns asking asked_second asked_second-IsValid

update_playlist-Updated_example :
    (s' : Scheduler) × (update_playlist calm false at_second ≡ some s') × Updated calm at_second s'
update_playlist-Updated_example = update_playlist-Updated calm false at_second

-- Both rows are played on day 0, so the shuffle of `shuffled` has the ids of `at_second`.
shuffled_ids : Perm (ids at_second.assets) (ids (generate_asset_list shuffled).0)
unfolding generate_asset_list ids
shuffled_ids = Perm.swap (codes "second") (codes "plain") []

update_playlist_keeps_order_example :
    (s' : Scheduler) × (update_playlist shuffled false at_second ≡ some s')
    × (ids s'.assets ≡ ids at_second.assets)
    × (s'.index ≡ 1)
    × (s'.counter ≡ 0)
update_playlist_keeps_order_example =
    update_playlist_keeps_order shuffled at_second refl shuffled_ids

get_next_asset-Turned_example : Turned at_second at_second.assets (get_next_asset calm at_second)
get_next_asset-Turned_example = get_next_asset-Turned calm at_second calm-Quiet (omega arith)

-- A second later, with an older file.
abbrev calm_later : World
calm_later = record calm { now = 101; getmtime = λ t. some 6 }

calm-Undisturbed : Undisturbed at_second calm
unfolding is_due get_db_mtime
calm-Undisturbed = record { off = refl; same_files = omega arith; not_due = refl }

calm_later-Undisturbed : Undisturbed at_second calm_later
unfolding is_due get_db_mtime
calm_later-Undisturbed = record { off = refl; same_files = omega arith; not_due = refl }

get_next_asset_circle_example :
    (let ws = calm ∷ calm_later ∷ calm_later ∷ [] in
      (s' : Scheduler) × (s'' : Scheduler) × (shown : Entry) × (after ws at_second ≡ some s')
      × (get_next_asset calm_later s' ≡ some (s'', some shown))
      × (get_elem? at_second.assets ((1 + 3) % 2) ≡ some shown))
get_next_asset_circle_example =
    get_next_asset_circle (calm ∷ calm_later ∷ calm_later ∷ []) calm_later at_second
      (calm-Undisturbed, (calm_later-Undisturbed, (calm_later-Undisturbed, tt)))
      calm_later-Undisturbed refl refl (omega arith)

abbrev backwards : Scheduler
backwards = record at_second { index = 0; reverse = true }

backwards-Quiet : Quiet calm backwards
unfolding is_due get_db_mtime
backwards-Quiet = record {
  same_files = omega arith;
  no_reshuffle = refl;
  not_due = refl;
  no_request = refl;
}

compute_deadline_stable_example :
    All
      (λ a.
        has_window_filter runtime a ≡ false
        → a.start_date ≢ some 100
        → is_active runtime a 500 ≡ is_active runtime a 100)
      (plain_row ∷ [])
unfolding compute_deadline flagged is_active has_window_filter get_play_days matches_play_window
compute_deadline_stable_example =
    compute_deadline_stable runtime 100 500 (plain_row ∷ []) (omega arith) (omega arith)
      (omega arith) (omega arith)

refresh_playlist_reloads_example :
    (s' : Scheduler) × (refresh_playlist calm (record at_second { last_update_db_mtime = 3 })
      ≡ some s')
    × (s'.assets ≡ (generate_asset_list calm).0)
    × (s'.last_update_db_mtime ≡ get_db_mtime calm.getmtime_later calm.database)
refresh_playlist_reloads_example =
    refresh_playlist_reloads calm (record at_second { last_update_db_mtime = 3 }) b'd' (b'b' ∷ [])
      (codes "-wal") 7 refl refl (Memᴰ.tail (Memᴰ.head refl)) refl (omega arith)

-- The code of a quiet call.
unfoldable pub scheduler_code : Unit {0}
unfolding get_next_asset refresh_playlist rotate rotate_among show turn bump_counter is_due
    get_db_mtime
scheduler_code = tt
