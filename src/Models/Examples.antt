-- ===== src/Models/Examples.antt =====
-- A runtime and rows to try the model on, and the theorems about `models.py` applied to them.
use mupitech_player.Prelude.{
  [], arith, codes, false, if◌then◌else◌, none, refl, some, text_eq, true, ℕ, ◌%◌, ◌*◌, ◌+◌, ◌/◌,
  ◌↔◌, ◌∷◌, ◌≡◌,
}
use mupitech_player.Prelude.Int.{pos}
use mupitech_player.Models.{
  Asset, Items, Runtime, arr, cons, day_length, end, get_play_days, get_play_days_of, in_window,
  int, is_active, matches_play_window, missing, nil, obj, text,
}
use mupitech_player.Models.PlayDays.{IsSchedule, get_play_days-IsSchedule}
use mupitech_player.Models.Window.{InRange, Plays, is_active-Plays}

-- Local time is UTC, day 0 is a Monday, and the only JSON text that is read is "[5, 1, 5]".
abbrev five_one : Items
five_one = cons (int (pos 5)) (cons (int (pos 1)) (cons (int (pos 5)) nil))

abbrev pub runtime : Runtime
runtime = record {
  json_loads = λ t. if text_eq t (codes "[5, 1, 5]") then some (arr five_one) else none;
  localtime = λ t. record { weekday = t / day_length % 7 + 1; time = t % day_length };
}

-- Played on Mondays and Fridays from 22:00 to 06:00, in the first two weeks.
abbrev pub night_row : Asset
night_row = record {
  entry = record {
    asset_id = codes "night";
    name = none;
    uri = some (codes "/data/night.png");
    start_date = some 1;
    end_date = some (14 * day_length);
    duration = some (pos 10);
    mimetype = some (codes "image");
    is_enabled = true;
    is_processing = false;
    nocache = false;
    play_order = pos 0;
    skip_asset_check = false;
    skip_ssl_verify = false;
    play_days = text (codes "[5, 1, 5]");
    play_time_from = some 79_200_000_000;
    play_time_to = some 21_600_000_000;
    is_reachable = true;
    last_reachability_check = none;
    metadata = obj end;
  };
  md5 = none;
}

-- The same row with no window.
abbrev pub plain_row : Asset
plain_row = record {
  entry = record night_row.entry {
    asset_id = codes "plain";
    play_days = missing;
    play_time_from = none;
    play_time_to = none;
  };
  md5 = none;
}

days_of_night_row : get_play_days runtime night_row ≡ 1 ∷ 5 ∷ []
unfolding get_play_days get_play_days_of text_eq
days_of_night_row = refl

get_play_days-IsSchedule_example : IsSchedule (get_play_days runtime night_row)
get_play_days-IsSchedule_example = get_play_days-IsSchedule runtime night_row

-- Tuesday of the first week, 03:00.
abbrev tuesday_night : ℕ
tuesday_night = day_length + 10_800_000_000

is_active-Plays_example : (is_active runtime night_row tuesday_night ≡ true) ↔ (
    (night_row.is_enabled ≡ true)
    × InRange night_row.start_date night_row.end_date tuesday_night
    × Plays 79_200_000_000 21_600_000_000
        (get_play_days runtime night_row)
        (runtime.localtime tuesday_night))
is_active-Plays_example =
    is_active-Plays runtime night_row tuesday_night 79_200_000_000 21_600_000_000 refl refl
      (omega arith) (omega arith) (omega arith)

night_row_at_night : is_active runtime night_row tuesday_night ≡ true
unfolding is_active matches_play_window in_window get_play_days get_play_days_of text_eq
night_row_at_night = refl
