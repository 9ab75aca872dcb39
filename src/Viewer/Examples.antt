-- ===== src/Viewer/Examples.antt =====
-- Small worlds of the viewer, and the theorems about it applied to them.
use mupitech_player.Prelude.{
  All, List, Option, Text, TextDict, [], arith, codes, false, if◌then◌else◌, is_space, length, ltb,
  none, refl, some, starts_with, strip, text_eq, true, ℕ, ◌*◌, ◌++◌, ◌+◌, ◌<◌, ◌↔◌, ◌∷◌, ◌≡◌, ◌≤◌,
}
use mupitech_player.Prelude.Int.{ℤ}
use mupitech_player.Models.{Entry}
use mupitech_player.Scheduling.{World}
use mupitech_player.Models.Examples.{plain_row, runtime}
use mupitech_player.Viewer.Launch.{
  Host, Signal, Spawn, binary_missing, launch_error, load_browser, registered, spawn_webview_once,
}
use mupitech_player.Viewer.Loop.{Env, Viewer, act, crashed, paused_for, ticked, turn_once, with_web}
use mupitech_player.Viewer.Output.{
  Chunk, decoded, empty_buffer, feed, join_chunks, kept_text, last_chars, raw,
}
use mupitech_player.Viewer.Player.{mpv, player_play, player_stop}
use mupitech_player.Viewer.Qpa.{exited, half, quarter, set_qpa_rotation, zero_deg}
use mupitech_player.Viewer.Watchdog.{
  Display, Watch, cage_output_probe, current_boot_id, has_bindable, has_connected, has_modes,
  is_no_output, is_wayland_board, is_wedge, probe_lines, recovery_restarts, stored,
}
use mupitech_player.Viewer.Webview.{
  Bus, Event, Webview, ensure_browser, is_url, load_image, load_page, play_video, raised, returned,
  sent, set_reload_interval, set_request_headers, spawned, stop_video, view_image, view_webpage,
}
use mupitech_player.Viewer.Launch.Attempts.{Ends, RetriesAll, load_browser-Explains}
use mupitech_player.Viewer.Launch.Polls.{Shakes, Sleeps, spawn_webview_once_ends}
use mupitech_player.Viewer.Loop.Blank.{blanked_turns, turns_of}
use mupitech_player.Viewer.Loop.Calls.{Guarded, IsTame, Upholds}
use mupitech_player.Viewer.Loop.Control.{Reload, blank, commanded, run_inputs, turned}
use mupitech_player.Viewer.Loop.Media.{player_play-Allowed, player_stop-Allowed}
use mupitech_player.Viewer.Loop.Runs.{IsTameInput, run_inputs-Guarded}
use mupitech_player.Viewer.Output.Tail.{kept_text-feed, printed}
use mupitech_player.Viewer.Qpa.Rotation.{set_qpa_rotation_again}
use mupitech_player.Viewer.Watchdog.Budget.{Counts, exits_over, exits_over_bound, resets}
use mupitech_player.Viewer.Watchdog.Exit.{IsWedged, watchdog_recovers}
use mupitech_player.Viewer.Webview.Staged.{LoadsSince, view_webpage_no_leak}
use mupitech_player.Viewer.Webview.Steps.{Leaves}

abbrev shouted : List Chunk
shouted = decoded (codes "ab") ∷ raw (99 ∷ []) ∷ []

kept_text-feed_example :
    let b = feed (λ bytes. bytes) shouted (empty_buffer 2) in
    (kept_text b ≡ last_chars 2 (printed (λ bytes. bytes) shouted))
    × (length (printed (λ bytes. bytes) shouted) ≤ 2
        → kept_text b ≡ printed (λ bytes. bytes) shouted)
    × (b.size ≡ length (join_chunks b.chunks))
    × (b.size < 2 * 2)
kept_text-feed_example = kept_text-feed (λ bytes. bytes) 2 shouted (omega arith)

set_qpa_rotation_again_example :
    set_qpa_rotation (set_qpa_rotation (codes "linuxfb:fb=/dev/fb0,rotation=180") quarter) half
    ≡ set_qpa_rotation (codes "linuxfb:fb=/dev/fb0,rotation=180") half
set_qpa_rotation_again_example =
    set_qpa_rotation_again (codes "linuxfb:fb=/dev/fb0,rotation=180") quarter half

-- A connected display, and a cage that has no output.
abbrev wedge_at : ℕ → Display
wedge_at t = record {
  qt_qpa_platform = codes "wayland";
  connectors = record { status = some (codes "connected"); modes = some (codes "1920x1080") } ∷ [];
  wlr_randr = exited 0 [];
  now = t;
  boot_id = some (codes "b1");
  proc_stat = none;
  write = stored;
}

abbrev new_watch : Watch
new_watch = record { file = none; wedge_since = none; gave_up_logged = false }

abbrev no_int : Text → Option ℤ
no_int s = none

exits_over_bound_example :
    exits_over no_int (wedge_at 5 ∷ wedge_at 70 ∷ []) new_watch
    ≤ 3 * (1 + resets (wedge_at 5 ∷ wedge_at 70 ∷ []))
unfolding Counts recovery_restarts current_boot_id strip is_space
exits_over_bound_example =
    exits_over_bound no_int (codes "b1") 0 (wedge_at 5 ∷ wedge_at 70 ∷ []) new_watch
      (refl, (refl, tt)) (refl, omega arith)

wedge_at-IsWedged : (t : ℕ) → IsWedged (codes "b1") (wedge_at t)
unfolding IsWedged is_wayland_board starts_with is_wedge has_bindable has_modes has_connected
    cage_output_probe probe_lines is_no_output current_boot_id text_eq strip is_space
wedge_at-IsWedged t = (refl, refl, refl)

watchdog_recovers_example :
    exits_over no_int (wedge_at 5 ∷ wedge_at 30 ∷ wedge_at 70 ∷ []) new_watch ≡ 1
unfolding recovery_restarts
watchdog_recovers_example =
    watchdog_recovers no_int (codes "b1") (wedge_at 5) (wedge_at 30 ∷ []) (wedge_at 70) new_watch 0
      refl refl (wedge_at-IsWedged 5) ((wedge_at-IsWedged 30, omega arith), tt)
      (wedge_at-IsWedged 70) (omega arith) refl

-- A host on which the socket is there and the third poll finds the handshake line.
abbrev host : Host
host = record {
  start = 0;
  socket_path = some (codes "/run/wayland-0");
  socket_present = true;
  socket_clock = λ i. 250 * i;
  socket_there = λ i. true;
  command_found = true;
  clock = λ i. 250 * i;
  output = λ i. if ltb i 2 then [] else codes "Anthias service start";
  alive = λ i. true;
  term_sent = true;
  term_start = 0;
  term_clock = λ i. 250 * i;
  term_alive = λ i. false;
}

spawn_webview_once_ends_example :
    (result : Spawn) × (sent : List Signal) × (spawn_webview_once (λ n. []) host 10_000 41
      ≡ some (result, sent))
    × (result ≡ registered → (true ≡ true) × Shakes host.clock host.output (0 + 10_000))
    × ((result ≡ binary_missing) ↔ (true ≡ false))
unfolding Sleeps
spawn_webview_once_ends_example =
    spawn_webview_once_ends (λ n. []) host 10_000 40 (λ i. omega arith) (λ i. omega arith)
      (λ i. omega arith) (omega arith) (omega arith) (omega arith) (omega arith) (omega arith)

-- The first spawn fails, the second one works.
abbrev second_works : ℕ → Spawn
second_works i = if ltb i 2 then launch_error (codes "malloc") else registered

load_browser-Explains_example :
    let (result, sleeps) = load_browser second_works (λ m. false) 3 2 in
    (n : ℕ) × RetriesAll second_works (λ m. false) 1 n
    × Ends second_works (λ m. false) 3 1 n result
    × (length sleeps ≤ n)
    × (length sleeps < 3)
    × All (λ s. (1 ≤ s) × (s ≤ 2)) sleeps
load_browser-Explains_example = load_browser-Explains second_works (λ m. false) 3 2

-- A bus that answers every call, but is gone for the first page of a process with headers.
abbrev bus : Bus
bus = record {
  reply = λ log call. elim call [
    | set_request_headers headers ↦ returned
    | set_reload_interval n ↦ returned
    | load_page uri skip ↦
        if ltb (length log) 2 then raised (codes "org.freedesktop.DBus.Error.NoReply") else returned
    | load_image uri skip ↦ returned
    | play_video uri device ↦ returned
    | stop_video ↦ returned
  ];
  is_alive = λ log. true;
  spawn = λ log i. registered;
  vanished = λ message. false;
  launch_text = λ log l. codes "WebviewLaunchError";
  lower = λ s. s;
  rotation = zero_deg;
  wayland = false;
  transformed = λ log. true;
  prefer_dark_mode = false;
  query = λ uri. some [];
  with_query = λ uri query. uri ++ 63 ∷ query;
  clock_text = λ log. codes "17";
}

abbrev token_only : TextDict
token_only = (codes "X-Token", codes "abc") ∷ []

abbrev web : Webview
web = record {
  has_browser = true;
  supports_set_reload_interval = true;
  supports_set_request_headers = true;
  supports_ssl_arg = true;
  current_browser_url = none;
  current_browser_headers = [];
  current_browser_skip_ssl = false;
  last_applied_rotation = some zero_deg;
  last_applied_dark_mode = false;
  log = [];
}

abbrev page : Text
page = codes "https://example.org/"

-- A web view that shows another asset's page, under that asset's headers.
abbrev other_page : List Event
other_page =
    sent (load_page (codes "https://example.com/") none) returned
    ∷ sent (set_request_headers ((codes "X-Other", codes "secret") ∷ [])) returned
    ∷ spawned
    ∷ []

view_webpage_no_leak_example :
    Leaves
      (λ v. LoadsSince token_only other_page v.log)
      (view_webpage bus page 60 false token_only false (record web { log = other_page }))
view_webpage_no_leak_example =
    view_webpage_no_leak bus token_only (λ log m e. cc) page 60 false false
      (record web { log = other_page }) refl

abbrev world : World
world = record {
  runtime = runtime;
  shuffle_playlist = false;
  database = codes "db";
  getmtime = λ t. some 7;
  getmtime_later = λ t. some 7;
  now = 100;
  now_later = 100;
  find_row = λ x. none;
  candidates = plain_row ∷ [];
  shuffle = λ es. es;
}

abbrev viewer : Viewer
viewer = record {
  web = web;
  scheduler = record {
    assets = plain_row.entry ∷ [];
    counter = 0;
    current_asset_id = none;
    deadline = none;
    extra_asset = none;
    index = 0;
    reverse = false;
    last_update_db_mtime = 7;
  };
  watch = new_watch;
  loop_is_stopped = false;
  display_blanked = false;
  rotation_bounce_pending = false;
  empty_playlist_logged = false;
  unavailable_asset_logged = none;
  skip_event = false;
  acts = [];
}

abbrev env : Env
env = record {
  bus = bus;
  world = world;
  display = record (wedge_at 0) { qt_qpa_platform = codes "linuxfb" };
  parse_int = no_int;
  is_file = λ uri. false;
  is_zero_float = λ x. false;
  verify_ssl = true;
  internal_token = codes "secret";
  standby_screen = codes "http://localhost/standby.png";
  black_screen = codes "http://localhost/black.png";
  signalled = λ acts ms. false;
  media_play = λ uri n. player_play mpv bus (codes "default") uri;
  media_stop = player_stop mpv bus;
  play_none = crashed;
}

abbrev reload_now : Reload
reload_now = record {
  rotation = zero_deg;
  prefer_dark_mode = false;
  wayland = false;
  transformed = λ log. true;
  runtime = runtime;
  now = 100;
  find_row = λ x. some none;
}

env-IsTame : IsTame env
unfolding Upholds
env-IsTame = record {
  player = λ uri n w h. player_play-Allowed mpv bus (codes "default") uri w h;
  stopper = λ w h. player_stop-Allowed mpv bus w h;
  refusal = λ v g. g;
}

run_inputs-Guarded_example :
    Upholds Guarded (run_inputs (turned env ∷ commanded reload_now blank ∷ turned env ∷ []) viewer)
unfolding Guarded IsTameInput
run_inputs-Guarded_example =
    run_inputs-Guarded (turned env ∷ commanded reload_now blank ∷ turned env ∷ []) viewer
      (env-IsTame, (tt, (env-IsTame, tt))) (tt, tt, record { in_list = omega arith }, λ e. cc)

abbrev missing_file : Entry
missing_file = record plain_row.entry {
  uri = some (codes "/data/gone.png");
  skip_asset_check = false;
}

-- A playlist of that one row.
abbrev gone_viewer : Viewer
gone_viewer = record viewer { scheduler = record viewer.scheduler { assets = missing_file ∷ [] } }

abbrev dark : Viewer
dark = record viewer { loop_is_stopped = true; display_blanked = true }

abbrev painted : Viewer
painted = record dark {
  web = record web {
    current_browser_url = some (codes "http://localhost/black.png");
    log = sent (load_image (codes "http://localhost/black.png") (some false)) returned ∷ [];
  };
  acts = paused_for 100 ∷ [];
}

dark_turn : turn_once env dark ≡ ticked painted
unfolding turn_once with_web act view_image ensure_browser
dark_turn = refl

blanked_turns_example :
    (u : Viewer) × (run_inputs (turned env ∷ turns_of (env ∷ env ∷ [])) dark ≡ ticked u)
    × (u.web ≡ painted.web)
    × (u.scheduler ≡ painted.scheduler)
    × (is_url u.web.current_browser_url env.black_screen ≡ true)
blanked_turns_example =
    blanked_turns env (env ∷ env ∷ []) dark painted refl refl dark_turn (refl, (refl, tt))
