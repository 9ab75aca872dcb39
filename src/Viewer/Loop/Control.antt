-- ===== src/Viewer/Loop/Control.antt =====
-- src/anthias_viewer/playback.py and the handlers of the commands, which the subscriber's thread
-- runs between the turns of the main thread, and how commands and turns follow each other.
use mupitech_player.Prelude.{
  Bool, List, Option, Text, [], false, if◌then◌else◌, none, not, some, true, ℕ, ◌∷◌,
}
use mupitech_player.Models.{Asset, Runtime, is_active}
use mupitech_player.Viewer.Loop.{
  Env, Tick, Viewer, act, crashed, is_applied, powered, quit, recreated, ticked, turn_once,
}
use mupitech_player.Viewer.Qpa.{Angle}
use mupitech_player.Viewer.Webview.{Event, Webview, same_flag}

-- What a command meets: the settings that it reads, and the row of the current asset, `none` for an
-- exception of the database.
pub record Reload : Type 0 where
  pub rotation : Angle
  pub prefer_dark_mode : Bool
  pub wayland : Bool
  pub transformed : List Event → Bool
  pub runtime : Runtime
  pub now : ℕ
  pub find_row : Text → Option (Option Asset)

pub data Command : Type 0 where
  next previous stop_command play_command blank unblank unknown_command : Command
  show_asset : Text → Command
  reload : Command

-- `get_skip_event().set()`
unfoldable pub signal : Viewer → Viewer
signal v = record v { skip_event = true }

unfoldable pub skip_asset : Bool → Viewer → Viewer
unfolding signal
skip_asset back v =
    if back
    then signal (record v { scheduler = record v.scheduler { reverse = true } })
    else signal v

unfoldable pub navigate_to_asset : Text → Viewer → Viewer
unfolding signal
navigate_to_asset asset_id v =
    signal (record v { scheduler = record v.scheduler { extra_asset = some asset_id } })

unfoldable pub stop_playback : Viewer → Viewer
unfolding skip_asset
stop_playback v = record (skip_asset false v) { loop_is_stopped = true }

unfoldable pub blank_display : Bool → Viewer → Viewer
unfolding signal act
blank_display wayland v =
    let v1 = record v { display_blanked = true; loop_is_stopped = true } in
    signal (if wayland then act (powered false) v1 else v1)

unfoldable pub unblank_display : Bool → Viewer → Viewer
unfolding signal act
unblank_display wayland v =
    let v1 = if wayland then act (powered true) v else v in
    signal (record v1 { display_blanked = false; loop_is_stopped = false })

unfoldable pub play_playback : Bool → Viewer → Viewer
unfolding unblank_display
play_playback wayland v =
    if v.display_blanked then unblank_display wayland v else record v { loop_is_stopped = false }

unfoldable pub latch_rotation : Reload → Webview → Webview
latch_rotation r w = record w { last_applied_rotation = some r.rotation }

-- `_maybe_reapply_rotation`
unfoldable pub reapply_rotation : Reload → Viewer → Viewer
unfolding signal act is_applied latch_rotation
reapply_rotation r v =
    if is_applied v.web.last_applied_rotation r.rotation
    then v
    else if r.wayland
    then (if r.transformed v.web.log then record v { web = latch_rotation r v.web } else v)
    else signal
        (act recreated (record v { web = latch_rotation r v.web; rotation_bounce_pending = true }))

-- `_maybe_reapply_dark_mode`
unfoldable pub reapply_dark_mode : Reload → Viewer → Viewer
unfolding signal
reapply_dark_mode r v =
    if same_flag r.prefer_dark_mode v.web.last_applied_dark_mode
    then v
    else signal (record v {
      web = record v.web { last_applied_dark_mode = r.prefer_dark_mode };
      rotation_bounce_pending = true;
    })

is_gone_row : Reload → Option (Option Asset) → Bool
is_gone_row r none = false
is_gone_row r (some none) = true
is_gone_row r (some (some a)) = not (is_active r.runtime a r.now)

-- `not asset_id`, and else whether the row is gone or inactive.
unfoldable pub is_stale : Reload → Option Text → Bool
unfolding is_gone_row
is_stale r none = false
is_stale r (some []) = false
is_stale r (some (c ∷ cs)) = is_gone_row r (r.find_row (c ∷ cs))

-- `_skip_if_current_asset_inactive`
unfoldable pub skip_if_stale : Reload → Viewer → Viewer
unfolding signal is_stale
skip_if_stale r v = if is_stale r v.scheduler.current_asset_id then signal v else v

-- `_handle_reload`
unfoldable pub handle_reload : Reload → Viewer → Viewer
unfolding reapply_rotation reapply_dark_mode skip_if_stale
handle_reload r v = skip_if_stale r (reapply_dark_mode r (reapply_rotation r v))

unfoldable pub run_command : Reload → Command → Viewer → Viewer
unfolding skip_asset navigate_to_asset stop_playback blank_display unblank_display play_playback
    handle_reload
run_command r next v = skip_asset false v
run_command r previous v = skip_asset true v
run_command r stop_command v = stop_playback v
run_command r play_command v = play_playback r.wayland v
run_command r blank v = blank_display r.wayland v
run_command r unblank v = unblank_display r.wayland v
run_command r unknown_command v = v
run_command r (show_asset asset_id) v = navigate_to_asset asset_id v
run_command r reload v = handle_reload r v

-- One thing that happens to a running viewer.
pub data Input : Type 0 where
  turned : Env → Input
  commanded : Reload → Command → Input

unfoldable pub step_input : Input → Viewer → Tick
unfolding run_command turn_once
step_input (turned env) v = turn_once env v
step_input (commanded r command) v = ticked (run_command r command v)

-- What follows a tick, unless it ended the loop.
unfoldable pub continue : Tick → (Viewer → Tick) → Tick
continue (ticked v) rest = rest v
continue (crashed v) rest = crashed v
continue (quit v) rest = quit v

-- The loop of `start_loop`, with the commands that arrive between its turns.
unfoldable pub run_inputs : List Input → Viewer → Tick
unfolding continue step_input
run_inputs [] v = ticked v
run_inputs (i ∷ inputs) v = continue (step_input i v) (run_inputs inputs)
