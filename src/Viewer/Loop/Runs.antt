-- ===== src/Viewer/Loop/Runs.antt =====
-- The guard over commands, and over any sequence of turns and commands.
use mupitech_player.Prelude.{
  All, Bool, List, [], either_branch, false, if◌then◌else◌, refl, true, ◌∷◌, ◌≡◌,
}
use mupitech_player.Viewer.Loop.{Tick, Viewer, act, crashed, is_applied, powered, quit, ticked}
use mupitech_player.Viewer.Webview.{same_flag}
use mupitech_player.Viewer.Loop.Calls.{AllowedAct, Guarded, IsTame, Upholds, act-Guarded}
use mupitech_player.Viewer.Loop.Control.{
  Command, Input, Reload, blank, blank_display, commanded, continue, handle_reload, is_stale,
  latch_rotation, navigate_to_asset, next, play_command, play_playback, previous, reapply_dark_mode,
  reapply_rotation, reload, run_command, run_inputs, show_asset, signal, skip_asset, skip_if_stale,
  step_input, stop_command, stop_playback, turned, unblank, unblank_display, unknown_command,
}
use mupitech_player.Viewer.Loop.Turns.{turn_once-Guarded}

signal-Guarded : (v : Viewer) → Guarded v → Guarded (signal v)
unfolding signal Guarded
signal-Guarded v g = g

reapply_rotation-Guarded : (r : Reload) (v : Viewer) → Guarded v → Guarded (reapply_rotation r v)
unfolding reapply_rotation latch_rotation signal act Guarded AllowedAct
reapply_rotation-Guarded r v g =
    either_branch Guarded (is_applied v.web.last_applied_rotation r.rotation) g (
      either_branch Guarded r.wayland (either_branch Guarded (r.transformed v.web.log) g g)
        (g.0, (tt, g.1), g.2, g.3))

reapply_dark_mode-Guarded : (r : Reload) (v : Viewer) → Guarded v → Guarded (reapply_dark_mode r v)
unfolding reapply_dark_mode signal Guarded
reapply_dark_mode-Guarded r v g =
    either_branch Guarded (same_flag r.prefer_dark_mode v.web.last_applied_dark_mode) g g

reload-Guarded : (r : Reload) (v : Viewer) → Guarded v → Guarded (handle_reload r v)
unfolding handle_reload skip_if_stale signal Guarded
reload-Guarded r v g =
    let h = reapply_dark_mode-Guarded r (reapply_rotation r v) (reapply_rotation-Guarded r v g) in
    either_branch Guarded
      (is_stale r (reapply_dark_mode r (reapply_rotation r v)).scheduler.current_asset_id) h h

unblank-Guarded : (r : Reload) (v : Viewer) → Guarded v → Guarded (unblank_display r.wayland v)
unfolding unblank_display signal Guarded AllowedAct
unblank-Guarded r v g =
    let h : Guarded (if r.wayland then act (powered true) v else v) =
      either_branch Guarded r.wayland (act-Guarded (powered true) v tt g) g in
    (h.0, h.1, h.2, λ e. cc)

played_on-Guarded :
    (r : Reload) (v : Viewer) (b : Bool)
    → v.display_blanked ≡ b
    → Guarded v
    → Guarded (if b then unblank_display r.wayland v else record v { loop_is_stopped = false })
unfolding Guarded
played_on-Guarded r v true e g = unblank-Guarded r v g
played_on-Guarded r v false e g = (g.0, g.1, g.2, λ f. cc)

run_command-Guarded :
    (r : Reload) (c : Command) (v : Viewer) → Guarded v → Guarded (run_command r c v)
unfolding run_command skip_asset navigate_to_asset stop_playback blank_display unblank_display
    play_playback signal act Guarded AllowedAct
run_command-Guarded r next v g = g
run_command-Guarded r previous v g = (g.0, g.1, record { in_list = g.2.in_list }, g.3)
run_command-Guarded r stop_command v g = (g.0, g.1, g.2, λ e. refl)
run_command-Guarded r play_command v g = played_on-Guarded r v v.display_blanked refl g
run_command-Guarded r blank v g =
    let v1 = record v { display_blanked = true; loop_is_stopped = true } in
    signal-Guarded (if r.wayland then act (powered false) v1 else v1)
      (either_branch Guarded r.wayland (g.0, (tt, g.1), g.2, λ e. refl) (g.0, g.1, g.2, λ e. refl))
run_command-Guarded r unblank v g = unblank-Guarded r v g
run_command-Guarded r unknown_command v g = g
run_command-Guarded r (show_asset uri) v g = (g.0, g.1, record { in_list = g.2.in_list }, g.3)
run_command-Guarded r reload v g = reload-Guarded r v g

unfoldable pub IsTameInput : Input → Type 0
IsTameInput (turned env) = IsTame env
IsTameInput (commanded r c) = Unit

step_input-Guarded :
    (i : Input) (v : Viewer) → IsTameInput i → Guarded v → Upholds Guarded (step_input i v)
unfolding step_input IsTameInput Upholds
step_input-Guarded (turned env) v tame g = turn_once-Guarded env v tame g
step_input-Guarded (commanded r c) v tame g = run_command-Guarded r c v g

continue-Guarded :
    (t : Tick) (rest : Viewer → Tick)
    → Upholds Guarded t
    → ((v : Viewer) → Guarded v → Upholds Guarded (rest v))
    → Upholds Guarded (continue t rest)
unfolding continue Upholds
continue-Guarded (ticked v) rest g k = k v g
continue-Guarded (crashed v) rest g k = g
continue-Guarded (quit v) rest g k = g

-- From a viewer for which it holds, with a media player that keeps it, and where a row without a URI
-- keeps it: however the turns of the main thread and the commands follow each other, and whether
-- the run goes on, raises or ends the process, every header dictionary that went to the web view
-- cannot split a request, every reload interval is at most a day, no wait is asked for more than a
-- year, the position of the scheduler lies in its list, and a blanked display has a stopped loop.
pub run_inputs-Guarded :
    (inputs : List Input) (v : Viewer)
    → All IsTameInput inputs
    → Guarded v
    → Upholds Guarded (run_inputs inputs v)
unfolding run_inputs Upholds
run_inputs-Guarded [] v tame g = g
run_inputs-Guarded (i ∷ inputs) v (tame, others) g =
    continue-Guarded (step_input i v) (run_inputs inputs) (step_input-Guarded i v tame g)
      (λ u h. run_inputs-Guarded inputs u others h)
