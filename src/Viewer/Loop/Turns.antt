-- ===== src/Viewer/Loop/Turns.antt =====
-- The guard over a turn of the main thread.
use mupitech_player.Prelude.{
  Option, Text, arith, either_branch, false, if◌then◌else◌, is_empty, none, not, some, true, ◌&&◌,
  ◌||◌,
}
use mupitech_player.Models.{Entry}
use mupitech_player.Scheduling.{get_next_asset}
use mupitech_player.Scheduling.Rotation.{get_next_asset-Returns}
use mupitech_player.Viewer.Loop.{
  Env, Viewer, after_watchdog, apply_rotation, asset_key, asset_loop, consume_bounce,
  empty_pl_delay, is_applied, is_displayable, is_local_file, is_unavailable, note_empty,
  note_unavailable, noticed, paint_black, pass_over, paused_for, playlist_is_empty, rechecked,
  retry_rotation, show_answer, stand_by, stopped_delay, trigger_recheck, turn_once,
  unavailable_delay, watched,
}
use mupitech_player.Viewer.Watchdog.{Outcome, exits, raises, stays, wayland_output_watchdog}
use mupitech_player.Viewer.Webview.{Bus, Webview, is_url, view_image}
use mupitech_player.Viewer.Loop.Calls.{
  AllowedAct, AllowedEvent, AllowedWeb, Guarded, IsTame, Upholds, act-Guarded, image-Allowed,
  wait-Guarded, with_web-Guarded,
}
use mupitech_player.Viewer.Loop.Plays.{known-Guarded}
use mupitech_player.Viewer.Webview.Kept.{Keeps, reaped-Keeps}

note_unavailable-Guarded : (key : Text) (v : Viewer) → Guarded v → Guarded (note_unavailable key v)
unfolding note_unavailable Guarded AllowedAct
note_unavailable-Guarded key v g = either_branch Guarded (is_url v.unavailable_asset_logged key) g (
    act-Guarded (noticed (is_unavailable key)) (record v { unavailable_asset_logged = some key }) tt
      g)

recheck-Guarded :
    (token asset_id : Text) (v : Viewer) → Guarded v → Guarded (trigger_recheck token asset_id v)
unfolding trigger_recheck AllowedAct
recheck-Guarded token asset_id v g =
    either_branch Guarded (is_empty asset_id || is_empty token) g
      (act-Guarded (rechecked asset_id) v tt g)

pass-Guarded :
    (env : Env) (e : Entry) (v : Viewer) → Guarded v → Upholds Guarded (pass_over env e v)
unfolding pass_over Upholds Guarded
pass-Guarded env e v g =
    let noted =
      note_unavailable-Guarded (asset_key e) (record v { empty_playlist_logged = false }) g in
    let v1 = note_unavailable (asset_key e) (record v { empty_playlist_logged = false }) in
    wait-Guarded env unavailable_delay
      (if is_local_file e.uri then v1 else trigger_recheck env.internal_token e.asset_id v1)
      (omega arith)
      (either_branch Guarded (is_local_file e.uri) noted
        (recheck-Guarded env.internal_token e.asset_id v1 noted))

note_empty-Guarded : (v : Viewer) → Guarded v → Guarded (note_empty v)
unfolding note_empty Guarded AllowedAct
note_empty-Guarded v g =
    either_branch Guarded v.empty_playlist_logged g
      (act-Guarded (noticed playlist_is_empty) (record v { empty_playlist_logged = true }) tt g)

empty-Guarded : (env : Env) (v : Viewer) → Guarded v → Upholds Guarded (stand_by env v)
unfolding stand_by Upholds Guarded
empty-Guarded env v g =
    with_web-Guarded (note_empty v) (view_image env.bus env.standby_screen false v.web) _
      (note_empty-Guarded v g) (image-Allowed env.bus env.standby_screen false v.web g.0)
      (λ u h. wait-Guarded env empty_pl_delay u (omega arith) h)

answer-Guarded :
    (env : Env) (answer : Option Entry) (v : Viewer)
    → IsTame env
    → Guarded v
    → Upholds Guarded (show_answer env answer v)
unfolding show_answer
answer-Guarded env none v tame g = empty-Guarded env v g
answer-Guarded env (some e) v tame g =
    either_branch (Upholds Guarded) (is_displayable env.is_file e) (known-Guarded env e v tame g)
      (pass-Guarded env e v g)

next-Guarded :
    (env : Env) (v : Viewer)
    → IsTame env
    → Guarded v
    → Upholds Guarded (after_watchdog env v (get_next_asset env.world v.scheduler))
unfolding after_watchdog Guarded
next-Guarded env v tame g =
    let (s', answer, same, shown) = get_next_asset-Returns env.world v.scheduler g.2 in
    rw same
      (answer-Guarded env answer (record v { scheduler = s' }) tame (g.0, g.1, shown.valid, g.3))

watched-Guarded :
    (env : Env) (v : Viewer) (o : Outcome)
    → IsTame env
    → Guarded v
    → Upholds Guarded (watched env v o)
unfolding watched Guarded Upholds
watched-Guarded env v raises tame g = g
watched-Guarded env v (exits watch) tame g = g
watched-Guarded env v (stays watch) tame g = next-Guarded env (record v { watch = watch }) tame g

bounce-Guarded : (bus : Bus) (v : Viewer) → Guarded v → Guarded (consume_bounce v)
unfolding consume_bounce Guarded Keeps AllowedEvent
bounce-Guarded bus v g =
    either_branch Guarded v.rotation_bounce_pending
      (reaped-Keeps AllowedEvent bus tt tt (λ u s r. tt) (λ u s r. tt) v.web g.0, g.1, g.2, g.3) g

retry-Allowed : (bus : Bus) (w : Webview) → AllowedWeb w → AllowedWeb (retry_rotation bus w)
unfolding retry_rotation apply_rotation
retry-Allowed bus w h =
    either_branch AllowedWeb (bus.wayland && not (is_applied w.last_applied_rotation bus.rotation))
      (either_branch AllowedWeb (bus.transformed w.log) h h) h

asset_loop-Guarded :
    (env : Env) (v : Viewer) → IsTame env → Guarded v → Upholds Guarded (asset_loop env v)
unfolding asset_loop Guarded
asset_loop-Guarded env v tame g =
    let h = bounce-Guarded env.bus v g in
    watched-Guarded env _
      (wayland_output_watchdog env.parse_int env.display (consume_bounce v).watch) tame
      (retry-Allowed env.bus (consume_bounce v).web h.0, h.1, h.2, h.3)

pub turn_once-Guarded :
    (env : Env) (v : Viewer) → IsTame env → Guarded v → Upholds Guarded (turn_once env v)
unfolding turn_once paint_black Upholds AllowedAct Guarded
turn_once-Guarded env v tame g =
    either_branch (Upholds Guarded) v.loop_is_stopped
      (either_branch (Upholds Guarded)
        (v.display_blanked && not (is_url v.web.current_browser_url env.black_screen))
        (with_web-Guarded v (view_image env.bus env.black_screen false v.web) _ g
          (image-Allowed env.bus env.black_screen false v.web g.0)
          (λ u h. act-Guarded (paused_for stopped_delay) u tt h))
        (act-Guarded (paused_for stopped_delay) v tt g))
      (asset_loop-Guarded env v tame g)
