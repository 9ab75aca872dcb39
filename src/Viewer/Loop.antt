-- ===== src/Viewer/Loop.antt =====
-- The main thread of the viewer: a tick of `asset_loop` and a turn of `start_loop`. What the main
-- thread does beside the calls of the web view is kept in `acts`, the newest first. The media player
-- is a parameter: what its `play` and `stop` do to the web view.
-- `watchdog()`, which touches a file for the system's watchdog, is left out.
pub mod Control
pub mod Calls
pub mod Media
pub mod Plays
pub mod Turns
pub mod Runs
pub mod Quiet
pub mod Blank
use mupitech_player.Prelude.{
  Bool, List, Option, Text, TextDict, [], codes, contains, false, if◌then◌else◌, is_empty, none,
  not, some, starts_with, text_eq, true, zero, ℕ, ◌&&◌, ◌*◌, ◌++◌, ◌||◌, ◌∷◌,
}
use mupitech_player.Prelude.Int.{pos, ℤ}
use mupitech_player.Headers.{clamp_duration, clamp_refresh_interval, normalize_asset_headers}
use mupitech_player.Models.{
  Entry, Fields, Float, Json, arr, bool, end, float, get_key, int, nil, null, obj, str,
}
use mupitech_player.Scheduling.{Scheduler, World, get_next_asset}
use mupitech_player.Viewer.Qpa.{Angle, angle_text}
use mupitech_player.Viewer.Watchdog.{
  Display, Outcome, Watch, exits, raises, stays, wayland_output_watchdog,
}
use mupitech_player.Viewer.Webview.{
  Bus, Step, Webview, done, fails, is_url, reaped, view_image, view_webpage,
}

pub data Notice : Type 0 where
  playlist_is_empty playlist_resumes : Notice
  is_unavailable unknown_mimetype : Text → Notice

pub data Act : Type 0 where
  -- a wait for the skip event, in milliseconds, and whether the event ended it
  waited : ℕ → Bool → Act
  paused_for : ℕ → Act
  played : Text → ℕ → Act
  stopped recreated : Act
  rechecked : Text → Act
  powered : Bool → Act
  noticed : Notice → Act

pub record Viewer : Type 0 where
  pub web : Webview
  pub scheduler : Scheduler
  pub watch : Watch
  pub loop_is_stopped : Bool
  pub display_blanked : Bool
  pub rotation_bounce_pending : Bool
  pub empty_playlist_logged : Bool
  pub unavailable_asset_logged : Option Text
  pub skip_event : Bool
  pub acts : List Act

-- A tick returns, raises an exception, or ends the process.
pub data Tick : Type 0 where
  ticked crashed quit : Viewer → Tick

-- What one turn meets.
pub record Env : Type 0 where
  pub bus : Bus
  pub world : World
  pub display : Display
  pub parse_int : Text → Option ℤ
  pub is_file : Text → Bool
  pub is_zero_float : Float → Bool
  pub verify_ssl : Bool
  pub internal_token : Text
  pub standby_screen : Text
  pub black_screen : Text
  -- whether the event is set within so many milliseconds of its `clear`
  pub signalled : List Act → ℕ → Bool
  pub media_play : Text → ℕ → Webview → Step
  pub media_stop : Webview → Step
  -- what becomes of a displayable row without a URI, where the bus is given `None`
  pub play_none : Viewer → Tick

abbrev pub empty_pl_delay : ℕ
empty_pl_delay = 5_000

abbrev pub unavailable_delay : ℕ
unavailable_delay = 500

abbrev pub stopped_delay : ℕ
stopped_delay = 100

unfoldable pub act : Act → Viewer → Viewer
act a v = record v { acts = a ∷ v.acts }

-- A step on the web view, and what follows it if it returns.
unfoldable pub with_web : Viewer → Step → (Viewer → Tick) → Tick
with_web v (done w) rest = rest (record v { web = w })
with_web v (fails message w) rest = crashed (record v { web = w })

-- `skip_event.clear()` and `skip_event.wait(timeout=...)`
unfoldable pub wait_for : Env → ℕ → Viewer → Viewer
wait_for env ms v =
    let set = env.signalled v.acts ms in
    record v { skip_event = set; acts = waited ms set ∷ v.acts }

unfoldable pub consume_bounce : Viewer → Viewer
unfolding reaped
consume_bounce v =
    if v.rotation_bounce_pending
    then record v {
      rotation_bounce_pending = false;
      web = record (reaped v.web) { current_browser_url = none };
    }
    else v

pub same_angle : Angle → Angle → Bool
same_angle a b = text_eq (angle_text a) (angle_text b)

pub is_applied : Option Angle → Angle → Bool
unfolding same_angle
is_applied none b = false
is_applied (some a) b = same_angle a b

-- `if _apply_wlr_transform(rotation): _last_applied_rotation = rotation`
pub apply_rotation : Bus → Webview → Webview
apply_rotation bus w =
    if bus.transformed w.log then record w { last_applied_rotation = some bus.rotation } else w

-- `_retry_wayland_rotation_if_pending`
pub retry_rotation : Bus → Webview → Webview
unfolding apply_rotation is_applied
retry_rotation bus w =
    if bus.wayland && not (is_applied w.last_applied_rotation bus.rotation)
    then apply_rotation bus w
    else w

-- `uri.startswith('/')`
is_local_file : Option Text → Bool
is_local_file none = false
is_local_file (some uri) = starts_with (codes "/") uri

is_there : (Text → Bool) → Option Text → Bool
is_there is_file none = false
is_there is_file (some uri) = is_file uri

-- `_asset_is_displayable`
unfoldable pub is_displayable : (Text → Bool) → Entry → Bool
unfolding is_local_file is_there
is_displayable is_file e =
    if e.skip_asset_check
    then true
    else if is_local_file e.uri
    then is_there is_file e.uri
    else e.is_reachable

-- `_trigger_asset_recheck`: the request that it posts, whatever the answer.
trigger_recheck : Text → Text → Viewer → Viewer
unfolding act
trigger_recheck token asset_id v =
    if is_empty asset_id || is_empty token then v else act (rechecked asset_id) v

-- `metadata or {}`, as the object whose `get` is called; `none` is an `AttributeError`.
pub metadata_fields : (Float → Bool) → Json → Option Fields
metadata_fields is_zero_float (obj fields) = some fields
metadata_fields is_zero_float null = some end
metadata_fields is_zero_float (bool false) = some end
metadata_fields is_zero_float (int (pos zero)) = some end
metadata_fields is_zero_float (float x) = if is_zero_float x then some end else none
metadata_fields is_zero_float (str []) = some end
metadata_fields is_zero_float (arr nil) = some end
metadata_fields is_zero_float _ = none

-- `d.get(key)`
json_get : Text → Fields → Json
json_get key fields = elim (get_key key fields) [ none ↦ null | some value ↦ value ]

both : Option ℕ → Option TextDict → Option (ℕ × TextDict)
both (some n) (some d) = some (n, d)
both _ _ = none

-- The interval and the headers of a web page; `none` is an exception.
pub options_of : (Text → Option ℤ) → Option Fields → Option (ℕ × TextDict)
unfolding json_get both
options_of parse_int none = none
options_of parse_int (some fields) =
    both (clamp_refresh_interval parse_int (json_get (codes "refresh_interval_s") fields))
      (normalize_asset_headers (json_get (codes "headers") fields))

play_page : Env → Text → Bool → Bool → ℕ → Option (ℕ × TextDict) → Viewer → Tick
unfolding wait_for with_web
play_page env uri nocache skip duration none v = crashed v
play_page env uri nocache skip duration (some (interval, headers)) v =
    with_web v (view_webpage env.bus uri interval nocache headers skip v.web)
      (λ v'. ticked (wait_for env (1_000 * duration) v'))

play_image : Env → Text → Bool → ℕ → Viewer → Tick
unfolding wait_for with_web
play_image env uri skip duration v =
    with_web v (view_image env.bus uri skip v.web)
      (λ v'. ticked (wait_for env (1_000 * duration) v'))

stop_media : Env → Viewer → (Viewer → Tick) → Tick
unfolding act with_web
stop_media env v rest = with_web v (env.media_stop v.web) (λ v'. rest (act stopped v'))

-- After the wait of `view_video`; `stop` raises no `sh.ErrorReturnCode_1`, which the code would catch.
end_video : Env → Viewer → Tick
unfolding stop_media
end_video env v =
    if v.skip_event
    then stop_media env v (λ v'. stop_media env v' ticked)
    else stop_media env v ticked

-- `view_video`
view_video : Env → Text → ℕ → Viewer → Tick
unfolding act with_web wait_for end_video
view_video env uri duration v = with_web v (env.media_play uri duration v.web) (λ v1.
    with_web (act (played uri duration) v1) (view_image env.bus (codes "null") false v1.web)
      (λ v2. end_video env (wait_for env (1_000 * duration) v2)))

-- The cascade over the media type.
play : Env → Entry → Text → Text → ℕ → Viewer → Tick
unfolding play_image play_page view_video options_of metadata_fields act
play env e uri mime duration v =
    let skip = not env.verify_ssl || e.skip_ssl_verify in
    if contains (codes "image") mime
    then play_image env uri skip duration v
    else if contains (codes "web") mime
    then play_page env uri e.nocache skip duration
        (options_of env.parse_int (metadata_fields env.is_zero_float e.metadata)) v
    else if contains (codes "video") mime || contains (codes "streaming") mime
    then view_video env uri duration v
    else ticked (act (noticed (unknown_mimetype mime)) v)

-- `clamp_duration(asset['duration'])`
duration_of : Env → Entry → Option ℕ
duration_of env e = clamp_duration env.parse_int (elim e.duration [ none ↦ null | some z ↦ int z ])

-- Without a media type `'image' in mime` raises.
play_fields : Env → Entry → Option ℕ → Option Text → Option Text → Viewer → Tick
unfolding play
play_fields env e none uri mime v = crashed v
play_fields env e (some duration) uri none v = crashed v
play_fields env e (some duration) none (some mime) v = env.play_none v
play_fields env e (some duration) (some uri) (some mime) v = play env e uri mime duration v

-- The latches of a displayable asset.
pub play_known : Env → Entry → Viewer → Tick
unfolding play_fields duration_of act
play_known env e v =
    let v1 = if v.empty_playlist_logged then act (noticed playlist_resumes) v else v in
    play_fields env e (duration_of env e) e.uri e.mimetype
      (record v1 { empty_playlist_logged = false; unavailable_asset_logged = none })

-- `f'{asset["asset_id"]}:{asset["uri"]}'`
pub asset_key : Entry → Text
asset_key e = e.asset_id ++ codes ":" ++ elim e.uri [ none ↦ codes "None" | some uri ↦ uri ]

unfoldable pub note_unavailable : Text → Viewer → Viewer
unfolding act is_url
note_unavailable key v =
    if is_url v.unavailable_asset_logged key
    then v
    else act (noticed (is_unavailable key)) (record v { unavailable_asset_logged = some key })

pub pass_over : Env → Entry → Viewer → Tick
unfolding note_unavailable is_local_file trigger_recheck wait_for asset_key
pass_over env e v =
    let v1 = note_unavailable (asset_key e) (record v { empty_playlist_logged = false }) in
    let v2 = if is_local_file e.uri then v1 else trigger_recheck env.internal_token e.asset_id v1 in
    ticked (wait_for env unavailable_delay v2)

pub note_empty : Viewer → Viewer
unfolding act
note_empty v =
    if v.empty_playlist_logged
    then v
    else act (noticed playlist_is_empty) (record v { empty_playlist_logged = true })

stand_by : Env → Viewer → Tick
unfolding note_empty with_web wait_for
stand_by env v =
    with_web (note_empty v) (view_image env.bus env.standby_screen false v.web)
      (λ v'. ticked (wait_for env empty_pl_delay v'))

-- The rest of a tick, once the scheduler has answered.
unfoldable pub show_answer : Env → Option Entry → Viewer → Tick
unfolding stand_by is_displayable play_known pass_over
show_answer env none v = stand_by env v
show_answer env (some e) v =
    if is_displayable env.is_file e then play_known env e v else pass_over env e v

after_watchdog : Env → Viewer → Option (Scheduler × Option Entry) → Tick
unfolding show_answer
after_watchdog env v none = crashed v
after_watchdog env v (some (s, answer)) = show_answer env answer (record v { scheduler = s })

watched : Env → Viewer → Outcome → Tick
unfolding after_watchdog
watched env v raises = crashed v
watched env v (exits watch) = quit (record v { watch = watch })
watched env v (stays watch) =
    let v' = record v { watch = watch } in
    after_watchdog env v' (get_next_asset env.world v.scheduler)

-- `asset_loop`
pub asset_loop : Env → Viewer → Tick
unfolding watched consume_bounce retry_rotation
asset_loop env v =
    let v1 = consume_bounce v in
    watched env (record v1 { web = retry_rotation env.bus v1.web })
      (wayland_output_watchdog env.parse_int env.display v1.watch)

paint_black : Env → Viewer → Tick
unfolding with_web act is_url
paint_black env v =
    if v.display_blanked && not (is_url v.web.current_browser_url env.black_screen)
    then with_web v (view_image env.bus env.black_screen false v.web)
        (λ v'. ticked (act (paused_for stopped_delay) v'))
    else ticked (act (paused_for stopped_delay) v)

-- A turn of the loop of `start_loop`.
unfoldable pub turn_once : Env → Viewer → Tick
unfolding paint_black asset_loop
turn_once env v = if v.loop_is_stopped then paint_black env v else asset_loop env v
