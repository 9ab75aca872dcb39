-- ===== src/Viewer/Loop/Calls.antt =====
-- What a running viewer sends to the web view and how long it waits, over its turns and commands.
use mupitech_player.Prelude.{All, Bool, Option, Text, TextDict, none, some, true, ℕ, ◌*◌, ◌≡◌, ◌≤◌}
use mupitech_player.Prelude.Int.{ℤ}
use mupitech_player.Headers.{duration_s_max, refresh_interval_s_max}
use mupitech_player.Models.{Fields}
use mupitech_player.Headers.Clamps.{clamp_refresh_interval_most}
use mupitech_player.Headers.Safe.{IsSafeDict, normalize_asset_headers-IsSafeDict}
use mupitech_player.Scheduling.Update.{IsValid}
use mupitech_player.Viewer.Loop.{
  Act, Env, Tick, Viewer, act, both, crashed, noticed, options_of, paused_for, played, powered,
  quit, rechecked, recreated, stopped, ticked, wait_for, waited, with_web,
}
use mupitech_player.Viewer.Webview.{
  Bus, Event, Step, Webview, done, fails, load_image, load_page, play_video, sent,
  set_reload_interval, set_request_headers, spawned, stop_video, terminated, view_image,
  view_webpage,
}
use mupitech_player.Viewer.Webview.Kept.{Fine, Keeps, view_image-Keeps, view_webpage-Keeps}
use mupitech_player.Viewer.Webview.Steps.{Leaves}

-- The headers that are sent cannot split a request, and a page reloads at most once a day.
unfoldable pub AllowedEvent : Event → Type 0
AllowedEvent (sent (set_request_headers headers) r) = IsSafeDict headers
AllowedEvent (sent (set_reload_interval n) r) = n ≤ refresh_interval_s_max
AllowedEvent (sent (load_page uri skip) r) = Unit
AllowedEvent (sent (load_image uri skip) r) = Unit
AllowedEvent (sent (play_video uri device) r) = Unit
AllowedEvent (sent stop_video r) = Unit
AllowedEvent terminated = Unit
AllowedEvent spawned = Unit

-- `Event.wait` is never asked for more than a year.
unfoldable pub AllowedAct : Act → Type 0
AllowedAct (waited ms set) = ms ≤ 1_000 * duration_s_max
AllowedAct (paused_for ms) = Unit
AllowedAct (played uri n) = Unit
AllowedAct stopped = Unit
AllowedAct recreated = Unit
AllowedAct (rechecked uri) = Unit
AllowedAct (powered on) = Unit
AllowedAct (noticed n) = Unit

abbrev pub AllowedWeb : Webview → Type 0
AllowedWeb w = All AllowedEvent w.log

unfoldable pub Guarded : Viewer → Type 0
Guarded v =
    All AllowedEvent v.web.log
    × All AllowedAct v.acts
    × IsValid v.scheduler
    × (v.display_blanked ≡ true → v.loop_is_stopped ≡ true)

-- However a tick ends, it leaves the viewer so.
unfoldable pub Upholds : (Viewer → Type 0) → Tick → Type 0
Upholds P (ticked v) = P v
Upholds P (crashed v) = P v
Upholds P (quit v) = P v

-- The media player, and a row without a URI, keep what the viewer keeps.
pub record IsTame (env : Env) : Type 0 where
  pub player :
      (uri : Text) (n : ℕ) (w : Webview) → AllowedWeb w → Leaves AllowedWeb (env.media_play uri n w)
  pub stopper : (w : Webview) → AllowedWeb w → Leaves AllowedWeb (env.media_stop w)
  pub refusal : (v : Viewer) → Guarded v → Upholds Guarded (env.play_none v)

pub image-Allowed :
    (bus : Bus) (uri : Text) (skip : Bool) (w : Webview)
    → AllowedWeb w
    → Leaves AllowedWeb (view_image bus uri skip w)
unfolding Keeps AllowedEvent
image-Allowed bus uri skip w h =
    view_image-Keeps AllowedEvent bus tt tt (λ u s r. tt) (λ u s r. tt) uri skip w h

pub page-Allowed :
    (bus : Bus) (uri : Text) (n : ℕ) (nocache : Bool) (headers : TextDict) (skip : Bool)
    (w : Webview)
    → IsSafeDict headers
    → n ≤ refresh_interval_s_max
    → AllowedWeb w
    → Leaves AllowedWeb (view_webpage bus uri n nocache headers skip w)
unfolding Keeps Fine AllowedEvent
page-Allowed bus uri n nocache headers skip w safe most h =
    view_webpage-Keeps AllowedEvent bus tt tt (λ u s r. tt) (λ u s r. tt) uri n nocache headers skip
      w (λ r. safe) (λ r. most) h

pub with_web-Guarded :
    (v : Viewer) (m : Step) (rest : Viewer → Tick)
    → Guarded v
    → Leaves AllowedWeb m
    → ((u : Viewer) → Guarded u → Upholds Guarded (rest u))
    → Upholds Guarded (with_web v m rest)
unfolding with_web Leaves Guarded Upholds
with_web-Guarded v (done w) rest g h k = k (record v { web = w }) (h, g.1, g.2, g.3)
with_web-Guarded v (fails message w) rest g h k = (h, g.1, g.2, g.3)

pub wait-Guarded :
    (env : Env) (ms : ℕ) (v : Viewer)
    → ms ≤ 1_000 * duration_s_max
    → Guarded v
    → Guarded (wait_for env ms v)
unfolding wait_for Guarded AllowedAct
wait-Guarded env ms v most (calls, waits, in_range, paused) =
    (calls, (most, waits), in_range, paused)

pub act-Guarded : (a : Act) (v : Viewer) → AllowedAct a → Guarded v → Guarded (act a v)
unfolding act Guarded
act-Guarded a v fine (calls, waits, in_range, paused) = (calls, (fine, waits), in_range, paused)

both-some :
    (a : Option ℕ) (b : Option TextDict) (n : ℕ) (d : TextDict)
    → both a b ≡ some (n, d)
    → (a ≡ some n) × (b ≡ some d)
unfolding both
both-some (some m) (some e) n d h = (cc, cc)
both-some (some m) none n d h = cc
both-some none b n d h = cc

pub options_most :
    (parse_int : Text → Option ℤ) (fields : Option Fields) (n : ℕ) (headers : TextDict)
    → options_of parse_int fields ≡ some (n, headers)
    → IsSafeDict headers × (n ≤ refresh_interval_s_max)
unfolding options_of
options_most parse_int none n headers h = cc
options_most parse_int (some fields) n headers h =
    let (p, q) = both-some _ _ n headers h in
    (normalize_asset_headers-IsSafeDict _ headers q, clamp_refresh_interval_most parse_int _ n p)
