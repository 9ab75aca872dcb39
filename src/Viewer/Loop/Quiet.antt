-- ===== src/Viewer/Loop/Quiet.antt =====
-- What `asset_loop` logs of assets that are not available (GH #3268).
use mupitech_player.Prelude.{List, Option, Text, [], false, if◌then◌else◌, some, ◌++◌, ◌∷◌, ◌≡◌}
use mupitech_player.Models.{Entry}
use mupitech_player.Scheduling.{Scheduler, get_next_asset}
use mupitech_player.Viewer.Loop.{
  Act, Env, Tick, Viewer, asset_key, asset_loop, crashed, is_displayable, is_unavailable, noticed,
  paused_for, played, playlist_is_empty, playlist_resumes, powered, quit, rechecked, recreated,
  stopped, ticked, unknown_mimetype, waited,
}
use mupitech_player.Viewer.Watchdog.{Watch, stays, wayland_output_watchdog}
use mupitech_player.Viewer.Webview.{is_url}
use mupitech_player.Viewer.Loop.Control.{continue}

-- The notices of unavailable assets, the oldest first.
pub notice_log : List Act → List Text
notice_log [] = []
notice_log (noticed (is_unavailable key) ∷ acts) = notice_log acts ++ key ∷ []
notice_log (noticed playlist_is_empty ∷ acts) = notice_log acts
notice_log (noticed playlist_resumes ∷ acts) = notice_log acts
notice_log (noticed (unknown_mimetype mime) ∷ acts) = notice_log acts
notice_log (waited ms set ∷ acts) = notice_log acts
notice_log (paused_for ms ∷ acts) = notice_log acts
notice_log (played uri n ∷ acts) = notice_log acts
notice_log (stopped ∷ acts) = notice_log acts
notice_log (recreated ∷ acts) = notice_log acts
notice_log (rechecked asset_id ∷ acts) = notice_log acts
notice_log (powered on ∷ acts) = notice_log acts

-- The keys of a list that differ from the key before them.
unfoldable pub changes : Option Text → List Text → List Text
unfolding is_url
changes last [] = []
changes last (key ∷ keys) =
    if is_url last key then changes last keys else key ∷ changes (some key) keys

-- Ticks of the loop, each with the entry that it is to meet.
unfoldable pub loop_each : List (Env × Entry) → Viewer → Tick
unfolding continue
loop_each [] v = ticked v
loop_each ((env, e) ∷ met) v = continue (asset_loop env v) (loop_each met)

-- The viewer that a tick leaves.
unfoldable pub left_by : Tick → Viewer
left_by (ticked v) = v
left_by (crashed v) = v
left_by (quit v) = v

-- A tick meets an entry that is not available: the watchdog neither raises nor exits, and the
-- scheduler answers with the entry.
pub record MeetsUnavailable (env : Env) (e : Entry) (v : Viewer) : Type 0 where
  pub watch : Watch
  pub scheduler : Scheduler
  pub stays_up : wayland_output_watchdog env.parse_int env.display v.watch ≡ stays watch
  pub answered : get_next_asset env.world v.scheduler ≡ some (scheduler, some e)
  pub hidden : is_displayable env.is_file e ≡ false

unfoldable pub Meets : List (Env × Entry) → Viewer → Type 0
unfolding left_by
Meets [] v = Unit
Meets ((env, e) ∷ met) v = MeetsUnavailable env e v × Meets met (left_by (asset_loop env v))

pub keys_of : List (Env × Entry) → List Text
keys_of [] = []
keys_of ((env, e) ∷ met) = asset_key e ∷ keys_of met

-- The latch after an unavailable asset.
latch_after : Option Text → Text → Option Text
latch_after last key = if is_url last key then last else some key

noted_after : Option Text → Text → List Text
noted_after last key = if is_url last key then [] else key ∷ []

-- What a tick that meets the entry leaves, as against the viewer `v` before it.
Notices : Env → Entry → Viewer → Tick → Type 0
Notices env e v t =
    (u : Viewer) × (t ≡ ticked u)
    × (u.unavailable_asset_logged ≡ latch_after v.unavailable_asset_logged (asset_key e))
    × (notice_log u.acts
        ≡ notice_log v.acts ++ noted_after v.unavailable_asset_logged (asset_key e))
