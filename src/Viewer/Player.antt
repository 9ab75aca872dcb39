-- ===== src/Viewer/Player.antt =====
-- src/anthias_viewer/media_player.py: which player a board has, and what its calls do to the web
-- view, once `setup` has given it the bus. `MPVMediaPlayer` plays inside the web view;
-- `GstFbdevMediaPlayer` starts a process of its own, which this model leaves out, and does not touch
-- the web view.
use mupitech_player.Prelude.{
  Bool, List, Option, Text, [], any, codes, false, if◌then◌else◌, none, not, some, text_eq, ◌&&◌,
  ◌++◌, ◌∷◌,
}
use mupitech_player.Viewer.Webview.{
  Bus, Step, Webview, done, fails, play_video, send_to_webview, stop_video,
}

pub data Player : Type 0 where
  mpv gst_fbdev : Player

is_any_of : Text → List Text → Bool
is_any_of s texts = any (text_eq s) texts

force_mpv : Option Text → Bool
unfolding is_any_of
force_mpv none = false
force_mpv (some device_env) =
    is_any_of device_env
      (codes "pi4-64" ∷ codes "pi3-64" ∷ codes "arm64" ∷ codes "generic-arm64" ∷ [])

-- `MediaPlayerProxy.get_instance`, with the cached player.
unfoldable pub get_instance : Text → Option Text → Option Player → Player
unfolding is_any_of force_mpv
get_instance device_type device_env (some player) = player
get_instance device_type device_env none =
    if is_any_of device_type (codes "pi1" ∷ codes "pi2" ∷ codes "pi3" ∷ [])
      && not (force_mpv device_env)
    then gst_fbdev
    else mpv

-- `except Exception` around the call: the error is logged.
unfoldable pub swallow : Step → Step
swallow (done w) = done w
swallow (fails message w) = done w

-- `play` of a player, with the result of `get_alsa_audio_device`.
unfoldable pub player_play : Player → Bus → Text → Text → Webview → Step
unfolding swallow
player_play mpv bus device uri w =
    swallow (send_to_webview bus (play_video uri (codes "alsa/" ++ device)) w)
player_play gst_fbdev bus device uri w = done w

-- `stop` of a player.
unfoldable pub player_stop : Player → Bus → Webview → Step
unfolding swallow
player_stop mpv bus w = swallow (send_to_webview bus stop_video w)
player_stop gst_fbdev bus w = done w
