-- ===== src/Viewer/Loop/Media.antt =====
-- The players of the viewer do what the main loop needs of its media player.
use mupitech_player.Prelude.{Text, codes, ◌++◌}
use mupitech_player.Viewer.Player.{Player, gst_fbdev, mpv, player_play, player_stop, swallow}
use mupitech_player.Viewer.Webview.{
  Bus, Call, Reply, Step, Webview, done, fails, play_video, send_to_webview, sent, stop_video,
}
use mupitech_player.Viewer.Loop.Calls.{AllowedEvent, AllowedWeb}
use mupitech_player.Viewer.Webview.Kept.{Fine, Keeps, send-Keeps}
use mupitech_player.Viewer.Webview.Steps.{Leaves}

swallow-Allowed : (m : Step) → Leaves AllowedWeb m → Leaves AllowedWeb (swallow m)
unfolding swallow Leaves
swallow-Allowed (done w) h = h
swallow-Allowed (fails message w) h = h

call-Allowed :
    (bus : Bus) (c : Call) (w : Webview)
    → ((r : Reply) → AllowedEvent (sent c r))
    → AllowedWeb w
    → Leaves AllowedWeb (swallow (send_to_webview bus c w))
unfolding Keeps Fine AllowedEvent
call-Allowed bus c w fine h =
    swallow-Allowed (send_to_webview bus c w)
      (send-Keeps AllowedEvent bus tt tt (λ u s r. tt) (λ u s r. tt) c w fine h)

pub player_play-Allowed :
    (player : Player) (bus : Bus) (device uri : Text) (w : Webview)
    → AllowedWeb w
    → Leaves AllowedWeb (player_play player bus device uri w)
unfolding player_play Leaves AllowedEvent
player_play-Allowed mpv bus device uri w h =
    call-Allowed bus (play_video uri (codes "alsa/" ++ device)) w (λ r. tt) h
player_play-Allowed gst_fbdev bus device uri w h = h

pub player_stop-Allowed :
    (player : Player) (bus : Bus) (w : Webview)
    → AllowedWeb w
    → Leaves AllowedWeb (player_stop player bus w)
unfolding player_stop Leaves AllowedEvent
player_stop-Allowed mpv bus w h = call-Allowed bus stop_video w (λ r. tt) h
player_stop-Allowed gst_fbdev bus w h = h
