-- ===== src/Viewer/Loop/Plays.antt =====
-- What showing one asset leaves of the guard: every branch of the cascade over the media type.
use mupitech_player.Prelude.{
  Bool, Option, Text, TextDict, arith, codes, contains, either_branch, false, if◌then◌else◌, none,
  not, refl, some, ℕ, ◌*◌, ◌||◌, ◌≡◌, ◌≤◌,
}
use mupitech_player.Headers.{duration_s_max, refresh_interval_s_max}
use mupitech_player.Models.{Entry}
use mupitech_player.Headers.Clamps.{clamp_duration_most}
use mupitech_player.Headers.Safe.{IsSafeDict}
use mupitech_player.Viewer.Loop.{
  Env, Tick, Viewer, act, duration_of, end_video, metadata_fields, noticed, options_of, play,
  play_fields, play_image, play_known, play_page, played, playlist_resumes, stop_media, stopped,
  ticked, unknown_mimetype, view_video, wait_for,
}
use mupitech_player.Viewer.Webview.{view_image, view_webpage}
use mupitech_player.Viewer.Loop.Calls.{
  AllowedAct, Guarded, IsTame, Upholds, act-Guarded, image-Allowed, options_most, page-Allowed,
  wait-Guarded, with_web-Guarded,
}

play_page-Guarded :
    (env : Env) (uri : Text) (nocache skip : Bool) (duration : ℕ) (options : Option (ℕ × TextDict))
    (v : Viewer)
    → ((n : ℕ) (headers : TextDict)
        → options ≡ some (n, headers)
        → IsSafeDict headers × (n ≤ refresh_interval_s_max))
    → duration ≤ duration_s_max
    → Guarded v
    → Upholds Guarded (play_page env uri nocache skip duration options v)
unfolding play_page Upholds Guarded
play_page-Guarded env uri nocache skip duration none v known most g = g
play_page-Guarded env uri nocache skip duration (some (n, headers)) v known most g =
    let (safe, less) = known n headers refl in
    with_web-Guarded v (view_webpage env.bus uri n nocache headers skip v.web) _ g
      (page-Allowed env.bus uri n nocache headers skip v.web safe less g.0)
      (λ u h. wait-Guarded env (1_000 * duration) u (omega (arith, most)) h)

play_image-Guarded :
    (env : Env) (uri : Text) (skip : Bool) (duration : ℕ) (v : Viewer)
    → duration ≤ duration_s_max
    → Guarded v
    → Upholds Guarded (play_image env uri skip duration v)
unfolding play_image Upholds Guarded
play_image-Guarded env uri skip duration v most g =
    with_web-Guarded v (view_image env.bus uri skip v.web) _ g
      (image-Allowed env.bus uri skip v.web g.0)
      (λ u h. wait-Guarded env (1_000 * duration) u (omega (arith, most)) h)

stop-Guarded :
    (env : Env) (v : Viewer) (rest : Viewer → Tick)
    → IsTame env
    → Guarded v
    → ((u : Viewer) → Guarded u → Upholds Guarded (rest u))
    → Upholds Guarded (stop_media env v rest)
unfolding stop_media Guarded AllowedAct
stop-Guarded env v rest tame g k =
    with_web-Guarded v (env.media_stop v.web) _ g (tame.stopper v.web g.0)
      (λ u h. k (act stopped u) (act-Guarded stopped u tt h))

end-Guarded : (env : Env) (v : Viewer) → IsTame env → Guarded v → Upholds Guarded (end_video env v)
unfolding end_video Upholds
end-Guarded env v tame g =
    either_branch (Upholds Guarded) v.skip_event
      (stop-Guarded env v _ tame g (λ u h. stop-Guarded env u ticked tame h (λ x k. k)))
      (stop-Guarded env v ticked tame g (λ x k. k))

video-Guarded :
    (env : Env) (uri : Text) (duration : ℕ) (v : Viewer)
    → IsTame env
    → duration ≤ duration_s_max
    → Guarded v
    → Upholds Guarded (view_video env uri duration v)
unfolding view_video Guarded AllowedAct
video-Guarded env uri duration v tame most g =
    with_web-Guarded v (env.media_play uri duration v.web) _ g (tame.player uri duration v.web g.0)
      (λ u h.
        with_web-Guarded (act (played uri duration) u)
          (view_image env.bus (codes "null") false u.web) _
          (act-Guarded (played uri duration) u tt h)
          (image-Allowed env.bus (codes "null") false u.web h.0)
          (λ x k.
            end-Guarded env (wait_for env (1_000 * duration) x) tame
              (wait-Guarded env (1_000 * duration) x (omega (arith, most)) k)))

play-Guarded :
    (env : Env) (e : Entry) (uri mime : Text) (duration : ℕ) (v : Viewer)
    → IsTame env
    → duration ≤ duration_s_max
    → Guarded v
    → Upholds Guarded (play env e uri mime duration v)
unfolding play Upholds AllowedAct
play-Guarded env e uri mime duration v tame most g =
    either_branch (Upholds Guarded) (contains (codes "image") mime)
      (play_image-Guarded env uri (not env.verify_ssl || e.skip_ssl_verify) duration v most g)
      (either_branch (Upholds Guarded) (contains (codes "web") mime)
        (play_page-Guarded env uri e.nocache (not env.verify_ssl || e.skip_ssl_verify) duration
          (options_of env.parse_int (metadata_fields env.is_zero_float e.metadata)) v
          (options_most env.parse_int (metadata_fields env.is_zero_float e.metadata)) most g)
        (either_branch (Upholds Guarded)
          (contains (codes "video") mime || contains (codes "streaming") mime)
          (video-Guarded env uri duration v tame most g)
          (act-Guarded (noticed (unknown_mimetype mime)) v tt g)))

fields-Guarded :
    (env : Env) (e : Entry) (duration : Option ℕ) (uri mime : Option Text) (v : Viewer)
    → IsTame env
    → ((n : ℕ) → duration ≡ some n → n ≤ duration_s_max)
    → Guarded v
    → Upholds Guarded (play_fields env e duration uri mime v)
unfolding play_fields Upholds
fields-Guarded env e none uri mime v tame most g = g
fields-Guarded env e (some n) uri none v tame most g = g
fields-Guarded env e (some n) none (some mime) v tame most g = tame.refusal v g
fields-Guarded env e (some n) (some uri) (some mime) v tame most g =
    play-Guarded env e uri mime n v tame (most n refl) g

pub known-Guarded :
    (env : Env) (e : Entry) (v : Viewer)
    → IsTame env
    → Guarded v
    → Upholds Guarded (play_known env e v)
unfolding play_known duration_of Guarded AllowedAct
known-Guarded env e v tame g =
    let resumed : Guarded
        (if v.empty_playlist_logged then act (noticed playlist_resumes) v else v) =
      either_branch Guarded v.empty_playlist_logged (act-Guarded (noticed playlist_resumes) v tt g)
        g in
    fields-Guarded env e (duration_of env e) e.uri e.mimetype _ tame
      (clamp_duration_most env.parse_int _) resumed
