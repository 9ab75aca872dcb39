-- ===== src/Viewer/Webview/Kept.antt =====
-- A fact about each call and event of the log, through `view_webpage` and `view_image`.
use mupitech_player.Prelude.{
  All, Bool, Option, Text, TextDict, codes, either_branch, false, none, not, some, true, ℕ, ◌&&◌,
  ◌∷◌,
}
use mupitech_player.Viewer.Launch.{Loaded, device_gone, gave_up, load_browser, loaded, no_binary}
use mupitech_player.Viewer.Webview.{
  Bus, Call, Event, Reply, Step, Webview, after_skip, apply_reload_interval, apply_request_headers,
  cache_busted_url, done, ensure_browser, fails, fallback, headers_reply, inline_backoff_cap,
  inline_max_attempts, interval_reply, is_gone, is_method_missing, is_shown, is_url,
  load_if_applied, load_image, load_page, load_via_webview, loaded_as, navigate, raised, reaped,
  reset_webview, respawn, retry_send, returned, same_flag, send_once, send_to_webview, sent,
  set_reload_interval, set_request_headers, show_page, spawned, step_of, terminated, view_image,
  view_webpage,
}
use mupitech_player.Viewer.Webview.Steps.{Leaves, Leaves-bind}

module _ (P : Event → Type 0) (bus : Bus) (at_spawn : P spawned) (at_end : P terminated)
    (at_page : (uri : Text) (skip : Option Bool) (r : Reply) → P (sent (load_page uri skip) r))
    (at_image : (uri : Text) (skip : Option Bool) (r : Reply)
      → P (sent (load_image uri skip) r)) where
  unfoldable pub Keeps : Webview → Type 0
  Keeps w = All P w.log

  unfoldable pub Fine : Call → Type 0
  Fine call = (r : Reply) → P (sent call r)

  step-Keeps : (r : Reply) (w : Webview) → Keeps w → Leaves Keeps (step_of r w)
  unfolding step_of Leaves
  step-Keeps returned w h = h
  step-Keeps (raised m) w h = h

  send_once-Keeps :
      (call : Call) (w : Webview) → Fine call → Keeps w → Leaves Keeps (send_once bus call w)
  unfolding send_once Keeps Fine
  send_once-Keeps call w fine h =
      step-Keeps (bus.reply w.log call)
        (record w { log = sent call (bus.reply w.log call) ∷ w.log })
        (fine (bus.reply w.log call), h)

  loaded-Keeps : (w : Webview) (l : Loaded) → Keeps w → Leaves Keeps (loaded_as bus w l)
  unfolding Leaves Keeps loaded_as
  loaded-Keeps w (loaded n) h = (at_spawn, h)
  loaded-Keeps w no_binary h = h
  loaded-Keeps w gave_up h = h
  loaded-Keeps w (device_gone m) h = h

  respawn-Keeps : (w : Webview) → Keeps w → Leaves Keeps (respawn bus w)
  unfolding respawn reset_webview Keeps
  respawn-Keeps w h =
      loaded-Keeps (reset_webview bus w)
        (load_browser (bus.spawn w.log) bus.vanished inline_max_attempts inline_backoff_cap).0 h

  pub reaped-Keeps : (w : Webview) → Keeps w → Keeps (reaped w)
  unfolding Keeps reaped
  reaped-Keeps w h = either_branch Keeps w.has_browser (at_end, h) h

  retry-Keeps :
      (call : Call) (m : Step) → Fine call → Leaves Keeps m → Leaves Keeps (retry_send bus call m)
  unfolding Leaves retry_send
  retry-Keeps call (done w) fine h = h
  retry-Keeps call (fails message w) fine h =
      either_branch (Leaves Keeps) (is_gone message)
        (Leaves-bind Keeps (respawn bus (reaped w)) (send_once bus call)
          (respawn-Keeps (reaped w) (reaped-Keeps w h)) (λ v k. send_once-Keeps call v fine k))
        h

  pub send-Keeps :
      (call : Call) (w : Webview) → Fine call → Keeps w → Leaves Keeps (send_to_webview bus call w)
  unfolding send_to_webview
  send-Keeps call w fine h =
      retry-Keeps call (send_once bus call w) fine (send_once-Keeps call w fine h)

  fallback-Keeps : (message : Text) (m : Step) → Leaves Keeps m → Leaves Keeps (fallback message m)
  unfolding Leaves fallback Keeps
  fallback-Keeps message (done w) h = h
  fallback-Keeps message (fails second w) h = h

  after_skip-Keeps :
      (call : Call) (m : Step) → Fine call → Leaves Keeps m → Leaves Keeps (after_skip bus call m)
  unfolding Leaves after_skip
  after_skip-Keeps call (done w) fine h = h
  after_skip-Keeps call (fails message w) fine h =
      either_branch (Leaves Keeps) (is_gone message) h
        (fallback-Keeps message (send_to_webview bus call w) (send-Keeps call w fine h))

  load-Keeps :
      (with_skip without : Call) (w : Webview)
      → Fine with_skip
      → Fine without
      → Keeps w
      → Leaves Keeps (load_via_webview bus with_skip without w)
  unfolding load_via_webview
  load-Keeps with_skip without w fine fine' h =
      either_branch (Leaves Keeps) w.supports_ssl_arg
        (after_skip-Keeps without (send_to_webview bus with_skip w) fine'
          (send-Keeps with_skip w fine h))
        (send-Keeps without w fine' h)

  ensure-Keeps : (w : Webview) → Keeps w → Leaves Keeps (ensure_browser bus w)
  unfolding ensure_browser Leaves
  ensure-Keeps w h =
      either_branch (Leaves Keeps) (w.has_browser && bus.is_alive w.log) h (respawn-Keeps w h)

  headers-Keeps : (r : Reply) (w : Webview) → Keeps w → Keeps (headers_reply bus r w).1
  unfolding headers_reply Keeps
  headers-Keeps returned w h = h
  headers-Keeps (raised m) w h =
      either_branch (λ (p : Bool × Webview). Keeps p.1) (is_method_missing bus m) h h

  apply-Keeps :
      (headers : TextDict) (w : Webview)
      → Fine (set_request_headers headers)
      → Keeps w
      → Keeps (apply_request_headers bus headers w).1
  unfolding apply_request_headers Keeps Fine
  apply-Keeps headers w fine h =
      either_branch (λ (p : Bool × Webview). Keeps p.1) (not w.supports_set_request_headers) h
        (headers-Keeps (bus.reply w.log (set_request_headers headers))
          (record w {
            log =
                sent (set_request_headers headers) (bus.reply w.log (set_request_headers headers))
                ∷ w.log;
          })
          (fine (bus.reply w.log (set_request_headers headers)), h))

  navigate-Keeps :
      (uri : Text) (headers : TextDict) (skip : Bool) (answer : Bool × Webview)
      → Keeps answer.1
      → Leaves Keeps (navigate bus uri headers skip answer)
  unfolding navigate load_if_applied Leaves Keeps Fine
  navigate-Keeps uri headers skip (false, w) h =
      either_branch (Leaves Keeps) (is_shown uri headers skip w) h h
  navigate-Keeps uri headers skip (true, w) h =
      either_branch (Leaves Keeps) (is_shown uri headers skip w) h (
        Leaves-bind Keeps (load_via_webview bus (load_page uri (some skip)) (load_page uri none) w)
          _
          (load-Keeps (load_page uri (some skip)) (load_page uri none) w (at_page uri (some skip))
            (at_page uri none) h)
          (λ v k. k))

  interval-Keeps : (r : Reply) (w : Webview) → Keeps w → Keeps (interval_reply bus r w)
  unfolding Keeps interval_reply
  interval-Keeps returned w h = h
  interval-Keeps (raised m) w h = either_branch Keeps (is_method_missing bus m) h h

  reload-Keeps :
      (n : ℕ) (w : Webview)
      → Fine (set_reload_interval n)
      → Keeps w
      → Keeps (apply_reload_interval bus n w)
  unfolding Keeps apply_reload_interval Fine
  reload-Keeps n w fine h =
      either_branch Keeps w.supports_set_reload_interval
        (interval-Keeps (bus.reply w.log (set_reload_interval n))
          (record w {
            log = sent (set_reload_interval n) (bus.reply w.log (set_reload_interval n)) ∷ w.log;
          })
          (fine (bus.reply w.log (set_reload_interval n)), h))
        h

  show-Keeps :
      (uri : Text) (n : ℕ) (headers : TextDict) (skip : Bool) (w : Webview)
      → Fine (set_request_headers headers)
      → Fine (set_reload_interval n)
      → Keeps w
      → Leaves Keeps (show_page bus uri n headers skip w)
  unfolding show_page Leaves
  show-Keeps uri n headers skip w fine fine' h =
      Leaves-bind Keeps (ensure_browser bus w) _ (ensure-Keeps w h) (λ v k.
        Leaves-bind Keeps (navigate bus uri headers skip (apply_request_headers bus headers v)) _
          (navigate-Keeps uri headers skip (apply_request_headers bus headers v)
            (apply-Keeps headers v fine k))
          (λ u l. reload-Keeps n u fine' l))

  busted-Keeps :
      (found : Option Text) (n : ℕ) (headers : TextDict) (skip : Bool) (w : Webview)
      → Fine (set_request_headers headers)
      → Fine (set_reload_interval n)
      → Keeps w
      → Leaves Keeps (elim found [
        | none ↦ fails (codes "ValueError") w
        | some u ↦ show_page bus u n headers skip w
      ])
  unfolding Leaves
  busted-Keeps none n headers skip w fine fine' h = h
  busted-Keeps (some u) n headers skip w fine fine' h = show-Keeps u n headers skip w fine fine' h

  pub view_webpage-Keeps :
      (uri : Text) (n : ℕ) (nocache : Bool) (headers : TextDict) (skip : Bool) (w : Webview)
      → Fine (set_request_headers headers)
      → Fine (set_reload_interval n)
      → Keeps w
      → Leaves Keeps (view_webpage bus uri n nocache headers skip w)
  unfolding view_webpage
  view_webpage-Keeps uri n nocache headers skip w fine fine' h =
      either_branch (Leaves Keeps) nocache
        (busted-Keeps (cache_busted_url bus w.log uri) n headers skip w fine fine' h)
        (show-Keeps uri n headers skip w fine fine' h)

  pub view_image-Keeps :
      (uri : Text) (skip : Bool) (w : Webview) → Keeps w → Leaves Keeps (view_image bus uri skip w)
  unfolding view_image Leaves Keeps Fine
  view_image-Keeps uri skip w h =
      Leaves-bind Keeps (ensure_browser bus w) _ (ensure-Keeps w h) (λ v k.
        either_branch (Leaves Keeps)
          (is_url v.current_browser_url uri && same_flag v.current_browser_skip_ssl skip) k
          (Leaves-bind Keeps
            (load_via_webview bus (load_image uri (some skip)) (load_image uri none) v) _
            (load-Keeps (load_image uri (some skip)) (load_image uri none) v
              (at_image uri (some skip)) (at_image uri none) k)
            (λ u l. l)))
