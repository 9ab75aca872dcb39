-- ===== src/Viewer/Webview/Staged.antt =====
-- `view_webpage` and the request headers that the process holds when a page is loaded.
use mupitech_player.Prelude.{
  Bool, Bool-cases, List, Option, Text, TextDict, [], ap, codes, either_branch, false, inl, inr,
  none, not, refl, some, true, ℕ, ◌&&◌, ◌∷◌, ◌≡◌, ◌⊎◌,
}
use mupitech_player.Viewer.Launch.{Loaded, device_gone, gave_up, load_browser, loaded, no_binary}
use mupitech_player.Viewer.Webview.{
  Bus, Event, Reply, Step, Webview, after_skip, apply_reload_interval, apply_request_headers,
  cache_busted_url, done, ensure_browser, fails, fallback, headers_reply, inline_backoff_cap,
  inline_max_attempts, interval_reply, is_gone, is_method_missing, is_shown, load_if_applied,
  load_image, load_page, load_via_webview, loaded_as, navigate, play_video, raised, reaped,
  reset_webview, respawn, retry_send, returned, send_once, send_to_webview, sent,
  set_reload_interval, set_request_headers, show_page, spawned, step_of, stop_video, terminated,
  view_webpage, ◌>>=◌,
}
use mupitech_player.Viewer.Webview.Steps.{Leaves, Leaves-bind, second_branch}

-- The headers that the process holds, `none` where the log does not tell: those of the last call of
-- `setRequestHeaders` that returned, and none at all in a new process.
pub staged : List Event → Option TextDict
staged [] = none
staged (spawned ∷ log) = some []
staged (terminated ∷ log) = staged log
staged (sent (set_request_headers headers) returned ∷ log) = some headers
staged (sent (set_request_headers headers) (raised m) ∷ log) = staged log
staged (sent (set_reload_interval n) r ∷ log) = staged log
staged (sent (load_page uri skip) r ∷ log) = staged log
staged (sent (load_image uri skip) r ∷ log) = staged log
staged (sent (play_video uri device) r ∷ log) = staged log
staged (sent stop_video r ∷ log) = staged log

-- The process holds these headers, or none.
pub IsStaged : TextDict → List Event → Type 0
IsStaged headers log = (staged log ≡ some headers) ⊎ (staged log ≡ some [])

pub is_page : Event → Bool
is_page spawned = false
is_page terminated = false
is_page (sent (load_page uri skip) r) = true
is_page (sent (set_request_headers h) r) = false
is_page (sent (set_reload_interval n) r) = false
is_page (sent (load_image uri skip) r) = false
is_page (sent (play_video uri device) r) = false
is_page (sent stop_video r) = false

-- The log continues `base`, and each page loaded since then was loaded while the process held these
-- headers, or none.
pub data LoadsSince (headers : TextDict) (base : List Event) : List Event → Type 0 where
  nothing_new : LoadsSince headers base base
  page_loaded :
      {uri : Text} {skip : Option Bool} {r : Reply} {log : List Event}
      → IsStaged headers log
      → LoadsSince headers base log
      → LoadsSince headers base (sent (load_page uri skip) r ∷ log)
  not_a_page :
      {e : Event} {log : List Event}
      → is_page e ≡ false
      → LoadsSince headers base log
      → LoadsSince headers base (e ∷ log)

module _ (bus : Bus) (headers : TextDict) (base : List Event)
    (knows : (log : List Event) (m : Text)
      → bus.reply log (set_request_headers headers) ≡ raised m
      → is_method_missing bus m ≡ false) where
  Quiet : Webview → Type 0
  Quiet w = LoadsSince headers base w.log × (w.supports_set_request_headers ≡ true)

  Ready : Webview → Type 0
  Ready w =
      LoadsSince headers base w.log
      × (w.supports_set_request_headers ≡ true)
      × IsStaged headers w.log

  step-Ready :
      (uri : Text) (skip : Option Bool) (r : Reply) (w : Webview)
      → Ready w
      → Leaves Ready (step_of r (record w { log = sent (load_page uri skip) r ∷ w.log }))
  unfolding Leaves step_of Ready is_page IsStaged staged
  step-Ready uri skip returned w (safe, known, held) =
      (LoadsSince.page_loaded held safe, known, held)
  step-Ready uri skip (raised m) w (safe, known, held) =
      (LoadsSince.page_loaded held safe, known, held)

  loaded-Ready : (w : Webview) (l : Loaded) → Ready w → Leaves Ready (loaded_as bus w l)
  unfolding Leaves Ready is_page IsStaged staged loaded_as
  loaded-Ready w (loaded n) (safe, known, held) = (LoadsSince.not_a_page refl safe, known, inr refl)
  loaded-Ready w no_binary h = h
  loaded-Ready w gave_up h = h
  loaded-Ready w (device_gone m) h = h

  respawn-Ready : (w : Webview) → Ready w → Leaves Ready (respawn bus w)
  unfolding respawn Ready reset_webview
  respawn-Ready w (safe, known, held) =
      loaded-Ready (reset_webview bus w)
        (load_browser (bus.spawn w.log) bus.vanished inline_max_attempts inline_backoff_cap).0
        (safe, refl, held)

  reaped-Ready : (w : Webview) → Ready w → Ready (reaped w)
  unfolding Ready reaped is_page IsStaged staged
  reaped-Ready w (safe, known, held) =
      either_branch Ready w.has_browser (LoadsSince.not_a_page refl safe, known, held)
        (safe, known, held)

  retry-Ready :
      (uri : Text) (skip : Option Bool) (m : Step)
      → Leaves Ready m
      → Leaves Ready (retry_send bus (load_page uri skip) m)
  unfolding Leaves retry_send send_once
  retry-Ready uri skip (done w) h = h
  retry-Ready uri skip (fails message w) h = elim (Bool-cases (is_gone message)) [
    | inl gone ↦ rw gone (
        Leaves-bind Ready (respawn bus (reaped w)) (send_once bus (load_page uri skip))
          (respawn-Ready (reaped w) (reaped-Ready w h))
          (λ v k. step-Ready uri skip (bus.reply v.log (load_page uri skip)) v k))
    | inr there ↦ rw there h
  ]

  send-Ready :
      (uri : Text) (skip : Option Bool) (w : Webview)
      → Ready w
      → Leaves Ready (send_to_webview bus (load_page uri skip) w)
  unfolding send_to_webview send_once
  send-Ready uri skip w h =
      retry-Ready uri skip (send_once bus (load_page uri skip) w)
        (step-Ready uri skip (bus.reply w.log (load_page uri skip)) w h)

  fallback-Ready : (message : Text) (m : Step) → Leaves Ready m → Leaves Ready (fallback message m)
  unfolding Leaves fallback Ready
  fallback-Ready message (done w) h = h
  fallback-Ready message (fails second w) h = h

  after_skip-Ready :
      (uri : Text) (m : Step)
      → Leaves Ready m
      → Leaves Ready (after_skip bus (load_page uri none) m)
  unfolding Leaves after_skip
  after_skip-Ready uri (done w) h = h
  after_skip-Ready uri (fails message w) h = elim (Bool-cases (is_gone message)) [
    | inl gone ↦ rw gone h
    | inr there ↦ rw there (
        fallback-Ready message (send_to_webview bus (load_page uri none) w)
          (send-Ready uri none w h))
  ]

  load-Ready :
      (uri : Text) (skip : Bool) (w : Webview)
      → Ready w
      → Leaves Ready (load_via_webview bus (load_page uri (some skip)) (load_page uri none) w)
  unfolding load_via_webview
  load-Ready uri skip w h =
      either_branch (Leaves Ready) w.supports_ssl_arg
        (after_skip-Ready uri (send_to_webview bus (load_page uri (some skip)) w)
          (send-Ready uri (some skip) w h))
        (send-Ready uri none w h)

  -- The headers are in effect, or the web view is left alone.
  Answered : Bool × Webview → Type 0
  Answered (applied, w) = Quiet w × (applied ≡ true → Ready w)

  reply-Answered :
      (w : Webview) (r : Reply)
      → bus.reply w.log (set_request_headers headers) ≡ r
      → Quiet w
      → Answered
          (headers_reply bus r (record w { log = sent (set_request_headers headers) r ∷ w.log }))
  unfolding Answered Quiet Ready headers_reply is_page IsStaged staged
  reply-Answered w returned e (safe, known) = (
    (LoadsSince.not_a_page refl safe, known),
    λ applied. (LoadsSince.not_a_page refl safe, known, inl refl),
  )
  reply-Answered w (raised m) e (safe, known) =
      rw (knows w.log m e) ((LoadsSince.not_a_page refl safe, known), λ applied. cc)

  apply-Answered : (w : Webview) → Quiet w → Answered (apply_request_headers bus headers w)
  unfolding apply_request_headers Quiet
  apply-Answered w quiet =
      second_branch Answered (not w.supports_set_request_headers) (true, w) (ap not quiet.1)
        (reply-Answered w (bus.reply w.log (set_request_headers headers)) refl quiet)

  Safe : Webview → Type 0
  Safe w = LoadsSince headers base w.log

  Leaves-Ready : (m : Step) → Leaves Ready m → Leaves Quiet m
  unfolding Leaves Ready Quiet
  Leaves-Ready (done w) (safe, known, held) = (safe, known)
  Leaves-Ready (fails message w) (safe, known, held) = (safe, known)

  Leaves-Quiet : (m : Step) → Leaves Quiet m → Leaves Safe m
  unfolding Leaves Safe Quiet
  Leaves-Quiet (done w) (safe, known) = safe
  Leaves-Quiet (fails message w) (safe, known) = safe

  loaded-Quiet : (w : Webview) (l : Loaded) → Quiet w → Leaves Quiet (loaded_as bus w l)
  unfolding Leaves Quiet is_page loaded_as
  loaded-Quiet w (loaded n) (safe, known) = (LoadsSince.not_a_page refl safe, known)
  loaded-Quiet w no_binary h = h
  loaded-Quiet w gave_up h = h
  loaded-Quiet w (device_gone m) h = h

  ensure-Quiet : (w : Webview) → Quiet w → Leaves Quiet (ensure_browser bus w)
  unfolding ensure_browser Quiet reset_webview Leaves respawn
  ensure-Quiet w (safe, known) =
      either_branch (Leaves Quiet) (w.has_browser && bus.is_alive w.log) (safe, known)
        (loaded-Quiet (reset_webview bus w)
          (load_browser (bus.spawn w.log) bus.vanished inline_max_attempts inline_backoff_cap).0
          (safe, refl))

  navigate-Quiet :
      (uri : Text) (skip : Bool) (answer : Bool × Webview)
      → Answered answer
      → Leaves Quiet (navigate bus uri headers skip answer)
  unfolding navigate load_if_applied Answered Leaves Quiet
  navigate-Quiet uri skip (false, w) (quiet, ready) =
      either_branch (Leaves Quiet) (is_shown uri headers skip w) quiet quiet
  navigate-Quiet uri skip (true, w) (quiet, ready) =
      either_branch (Leaves Quiet) (is_shown uri headers skip w) quiet (
        Leaves-bind Quiet (load_via_webview bus (load_page uri (some skip)) (load_page uri none) w)
          _
          (Leaves-Ready (load_via_webview bus (load_page uri (some skip)) (load_page uri none) w)
            (load-Ready uri skip w (ready refl)))
          (λ v h. h))

  interval-Safe : (r : Reply) (w : Webview) → Safe w → Safe (interval_reply bus r w)
  unfolding Safe interval_reply
  interval-Safe returned w h = h
  interval-Safe (raised m) w h = either_branch Safe (is_method_missing bus m) h h

  apply-Safe : (interval : ℕ) (w : Webview) → Safe w → Safe (apply_reload_interval bus interval w)
  unfolding Safe apply_reload_interval is_page
  apply-Safe interval w h =
      either_branch Safe w.supports_set_reload_interval
        (interval-Safe (bus.reply w.log (set_reload_interval interval))
          (record w {
            log =
                sent (set_reload_interval interval) (bus.reply w.log (set_reload_interval interval))
                ∷ w.log;
          })
          (LoadsSince.not_a_page refl h))
        h

  show-Safe :
      (uri : Text) (interval : ℕ) (skip : Bool) (w : Webview)
      → Quiet w
      → Leaves Safe (show_page bus uri interval headers skip w)
  unfolding show_page Quiet Safe Leaves
  show-Safe uri interval skip w quiet =
      bind_with (ensure_browser bus w) _ (ensure-Quiet w quiet) (λ v h.
        bind_with (navigate bus uri headers skip (apply_request_headers bus headers v)) _
          (navigate-Quiet uri skip (apply_request_headers bus headers v) (apply-Answered v h))
          (λ u k. apply-Safe interval u k.0))
    where
      bind_with :
          (m : Step) (f : Webview → Step)
          → Leaves Quiet m
          → ((v : Webview) → Quiet v → Leaves Safe (f v))
          → Leaves Safe (m >>= f)
      bind_with (done v) f h k = k v h
      bind_with (fails message v) f h k = h.0

-- Where the web view knows `setRequestHeaders`, showing a web page never loads a page while the
-- process holds other headers than those asked for or none, whatever was loaded and staged before:
-- not after a failed call, not on a retry in a new process, and not when the call that loads raises.
pub view_webpage_no_leak :
    (bus : Bus) (headers : TextDict)
    → ((log : List Event) (m : Text)
        → bus.reply log (set_request_headers headers) ≡ raised m
        → is_method_missing bus m ≡ false)
    → (uri : Text) (interval : ℕ) (nocache skip : Bool) (w : Webview)
    → w.supports_set_request_headers ≡ true
    → Leaves
        (λ v. LoadsSince headers w.log v.log)
        (view_webpage bus uri interval nocache headers skip w)
unfolding view_webpage Leaves Quiet Safe
view_webpage_no_leak bus headers knows uri interval true skip w known =
    busted (cache_busted_url bus w.log uri)
  where
    busted :
        (found : Option Text)
        → Leaves
            (λ v. LoadsSince headers w.log v.log)
            (elim found [
              | none ↦ fails (codes "ValueError") w
              | some u ↦ show_page bus u interval headers skip w
            ])
    busted none = LoadsSince.nothing_new
    busted (some u) =
        show-Safe bus headers w.log knows u interval skip w (LoadsSince.nothing_new, known)
view_webpage_no_leak bus headers knows uri interval false skip w known =
    show-Safe bus headers w.log knows uri interval skip w (LoadsSince.nothing_new, known)
