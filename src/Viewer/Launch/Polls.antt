-- ===== src/Viewer/Launch/Polls.antt =====
-- The polling loops end: a poll sleeps for a quarter of a second, so the deadline comes.
use mupitech_player.Prelude.{
  Bool, Bool-cases, List, Option, Text, [], arith, contains, false, inl, inr, ltb, ltb→lt, none,
  refl, some, suc, true, zero, ℕ, ◌*◌, ◌+◌, ◌<◌, ◌↔◌, ◌∷◌, ◌≡◌, ◌≢◌, ◌≤◌,
}
use mupitech_player.Viewer.Launch.{
  Handshake, Host, Signal, Spawn, after_socket, binary_missing, browser_handshake_line,
  browser_poll_interval, browser_terminate_grace, exited_early, exited_message, finish_spawn,
  launch_error, poll_gone, poll_handshake, poll_socket, registered, seen, sigkill, signals, sigterm,
  spawn_webview_once, terminate_webview, timed_out, timeout_message, wait_for_wayland_socket,
}

-- What `sleep` promises of the clock between two polls.
unfoldable pub Sleeps : (ℕ → ℕ) → Type 0
Sleeps clock = (i : ℕ) → clock i + browser_poll_interval ≤ clock (suc i)

poll_socket_total :
    (clock : ℕ → ℕ) (there : ℕ → Bool) (deadline k i : ℕ)
    → Sleeps clock
    → deadline ≤ clock i + browser_poll_interval * k
    → (found : Bool) × (poll_socket clock there deadline (suc k) i ≡ some found)
unfolding poll_socket Sleeps
poll_socket_total clock there deadline zero i sleeps late = (false, ground (arith, late))
poll_socket_total clock there deadline (suc k) i sleeps late =
    let (found, e) =
      poll_socket_total clock there deadline k (suc i) sleeps (omega (arith, sleeps i)) in
    elim (Bool-cases (ltb (clock i) deadline)) [
      | inl early ↦ elim (Bool-cases (there i)) [
        | inl here ↦ (true, rw (early, here) refl)
        | inr absent ↦ (found, rw (early, absent) e)
      ]
      | inr over ↦ (false, rw over refl)
    ]

finished :
    (budget : Text) (sent : List Signal) (met : Handshake)
    → (result : Spawn) × (out : List Signal) × (finish_spawn budget (some sent) (some met)
        ≡ some (result, out))
      × (result ≡ registered → met ≡ seen)
      × (result ≢ binary_missing)
unfolding finish_spawn
finished budget sent seen = (registered, [], refl, (λ e. refl), (λ e. cc))
finished budget sent (exited_early out) =
    (launch_error (exited_message out), [], refl, (λ e. cc), (λ e. cc))
finished budget sent timed_out =
    (launch_error (timeout_message budget), sent, refl, (λ e. cc), (λ e. cc))

poll_gone_total :
    (clock : ℕ → ℕ) (alive : ℕ → Bool) (deadline k i : ℕ)
    → Sleeps clock
    → deadline ≤ clock i + browser_poll_interval * k
    → (gone : Bool) × (poll_gone clock alive deadline (suc k) i ≡ some gone)
unfolding poll_gone Sleeps
poll_gone_total clock alive deadline zero i sleeps late = (false, ground (arith, late))
poll_gone_total clock alive deadline (suc k) i sleeps late =
    let (gone, e) =
      poll_gone_total clock alive deadline k (suc i) sleeps (omega (arith, sleeps i)) in
    elim (Bool-cases (ltb (clock i) deadline)) [
      | inl early ↦ elim (Bool-cases (alive i)) [
        | inl there ↦ (gone, rw (early, there) e)
        | inr ended ↦ (true, rw (early, ended) refl)
      ]
      | inr over ↦ (false, rw over refl)
    ]

-- The handshake line was printed by a poll before the deadline.
unfoldable pub Shakes : (ℕ → ℕ) → (ℕ → Text) → ℕ → Type 0
Shakes clock output deadline =
    (i : ℕ) × (clock i < deadline) × (contains browser_handshake_line (output i) ≡ true)

poll_handshake_total :
    (clock : ℕ → ℕ) (output : ℕ → Text) (alive : ℕ → Bool) (deadline k i : ℕ)
    → Sleeps clock
    → deadline ≤ clock i + browser_poll_interval * k
    → (met : Handshake) × (poll_handshake clock output alive deadline (suc k) i ≡ some met)
      × (met ≡ seen → Shakes clock output deadline)
unfolding poll_handshake Sleeps Shakes
poll_handshake_total clock output alive deadline zero i sleeps late =
    (timed_out, ground (arith, late), λ e. cc)
poll_handshake_total clock output alive deadline (suc k) i sleeps late =
    let (met, e, sound) =
      poll_handshake_total clock output alive deadline k (suc i) sleeps (omega (arith, sleeps i)) in
    elim (Bool-cases (ltb (clock i) deadline)) [
      | inl early ↦ elim (Bool-cases (contains browser_handshake_line (output i))) [
        | inl line ↦ (seen, rw (early, line) refl, λ h. (i, ltb→lt (clock i) deadline early, line))
        | inr silent ↦ elim (Bool-cases (alive i)) [
          | inl there ↦ (met, rw (early, silent, there) e, sound)
          | inr ended ↦ (exited_early (output i), rw (early, silent, ended) refl, λ h. cc)
        ]
      ]
      | inr over ↦ (timed_out, rw over refl, λ h. cc)
    ]

terminate_total :
    (sent : Bool) (clock : ℕ → ℕ) (alive : ℕ → Bool) (start k : ℕ)
    → Sleeps clock
    → start ≤ clock 0
    → 12 ≤ k
    → (out : List Signal) × (terminate_webview sent clock alive start (suc k) ≡ some out)
unfolding terminate_webview signals
terminate_total false clock alive start k sleeps begun room = ([], refl)
terminate_total true clock alive start k sleeps begun room =
    let (gone, e) =
      poll_gone_total clock alive (start + browser_terminate_grace) k 0 sleeps (omega arith) in
    elim (Bool-cases gone) [
      | inl ended ↦ (sigterm ∷ [], ground (arith, e, ended))
      | inr stuck ↦ (sigterm ∷ sigkill ∷ [], ground (arith, e, stuck))
    ]

wait_total :
    (path : Option Text) (present : Bool) (clock : ℕ → ℕ) (there : ℕ → Bool) (deadline k : ℕ)
    → Sleeps clock
    → deadline ≤ clock 0 + browser_poll_interval * k
    → (found : Bool) × (wait_for_wayland_socket path present clock there deadline (suc k)
        ≡ some found)
unfolding wait_for_wayland_socket
wait_total none present clock there deadline k sleeps late = (true, refl)
wait_total (some path) true clock there deadline k sleeps late = (true, refl)
wait_total (some path) false clock there deadline k sleeps late =
    poll_socket_total clock there deadline k 0 sleeps late

-- A spawn ends with a result, where a poll takes at least the quarter of a second that it sleeps, no
-- clock runs behind the start of its loop, and the fuel allows for more than the polls of the budget
-- and of the 3 seconds after SIGTERM. It succeeds only if the binary is there and the handshake line
-- was printed by a poll before the deadline; a binary that is missing is told apart.
pub spawn_webview_once_ends :
    (show : ℕ → Text) (h : Host) (timeout k : ℕ)
    → Sleeps h.socket_clock
    → Sleeps h.clock
    → Sleeps h.term_clock
    → h.start ≤ h.socket_clock 0
    → h.start ≤ h.clock 0
    → h.term_start ≤ h.term_clock 0
    → 12 ≤ k
    → timeout ≤ browser_poll_interval * k
    → (result : Spawn) × (sent : List Signal) × (spawn_webview_once show h timeout (suc k)
        ≡ some (result, sent))
      × (result ≡ registered
          → (h.command_found ≡ true) × Shakes h.clock h.output (h.start + timeout))
      × ((result ≡ binary_missing) ↔ (h.command_found ≡ false))
unfolding spawn_webview_once after_socket
spawn_webview_once_ends show h timeout k s1 s2 s3 b1 b2 b3 room long =
    let (found, e1) =
      wait_total h.socket_path h.socket_present h.socket_clock h.socket_there (h.start + timeout) k
        s1 (omega arith) in
    let (met, e2, sound) =
      poll_handshake_total h.clock h.output h.alive (h.start + timeout) k 0 s2 (omega arith) in
    let (sent, e3) =
      terminate_total h.term_sent h.term_clock h.term_alive h.term_start k s3 b3 room in
    elim (Bool-cases h.command_found) [
      | inl there ↦
          let (result, out, e, good, never) = finished (show timeout) sent met in
          (
            result,
            out,
            rw (e1, e2, e3, there) e,
            (λ r. (there, sound (good r))),
            ((λ m. absurd (never m)), λ gone. cc (there, gone)),
          )
      | inr absent ↦
          (binary_missing, [], rw (e1, absent) refl, (λ r. cc), ((λ m. absent), λ gone. refl))
    ]
