-- ===== src/Viewer/Launch.antt =====
-- The launch of the web view: the wait for cage's socket, one spawn, and the retries of
-- `load_browser`. Times are milliseconds but for the waits between spawns, which are seconds. A loop
-- that polls until a deadline takes fuel; the clock and the process are functions of the poll.
pub mod Polls
pub mod Attempts
use mupitech_player.Prelude.{
  Bool, List, Option, Text, [], codes, contains, false, if◌then◌else◌, is_empty, ltb, max, min,
  none, some, starts_with, suc, true, zero, ℕ, ◌*◌, ◌++◌, ◌+◌, ◌==◌, ◌||◌, ◌∷◌,
}

abbrev pub browser_poll_interval : ℕ
browser_poll_interval = 250

abbrev pub browser_terminate_grace : ℕ
browser_terminate_grace = 3000

abbrev pub browser_handshake_line : Text
browser_handshake_line = codes "Anthias service start"

ends_in_slash : Text → Bool
ends_in_slash [] = false
ends_in_slash (d ∷ []) = d == 47
ends_in_slash (d ∷ e ∷ s) = ends_in_slash (e ∷ s)

-- `os.path.join` with a relative name.
join_path : Text → Text → Text
unfolding ends_in_slash
join_path dir name = if is_empty dir || ends_in_slash dir then dir ++ name else dir ++ 47 ∷ name

-- `_wayland_socket_path`, from WAYLAND_DISPLAY and XDG_RUNTIME_DIR; an unset variable is empty.
pub wayland_socket_path : Text → Text → Option Text
unfolding join_path
wayland_socket_path display runtime_dir =
    if is_empty display
    then none
    else if starts_with (codes "/") display
    then some display
    else if is_empty runtime_dir
    then none
    else some (join_path runtime_dir display)

-- The loop of `_wait_for_wayland_socket`: whether the socket came. `none` means that the fuel ran out.
pub poll_socket : (ℕ → ℕ) → (ℕ → Bool) → ℕ → ℕ → ℕ → Option Bool
poll_socket clock there deadline zero i = none
poll_socket clock there deadline (suc fuel) i =
    let rest = poll_socket clock there deadline fuel (suc i) in
    if ltb (clock i) deadline then (if there i then some true else rest) else some false

-- `_wait_for_wayland_socket`; `present` is the check before the loop.
pub wait_for_wayland_socket :
    Option Text → (present : Bool) → (ℕ → ℕ) → (ℕ → Bool) → ℕ → ℕ → Option Bool
unfolding poll_socket
wait_for_wayland_socket none present clock there deadline fuel = some true
wait_for_wayland_socket (some path) present clock there deadline fuel =
    let polled = poll_socket clock there deadline fuel 0 in if present then some true else polled

pub data Signal : Type 0 where
  sigterm sigkill : Signal

-- The loop of `_terminate_webview`: whether the process is gone before the deadline.
pub poll_gone : (ℕ → ℕ) → (ℕ → Bool) → ℕ → ℕ → ℕ → Option Bool
poll_gone clock alive deadline zero i = none
poll_gone clock alive deadline (suc fuel) i =
    let rest = poll_gone clock alive deadline fuel (suc i) in
    if ltb (clock i) deadline then (if alive i then rest else some true) else some false

signals : Option Bool → Option (List Signal)
signals none = none
signals (some true) = some (sigterm ∷ [])
signals (some false) = some (sigterm ∷ sigkill ∷ [])

-- `_terminate_webview`, from its start: the signals that it sends, none if SIGTERM cannot be sent.
pub terminate_webview : (sent : Bool) → (ℕ → ℕ) → (ℕ → Bool) → ℕ → ℕ → Option (List Signal)
unfolding signals poll_gone
terminate_webview sent clock alive start fuel =
    let polled = signals (poll_gone clock alive (start + browser_terminate_grace) fuel 0) in
    if sent then polled else some []

-- What `_spawn_webview_once` comes to: the process, or one of its two exceptions.
pub data Spawn : Type 0 where
  registered : Spawn
  binary_missing : Spawn
  launch_error : Text → Spawn

-- What one spawn meets.
pub record Host : Type 0 where
  pub start : ℕ
  pub socket_path : Option Text
  pub socket_present : Bool
  pub socket_clock : ℕ → ℕ
  pub socket_there : ℕ → Bool
  pub command_found : Bool
  pub clock : ℕ → ℕ
  pub output : ℕ → Text
  pub alive : ℕ → Bool
  -- `_terminate_webview` at the end
  pub term_sent : Bool
  pub term_start : ℕ
  pub term_clock : ℕ → ℕ
  pub term_alive : ℕ → Bool

-- What the wait for the handshake line ends with.
pub data Handshake : Type 0 where
  seen timed_out : Handshake
  exited_early : Text → Handshake

pub poll_handshake : (ℕ → ℕ) → (ℕ → Text) → (ℕ → Bool) → ℕ → ℕ → ℕ → Option Handshake
poll_handshake clock output alive deadline zero i = none
poll_handshake clock output alive deadline (suc fuel) i =
    let rest = poll_handshake clock output alive deadline fuel (suc i) in
    if ltb (clock i) deadline
    then (if contains browser_handshake_line (output i)
        then some seen
        else if alive i
        then rest
        else some (exited_early (output i)))
    else some timed_out

-- The messages of the two launch errors; `{:g}` of the budget is a parameter.
exited_message : Text → Text
exited_message output =
    codes "AnthiasViewer exited before emitting D-Bus handshake; stdout: " ++ output

timeout_message : Text → Text
timeout_message budget =
    codes "AnthiasViewer did not emit \"Anthias service start\" within " ++ (budget ++ codes "s")

finish_spawn : Text → Option (List Signal) → Option Handshake → Option (Spawn × List Signal)
unfolding exited_message timeout_message
finish_spawn budget ended none = none
finish_spawn budget ended (some seen) = some (registered, [])
finish_spawn budget ended (some (exited_early out)) = some (launch_error (exited_message out), [])
finish_spawn budget none (some timed_out) = none
finish_spawn budget (some sent) (some timed_out) =
    some (launch_error (timeout_message budget), sent)

after_socket : (ℕ → Text) → Host → ℕ → ℕ → Option Bool → Option (Spawn × List Signal)
unfolding poll_handshake finish_spawn terminate_webview
after_socket show h timeout fuel none = none
after_socket show h timeout fuel (some found) =
    let ended = terminate_webview h.term_sent h.term_clock h.term_alive h.term_start fuel in
    let met =
      finish_spawn (show timeout) ended
        (poll_handshake h.clock h.output h.alive (h.start + timeout) fuel 0) in
    if h.command_found then met else some (binary_missing, [])

-- `_spawn_webview_once`, with the signals that it sends to the process.
pub spawn_webview_once : (ℕ → Text) → Host → ℕ → ℕ → Option (Spawn × List Signal)
unfolding after_socket wait_for_wayland_socket
spawn_webview_once show h timeout fuel = after_socket show h timeout fuel (
    wait_for_wayland_socket h.socket_path h.socket_present h.socket_clock h.socket_there
      (h.start + timeout) fuel)

-- What `load_browser` ends with: the attempt that started the web view, or its exception.
pub data Loaded : Type 0 where
  loaded : (attempt : ℕ) → Loaded
  no_binary gave_up : Loaded
  device_gone : Text → Loaded

-- `if attempt < max_attempts: sleep(backoff)`
slept : ℕ → ℕ → Loaded × List ℕ → Loaded × List ℕ
slept zero backoff result = result
slept (suc left) backoff (result, sleeps) = (result, backoff ∷ sleeps)

-- One turn of the loop over the attempts, where `rest` is what a retry comes to.
after_spawn : (Text → Bool) → ℕ → Loaded × List ℕ → Spawn → Loaded × List ℕ
after_spawn vanished attempt rest registered = (loaded attempt, [])
after_spawn vanished attempt rest binary_missing = (no_binary, [])
after_spawn vanished attempt rest (launch_error message) =
    if vanished message then (device_gone message, []) else rest

-- The loop; `left` attempts remain.
unfoldable pub load_from : (ℕ → Spawn) → (Text → Bool) → ℕ → ℕ → ℕ → ℕ → Loaded × List ℕ
unfolding slept after_spawn
load_from spawn vanished cap zero attempt backoff = (gave_up, [])
load_from spawn vanished cap (suc left) attempt backoff =
    let rest = load_from spawn vanished cap left (suc attempt) (min (backoff * 2) cap) in
    after_spawn vanished attempt (slept left backoff rest) (spawn attempt)

-- `load_browser`, with its waits.
unfoldable pub load_browser : (ℕ → Spawn) → (Text → Bool) → ℕ → ℕ → Loaded × List ℕ
unfolding load_from
load_browser spawn vanished max_attempts backoff_cap =
    load_from spawn vanished (max 1 backoff_cap) (max 1 max_attempts) 1 1
