-- ===== src/Viewer/Watchdog.antt =====
-- The watchdog of the Wayland output: what the kernel and cage say of the display, the count of
-- restarts that a file keeps for one boot, and `_wayland_output_watchdog`. The files, the output of
-- `wlr-randr` and the clock are the record `Display`, one value for each call.
pub mod Budget
pub mod Exit
use mupitech_player.Prelude.{
  Bool, List, Option, Text, [], codes, false, if◌then◌else◌, is_empty, is_space, leb, ltb, none,
  not, some, starts_with, strip, suc, text_eq, true, zero, ℕ, ◌&&◌, ◌++◌, ◌+◌, ◌==◌, ◌||◌, ◌∷◌,
}
use mupitech_player.Prelude.Int.{negsuc, pos, ℤ}
use mupitech_player.Headers.{int_of, number, overflow, refused}
use mupitech_player.Models.{Json, end, field, get_key, int, obj, str}
use mupitech_player.Viewer.Qpa.{Run, exited, unavailable}

abbrev pub wayland_output_grace : ℕ
wayland_output_grace = 60

abbrev pub wayland_max_recovery_restarts : ℕ
wayland_max_recovery_restarts = 3

-- A directory of /sys/class/drm: what its files `status` and `modes` hold, `none` for an `OSError`.
pub record Connector : Type 0 where
  pub status : Option Text
  pub modes : Option Text

-- What comes of a write of the state file: the new text, the old one, or neither.
pub data Write : Type 0 where
  stored unchanged torn : Write

-- What one call of the watchdog meets; the time is that of `monotonic()`, in seconds.
pub record Display : Type 0 where
  pub qt_qpa_platform : Text
  pub connectors : List Connector
  pub wlr_randr : Run
  pub now : ℕ
  pub boot_id : Option Text
  pub proc_stat : Option (List Text)
  pub write : Write

-- The JSON object of the state file, or `none` where `open` or `json.load` raises an error that is
-- caught; and the two variables of the module.
pub record Watch : Type 0 where
  pub file : Option Json
  pub wedge_since : Option ℕ
  pub gave_up_logged : Bool

-- `_is_wayland_board`
unfoldable pub is_wayland_board : Text → Bool
is_wayland_board platform = starts_with (codes "wayland") platform

-- `_kernel_has_connected_display`
unfoldable pub has_connected : List Connector → Bool
has_connected [] = false
has_connected (c ∷ rest) =
    elim c.status [ none ↦ false | some s ↦ text_eq (strip s) (codes "connected") ]
    || has_connected rest

unfoldable pub has_modes : Option Text → Bool
has_modes none = false
has_modes (some s) = not (is_empty (strip s))

-- `_kernel_has_bindable_display`
unfoldable pub has_bindable : List Connector → Bool
unfolding has_modes
has_bindable [] = false
has_bindable (c ∷ rest) =
    elim c.status [
      | none ↦ false
      | some s ↦
          not (text_eq (strip s) (codes "disconnected") || is_empty (strip s)) && has_modes c.modes
    ]
    || has_bindable rest

pub data Probe : Type 0 where
  has_output no_output unknown : Probe

is_block_start : Text → Bool
is_block_start [] = false
is_block_start (c ∷ line) = not (is_space c)

unfoldable pub probe_lines : List Text → Probe
unfolding is_block_start
probe_lines [] = no_output
probe_lines (line ∷ lines) = if is_block_start line then has_output else probe_lines lines

-- `_cage_output_probe`
unfoldable pub cage_output_probe : Run → Probe
unfolding probe_lines
cage_output_probe unavailable = unknown
cage_output_probe (exited zero lines) = probe_lines lines
cage_output_probe (exited (suc code) lines) = unknown

-- `s.split()`, with the word that is being read.
words_from : Text → Text → List Text
words_from word [] = if is_empty word then [] else word ∷ []
words_from word (c ∷ s) =
    let broken = words_from [] s in
    let longer = words_from (word ++ c ∷ []) s in
    if is_space c then (if is_empty word then broken else word ∷ broken) else longer

-- The loop over /proc/stat. An `IndexError` ends it.
boot_time : List Text → Text
unfolding words_from
boot_time [] = []
boot_time (line ∷ lines) =
    if starts_with (codes "btime ") line
    then elim (words_from [] line) [
      | [] ↦ []
      | word ∷ rest ↦ elim rest [ [] ↦ [] | time ∷ others ↦ codes "btime:" ++ time ]
    ]
    else boot_time lines

-- `_current_boot_id`
unfoldable pub current_boot_id : Option Text → Option (List Text) → Text
unfolding boot_time
current_boot_id boot_id proc_stat =
    let id : Text = elim boot_id [ none ↦ [] | some s ↦ strip s ] in
    let fallback : Text = elim proc_stat [ none ↦ [] | some lines ↦ boot_time lines ] in
    if not (is_empty id) then id else fallback

is_this_boot : Text → Option Json → Bool
is_this_boot boot (some (str s)) = text_eq s boot
is_this_boot boot _ = false

restarts_in : (Text → Option ℤ) → Option Json → Option ℤ
restarts_in parse_int none = some (pos 0)
restarts_in parse_int (some value) = elim (int_of parse_int value) [
  | number z ↦ some z
  | refused ↦ some (pos 0)
  | overflow ↦ none
]

-- `_recovery_restarts_this_boot`; `none` for an exception that it does not catch.
unfoldable pub recovery_restarts : (Text → Option ℤ) → Text → Option Json → Option ℤ
unfolding is_this_boot restarts_in
recovery_restarts parse_int boot none = some (pos 0)
recovery_restarts parse_int boot (some (obj fields)) =
    if is_this_boot boot (get_key (codes "boot_id") fields)
    then restarts_in parse_int (get_key (codes "restarts") fields)
    else some (pos 0)
recovery_restarts parse_int boot (some _) = none

-- `{'boot_id': ..., 'restarts': ...}`
pub state_of : Text → ℤ → Json
state_of boot restarts =
    obj (field (codes "boot_id") (str boot) (field (codes "restarts") (int restarts) end))

pub written : Write → Json → Option Json → Option Json
written stored new old = some new
written unchanged new old = old
written torn new old = none

-- `n + 1`
pub next_ℤ : ℤ → ℤ
next_ℤ (pos n) = pos (suc n)
next_ℤ (negsuc zero) = pos 0
next_ℤ (negsuc (suc n)) = negsuc n

pub is_stored : Write → Bool
is_stored stored = true
is_stored unchanged = false
is_stored torn = false

pub is_zero : ℤ → Bool
is_zero (pos n) = n == 0
is_zero (negsuc n) = false

-- `restarts >= WAYLAND_MAX_RECOVERY_RESTARTS`
pub is_spent : ℤ → Bool
is_spent (pos n) = leb wayland_max_recovery_restarts n
is_spent (negsuc n) = false

-- The watch after a call, and whether the call ends the process.
pub data Outcome : Type 0 where
  stays exits : Watch → Outcome
  raises : Outcome

-- `_reset_recovery_restarts`
reset_recovery : Text → Write → Option ℤ → Watch → Outcome
unfolding written is_zero
reset_recovery boot write none watch = raises
reset_recovery boot write (some restarts) watch = stays (record watch {
  file = if is_zero restarts then watch.file else written write (state_of boot (pos 0)) watch.file;
  wedge_since = none;
  gave_up_logged = false;
})

-- `if not _record_recovery_restart(): return`, and then `sys.exit(1)`
try_restart : Text → Write → ℤ → Watch → Outcome
unfolding written is_stored next_ℤ
try_restart boot write restarts watch =
    let watch' = record watch {
      file = written write (state_of boot (next_ℤ restarts)) watch.file;
    } in
    if is_stored write then exits watch' else stays watch'

-- The end of the watchdog, once the grace period is over.
recover : Text → Write → Option ℤ → Watch → Outcome
unfolding is_spent try_restart
recover boot write none watch = raises
recover boot write (some restarts) watch =
    if is_spent restarts
    then stays (record watch { gave_up_logged = true })
    else try_restart boot write restarts watch

wedged : Text → Write → ℕ → Option ℤ → Option ℕ → Watch → Outcome
unfolding recover
wedged boot write now restarts none watch = stays (record watch { wedge_since = some now })
wedged boot write now restarts (some since) watch =
    if ltb now (since + wayland_output_grace)
    then stays watch
    else recover boot write restarts watch

unfoldable pub is_no_output : Probe → Bool
is_no_output no_output = true
is_no_output has_output = false
is_no_output unknown = false

-- A display is there and cage has no output.
unfoldable pub is_wedge : Display → Bool
unfolding is_no_output cage_output_probe
is_wedge d =
    (has_bindable d.connectors || has_connected d.connectors)
    && is_no_output (cage_output_probe d.wlr_randr)

-- `_wayland_output_watchdog`
unfoldable pub wayland_output_watchdog : (Text → Option ℤ) → Display → Watch → Outcome
unfolding is_wedge wedged reset_recovery
wayland_output_watchdog parse_int d watch =
    let boot = current_boot_id d.boot_id d.proc_stat in
    let restarts = recovery_restarts parse_int boot watch.file in
    if not (is_wayland_board d.qt_qpa_platform)
    then stays watch
    else if is_wedge d
    then wedged boot d.write d.now restarts watch.wedge_since watch
    else reset_recovery boot d.write restarts watch
