-- ===== src/Viewer/Watchdog/Budget.antt =====
-- The restarts that one boot of the device can see.
use mupitech_player.Prelude.{
  All, Bool, Bool-cases, List, Option, Text, [], arith, false, inl, inr, leb, ltb, none, not, refl,
  some, suc, text_eq, text_eq_refl, true, ℕ, ◌&&◌, ◌*◌, ◌+◌, ◌==◌, ◌||◌, ◌∷◌, ◌≡◌, ◌≤◌,
}
use mupitech_player.Prelude.Int.{pos, ℤ}
use mupitech_player.Headers.{int_of}
use mupitech_player.Models.{Json, get_key}
use mupitech_player.Viewer.Watchdog.{
  Display, Outcome, Watch, Write, current_boot_id, exits, is_wayland_board, is_wedge, raises,
  recover, recovery_restarts, reset_recovery, state_of, stays, stored, torn, try_restart, unchanged,
  wayland_output_grace, wayland_output_watchdog, wedged, written,
}

unfoldable pub is_torn : Write → Bool
is_torn torn = true
is_torn stored = false
is_torn unchanged = false

-- The call clears the count, or a failed write loses it.
unfoldable pub is_reset : Display → Bool
unfolding is_torn
is_reset d = is_wayland_board d.qt_qpa_platform && not (is_wedge d) || is_torn d.write

abbrev pub cost : Bool → ℕ
cost true = 1
cost false = 0

unfoldable pub resets : List Display → ℕ
unfolding is_reset
resets [] = 0
resets (d ∷ ds) = cost (is_reset d) + resets ds

-- The watch that the next call finds: in a new process, where this one ended.
unfoldable pub next_watch : Watch → Outcome → Watch
next_watch watch (stays new) = new
next_watch watch (exits new) = record new { wedge_since = none; gave_up_logged = false }
next_watch watch raises = record watch { wedge_since = none; gave_up_logged = false }

unfoldable pub exit_count : Outcome → ℕ
exit_count (stays new) = 0
exit_count (exits new) = 1
exit_count raises = 0

-- How often the watchdog ends the process over a run of its calls. The container starts it again,
-- also where an exception ended it.
unfoldable pub exits_over : (Text → Option ℤ) → List Display → Watch → ℕ
unfolding next_watch exit_count
exits_over parse_int [] watch = 0
exits_over parse_int (d ∷ ds) watch =
    let outcome = wayland_output_watchdog parse_int d watch in
    exit_count outcome + exits_over parse_int ds (next_watch watch outcome)

resetting :
    (d : Display)
    → is_wayland_board d.qt_qpa_platform ≡ true
    → is_wedge d ≡ false
    → is_reset d ≡ true
unfolding is_reset
resetting d wayland good = ground (arith, wayland, good)

module _ (parse_int : Text → Option ℤ) (boot : Text) where
  -- The file counts r restarts of this boot, at most 3.
  unfoldable pub Counts : Option Json → ℕ → Type 0
  Counts file r = (recovery_restarts parse_int boot file ≡ some (pos r)) × (r ≤ 3)

  pub read_back :
      (n : ℕ) → recovery_restarts parse_int boot (some (state_of boot (pos n))) ≡ some (pos n)
  unfolding recovery_restarts state_of text_eq get_key int_of
  read_back n = rw (text_eq_refl boot) refl

  -- A restart and the calls that follow it are paid for by the count or by a reset.
  Fits : Display → ℕ → Watch → Outcome → Type 0
  Fits d r watch o =
      (r' : ℕ) × Counts (next_watch watch o).file r'
      × (r + exit_count o ≤ r' + 3 * cost (is_reset d))

  written-Fits :
      (d : Display) (r : ℕ) (file : Option Json) (n : ℕ)
      → Counts file r
      → n ≤ 3
      → r ≤ n + 3 * cost (is_reset d)
      → (r' : ℕ) × Counts (written d.write (state_of boot (pos n)) file) r'
        × (r ≤ r' + 3 * cost (is_reset d))
  unfolding Counts written is_reset recovery_restarts
  written-Fits d r file n c small paid = go d.write refl
    where
      go :
          (w : Write)
          → d.write ≡ w
          → (r' : ℕ) × Counts (written w (state_of boot (pos n)) file) r'
            × (r ≤ r' + 3 * cost (is_reset d))
      go stored e = (n, (read_back n, small), paid)
      go unchanged e = (r, c, omega arith)
      go torn e = (0, (refl, omega arith), ground (arith, e, c))

  stays-Fits :
      (d : Display) (r : ℕ) (watch : Watch) → Counts watch.file r → Fits d r watch (stays watch)
  unfolding Fits next_watch exit_count
  stays-Fits d r watch c = (r, c, omega arith)

  reset_recovery-Fits :
      (d : Display) (r : ℕ) (watch : Watch)
      → Counts watch.file r
      → is_reset d ≡ true
      → Fits d r watch (reset_recovery boot d.write (some (pos r)) watch)
  unfolding Fits next_watch exit_count reset_recovery Counts
  reset_recovery-Fits d r watch c resetting = elim (Bool-cases (r == 0)) [
    | inl clear ↦ rw (clear, resetting) (r, c, omega arith)
    | inr counted ↦
        let (r', c', paid) =
          written-Fits d r watch.file 0 c (omega arith) (rw resetting (omega (arith, c.1))) in
        rw counted (r', c', omega arith)
  ]

  try_restart-Fits :
      (d : Display) (w : Write) (r : ℕ) (watch : Watch)
      → Counts watch.file r
      → leb 3 r ≡ false
      → d.write ≡ w
      → Fits d r watch (try_restart boot w (pos r) watch)
  unfolding Fits next_watch exit_count try_restart is_reset Counts recovery_restarts
  try_restart-Fits d stored r watch c left e =
      (suc r, (read_back (suc r), ground (arith, left)), omega arith)
  try_restart-Fits d unchanged r watch c left e = (r, c, omega arith)
  try_restart-Fits d torn r watch c left e = (0, (refl, omega arith), ground (arith, e, c))

  recover-Fits :
      (d : Display) (r : ℕ) (watch : Watch)
      → Counts watch.file r
      → Fits d r watch (recover boot d.write (some (pos r)) watch)
  unfolding Fits next_watch exit_count recover
  recover-Fits d r watch c = elim (Bool-cases (leb 3 r)) [
    | inl spent ↦ rw spent (r, c, omega arith)
    | inr left ↦ rw left (try_restart-Fits d d.write r watch c left refl)
  ]

  wedged-Fits :
      (d : Display) (r : ℕ) (since : Option ℕ) (watch : Watch)
      → Counts watch.file r
      → Fits d r watch (wedged boot d.write d.now (some (pos r)) since watch)
  unfolding Fits next_watch exit_count wedged
  wedged-Fits d r none watch c = (r, c, omega arith)
  wedged-Fits d r (some since) watch c =
      elim (Bool-cases (ltb d.now (since + wayland_output_grace))) [
        | inl early ↦ rw early (r, c, omega arith)
        | inr late ↦ rw late (recover-Fits d r watch c)
      ]

  wayland_output_watchdog-Fits :
      (d : Display) (r : ℕ) (watch : Watch)
      → current_boot_id d.boot_id d.proc_stat ≡ boot
      → Counts watch.file r
      → Fits d r watch (wayland_output_watchdog parse_int d watch)
  unfolding wayland_output_watchdog Counts
  wayland_output_watchdog-Fits d r watch e (read, small) =
      elim (Bool-cases (is_wayland_board d.qt_qpa_platform)) [
        | inl wayland ↦ elim (Bool-cases (is_wedge d)) [
          | inl bad ↦
              rw (wayland, bad, e, read) (wedged-Fits d r watch.wedge_since watch (read, small))
          | inr good ↦
              rw (wayland, good, e, read)
                (reset_recovery-Fits d r watch (read, small) (resetting d wayland good))
        ]
        | inr elsewhere ↦ rw elsewhere (stays-Fits d r watch (read, small))
      ]

  exits_bound :
      (r : ℕ) (ds : List Display) (watch : Watch)
      → All (λ d. current_boot_id d.boot_id d.proc_stat ≡ boot) ds
      → Counts watch.file r
      → exits_over parse_int ds watch + r ≤ 3 * (1 + resets ds)
  unfolding exits_over resets Counts Fits
  exits_bound r [] watch same (read, small) = omega arith
  exits_bound r (d ∷ ds) watch (here, same) c =
      let outcome = wayland_output_watchdog parse_int d watch in
      let (r', c', paid) = wayland_output_watchdog-Fits d r watch here c in
      let later = exits_bound r' ds (next_watch watch outcome) same c' in omega (arith, paid, later)

  -- Over any calls of the watchdog within one boot of the device, from a file that counts at most 3
  -- restarts of this boot or none, it ends the process at most 3 times, and 3 times more for each call
  -- on a Wayland board that finds no wedge (cage has an output, cannot be asked, or no display is
  -- there) and for each write that destroys the file.
  pub exits_over_bound :
      (r : ℕ) (ds : List Display) (watch : Watch)
      → All (λ d. current_boot_id d.boot_id d.proc_stat ≡ boot) ds
      → Counts watch.file r
      → exits_over parse_int ds watch ≤ 3 * (1 + resets ds)
  exits_over_bound r ds watch same c = omega (arith, exits_bound r ds watch same c)
