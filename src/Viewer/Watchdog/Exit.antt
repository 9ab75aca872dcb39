-- ===== src/Viewer/Watchdog/Exit.antt =====
-- A wedge that lasts is answered by a restart.
use mupitech_player.Prelude.{
  All, List, Option, Text, [], ap, arith, if◌then◌else◌, ltb, lt→ltb, none, refl, some, true, ℕ,
  ◌++◌, ◌+◌, ◌<◌, ◌∙◌, ◌∷◌, ◌≡◌, ◌≤◌,
}
use mupitech_player.Prelude.Int.{pos, ℤ}
use mupitech_player.Viewer.Watchdog.{
  Display, Watch, Write, current_boot_id, is_wayland_board, is_wedge, recover, recovery_restarts,
  stays, stored, try_restart, wayland_output_grace, wayland_output_watchdog, wedged,
}
use mupitech_player.Viewer.Watchdog.Budget.{exit_count, exits_over, next_watch}

-- A call on a Wayland board that finds a display and no output of cage, in one boot.
unfoldable pub IsWedged : Text → Display → Type 0
IsWedged boot d =
    (is_wayland_board d.qt_qpa_platform ≡ true)
    × (is_wedge d ≡ true)
    × (current_boot_id d.boot_id d.proc_stat ≡ boot)

module _ (parse_int : Text → Option ℤ) (boot : Text) where
  wedged_tick :
      (d : Display) (watch : Watch)
      → IsWedged boot d
      → wayland_output_watchdog parse_int d watch
        ≡ wedged boot d.write d.now
            (recovery_restarts parse_int boot watch.file)
            watch.wedge_since
            watch
  unfolding wayland_output_watchdog IsWedged
  wedged_tick d watch (wayland, bad, same) = rw (wayland, bad, same) refl

  early_tick :
      (d : Display) (watch : Watch) (since : ℕ)
      → IsWedged boot d
      → watch.wedge_since ≡ some since
      → d.now < since + wayland_output_grace
      → wayland_output_watchdog parse_int d watch ≡ stays watch
  unfolding wedged
  early_tick d watch since w e early =
      wedged_tick d watch w
      ∙ ap (λ s. wedged boot d.write d.now (recovery_restarts parse_int boot watch.file) s watch) e
      ∙ waits d.write d.now (recovery_restarts parse_int boot watch.file) since watch early
    where
      waits :
          (write : Write) (now : ℕ) (restarts : Option ℤ) (since : ℕ) (watch : Watch)
          → now < since + wayland_output_grace
          → wedged boot write now restarts (some since) watch ≡ stays watch
      waits write now restarts since watch early =
          rw (lt→ltb now (since + wayland_output_grace) early) refl

  counts_exit :
      (now since r : ℕ) (watch : Watch)
      → since + wayland_output_grace ≤ now
      → exit_count (wedged boot stored now (some (pos r)) (some since) watch)
        ≡ (if ltb r 3 then 1 else 0)
  unfolding wedged recover try_restart exit_count
  counts_exit now since r watch late = ground (arith, late)

  last_tick :
      (d : Display) (watch : Watch) (since r : ℕ)
      → IsWedged boot d
      → watch.wedge_since ≡ some since
      → since + wayland_output_grace ≤ d.now
      → recovery_restarts parse_int boot watch.file ≡ some (pos r)
      → d.write ≡ stored
      → exit_count (wayland_output_watchdog parse_int d watch) ≡ (if ltb r 3 then 1 else 0)
  last_tick d watch since r w e late read ok =
      ap exit_count (wedged_tick d watch w)
      ∙ ap
          (λ s.
            exit_count
              (wedged boot d.write d.now (recovery_restarts parse_int boot watch.file) s watch))
          e
      ∙ ap (λ x. exit_count (wedged boot d.write d.now x (some since) watch)) read
      ∙ ap (λ x. exit_count (wedged boot x d.now (some (pos r)) (some since) watch)) ok
      ∙ counts_exit d.now since r watch late

  exits_wedged :
      (ds : List Display) (d : Display) (watch : Watch) (since r : ℕ)
      → All (λ x. IsWedged boot x × (x.now < since + wayland_output_grace)) ds
      → IsWedged boot d
      → watch.wedge_since ≡ some since
      → since + wayland_output_grace ≤ d.now
      → recovery_restarts parse_int boot watch.file ≡ some (pos r)
      → d.write ≡ stored
      → exits_over parse_int (ds ++ d ∷ []) watch ≡ (if ltb r 3 then 1 else 0)
  unfolding exits_over next_watch exit_count
  exits_wedged [] d watch since r early w e late read ok =
      omega (arith, last_tick d watch since r w e late read ok)
  exits_wedged (x ∷ ds) d watch since r ((wx, before), early) w e late read ok =
      rw (early_tick x watch since wx e before)
        (omega (arith, exits_wedged ds d watch since r early w e late read ok))

  -- Where a display is there and cage has no output, from the first call that finds it so, through any
  -- calls within the grace period that find it so too, to one after it whose write of the count
  -- succeeds: the process ends exactly once if fewer than 3 restarts of this boot are counted, and not
  -- at all otherwise.
  pub watchdog_recovers :
      (first : Display) (ds : List Display) (d : Display) (watch : Watch) (r : ℕ)
      → watch.wedge_since ≡ none
      → recovery_restarts parse_int boot watch.file ≡ some (pos r)
      → IsWedged boot first
      → All (λ x. IsWedged boot x × (x.now < first.now + wayland_output_grace)) ds
      → IsWedged boot d
      → first.now + wayland_output_grace ≤ d.now
      → d.write ≡ stored
      → exits_over parse_int (first ∷ (ds ++ d ∷ [])) watch ≡ (if ltb r 3 then 1 else 0)
  unfolding exits_over wedged exit_count next_watch
  watchdog_recovers first ds d watch r clear read wf early w late ok =
      let begun =
        wedged_tick first watch wf
        ∙ ap
            (λ s.
              wedged boot first.write first.now (recovery_restarts parse_int boot watch.file) s
                watch)
            clear in
      rw begun (
        omega (
          arith,
          exits_wedged ds d (record watch { wedge_since = some first.now }) first.now r early w refl
              late read ok,
        ))
