-- ===== src/Headers/Clamps.antt =====
-- `clamp_duration` and `clamp_refresh_interval`: the bound that every stored value is held to.
use mupitech_player.Prelude.{Option, Text, arith, min, none, refl, some, ℕ, ◌≡◌, ◌≢◌, ◌≤◌}
use mupitech_player.Prelude.Int.{negsuc, pos, ℤ}
use mupitech_player.Headers.{
  IntResult, clamp_duration, clamp_refresh_interval, clamp_result, duration_s_max, int_of, number,
  overflow, refresh_interval_s_max, refused,
}
use mupitech_player.Models.{Json, float, infinite, int}

clamped :
    (bound : ℕ) (r : IntResult)
    → r ≢ overflow
    → (n : ℕ) × (clamp_result bound r ≡ some n) × (n ≤ bound)
unfolding clamp_result
clamped bound (number (pos n)) h = (min n bound, refl, omega arith)
clamped bound (number (negsuc n)) h = (0, refl, omega arith)
clamped bound refused h = (0, refl, omega arith)
clamped bound overflow h = absurd (h refl)

module _ (parse_int : Text → Option ℤ) where
  -- Only an infinite float overflows.
  overflows : (value : Json) → int_of parse_int value ≡ overflow → value ≡ float infinite
  unfolding int_of
  overflows value h = ground (arith, h)

  -- `clamp_duration` turns any value but an infinite float into a number between 0 and a year of
  -- seconds; a whole number in that range is kept, and a negative one becomes 0. An infinite float
  -- makes it raise.
  pub clamp_duration_bounds :
      (value : Json)
      → (value ≢ float infinite
          → (n : ℕ) × (clamp_duration parse_int value ≡ some n) × (n ≤ duration_s_max))
        × ((n : ℕ)
            → value ≡ int (pos n)
            → n ≤ duration_s_max
            → clamp_duration parse_int value ≡ some n)
        × ((n : ℕ) → value ≡ int (negsuc n) → clamp_duration parse_int value ≡ some 0)
        × (value ≡ float infinite → clamp_duration parse_int value ≡ none)
  unfolding clamp_duration
  clamp_duration_bounds value = (
    λ h. clamped duration_s_max (int_of parse_int value) (λ e. h (overflows value e)),
    λ n e l. rw e (ground (arith, l)),
    λ n e. rw e,
    λ e. rw e,
  )

  -- `clamp_refresh_interval` turns any value but an infinite float into a number between 0 and a day
  -- of seconds; a whole number in that range is kept, and a negative one becomes 0. An infinite float
  -- makes it raise.
  pub clamp_refresh_interval_bounds :
      (value : Json)
      → (value ≢ float infinite
          → (n : ℕ) × (clamp_refresh_interval parse_int value ≡ some n)
            × (n ≤ refresh_interval_s_max))
        × ((n : ℕ)
            → value ≡ int (pos n)
            → n ≤ refresh_interval_s_max
            → clamp_refresh_interval parse_int value ≡ some n)
        × ((n : ℕ) → value ≡ int (negsuc n) → clamp_refresh_interval parse_int value ≡ some 0)
        × (value ≡ float infinite → clamp_refresh_interval parse_int value ≡ none)
  unfolding clamp_refresh_interval
  clamp_refresh_interval_bounds value = (
    λ h. clamped refresh_interval_s_max (int_of parse_int value) (λ e. h (overflows value e)),
    λ n e l. rw e (ground (arith, l)),
    λ n e. rw e,
    λ e. rw e,
  )

clamp_result_most : (bound : ℕ) (r : IntResult) (n : ℕ) → clamp_result bound r ≡ some n → n ≤ bound
unfolding clamp_result
clamp_result_most bound (number (pos m)) n h = ground (arith, h)
clamp_result_most bound (number (negsuc m)) n h = ground (arith, h)
clamp_result_most bound refused n h = ground (arith, h)
clamp_result_most bound overflow n h = cc

pub clamp_duration_most :
    (parse_int : Text → Option ℤ) (value : Json) (n : ℕ)
    → clamp_duration parse_int value ≡ some n
    → n ≤ duration_s_max
unfolding clamp_duration
clamp_duration_most parse_int value n h =
    clamp_result_most duration_s_max (int_of parse_int value) n h

pub clamp_refresh_interval_most :
    (parse_int : Text → Option ℤ) (value : Json) (n : ℕ)
    → clamp_refresh_interval parse_int value ≡ some n
    → n ≤ refresh_interval_s_max
unfolding clamp_refresh_interval
clamp_refresh_interval_most parse_int value n h =
    clamp_result_most refresh_interval_s_max (int_of parse_int value) n h
