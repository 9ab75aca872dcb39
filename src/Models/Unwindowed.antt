-- ===== src/Models/Unwindowed.antt =====
-- Rows without a window: `has_window_filter` and `is_active` agree.
use mupitech_player.Prelude.{List, [], arith, false, refl, true, ℕ, ◌&&◌, ◌∷◌, ◌≡◌, ◌≤◌}
use mupitech_player.Models.{
  Asset, Runtime, all_days, get_play_days, has_day, has_window_filter, in_date_range, in_window,
  is_active, matches_play_window, same_days,
}
use mupitech_player.Models.Window.{IsLocalTime}

same_days_sound : (xs ys : List ℕ) → same_days xs ys ≡ true → xs ≡ ys
unfolding same_days
same_days_sound [] [] h = refl
same_days_sound [] (y ∷ ys) h = cc
same_days_sound (x ∷ xs) [] h = cc
same_days_sound (x ∷ xs) (y ∷ ys) h = ground (arith, same_days_sound xs ys)

has_day-all_days : (d : ℕ) → 1 ≤ d → d ≤ 7 → has_day d all_days ≡ true
has_day-all_days d h k = ground arith

-- Without a window filter a row is active exactly if it is enabled and within its dates.
pub is_active_unwindowed :
    (rt : Runtime) (a : Asset) (t : ℕ)
    → IsLocalTime (rt.localtime t)
    → has_window_filter rt a ≡ false
    → is_active rt a t ≡ (a.is_enabled && in_date_range a.start_date a.end_date t)
unfolding is_active matches_play_window has_window_filter in_window
is_active_unwindowed rt a t l h =
    let all_week = has_day-all_days (rt.localtime t).weekday l.0 l.1 in
    ground (arith, h, all_week, same_days_sound (get_play_days rt a) all_days)
