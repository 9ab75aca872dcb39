-- ===== src/Scheduling/Previous.antt =====
-- `get_next_asset` after `reverse` was set: one asset back.
use native.Mathlib.Nat.{mod-lt, mod-eq_of_lt, mod_self, add-mod_right}
use mupitech_player.Prelude.{
  Bool-cases, ap, arith, false, get_elem?, inl, inr, length, ltb, ltb→lt, some, subst, sym, true, ℕ,
  ◌%◌, ◌*◌, ◌+◌, ◌-◌, ◌<◌, ◌∙◌, ◌≡◌,
}
use mupitech_player.Models.{Entry}
use mupitech_player.Scheduling.{Scheduler, World, back_by, get_next_asset, turn}
use mupitech_player.Scheduling.Circle.{Quiet, get_next_asset-Turned}

turn_back :
    (s : Scheduler) (n : ℕ)
    → s.reverse ≡ true
    → ((turn s n).0 ≡ (s.index + 2 * n - 2) % n) × ((turn s n).1.index ≡ (s.index + n - 1) % n)
unfolding turn back_by
turn_back s n h = (ground arith, ground arith)

-- Past the last place the position wraps to 0.
wrap : (p n : ℕ) → p < n → ltb (p + 1) n ≡ false → (p + 1) % n ≡ 0
wrap p n h e = ap (λ x. x % n) (sym (let q : n ≡ p + 1 = ground (arith, h, e) in q)) ∙ mod_self n

last_place : (p n : ℕ) → p < n → ltb (p + 1) n ≡ false → 0 + 2 * n - 2 ≡ p + n - 1
last_place p n h e = ground (arith, h, e)

last_index : (p n : ℕ) → p < n → ltb (p + 1) n ≡ false → 0 + n - 1 ≡ p
last_index p n h e = ground (arith, h, e)

back_two : (p n : ℕ) → p < n → ((p + 1) % n + 2 * n - 2) % n ≡ (p + n - 1) % n
back_two p n h = elim (Bool-cases (ltb (p + 1) n)) [
  | inl inside ↦
      ap (λ x. (x + 2 * n - 2) % n) (mod-eq_of_lt (ltb→lt (p + 1) n inside))
      ∙ ap (λ x. x % n) (omega (arith, ltb→lt (p + 1) n inside))
      ∙ add-mod_right (p + n - 1) n
  | inr wraps ↦
      ap (λ x. (x + 2 * n - 2) % n) (wrap p n h wraps) ∙ ap (λ x. x % n) (last_place p n h wraps)
]

back_one : (p n : ℕ) → p < n → ((p + 1) % n + n - 1) % n ≡ p
back_one p n h = elim (Bool-cases (ltb (p + 1) n)) [
  | inl inside ↦
      ap (λ x. (x + n - 1) % n) (mod-eq_of_lt (ltb→lt (p + 1) n inside))
      ∙ ap (λ x. x % n) (omega (arith, ltb→lt (p + 1) n inside))
      ∙ add-mod_right p n
      ∙ mod-eq_of_lt h
  | inr wraps ↦
      ap (λ x. (x + n - 1) % n) (wrap p n h wraps)
      ∙ ap (λ x. x % n) (last_index p n h wraps)
      ∙ mod-eq_of_lt h
]

-- After the asset at position `p` was shown, `reverse` makes the next quiet call show the asset
-- before it, counted round the list; the call after that shows `p` again, going forward.
pub get_next_asset_previous :
    (w : World) (s : Scheduler) (p : ℕ)
    → Quiet w s
    → s.reverse ≡ true
    → p < length s.assets
    → s.index ≡ (p + 1) % length s.assets
    → (s' : Scheduler) × (shown : Entry) × (get_next_asset w s ≡ some (s', some shown))
      × (get_elem? s.assets ((p + length s.assets - 1) % length s.assets) ≡ some shown)
      × (s'.index ≡ p)
      × (s'.reverse ≡ false)
get_next_asset_previous w s p quiet back h i =
    let n = length s.assets in
    let (s', shown, e, t) = get_next_asset-Turned w s quiet (rw i (mod-lt (p + 1) (omega arith))) in
    let (reached, next) = turn_back s n back in
    (
      s',
      shown,
      e,
      subst (λ k. get_elem? s.assets k ≡ some shown)
          (reached ∙ ap (λ x. (x + 2 * n - 2) % n) i ∙ back_two p n h) t.position,
      t.index ∙ next ∙ ap (λ x. (x + n - 1) % n) i ∙ back_one p n h,
      t.forward,
    )
