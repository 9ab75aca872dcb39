-- ===== src/Scheduling/Circle.antt =====
-- Quiet calls of `get_next_asset`: the playlist goes round.
use native.Mathlib.Nat.{mod-add-mod, mod-lt, mod-eq_of_lt, add-zero}
use mupitech_player.Prelude.{
  All, Bool, List, Option, [], ap, arith, false, get_elem?, get_elem?-lt, leb, length, none, refl,
  some, subst, suc, sym, ℕ, ◌%◌, ◌&&◌, ◌+◌, ◌<◌, ◌∙◌, ◌∷◌, ◌≡◌, ◌≤◌,
}
use mupitech_player.Models.{Entry}
use mupitech_player.Scheduling.{
  Scheduler, World, bump_counter, get_db_mtime, get_next_asset, is_due, refresh_playlist, rotate,
  rotate_among, show, turn,
}
use mupitech_player.Scheduling.Rotation.{bump_counter_same, turn_bounds}

-- Nothing calls for a reload: no newer file, no reshuffle due, no deadline passed.
pub record Quiet (w : World) (s : Scheduler) : Type 0 where
  pub same_files : get_db_mtime w.getmtime w.database ≤ s.last_update_db_mtime
  pub no_reshuffle : (w.shuffle_playlist && leb 5 s.counter) ≡ false
  pub not_due : is_due s.deadline w.now ≡ false
  pub no_request : s.extra_asset ≡ none

-- What one turn through the list `es` leaves, and what it shows.
pub record TurnedTo (s : Scheduler) (es : List Entry) (s' : Scheduler) (shown : Entry)
    : Type 0 where
  pub position : get_elem? es (turn s (length es)).0 ≡ some shown
  pub assets : s'.assets ≡ s.assets
  pub index : s'.index ≡ (turn s (length es)).1.index
  pub forward : s'.reverse ≡ false
  pub current : s'.current_asset_id ≡ some shown.asset_id
  pub deadline : s'.deadline ≡ s.deadline
  pub mtime : s'.last_update_db_mtime ≡ s.last_update_db_mtime
  pub request : s'.extra_asset ≡ s.extra_asset

abbrev pub Turned : Scheduler → List Entry → Option (Scheduler × Option Entry) → Type 0
Turned s es result =
    (s' : Scheduler) × (shown : Entry) × (result ≡ some (s', some shown)) × TurnedTo s es s' shown

turn_same :
    (s : Scheduler) (n : ℕ)
    → ((turn s n).1.reverse ≡ false)
      × ((turn s n).1.deadline ≡ s.deadline)
      × ((turn s n).1.last_update_db_mtime ≡ s.last_update_db_mtime)
unfolding turn
turn_same s n = (ground arith, ground arith, ground arith)

bump_counter_rest :
    (b : Bool) (s : Scheduler)
    → ((bump_counter b s).reverse ≡ s.reverse)
      × ((bump_counter b s).deadline ≡ s.deadline)
      × ((bump_counter b s).last_update_db_mtime ≡ s.last_update_db_mtime)
unfolding bump_counter
bump_counter_rest b s = (ground arith, ground arith, ground arith)

rotate_among-Turned :
    (b : Bool) (s : Scheduler) (es : List Entry)
    → s.index < length es
    → Turned s es (rotate_among b s es)
unfolding rotate_among show
rotate_among-Turned b s [] h = elim h [ ]
rotate_among-Turned b s (d ∷ ds) h =
    let n = length (d ∷ ds) in
    let (reached, next, kept, request) = turn_bounds s n h in
    let (e, q) = get_elem?-lt (d ∷ ds) (turn s n).0 reached in
    let s1 = bump_counter b (turn s n).1 in
    let (same_index, same_assets, same_request) = bump_counter_same b (turn s n).1 in
    let rest = bump_counter_rest b (turn s n).1 in
    let moved = turn_same s n in
    (
      record s1 { current_asset_id = some e.asset_id },
      e,
      ground (arith, q),
      record {
        position = q;
        assets = same_assets ∙ kept;
        index = same_index;
        forward = rest.0 ∙ moved.0;
        current = refl;
        deadline = rest.1 ∙ moved.1;
        mtime = rest.2 ∙ moved.2;
        request = same_request ∙ request;
      },
    )

refresh_playlist-Quiet : (w : World) (s : Scheduler) → Quiet w s → refresh_playlist w s ≡ some s
unfolding refresh_playlist
refresh_playlist-Quiet w s q = ground (arith, q.same_files, q.no_reshuffle, q.not_due)

-- In a quiet world, from a position in the list, a call plays the entry at the position that
-- `turn` gives, notes its id, moves on to the index that `turn` gives, and goes forward from there.
pub get_next_asset-Turned :
    (w : World) (s : Scheduler)
    → Quiet w s
    → s.index < length s.assets
    → Turned s s.assets (get_next_asset w s)
unfolding get_next_asset rotate
get_next_asset-Turned w s quiet h =
    let (s', shown, e, rest) = rotate_among-Turned w.shuffle_playlist s s.assets h in
    (s', shown, ground (arith, quiet.no_request, refresh_playlist-Quiet w s quiet, e), rest)

-- The scheduler after a call in each of these worlds.
pub after : List World → Scheduler → Option Scheduler
after [] s = some s
after (w ∷ ws) s = elim (get_next_asset w s) [ none ↦ none | some (s', _) ↦ after ws s' ]

-- A world that gives a scheduler no cause to reload: shuffle is off, no file is newer, and the
-- deadline has not passed.
pub record Undisturbed (s : Scheduler) (w : World) : Type 0 where
  pub off : w.shuffle_playlist ≡ false
  pub same_files : get_db_mtime w.getmtime w.database ≤ s.last_update_db_mtime
  pub not_due : is_due s.deadline w.now ≡ false

turn_forward :
    (s : Scheduler) (n : ℕ)
    → s.reverse ≡ false
    → ((turn s n).0 ≡ s.index) × ((turn s n).1.index ≡ (s.index + 1) % n)
unfolding turn
turn_forward s n h = (ground arith, ground arith)

mod_step : (i k n : ℕ) → ((i + 1) % n + k) % n ≡ (i + suc k) % n
mod_step i k n = mod-add-mod (i + 1) n k ∙ ap (λ x. x % n) (omega arith)

Undisturbed-Quiet : (w : World) (s : Scheduler) → Undisturbed s w → s.extra_asset ≡ none → Quiet w s
Undisturbed-Quiet w s u unasked = record {
  same_files = u.same_files;
  no_reshuffle = ground (arith, u.off);
  not_due = u.not_due;
  no_request = unasked;
}

Undisturbed-next :
    (s s' : Scheduler) {shown : Entry} (w : World)
    → TurnedTo s s.assets s' shown
    → Undisturbed s w
    → Undisturbed s' w
Undisturbed-next s s' w t u = record {
  off = u.off;
  same_files = omega (arith, u.same_files, t.mtime);
  not_due = ap (λ d. is_due d w.now) t.deadline ∙ u.not_due;
}

All-next :
    (s s' : Scheduler) {shown : Entry} (ws : List World)
    → TurnedTo s s.assets s' shown
    → All (Undisturbed s) ws
    → All (Undisturbed s') ws
All-next s s' [] t h = tt
All-next s s' (w ∷ ws) t (u, us) = (Undisturbed-next s s' w t u, All-next s s' ws t us)

-- Where the scheduler goes forward from a position in its list and no asset was asked for: after a
-- call in each of some worlds and in one more, all with shuffle off, no file newer than the playlist
-- and its deadline not passed, the last call shows the entry that stands as many places after the
-- first position, counted round the list, as there were calls before it. So each entry is shown once
-- in every round, in order.
pub get_next_asset_circle :
    (ws : List World) (w : World) (s : Scheduler)
    → All (Undisturbed s) ws
    → Undisturbed s w
    → s.extra_asset ≡ none
    → s.reverse ≡ false
    → s.index < length s.assets
    → (s' : Scheduler) × (s'' : Scheduler) × (shown : Entry) × (after ws s ≡ some s')
      × (get_next_asset w s' ≡ some (s'', some shown))
      × (get_elem? s.assets ((s.index + length ws) % length s.assets) ≡ some shown)
unfolding after
get_next_asset_circle [] w s us u unasked fwd h =
    let (s', shown, e, t) = get_next_asset-Turned w s (Undisturbed-Quiet w s u unasked) h in
    let (reached, next) = turn_forward s (length s.assets) fwd in
    (
      s,
      s',
      shown,
      refl,
      e,
      subst (λ i. get_elem? s.assets i ≡ some shown)
          (reached ∙ sym (ap (λ x. x % length s.assets) (add-zero s.index) ∙ mod-eq_of_lt h))
          t.position,
    )
get_next_asset_circle (w0 ∷ ws) w s (u0, us) u unasked fwd h =
    let (s', shown, e, t) = get_next_asset-Turned w0 s (Undisturbed-Quiet w0 s u0 unasked) h in
    let (reached, next) = turn_forward s (length s.assets) fwd in
    let n = length s.assets in
    let stepped = t.index ∙ next in
    let (a, b, again, p, q, r) =
      get_next_asset_circle ws w s' (All-next s s' ws t us) (Undisturbed-next s s' w t u)
        (t.request ∙ unasked) t.forward
        (rw (stepped, t.assets) (mod-lt (s.index + 1) (omega arith))) in
    (
      a,
      b,
      again,
      ground (arith, e, p),
      q,
      sym (
            cc (
              ap (λ l. get_elem? l ((s'.index + length ws) % length l)) t.assets,
              ap (λ i. get_elem? s.assets ((i + length ws) % n)) stepped,
              ap (get_elem? s.assets) (mod_step s.index (length ws) n),
            ))
          ∙ r,
    )
