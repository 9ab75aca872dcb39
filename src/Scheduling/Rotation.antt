-- ===== src/Scheduling/Rotation.antt =====
-- `get_next_asset`: its answer, with a request and without, and the scheduler that it leaves.
use mathlib.Core.List.{Memᴰ}
use mupitech_player.Prelude.{
  Bool, Bool-cases, List, Option, Text, [], ap, arith, false, get_elem?, if◌then◌else◌, inl, inr,
  leb, length, ltb, none, refl, some, subst, suc, sym, true, zero, ℕ, ◌&&◌, ◌<◌, ◌∙◌, ◌∷◌, ◌≡◌,
}
use mupitech_player.Models.{Asset, Entry}
use mupitech_player.Scheduling.{
  Scheduler, World, back_by, bump_counter, get_db_mtime, get_next_asset, get_requested, is_due,
  refresh_playlist, rotate, rotate_among, show, turn,
}
use mupitech_player.Scheduling.Update.{IsValid, update_playlist-Updated}

-- The entry at a position of a list is an entry of the list.
get_elem?-Mem :
    (es : List Entry) (i : ℕ) → i < length es → (e : Entry) × (get_elem? es i ≡ some e) × Memᴰ e es
get_elem?-Mem [] i h = elim h [ ]
get_elem?-Mem (e ∷ es) zero h = (e, refl, Memᴰ.head refl)
get_elem?-Mem (e ∷ es) (suc i) h =
    let (d, p, m) = get_elem?-Mem es i (omega arith) in (d, p, Memᴰ.tail m)

pub turn_bounds :
    (s : Scheduler) (n : ℕ)
    → s.index < n
    → ((turn s n).0 < n)
      × ((turn s n).1.index < n)
      × ((turn s n).1.assets ≡ s.assets)
      × ((turn s n).1.extra_asset ≡ s.extra_asset)
unfolding turn back_by
turn_bounds s n h = (ground arith, ground arith, ground arith, ground arith)

pub bump_counter_same :
    (b : Bool) (s : Scheduler)
    → ((bump_counter b s).index ≡ s.index)
      × ((bump_counter b s).assets ≡ s.assets)
      × ((bump_counter b s).extra_asset ≡ s.extra_asset)
unfolding bump_counter
bump_counter_same b s = (ground arith, ground arith, ground arith)

-- The row asked for, where it is there and not processing.
abbrev pub ready : Option Asset → Option Asset
ready none = none
ready (some a) = if a.is_processing then none else some a

abbrev pub granted : World → Option Text → Option Asset
granted w none = none
granted w (some x) = ready (w.find_row x)

-- What a playlist answers: an entry of it, or nothing where it is empty.
abbrev pub Played : Scheduler → Option Entry → Type 0
Played s' none = (s'.assets ≡ []) × (s'.current_asset_id ≡ none)
Played s' (some e) = Memᴰ e s'.assets × (s'.current_asset_id ≡ some e.asset_id)

-- What a call answers: the row that was granted, at an untouched place of the playlist, or else an
-- answer of the playlist.
abbrev pub Answer : Option Asset → Scheduler → Scheduler → Option Entry → Type 0
Answer none s s' r = Played s' r
Answer (some a) s s' r =
    (r ≡ some a.entry)
    × (s'.current_asset_id ≡ s.extra_asset)
    × (s'.assets ≡ s.assets)
    × (s'.index ≡ s.index)

pub record Shown (asked : Option Asset) (s s' : Scheduler) (r : Option Entry) : Type 0 where
  pub valid : IsValid s'
  pub served : s'.extra_asset ≡ none
  pub answer : Answer asked s s' r

abbrev pub ReturnsFor : Option Asset → Scheduler → Option (Scheduler × Option Entry) → Type 0
ReturnsFor asked s result =
    (s' : Scheduler) × (r : Option Entry) × (result ≡ some (s', r)) × Shown asked s s' r

abbrev pub Returns : World → Scheduler → Option (Scheduler × Option Entry) → Type 0
Returns w s result = ReturnsFor (granted w s.extra_asset) s result

rotate_among_Shown :
    (w : World) (old s : Scheduler) (es : List Entry)
    → s.assets ≡ es
    → IsValid s
    → s.extra_asset ≡ none
    → ReturnsFor none old (rotate_among w.shuffle_playlist s es)
unfolding rotate_among show
rotate_among_Shown w old s [] p v x = (
  record s { current_asset_id = none },
  none,
  refl,
  record { valid = record { in_list = v.in_list }; served = x; answer = (p, refl) },
)
rotate_among_Shown w old s (d ∷ ds) p v x =
    let n = length (d ∷ ds) in
    let (in_reach, next, kept, request) = turn_bounds s n (omega (arith, v.in_list, ap length p)) in
    let (e, q, m) = get_elem?-Mem (d ∷ ds) (turn s n).0 in_reach in
    let s1 = bump_counter w.shuffle_playlist (turn s n).1 in
    let (same_index, same_assets, same_request) =
      bump_counter_same w.shuffle_playlist (turn s n).1 in
    (
      record s1 { current_asset_id = some e.asset_id },
      some e,
      ground (arith, q),
      record {
        valid = record {
          in_list = omega (arith, same_index, next, ap length (same_assets ∙ kept ∙ p));
        };
        served = same_request ∙ request ∙ x;
        answer = (subst (λ l. Memᴰ e l) (sym (same_assets ∙ kept ∙ p)) m, refl);
      },
    )

rotate-Shown :
    (w : World) (old s : Scheduler)
    → IsValid s
    → s.extra_asset ≡ none
    → ReturnsFor none old (rotate w (some s))
unfolding rotate
rotate-Shown w old s v x = rotate_among_Shown w old s s.assets refl v x

-- Whatever a refresh decides, it yields a scheduler that is valid if the old one was.
refresh_playlist_total :
    (w : World) (s : Scheduler)
    → IsValid s
    → (s' : Scheduler) × (refresh_playlist w s ≡ some s')
      × IsValid s'
      × (s'.extra_asset ≡ s.extra_asset)
unfolding refresh_playlist
refresh_playlist_total w s v =
    let (a, p, u) = update_playlist-Updated w false s in
    let (b, q, t) = update_playlist-Updated w true s in
    elim (Bool-cases (ltb s.last_update_db_mtime (get_db_mtime w.getmtime w.database))) [
      | inl e ↦ (a, ground (arith, e, p), u.valid v, u.request)
      | inr e ↦ elim (Bool-cases (w.shuffle_playlist && leb 5 s.counter)) [
        | inl f ↦ (b, ground (arith, e, f, q), t.valid v, t.request)
        | inr f ↦ elim (Bool-cases (is_due s.deadline w.now)) [
          | inl g ↦ (a, ground (arith, e, f, g, p), u.valid v, u.request)
          | inr g ↦ (s, ground (arith, e, f, g), v, refl)
        ]
      ]
    ]

play_on :
    (w : World) (old s : Scheduler)
    → IsValid s
    → s.extra_asset ≡ none
    → ReturnsFor none old (rotate w (refresh_playlist w s))
play_on w old s v x =
    let (s', p, v', request) = refresh_playlist_total w s v in
    rw p (rotate-Shown w old s' v' (request ∙ x))

ready_busy : (a : Asset) → a.is_processing ≡ true → ready (some a) ≡ none
ready_busy a busy = ground (arith, busy)

ready_idle : (a : Asset) → a.is_processing ≡ false → ready (some a) ≡ some a
ready_idle a idle = ground (arith, idle)

get_requested-Returns :
    (w : World) (s : Scheduler) (x : Text) (row : Option Asset)
    → IsValid s
    → s.extra_asset ≡ some x
    → ReturnsFor (ready row) s (get_requested w s x row)
unfolding get_requested
get_requested-Returns w s x none v p =
    play_on w s (record s { extra_asset = none }) (record { in_list = v.in_list }) refl
get_requested-Returns w s x (some a) v p =
    let ReturnsAsked =
      λ (asked : Option Asset). ReturnsFor asked s (get_requested w s x (some a)) in
    elim (Bool-cases a.is_processing) [
      | inl busy ↦
          let (s', r, e, shown) =
            play_on w s (record s { extra_asset = none }) (record { in_list = v.in_list }) refl in
          subst ReturnsAsked (sym (ready_busy a busy)) (s', r, ground (arith, busy, e), shown)
      | inr idle ↦ subst ReturnsAsked (sym (ready_idle a idle)) (
        record s { current_asset_id = some x; extra_asset = none },
        some a.entry,
        ground (arith, idle),
        record {
          valid = record { in_list = v.in_list };
          served = refl;
          answer = (refl, sym p, refl, refl);
        },
      )
    ]

get_next_asset_asked :
    (w : World) (s : Scheduler) (asked : Option Text)
    → IsValid s
    → s.extra_asset ≡ asked
    → ReturnsFor (granted w asked) s (get_next_asset w s)
unfolding get_next_asset
get_next_asset_asked w s none v p =
    let (s', r, e, shown) = play_on w s s v p in (s', r, ground (arith, p, e), shown)
get_next_asset_asked w s (some x) v p =
    let (s', r, e, shown) = get_requested-Returns w s x (w.find_row x) v p in
    (s', r, ground (arith, p, e), shown)

-- From a valid scheduler `get_next_asset` never raises and leaves a valid scheduler with no request
-- open. Where a row was asked for that is there and not processing, it answers with that row, notes
-- the id asked for, and leaves the playlist and the position in it as they were. In every other case
-- it answers with an entry of the new scheduler's playlist and notes its id, or with nothing if that
-- playlist is empty.
pub get_next_asset-Returns :
    (w : World) (s : Scheduler) → IsValid s → Returns w s (get_next_asset w s)
get_next_asset-Returns w s v = get_next_asset_asked w s s.extra_asset v refl
