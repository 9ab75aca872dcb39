-- ===== src/Scheduling/Files.antt =====
-- The modification time that stands for the database, and the reload that it sets off.
use mathlib.Core.List.{Memᴰ}
use mupitech_player.Prelude.{
  Bool-cases, List, Option, Option-cases, Text, [], ap, arith, codes, false, inl, inr, leb, lt→ltb,
  max, none, refl, some, sym, ℕ, ◌++◌, ◌<◌, ◌∙◌, ◌∷◌, ◌≡◌, ◌≤◌, ◌⊎◌,
}
use mupitech_player.Scheduling.{
  Scheduler, World, generate_asset_list, get_db_mtime, newest_of, refresh_playlist,
}
use mupitech_player.Scheduling.Order.{update_playlist_in_order}
use mupitech_player.Scheduling.Update.{update_playlist-Updated}

abbrev pub suffixes : List Text
suffixes = [] ∷ codes "-wal" ∷ codes "-shm" ∷ []

newest_of-le : (g : Text → Option ℕ) (db : Text) (l : List Text) (m : ℕ) → m ≤ newest_of g db l m
unfolding newest_of
newest_of-le g db [] m = omega arith
newest_of-le g db (x ∷ l) m =
    let best : ℕ = elim (g (db ++ x)) [ none ↦ m | some t ↦ max m t ] in
    let step : m ≤ best = ground arith in omega (arith, step, newest_of-le g db l best)

newest_of-bounds :
    (g : Text → Option ℕ) (db x : Text) (l : List Text) (m t : ℕ)
    → Memᴰ x l
    → g (db ++ x) ≡ some t
    → t ≤ newest_of g db l m
unfolding newest_of
newest_of-bounds g db x [] m t k h = elim k [ ]
newest_of-bounds g db x (y ∷ l) m t (Memᴰ.head e) h =
    let read : g (db ++ y) ≡ some t = ap (λ z. g (db ++ z)) (sym e) ∙ h in
    let best : ℕ = elim (g (db ++ y)) [ none ↦ m | some u ↦ max m u ] in
    let step : t ≤ best = ground (arith, read) in omega (arith, step, newest_of-le g db l best)
newest_of-bounds g db x (y ∷ l) m t (Memᴰ.tail k) h = newest_of-bounds g db x l _ t k h

newest_of_attained :
    (g : Text → Option ℕ) (db : Text) (l : List Text) (m : ℕ)
    → (newest_of g db l m ≡ m) ⊎ ((x : Text) × Memᴰ x l × (g (db ++ x) ≡ some (newest_of g db l m)))
unfolding newest_of
newest_of_attained g db [] m = inl refl
newest_of_attained g db (y ∷ l) m =
    let best : ℕ = elim (g (db ++ y)) [ none ↦ m | some u ↦ max m u ] in
    elim (newest_of_attained g db l best) [
      | inl e ↦ elim (Option-cases (g (db ++ y))) [
        | inl q ↦ inl (e ∙ (ground (arith, q)))
        | inr (u, q) ↦ elim (Bool-cases (leb u m)) [
          | inl old ↦ inl (e ∙ (ground (arith, q, old)))
          | inr newer ↦ inr (y, Memᴰ.head refl, ground (arith, q, newer, e))
        ]
      ]
      | inr (x, k, p) ↦ inr (x, Memᴰ.tail k, p)
    ]

-- With a database set, `get_db_mtime` is the newest time that can be read of the database file and
-- its two sidecars: none of them is newer, and it is the time of one of them, or 0 if none can be
-- read.
pub get_db_mtime_newest :
    (g : Text → Option ℕ) (c : ℕ) (cs : Text)
    → ((x : Text) (t : ℕ)
        → Memᴰ x suffixes
        → g ((c ∷ cs) ++ x) ≡ some t
        → t ≤ get_db_mtime g (c ∷ cs))
      × ((get_db_mtime g (c ∷ cs) ≡ 0)
          ⊎ ((x : Text) × Memᴰ x suffixes × (g ((c ∷ cs) ++ x) ≡ some (get_db_mtime g (c ∷ cs)))))
unfolding get_db_mtime
get_db_mtime_newest g c cs = (
  λ x t m h. newest_of-bounds g (c ∷ cs) x suffixes 0 t m h,
  newest_of_attained g (c ∷ cs) suffixes 0,
)

-- If the database file or a sidecar is newer than the last update, and shuffle is off, the next
-- refresh takes the current list over and notes the time it then reads.
pub refresh_playlist_reloads :
    (w : World) (s : Scheduler) (c : ℕ) (cs x : Text) (t : ℕ)
    → w.shuffle_playlist ≡ false
    → w.database ≡ c ∷ cs
    → Memᴰ x suffixes
    → w.getmtime ((c ∷ cs) ++ x) ≡ some t
    → s.last_update_db_mtime < t
    → (s' : Scheduler) × (refresh_playlist w s ≡ some s')
      × (s'.assets ≡ (generate_asset_list w).0)
      × (s'.last_update_db_mtime ≡ get_db_mtime w.getmtime_later w.database)
unfolding refresh_playlist
refresh_playlist_reloads w s c cs x t off db m h newer =
    let (a, p, u) = update_playlist-Updated w false s in
    let (b, q, same) = update_playlist_in_order w false s (ground (arith, off)) in
    let known = (get_db_mtime_newest w.getmtime c cs).0 x t m h in
    let newer_than =
      lt→ltb s.last_update_db_mtime (get_db_mtime w.getmtime w.database)
        (rw db (omega (arith, known, newer))) in
    let agree : b ≡ a = ground (arith, p, q) in
    (a, ground (arith, newer_than, p), ap (λ (z : Scheduler). z.assets) (sym agree) ∙ same, u.mtime)
