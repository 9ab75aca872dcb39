-- ===== src/Scheduling/Update.antt =====
-- `update_playlist`: the scheduler that it leaves, with a shuffle and without.
use mathlib.Core.Bool.{decide}
use native.Mathlib.Nat.{mod-lt}
use mathlib.Core.List.{Memᴰ}
use mupitech_player.Prelude.{
  All, All-map, Bool, Bool-cases, List, Option, Option-cases, Text, [], ap, arith, both_true, inl,
  inr, length, not, refl, some, subst, suc, sym, text_eq, text_eq_refl, text_eq_sound, true, ℕ,
  ◌&&◌, ◌-◌, ◌∙◌, ◌∷◌, ◌≡◌, ◌≤◌,
}
use mupitech_player.Models.{Entry}
use mupitech_player.Scheduling.{
  Scheduler, World, adopt, by_id, deadline_eq, entries_eq, generate_asset_list, get_db_mtime, ids,
  ids_eq, kept_index, push_entry, refreshed, replace_playlist, sorted_ids, update_from,
  update_playlist,
}
use mupitech_player.Models.Equality.{Entry-discrete}
use mupitech_player.Scheduling.Ids.{has_id, has_id-sorted_ids, ids_eq_sound}

-- The next position lies in the list, or the list is empty and the position is 0.
pub record IsValid (s : Scheduler) : Type 0 where
  pub in_list : s.index ≤ length s.assets - 1

-- What a lookup by id finds is an entry of the list with that id.
by_id_sound :
    (es : List Entry) (x : Text) (e : Entry) → by_id es x ≡ some e → (e.asset_id ≡ x) × Memᴰ e es
unfolding by_id
by_id_sound [] x e h = absurd (cc)
by_id_sound (d ∷ ds) x e h = elim (Option-cases (by_id ds x)) [
  | inl q ↦ elim (Bool-cases (text_eq d.asset_id x)) [
    | inl same ↦
        let p : d ≡ e = ground (arith, q, same, h) in
        (
          ap (λ (y : Entry). y.asset_id) (sym p) ∙ text_eq_sound d.asset_id x same,
          Memᴰ.head (sym p),
        )
    | inr other ↦ absurd (ground (arith, q, other, h))
  ]
  | inr (f, q) ↦
      let p : f ≡ e = ground (arith, q, h) in
      let (id_eq, m) = by_id_sound ds x e (q ∙ ap some p) in (id_eq, Memᴰ.tail m)
]

by_id_total :
    (es : List Entry) (x : Text) → has_id x (ids es) ≡ true → (e : Entry) × (by_id es x ≡ some e)
unfolding by_id ids
by_id_total [] x h = absurd (cc)
by_id_total (d ∷ ds) x h = elim (Option-cases (by_id ds x)) [
  | inl q ↦ elim (Bool-cases (text_eq d.asset_id x)) [
    | inl same ↦ (d, ground (arith, q, same))
    | inr other ↦
        let (e, p) = by_id_total ds x (ground (arith, other, h)) in absurd (ground (arith, q, p))
  ]
  | inr (f, q) ↦ (f, ground (arith, q))
]

abbrev pub From : List Entry → Entry → Type 0
From es e = Memᴰ e es

refreshed_total :
    (new_assets old : List Entry)
    → All (λ x. has_id x (ids new_assets) ≡ true) (ids old)
    → (es : List Entry) × (refreshed new_assets old ≡ some es)
      × (ids es ≡ ids old)
      × All (From new_assets) es
unfolding refreshed push_entry ids
refreshed_total new_assets [] h = ([], refl, refl, tt)
refreshed_total new_assets (a ∷ rest) h =
    let (e, p) = by_id_total new_assets a.asset_id h.0 in
    let (es, q, r, m) = refreshed_total new_assets rest h.1 in
    let (id_eq, here) = by_id_sound new_assets a.asset_id e p in
    (e ∷ es, ground (arith, p, q), cc (id_eq, r), (here, m))

-- Every id of a list is in it, and in any list with the same sorted ids.
has_id-cons : (x y : Text) (xs : List Text) → has_id x xs ≡ true → has_id x (y ∷ xs) ≡ true
has_id-cons x y xs h = ground (arith, h)

has_id_self : (xs : List Text) → All (λ x. has_id x xs ≡ true) xs
has_id_self [] = tt
has_id_self (x ∷ xs) = (
  ground (arith, text_eq_refl x),
  All-map (λ y. has_id y xs ≡ true) _ xs (λ y h. has_id-cons y x xs h) (has_id_self xs),
)

has_id-same_sorted :
    (xs ys : List Text) → sorted_ids xs ≡ sorted_ids ys → All (λ x. has_id x ys ≡ true) xs
has_id-same_sorted xs ys e =
    All-map (λ x. has_id x xs ≡ true) _ xs
      (λ x h. sym (has_id-sorted_ids x ys) ∙ ap (has_id x) (sym e) ∙ has_id-sorted_ids x xs ∙ h)
      (has_id_self xs)

decide-sound : {A : Type 0} (d : Dec A) → decide d ≡ true → A
unfolding decide
decide-sound (yes a) h = a
decide-sound (no n) h = absurd (cc)

pub entries_eq_sound : (ds es : List Entry) → entries_eq ds es ≡ true → ds ≡ es
unfolding entries_eq
entries_eq_sound [] [] h = refl
entries_eq_sound [] (e ∷ es) h = cc
entries_eq_sound (d ∷ ds) [] h = cc
entries_eq_sound (d ∷ ds) (e ∷ es) h =
    let both = both_true (decide (Entry-discrete d e)) (entries_eq ds es) h in
    cc (decide-sound (Entry-discrete d e) both.0, entries_eq_sound ds es both.1)

deadline_eq_sound : (a b : Option ℕ) → deadline_eq a b ≡ true → a ≡ b
unfolding deadline_eq
deadline_eq_sound a b h = ground arith

length-ids : (es : List Entry) → length (ids es) ≡ length es
unfolding ids
length-ids [] = refl
length-ids (e ∷ es) = ap suc (length-ids es)

-- The replaced playlist starts a new count at a position in range.
replace_playlist-IsValid :
    (s : Scheduler) (es : List Entry) (d : Option ℕ) → IsValid (replace_playlist s es d)
unfolding replace_playlist kept_index
replace_playlist-IsValid s [] d = record { in_list = omega arith }
replace_playlist-IsValid s (e ∷ es) d = record { in_list = omega (arith, mod-lt) }

-- What every update gives: a scheduler, at a valid position, with the new deadline.
pub record Updated (w : World) (s s' : Scheduler) : Type 0 where
  pub valid : IsValid s → IsValid s'
  pub deadline : s'.deadline ≡ (generate_asset_list w).1
  pub mtime : s'.last_update_db_mtime ≡ get_db_mtime w.getmtime_later w.database
  pub members : All (λ e. Memᴰ e (generate_asset_list w).0) s'.assets
  pub direction : s'.reverse ≡ s.reverse
  pub request : s'.extra_asset ≡ s.extra_asset

Mem-self : (es : List Entry) → All (λ e. Memᴰ e es) es
Mem-self [] = tt
Mem-self (e ∷ es) =
    (Memᴰ.head refl, All-map (λ d. Memᴰ d es) _ es (λ d m. Memᴰ.tail m) (Mem-self es))

-- The scheduler with the modification time that `update_playlist` notes first.
abbrev pub stamped : World → Scheduler → Scheduler
stamped w s = record s { last_update_db_mtime = get_db_mtime w.getmtime_later w.database }

update_keeps :
    (w : World) (s : Scheduler) (es : List Entry)
    → ids es ≡ ids s.assets
    → All (λ e. Memᴰ e (generate_asset_list w).0) es
    → Updated w s (record (stamped w s) { assets = es; deadline = (generate_asset_list w).1 })
update_keeps w s es same m = record {
  valid = λ v. record {
    in_list = omega (arith, v.in_list, ap length same, length-ids es, length-ids s.assets);
  };
  deadline = refl;
  mtime = refl;
  members = m;
  direction = refl;
  request = refl;
}

update_replaces :
    (w : World) (s : Scheduler)
    → Updated w s
        (replace_playlist (stamped w s) (generate_asset_list w).0 (generate_asset_list w).1)
unfolding replace_playlist
update_replaces w s = record {
  valid = λ v.
      replace_playlist-IsValid (stamped w s) (generate_asset_list w).0 (generate_asset_list w).1;
  deadline = refl;
  mtime = refl;
  members = Mem-self (generate_asset_list w).0;
  direction = refl;
  request = refl;
}

-- Under shuffle with the same members, `update_playlist` without `allow_reshuffle` keeps the order.
pub ids_same_refreshes :
    (w : World) (s : Scheduler)
    → ids_eq (sorted_ids (ids s.assets)) (sorted_ids (ids (generate_asset_list w).0)) ≡ true
    → (es : List Entry) × (refreshed (generate_asset_list w).0 s.assets ≡ some es)
      × (ids es ≡ ids s.assets)
      × All (From (generate_asset_list w).0) es
ids_same_refreshes w s h =
    refreshed_total (generate_asset_list w).0 s.assets
      (has_id-same_sorted (ids s.assets) (ids (generate_asset_list w).0) (ids_eq_sound _ _ h))

noop-Updated :
    (w : World) (s : Scheduler)
    → (generate_asset_list w).0 ≡ s.assets
    → (generate_asset_list w).1 ≡ s.deadline
    → Updated w s (stamped w s)
noop-Updated w s p q = record {
  valid = λ v. record { in_list = v.in_list };
  deadline = sym q;
  mtime = refl;
  members =
      subst (λ es. All (From (generate_asset_list w).0) es) p (Mem-self (generate_asset_list w).0);
  direction = refl;
  request = refl;
}

-- `update_playlist` never raises, whatever the rows, the shuffle and the old playlist are. The new
-- scheduler keeps its position valid, has the deadline of the new list and the modification time of
-- the database that this call reads, holds only entries of the new list, and keeps direction and
-- request.
pub update_playlist-Updated :
    (w : World) (allow_reshuffle : Bool) (s : Scheduler)
    → (s' : Scheduler) × (update_playlist w allow_reshuffle s ≡ some s') × Updated w s s'
unfolding update_playlist update_from adopt
update_playlist-Updated w allow s =
    let new_assets = (generate_asset_list w).0 in
    let new_deadline = (generate_asset_list w).1 in
    let s0 = stamped w s in
    let fresh = update_replaces w s in
    elim (Bool-cases (w.shuffle_playlist && not allow)) [
      | inl guarded ↦
          elim (Bool-cases (ids_eq (sorted_ids (ids s.assets)) (sorted_ids (ids new_assets)))) [
            | inl same ↦
                let (es, p, q, m) = ids_same_refreshes w s same in
                (
                  record s0 { assets = es; deadline = new_deadline },
                  ground (arith, guarded, same, p),
                  update_keeps w s es q m,
                )
            | inr other ↦
                (replace_playlist s0 new_assets new_deadline, ground (arith, guarded, other), fresh)
          ]
      | inr open' ↦
          elim (Bool-cases
            (entries_eq new_assets s.assets && deadline_eq new_deadline s.deadline)) [
              | inl same ↦
                  let (p, q) = both_true (entries_eq new_assets s.assets) _ same in
                  (
                    s0,
                    ground (arith, open', same),
                    noop-Updated w s (entries_eq_sound _ _ p) (deadline_eq_sound _ _ q),
                  )
              | inr other ↦
                  (replace_playlist s0 new_assets new_deadline, ground (arith, open', other), fresh)
            ]
    ]
