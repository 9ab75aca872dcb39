-- ===== src/Scheduling/Order.antt =====
-- The order that `update_playlist` leaves: the new list's, or under shuffle that of the
-- play-through under way.
use mathlib.Core.List.{Perm}
use mupitech_player.Prelude.{
  Bool, Bool-cases, ap, arith, both_true, false, inl, inr, not, refl, some, sym, true, ◌&&◌, ◌∙◌,
  ◌≡◌,
}
use mupitech_player.Scheduling.{
  Scheduler, World, adopt, deadline_eq, entries_eq, generate_asset_list, ids, ids_eq,
  replace_playlist, sorted_ids, update_from, update_playlist,
}
use mupitech_player.Scheduling.Ids.{ids_eq_refl, sorted_ids-perm}
use mupitech_player.Scheduling.Update.{entries_eq_sound, ids_same_refreshes, stamped}

-- With shuffle off, or with a reshuffle allowed, the playlist after `update_playlist` is the new
-- list, whether it took the early return or not.
pub update_playlist_in_order :
    (w : World) (allow_reshuffle : Bool) (s : Scheduler)
    → (w.shuffle_playlist && not allow_reshuffle) ≡ false
    → (s' : Scheduler) × (update_playlist w allow_reshuffle s ≡ some s')
      × (s'.assets ≡ (generate_asset_list w).0)
unfolding update_playlist update_from
update_playlist_in_order w allow s off =
    let new_assets = (generate_asset_list w).0 in
    let new_deadline = (generate_asset_list w).1 in
    elim (Bool-cases (entries_eq new_assets s.assets && deadline_eq new_deadline s.deadline)) [
      | inl same ↦ (
        stamped w s,
        ground (arith, off, same),
        sym (entries_eq_sound _ _ (both_true (entries_eq new_assets s.assets) _ same).0),
      )
      | inr other ↦ (
        replace_playlist (stamped w s) new_assets new_deadline,
        ground (arith, off, other),
        unfold replace_playlist in refl,
      )
    ]

-- With shuffle on and the same members in any order, an update that does not allow a reshuffle
-- keeps the order, the position and the count of the play-through: the shuffle that was drawn has
-- no effect.
pub update_playlist_keeps_order :
    (w : World) (s : Scheduler)
    → w.shuffle_playlist ≡ true
    → Perm (ids s.assets) (ids (generate_asset_list w).0)
    → (s' : Scheduler) × (update_playlist w false s ≡ some s')
      × (ids s'.assets ≡ ids s.assets)
      × (s'.index ≡ s.index)
      × (s'.counter ≡ s.counter)
unfolding update_playlist update_from adopt
update_playlist_keeps_order w s on p =
    let same =
      ap (λ xs. ids_eq (sorted_ids (ids s.assets)) xs) (sym (sorted_ids-perm p))
      ∙ ids_eq_refl (sorted_ids (ids s.assets)) in
    let (es, q, r, m) = ids_same_refreshes w s same in
    (
      record (stamped w s) { assets = es; deadline = (generate_asset_list w).1 },
      ground (arith, on, same, q),
      r,
      refl,
      refl,
    )
