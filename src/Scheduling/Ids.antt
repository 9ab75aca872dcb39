-- ===== src/Scheduling/Ids.antt =====
-- Comparing playlists by their sorted ids: it forgets the order, and nothing else.
use mathlib.Core.List.{Perm, Permᴰ}
use mathlib.Core.Logic.{∥∥₁_elim}
use mupitech_player.Prelude.{
  Bool, List, Text, [], any, arith, refl, text_eq, text_eq_refl, text_eq_sound, text_le_antisymm,
  text_le-total, text_le_trans, true, ◌||◌, ◌∙◌, ◌∷◌, ◌≡◌,
}
use mupitech_player.Scheduling.{ids_eq, insert_id, sorted_ids}

abbrev pub has_id : Text → List Text → Bool
has_id x xs = any (λ y. text_eq y x) xs

has_id-insert_id :
    (x y : Text) (ys : List Text) → has_id x (insert_id y ys) ≡ (text_eq y x || has_id x ys)
unfolding insert_id
has_id-insert_id x y [] = refl
has_id-insert_id x y (z ∷ zs) = ground (arith, has_id-insert_id x y zs)

pub has_id-sorted_ids : (x : Text) (xs : List Text) → has_id x (sorted_ids xs) ≡ has_id x xs
unfolding sorted_ids
has_id-sorted_ids x [] = refl
has_id-sorted_ids x (y ∷ ys) =
    ground (arith, has_id-insert_id x y (sorted_ids ys), has_id-sorted_ids x ys)

pub ids_eq_sound : (xs ys : List Text) → ids_eq xs ys ≡ true → xs ≡ ys
unfolding ids_eq
ids_eq_sound [] [] h = refl
ids_eq_sound [] (y ∷ ys) h = cc
ids_eq_sound (x ∷ xs) [] h = cc
ids_eq_sound (x ∷ xs) (y ∷ ys) h = ground (arith, text_eq_sound x y, ids_eq_sound xs ys)

pub ids_eq_refl : (xs : List Text) → ids_eq xs xs ≡ true
unfolding ids_eq
ids_eq_refl [] = refl
ids_eq_refl (x ∷ xs) = ground (arith, text_eq_refl x, ids_eq_refl xs)

insert_id_comm :
    (x y : Text) (zs : List Text) → insert_id x (insert_id y zs) ≡ insert_id y (insert_id x zs)
unfolding insert_id
insert_id_comm x y [] = ground (arith, text_le_antisymm x y, text_le-total x y, text_le-total y x)
insert_id_comm x y (z ∷ zs) = ground (
  arith,
  insert_id_comm x y zs,
  text_le_antisymm x y,
  text_le-total x y,
  text_le-total y x,
  text_le_trans x y z,
  text_le_trans y x z,
  text_le-total x z,
  text_le-total y z,
)

sorted_ids-permᴰ : {xs ys : List Text} → Permᴰ xs ys → sorted_ids xs ≡ sorted_ids ys
unfolding sorted_ids
sorted_ids-permᴰ Permᴰ.nil = refl
sorted_ids-permᴰ (Permᴰ.cons e d) = cc (e, sorted_ids-permᴰ d)
sorted_ids-permᴰ (Permᴰ.swap {a = a} {b = b} {l = l} e f) =
    insert_id_comm a b (sorted_ids l) ∙ cc (e, f)
sorted_ids-permᴰ (Permᴰ.trans d d') = sorted_ids-permᴰ d ∙ sorted_ids-permᴰ d'

Ids-set : IsSet (List Text)
Ids-set = hlevel

-- Playlists with the same ids, in any order, have the same sorted ids.
pub sorted_ids-perm : {xs ys : List Text} → Perm xs ys → sorted_ids xs ≡ sorted_ids ys
sorted_ids-perm {xs} {ys} p =
    ∥∥₁_elim p (Ids-set (sorted_ids xs) (sorted_ids ys)) (λ d. sorted_ids-permᴰ d)
