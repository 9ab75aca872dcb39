-- ===== src/Tasks/Rows.antt =====
-- Updates by id of a table whose ids are distinct.
use mupitech_player.Prelude.{
  All, Bool, Bool-cases, List, Text, [], arith, false, inl, inr, refl, text_eq_apart, text_eq_refl,
  true, ◌∷◌, ◌≡◌, ◌≢◌,
}
use mupitech_player.Tasks.{Row, update_row, where_rows}

unfoldable pub UniqueIds : List Row → Type 0
UniqueIds [] = Unit
UniqueIds (row ∷ rows) = All (λ later. later.asset_id ≢ row.asset_id) rows × UniqueIds rows

-- No row has the id: nothing changes.
pub update_row_absent :
    (id : Text) (f : Row → Row) (rows : List Row)
    → All (λ row. row.asset_id ≢ id) rows
    → update_row id f rows ≡ rows
unfolding update_row
update_row_absent id f [] h = refl
update_row_absent id f (row ∷ rows) (apart, h) =
    rw (text_eq_apart row.asset_id id apart, update_row_absent id f rows h) refl

-- The first row has the id, and no other.
pub update_row_first :
    (f : Row → Row) (row : Row) (rows : List Row)
    → All (λ later. later.asset_id ≢ row.asset_id) rows
    → update_row row.asset_id f (row ∷ rows) ≡ f row ∷ rows
unfolding update_row
update_row_first f row rows h =
    rw (text_eq_refl row.asset_id, update_row_absent row.asset_id f rows h) refl

pub update_row_later :
    (id : Text) (f : Row → Row) (row : Row) (rows : List Row)
    → row.asset_id ≢ id
    → update_row id f (row ∷ rows) ≡ row ∷ update_row id f rows
unfolding update_row
update_row_later id f row rows apart = rw (text_eq_apart row.asset_id id apart) refl

pub All-where_rows :
    (P : Row → Type 0) (p : Row → Bool) (rows : List Row) → All P rows → All P (where_rows p rows)
unfolding where_rows
All-where_rows P p [] h = tt
All-where_rows P p (row ∷ rows) (here, h) = elim (Bool-cases (p row)) [
  | inl kept ↦ rw kept (here, All-where_rows P p rows h)
  | inr left_out ↦ rw left_out (All-where_rows P p rows h)
]

pub where_kept :
    (p : Row → Bool) (row : Row) (rows : List Row)
    → p row ≡ true
    → where_rows p (row ∷ rows) ≡ row ∷ where_rows p rows
unfolding where_rows
where_kept p row rows h = ground (arith, h)

pub where_dropped :
    (p : Row → Bool) (row : Row) (rows : List Row)
    → p row ≡ false
    → where_rows p (row ∷ rows) ≡ where_rows p rows
unfolding where_rows
where_dropped p row rows h = ground (arith, h)

pub where_none : (p : Row → Bool) → where_rows p [] ≡ []
unfolding where_rows
where_none p = refl
