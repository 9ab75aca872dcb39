-- ===== src/Tasks/Reach.antt =====
-- The sweep over the URIs, against what a probe does to each row by itself.
use mupitech_player.Prelude.{
  All, Bool, Bool-cases, List, Option, Text, [], ap, arith, false, if◌then◌else◌, inl, inr, none,
  not, refl, some, sym, true, ◌&&◌, ◌==◌, ◌∙◌, ◌∷◌, ◌≡◌, ◌≢◌, ◌⊎◌,
}
use mupitech_player.Tasks.{
  Probe, Row, Worker, answers, check_asset_reachability, checked, crashes, is_probed, or_empty,
  revalidate_rows, soft_limit, starts_with_slash, update_row, where_rows,
}
use mupitech_player.Tasks.Rows.{
  All-where_rows, UniqueIds, update_row_first, update_row_later, where_dropped, where_kept,
  where_none,
}

Probe-cases : (p : Probe) → ((b : Bool) × (p ≡ answers b)) ⊎ ((p ≡ crashes) ⊎ (p ≡ soft_limit))
Probe-cases (answers b) = inl (b, refl)
Probe-cases crashes = inr (inl refl)
Probe-cases soft_limit = inr (inr refl)

recorded : Worker → Row → Probe → Row
recorded w row (answers reachable) = checked w reachable row
recorded w row soft_limit = row
recorded w row crashes = row

-- One row, by the code's own steps.
stepped_row : Worker → Row → Row
unfolding recorded
stepped_row w row =
    if is_probed row && not row.skip_asset_check
    then recorded w row (check_asset_reachability w row)
    else row

stepped_rows : Worker → List Row → List Row
unfolding stepped_row
stepped_rows w [] = []
stepped_rows w (row ∷ rows) = stepped_row w row ∷ stepped_rows w rows

revalidate_later :
    (w : Worker) (first : Row) (todo table : List Row)
    → All (λ row. row.asset_id ≢ first.asset_id) todo
    → revalidate_rows w todo (first ∷ table) ≡ first ∷ revalidate_rows w todo table
unfolding revalidate_rows
revalidate_later w first [] table h = refl
revalidate_later w first (row ∷ todo) table (apart, h) = elim (Bool-cases row.skip_asset_check) [
  | inl skipped ↦ ground (arith, skipped, revalidate_later w first todo table h)
  | inr unskipped ↦ elim (Probe-cases (check_asset_reachability w row)) [
    | inl (b, e) ↦ ground (
      arith,
      unskipped,
      e,
      update_row_later row.asset_id (checked w b) first table (λ q. apart (sym q)),
      revalidate_later w first todo (update_row row.asset_id (checked w b) table) h,
    )
    | inr (inl e) ↦ ground (arith, unskipped, e, revalidate_later w first todo table h)
    | inr (inr e) ↦ ground (arith, unskipped, e)
  ]
]

revalidate_first :
    (w : Worker) (row : Row) (todo table : List Row)
    → All (λ later. later.asset_id ≢ row.asset_id) table
    → All (λ later. later.asset_id ≢ row.asset_id) todo
    → check_asset_reachability w row ≢ soft_limit
    → is_probed row ≡ true
    → revalidate_rows w (row ∷ todo) (row ∷ table)
      ≡ stepped_row w row ∷ revalidate_rows w todo table
unfolding revalidate_rows stepped_row recorded checked
revalidate_first w row todo table apart h timely probed = elim (Bool-cases row.skip_asset_check) [
  | inl skipped ↦ ground (arith, skipped, probed, revalidate_later w row todo table h)
  | inr unskipped ↦ elim (Probe-cases (check_asset_reachability w row)) [
    | inl (b, e) ↦ ground (
      arith,
      unskipped,
      probed,
      e,
      update_row_first (checked w b) row table apart,
      revalidate_later w (checked w b row) todo table h,
    )
    | inr (inl e) ↦ ground (arith, unskipped, e, probed, revalidate_later w row todo table h)
    | inr (inr e) ↦ elim (timely e) [ ]
  ]
]

revalidate_none : (w : Worker) → revalidate_rows w [] [] ≡ []
unfolding revalidate_rows
revalidate_none w = refl

unprobed_row : (w : Worker) (row : Row) → is_probed row ≡ false → stepped_row w row ≡ row
unfolding stepped_row
unprobed_row w row unprobed = ground (arith, unprobed)

revalidate_rows_steps :
    (w : Worker) (table : List Row)
    → UniqueIds table
    → All (λ row. check_asset_reachability w row ≢ soft_limit) table
    → revalidate_rows w (where_rows is_probed table) table ≡ stepped_rows w table
unfolding stepped_rows UniqueIds
revalidate_rows_steps w [] h timely = rw (where_none is_probed) (revalidate_none w)
revalidate_rows_steps w (row ∷ rows) (apart, h) (first_timely, timely) =
    elim (Bool-cases (is_probed row)) [
      | inl probed ↦ rw (where_kept is_probed row rows probed) (
          rw
            (
              revalidate_first w row (where_rows is_probed rows) rows apart
                  (All-where_rows _ is_probed rows apart) first_timely probed,
              revalidate_rows_steps w rows h timely,
            )
            refl)
      | inr unprobed ↦ rw (where_dropped is_probed row rows unprobed) (
          rw
            (
              revalidate_later w row (where_rows is_probed rows) rows
                  (All-where_rows _ is_probed rows apart),
              revalidate_rows_steps w rows h timely,
              unprobed_row w row unprobed,
            )
            refl)
    ]

-- What a probe of the row finds: a path is a file or not, and anything else answers or not, its
-- certificate checked where neither the setting nor the row says otherwise.
unfoldable pub probe_of : Worker → Row → Option Text → Probe
probe_of w row none = w.url_answers [] (if row.skip_ssl_verify then false else w.verify_ssl)
probe_of w row (some []) = w.url_answers [] (if row.skip_ssl_verify then false else w.verify_ssl)
probe_of w row (some (c ∷ uri)) =
    if c == 47
    then w.isfile (c ∷ uri)
    else w.url_answers (c ∷ uri) (if row.skip_ssl_verify then false else w.verify_ssl)

-- The columns that an answer changes.
unfoldable pub noted_answer : Worker → Row → Probe → Row
noted_answer w row (answers reachable) = record row {
  is_reachable = reachable;
  last_reachability_check = some (w.now_for row.asset_id);
}
noted_answer w row soft_limit = row
noted_answer w row crashes = row

-- What the sweep owes to a row: nothing to one that is disabled, processing or exempt from the
-- check, or whose probe crashes, and the answer of its probe to any other.
unfoldable pub probed_row : Worker → Row → Row
unfolding probe_of noted_answer
probed_row w row =
    if row.is_processing
    then row
    else if row.skip_asset_check
    then row
    else if row.is_enabled
    then noted_answer w row (probe_of w row row.uri)
    else row

unfoldable pub probed_rows : Worker → List Row → List Row
unfolding probed_row
probed_rows w [] = []
probed_rows w (row ∷ rows) = probed_row w row ∷ probed_rows w rows

recorded_lem : (w : Worker) (row : Row) (p : Probe) → recorded w row p ≡ noted_answer w row p
unfolding recorded noted_answer checked
recorded_lem w row (answers reachable) = refl
recorded_lem w row soft_limit = refl
recorded_lem w row crashes = refl

verify_lem : (b c : Bool) → (b && not c) ≡ (if c then false else b)
verify_lem true true = refl
verify_lem true false = refl
verify_lem false true = refl
verify_lem false false = refl

probe_at :
    (w : Worker) (row : Row) (uri : Option Text)
    → (if starts_with_slash (or_empty uri)
        then w.isfile (or_empty uri)
        else w.url_answers (or_empty uri) (w.verify_ssl && not row.skip_ssl_verify))
      ≡ probe_of w row uri
unfolding probe_of starts_with_slash
probe_at w row none = ap (w.url_answers []) (verify_lem w.verify_ssl row.skip_ssl_verify)
probe_at w row (some []) = ap (w.url_answers []) (verify_lem w.verify_ssl row.skip_ssl_verify)
probe_at w row (some (c ∷ uri)) =
    ap (λ x. if c == 47 then w.isfile (c ∷ uri) else w.url_answers (c ∷ uri) x)
      (verify_lem w.verify_ssl row.skip_ssl_verify)

probe_lem :
    (w : Worker) (row : Row)
    → row.skip_asset_check ≡ false
    → check_asset_reachability w row ≡ probe_of w row row.uri
unfolding check_asset_reachability
probe_lem w row checks = ground (arith, checks, probe_at w row row.uri)

stepped_row_lem : (w : Worker) (row : Row) → stepped_row w row ≡ probed_row w row
unfolding stepped_row probed_row is_probed
stepped_row_lem w row = elim (Bool-cases row.skip_asset_check) [
  | inl skipped ↦ ground (arith, skipped)
  | inr unskipped ↦ ground (
    arith,
    unskipped,
    probe_lem w row unskipped,
    recorded_lem w row (check_asset_reachability w row),
  )
]

stepped_rows_lem : (w : Worker) (rows : List Row) → stepped_rows w rows ≡ probed_rows w rows
unfolding stepped_rows probed_rows
stepped_rows_lem w [] = refl
stepped_rows_lem w (row ∷ rows) = rw (stepped_row_lem w row, stepped_rows_lem w rows) refl

-- In a table of distinct ids, where no probe reaches the time limit, the sweep treats each row by
-- itself: one that is enabled, not processing and not exempt gets the answer of its own probe, and
-- the time of it, unless the probe crashes; every other row stays as it is. The probe of a URI with a
-- slash in front is whether that file is there, any other probe is whether the URI answers, with its
-- certificate checked if the setting asks for it and the row does not forbid it.
pub revalidate_rows_each :
    (w : Worker) (table : List Row)
    → UniqueIds table
    → All (λ row. check_asset_reachability w row ≢ soft_limit) table
    → revalidate_rows w (where_rows is_probed table) table ≡ probed_rows w table
revalidate_rows_each w table unique timely =
    revalidate_rows_steps w table unique timely ∙ stepped_rows_lem w table
