-- ===== src/Tasks/Calm.antt =====
-- A second sweep of the stuck rows, soon after the first.
use mupitech_player.Prelude.{
  All, Bool-cases, List, Text, [], ap, either_branch, false, if◌then◌else◌, inl, inr, length,
  lt→ltb, refl, some, subst, suc, sym, text_eq, text_eq_refl, ℕ, ◌+◌, ◌<◌, ◌∙◌, ◌∷◌, ◌≡◌, ◌≢◌, ◌≤◌,
}
use mupitech_player.Models.{Fields, Json, end, field, get_key, str}
use mupitech_player.Tasks.{
  Job, Publish, Row, Worker, aware, dropped, parse_processing_started_at, processing_started_at,
  queued, raises, reconcile_rows, reconcile_stuck_threshold, set_key, where_rows,
}
use mupitech_player.Tasks.Owed.{
  Verdict, aged_verdict, fail, halts, is_raise, jobs_after, leave, requeue, row_after, stamp,
  state_of, swept_jobs, swept_rows, verdict, with_error, with_stamp,
}
use mupitech_player.Tasks.Reconcile.{
  reconcile_rows_each, row_after-asset_id, verdict_busy, verdict_idle,
}
use mupitech_player.Tasks.Rows.{UniqueIds}

get_key-set_key : (k : Text) (v : Json) (d : Fields) → get_key k (set_key k v d) ≡ some v
unfolding get_key set_key
get_key-set_key k v end = rw (text_eq_refl k) refl
get_key-set_key k v (field j x rest) = elim (Bool-cases (text_eq j k)) [
  | inl same ↦ rw (same, same) refl
  | inr apart ↦ rw (apart, apart) (get_key-set_key k v rest)
]

-- The second worker reads the time stamps that the first one writes.
unfoldable pub Reads : Worker → Worker → Type 0
Reads w w' =
    (t : ℕ) → (c : ℕ) × (s : Text) × (w.isoformat t ≡ c ∷ s) × (w'.fromisoformat (c ∷ s) ≡ aware t)

parse_stamped :
    (w w' : Worker) (row : Row)
    → Reads w w'
    → parse_processing_started_at w' (get_key processing_started_at (with_stamp w row).metadata)
      ≡ some (w.now_for row.asset_id)
unfolding Reads with_stamp parse_processing_started_at
parse_stamped w w' row reads =
    let (c, s, e, f) = reads (w.now_for row.asset_id) in
    let got =
      get_key-set_key processing_started_at (str (w.isoformat (w.now_for row.asset_id)))
        row.metadata in
    rw (got, e, f) refl

recent :
    (w : Worker) (later : ℕ) (row : Row) (t : ℕ)
    → later < t + reconcile_stuck_threshold
    → aged_verdict w later row (some t) ≡ leave
unfolding aged_verdict
recent w later row t early = rw (lt→ltb later (t + reconcile_stuck_threshold) early) refl

stamped_left :
    (w w' : Worker) (later : ℕ) (row : Row)
    → Reads w w'
    → later < w.now_for row.asset_id + reconcile_stuck_threshold
    → verdict w' later (with_stamp w row) ≡ leave
unfolding aged_verdict
stamped_left w w' later row reads early = elim (Bool-cases (with_stamp w row).is_processing) [
  | inl busy ↦
      verdict_busy w' later (with_stamp w row) busy
      ∙ ap (aged_verdict w' later (with_stamp w row)) (parse_stamped w w' row reads)
      ∙ recent w' later (with_stamp w row) (w.now_for row.asset_id) early
  | inr idle ↦ verdict_idle w' later (with_stamp w row) idle
]

row_left :
    (w w' : Worker) (later : ℕ) (row : Row) (v : Verdict)
    → Reads w w'
    → later < w.now_for row.asset_id + reconcile_stuck_threshold
    → (v ≡ leave → row.is_processing ≡ false)
    → verdict w' later (row_after w row v) ≡ leave
unfolding row_after with_error
row_left w w' later row leave reads early idle = verdict_idle w' later row (idle refl)
row_left w w' later row stamp reads early idle = stamped_left w w' later row reads early
row_left w w' later row (requeue job) reads early idle = stamped_left w w' later row reads early
row_left w w' later row fail reads early idle = verdict_idle w' later (with_error row) refl

publish_on : (p : Publish) → p ≢ raises → is_raise p ≡ false
unfolding is_raise
publish_on queued h = refl
publish_on dropped h = refl
publish_on raises h = elim (h refl) [ ]

goes_on : (w : Worker) (v : Verdict) → ((job : Job) → w.publish job ≢ raises) → halts w v ≡ false
unfolding halts
goes_on w leave calm = refl
goes_on w stamp calm = refl
goes_on w fail calm = refl
goes_on w (requeue job) calm = publish_on (w.publish job) (calm job)

-- Every row is left.
swept_left :
    (w w' : Worker) (now later : ℕ) (rows : List Row)
    → Reads w w'
    → All (λ row. later < w.now_for row.asset_id + reconcile_stuck_threshold) rows
    → All (λ row. verdict w now row ≡ leave → row.is_processing ≡ false) rows
    → ((job : Job) → w.publish job ≢ raises)
    → (swept_rows w' later (swept_rows w now rows) ≡ swept_rows w now rows)
      × (swept_jobs w' later (swept_rows w now rows) ≡ [])
unfolding swept_rows swept_jobs row_after jobs_after halts
swept_left w w' now later [] reads early due calm = (refl, refl)
swept_left w w' now later (row ∷ rows) reads (early, earlies) (due, dues) calm =
    let here = row_left w w' later row (verdict w now row) reads early due in
    let (e, f) = swept_left w w' now later rows reads earlies dues calm in
    let on = goes_on w (verdict w now row) calm in
    (rw on (rw (here, e) refl), rw on (rw (here, f) refl))

apart_after :
    (w : Worker) (now : ℕ) (id : Text) (rows : List Row)
    → All (λ row. row.asset_id ≢ id) rows
    → All (λ row. row.asset_id ≢ id) (swept_rows w now rows)
unfolding swept_rows
apart_after w now id [] h = tt
apart_after w now id (row ∷ rows) (apart, h) = (
  subst (λ x. x ≢ id) (sym (row_after-asset_id w row (verdict w now row))) apart,
  either_branch (All (λ r. r.asset_id ≢ id)) (halts w (verdict w now row)) h
      (apart_after w now id rows h),
)

swept_rows-UniqueIds :
    (w : Worker) (now : ℕ) (rows : List Row) → UniqueIds rows → UniqueIds (swept_rows w now rows)
unfolding UniqueIds swept_rows
swept_rows-UniqueIds w now [] h = tt
swept_rows-UniqueIds w now (row ∷ rows) (apart, h) = (
  subst
      (λ id.
        All (λ later. later.asset_id ≢ id)
          (if halts w (verdict w now row) then rows else swept_rows w now rows))
      (sym (row_after-asset_id w row (verdict w now row)))
      (either_branch (All (λ r. r.asset_id ≢ row.asset_id)) (halts w (verdict w now row)) apart
        (apart_after w now row.asset_id rows apart)),
  either_branch UniqueIds (halts w (verdict w now row)) h (swept_rows-UniqueIds w now rows h),
)

length-swept_rows :
    (w : Worker) (now : ℕ) (rows : List Row) → length (swept_rows w now rows) ≡ length rows
unfolding swept_rows
length-swept_rows w now [] = refl
length-swept_rows w now (row ∷ rows) = ap suc (
    either_branch (λ (rest : List Row). length rest ≡ length rows) (halts w (verdict w now row))
      refl (length-swept_rows w now rows))

-- Where no row is in its grace period (each one that the first sweep leaves is not processing), and
-- no `.delay()` of the first sweep raises (it may lose its job), a second sweep that starts within an hour of each stamp the first one wrote, by a worker that reads
-- those stamps, changes no row and queues no job.
pub reconcile_rows_again :
    (w w' : Worker) (now later limit : ℕ) (rows : List Row)
    → Reads w w'
    → UniqueIds rows
    → length rows ≤ limit
    → All (λ row. later < w.now_for row.asset_id + reconcile_stuck_threshold) rows
    → All (λ row. verdict w now row ≡ leave → row.is_processing ≡ false) rows
    → ((job : Job) → w.publish job ≢ raises)
    → (let busy = where_rows (λ row. row.is_processing) in
        let first = reconcile_rows w now limit (busy rows) (state_of rows []) in
        reconcile_rows w' later limit (busy first.rows) (state_of first.rows [])
        ≡ state_of first.rows [])
reconcile_rows_again w w' now later limit rows reads unique room early due calm =
    let once = reconcile_rows_each w now limit rows [] unique room in
    let (e, f) = swept_left w w' now later rows reads early due calm in
    let twice =
      reconcile_rows_each w' later limit (swept_rows w now rows) []
        (swept_rows-UniqueIds w now rows unique)
        (subst (λ n. n ≤ limit) (sym (length-swept_rows w now rows)) room) in
    rw once (rw twice (rw (e, f) refl))
