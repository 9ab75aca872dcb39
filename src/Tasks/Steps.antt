-- ===== src/Tasks/Steps.antt =====
-- One row of the sweep: first in the table, and behind another row.
use mupitech_player.Prelude.{
  All, Bool-cases, List, Option, Text, [], append_nil, codes, if◌then◌else◌, inl, inr, ltb, none,
  refl, some, text_eq, ℕ, ◌++◌, ◌+◌, ◌∷◌, ◌≡◌, ◌≢◌,
}
use mupitech_player.Models.{Json, arr, bool, float, int, nil, null, obj, str}
use mupitech_player.Tasks.{
  IsoTime, Job, Publish, Row, State, Sweep, Worker, aware, dispatch, dropped, ended, failed, going,
  is_recent, mimetype_of, naive, normalize_image, normalize_video, of_iso, or_empty,
  parse_processing_started_at, published, queued, raises, reconcile_started,
  reconcile_stuck_threshold, redispatch, set_processing_error, stalled_message,
  stamp_processing_start, stamped, update_row, value_error,
}
use mupitech_player.Tasks.Owed.{
  Verdict, aged_verdict, due_verdict, halts, is_raise, iso_start, jobs_after, requeue, row_after,
  start_of, state_of, taken, with_error, with_stamp,
}
use mupitech_player.Tasks.Rows.{update_row_first, update_row_later}

pub start_of_lem : (w : Worker) (v : Option Json) → parse_processing_started_at w v ≡ start_of w v
unfolding parse_processing_started_at start_of iso_start of_iso
start_of_lem w none = refl
start_of_lem w (some null) = refl
start_of_lem w (some (bool b)) = refl
start_of_lem w (some (int n)) = refl
start_of_lem w (some (float x)) = refl
start_of_lem w (some (str [])) = refl
start_of_lem w (some (arr items)) = refl
start_of_lem w (some (obj fields)) = refl
start_of_lem w (some (str (c ∷ s))) = iso (w.fromisoformat (c ∷ s))
  where
    iso : (t : IsoTime) → of_iso t ≡ iso_start t
    iso (aware t) = refl
    iso naive = refl
    iso value_error = refl

-- What a verdict makes of the sweep.
unfoldable pub outcome : Worker → Verdict → State → Sweep
outcome w v s = if halts w v then ended s else going s

published_lem :
    (w : Worker) (p : Publish) (job : Job) (rows : List Row) (jobs : List Job)
    → published p job (state_of rows jobs)
      ≡ (let s = state_of rows (jobs ++ taken p job) in if is_raise p then ended s else going s)
unfolding published taken is_raise
published_lem w queued job rows jobs = refl
published_lem w dropped job rows jobs = rw (append_nil jobs) refl
published_lem w raises job rows jobs = rw (append_nil jobs) refl

stamped_first :
    (w : Worker) (row : Row) (rows : List Row)
    → All (λ later. later.asset_id ≢ row.asset_id) rows
    → update_row row.asset_id (stamped w) (row ∷ rows) ≡ with_stamp w row ∷ rows
unfolding with_stamp stamped
stamped_first w row rows h = update_row_first (stamped w) row rows h

failed_first :
    (row : Row) (rows : List Row)
    → All (λ later. later.asset_id ≢ row.asset_id) rows
    → update_row row.asset_id (failed stalled_message [] nil) (row ∷ rows) ≡ with_error row ∷ rows
unfolding with_error failed
failed_first row rows h = update_row_first (failed stalled_message [] nil) row rows h

dispatch_first :
    (w : Worker) (job : Job) (row : Row) (rows : List Row) (jobs : List Job)
    → All (λ later. later.asset_id ≢ row.asset_id) rows
    → dispatch w job row.asset_id (state_of (row ∷ rows) jobs)
      ≡ outcome w
          (requeue job)
          (state_of (with_stamp w row ∷ rows) (jobs ++ jobs_after w (requeue job)))
unfolding dispatch stamp_processing_start jobs_after outcome halts
dispatch_first w job row rows jobs h =
    rw (stamped_first w row rows h)
      (published_lem w (w.publish job) job (with_stamp w row ∷ rows) jobs)

redispatch_first :
    (w : Worker) (row : Row) (rows : List Row) (jobs : List Job)
    → All (λ later. later.asset_id ≢ row.asset_id) rows
    → redispatch w row (state_of (row ∷ rows) jobs)
      ≡ outcome w (due_verdict w row) (
          state_of
            (row_after w row (due_verdict w row) ∷ rows)
            (jobs ++ jobs_after w (due_verdict w row)))
unfolding redispatch due_verdict row_after jobs_after outcome halts set_processing_error mimetype_of
redispatch_first w row rows jobs h =
    elim (Bool-cases (text_eq (w.lower (or_empty row.mimetype)) (codes "image"))) [
      | inl image ↦ rw image (dispatch_first w (normalize_image row.asset_id) row rows jobs h)
      | inr other ↦ elim (Bool-cases (text_eq (w.lower (or_empty row.mimetype)) (codes "video"))) [
        | inl video ↦
            rw (other, video) (dispatch_first w (normalize_video row.asset_id) row rows jobs h)
        | inr unknown ↦ rw (other, unknown) (rw (failed_first row rows h, append_nil jobs) refl)
      ]
    ]

-- One step, on the row that stands first.
pub started_first :
    (w : Worker) (now : ℕ) (row : Row) (rows : List Row) (jobs : List Job) (p : Option ℕ)
    → All (λ later. later.asset_id ≢ row.asset_id) rows
    → reconcile_started w now row p (state_of (row ∷ rows) jobs)
      ≡ outcome w (aged_verdict w now row p) (
          state_of
            (row_after w row (aged_verdict w now row p) ∷ rows)
            (jobs ++ jobs_after w (aged_verdict w now row p)))
unfolding reconcile_started aged_verdict row_after jobs_after stamp_processing_start is_recent
    outcome halts
started_first w now row rows jobs none h = rw (stamped_first w row rows h, append_nil jobs) refl
started_first w now row rows jobs (some t) h =
    elim (Bool-cases (ltb now (t + reconcile_stuck_threshold))) [
      | inl recent ↦ rw (recent, append_nil jobs) refl
      | inr due ↦ rw due (redispatch_first w row rows jobs h)
    ]

-- The state with a row in front, and a sweep with its state changed.
unfoldable pub behind : Row → State → State
behind first s = state_of (first ∷ s.rows) s.jobs

unfoldable pub over : (State → State) → Sweep → Sweep
over f (going s) = going (f s)
over f (ended s) = ended (f s)

published_later :
    (first : Row) (p : Publish) (job : Job) (s : State)
    → published p job (behind first s) ≡ over (behind first) (published p job s)
unfolding published behind over
published_later first queued job s = refl
published_later first dropped job s = refl
published_later first raises job s = refl

dispatch_later :
    (w : Worker) (job : Job) (id : Text) (first : Row) (rows : List Row) (jobs : List Job)
    → first.asset_id ≢ id
    → dispatch w job id (state_of (first ∷ rows) jobs)
      ≡ over (behind first) (dispatch w job id (state_of rows jobs))
unfolding dispatch stamp_processing_start behind
dispatch_later w job id first rows jobs h =
    rw (update_row_later id (stamped w) first rows h)
      (published_later first (w.publish job) job (state_of (update_row id (stamped w) rows) jobs))

-- A step on a row that stands behind another.
redispatch_later :
    (w : Worker) (first row : Row) (rows : List Row) (jobs : List Job)
    → first.asset_id ≢ row.asset_id
    → redispatch w row (state_of (first ∷ rows) jobs)
      ≡ over (behind first) (redispatch w row (state_of rows jobs))
unfolding redispatch set_processing_error over behind
redispatch_later w first row rows jobs h =
    elim (Bool-cases (text_eq (mimetype_of w row) (codes "image"))) [
      | inl image ↦
          rw image (dispatch_later w (normalize_image row.asset_id) row.asset_id first rows jobs h)
      | inr other ↦ elim (Bool-cases (text_eq (mimetype_of w row) (codes "video"))) [
        | inl video ↦
            rw (other, video)
              (dispatch_later w (normalize_video row.asset_id) row.asset_id first rows jobs h)
        | inr unknown ↦
            rw (other, unknown)
              (rw (update_row_later row.asset_id (failed stalled_message [] nil) first rows h) refl)
      ]
    ]

pub started_later :
    (w : Worker) (now : ℕ) (first row : Row) (rows : List Row) (jobs : List Job) (p : Option ℕ)
    → first.asset_id ≢ row.asset_id
    → reconcile_started w now row p (state_of (first ∷ rows) jobs)
      ≡ over (behind first) (reconcile_started w now row p (state_of rows jobs))
unfolding reconcile_started stamp_processing_start over behind
started_later w now first row rows jobs none h =
    rw (update_row_later row.asset_id (stamped w) first rows h) refl
started_later w now first row rows jobs (some t) h = elim (Bool-cases (is_recent now t)) [
  | inl recent ↦ rw recent refl
  | inr due ↦ rw due (redispatch_later w first row rows jobs h)
]
