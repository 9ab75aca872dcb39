-- ===== src/Tasks/Owed.antt =====
-- What the sweep of stuck rows owes to each row, written out apart from the code of the sweep.
use mupitech_player.Prelude.{
  Bool, List, Option, [], codes, false, if◌then◌else◌, ltb, none, some, text_eq, true, ℕ, ◌++◌, ◌+◌,
  ◌∷◌,
}
use mupitech_player.Models.{Json, get_key, str}
use mupitech_player.Tasks.{
  IsoTime, Job, Publish, Row, State, Worker, aware, dropped, naive, normalize_image,
  normalize_video, or_empty, pop_key, queued, raises, set_key, value_error,
}

pub data Verdict : Type 0 where
  leave stamp fail : Verdict
  requeue : Job → Verdict

unfoldable pub due_verdict : Worker → Row → Verdict
due_verdict w row =
    if text_eq (w.lower (or_empty row.mimetype)) (codes "image")
    then requeue (normalize_image row.asset_id)
    else if text_eq (w.lower (or_empty row.mimetype)) (codes "video")
    then requeue (normalize_video row.asset_id)
    else fail

-- The start of a row: an ISO time with a zone, in a nonempty string.
unfoldable pub iso_start : IsoTime → Option ℕ
iso_start (aware t) = some t
iso_start naive = none
iso_start value_error = none

unfoldable pub start_of : Worker → Option Json → Option ℕ
unfolding iso_start
start_of w (some (str (c ∷ s))) = iso_start (w.fromisoformat (c ∷ s))
start_of w _ = none

-- The grace period is an hour, in microseconds.
unfoldable pub aged_verdict : Worker → ℕ → Row → Option ℕ → Verdict
aged_verdict w now row none = stamp
aged_verdict w now row (some started) =
    if ltb now (started + 3_600_000_000) then leave else due_verdict w row

-- What the sweep owes to a row: nothing to one that is not processing or that started within the
-- threshold, a stamp to one without a start, a new job to a stuck image or video, and an error to
-- any other stuck row.
unfoldable pub verdict : Worker → ℕ → Row → Verdict
verdict w now row =
    if row.is_processing
    then aged_verdict w now row (start_of w (get_key (codes "processing_started_at") row.metadata))
    else leave

unfoldable pub with_stamp : Worker → Row → Row
with_stamp w row = record row {
  metadata =
      set_key (codes "processing_started_at") (str (w.isoformat (w.now_for row.asset_id)))
        row.metadata;
}

unfoldable pub with_error : Row → Row
with_error row = record row {
  is_processing = false;
  is_enabled = false;
  metadata = pop_key (codes "error_handbrake") (
      pop_key (codes "error_recipe") (
        set_key (codes "error_message")
          (str (
            codes
              "Processing stalled past threshold; flag cleared by reconciler. Re-upload the asset to retry."))
          row.metadata));
}

unfoldable pub row_after : Worker → Row → Verdict → Row
unfolding with_stamp with_error
row_after w row leave = row
row_after w row stamp = with_stamp w row
row_after w row (requeue job) = with_stamp w row
row_after w row fail = with_error row

-- A job is queued where its `.delay()` gets through, and the sweep halts where that raises.
unfoldable pub taken : Publish → Job → List Job
taken queued job = job ∷ []
taken dropped job = []
taken raises job = []

unfoldable pub is_raise : Publish → Bool
is_raise queued = false
is_raise dropped = false
is_raise raises = true

unfoldable pub jobs_after : Worker → Verdict → List Job
unfolding taken
jobs_after w leave = []
jobs_after w stamp = []
jobs_after w fail = []
jobs_after w (requeue job) = taken (w.publish job) job

unfoldable pub halts : Worker → Verdict → Bool
unfolding is_raise
halts w leave = false
halts w stamp = false
halts w fail = false
halts w (requeue job) = is_raise (w.publish job)

-- The table and the queue after the sweep.
unfoldable pub swept_rows : Worker → ℕ → List Row → List Row
swept_rows w now [] = []
swept_rows w now (row ∷ rows) =
    let rest = swept_rows w now rows in
    row_after w row (verdict w now row) ∷ (if halts w (verdict w now row) then rows else rest)

unfoldable pub swept_jobs : Worker → ℕ → List Row → List Job
swept_jobs w now [] = []
swept_jobs w now (row ∷ rows) =
    let rest = swept_jobs w now rows in
    jobs_after w (verdict w now row) ++ (if halts w (verdict w now row) then [] else rest)

abbrev pub state_of : List Row → List Job → State
state_of rows jobs = record { rows = rows; jobs = jobs }
