-- ===== src/Tasks/Reconcile.antt =====
-- The sweep of stuck rows, against what it owes to each row by itself.
use mupitech_player.Prelude.{
  All, Bool-cases, List, [], ap, append_assoc, append_nil, arith, false, if◌then◌else◌, inl, inr,
  length, refl, subst, suc, sym, true, zero, ℕ, ◌++◌, ◌∙◌, ◌∷◌, ◌≡◌, ◌≢◌, ◌≤◌,
}
use mupitech_player.Models.{get_key}
use mupitech_player.Tasks.{
  Job, Row, State, Sweep, Worker, and_then, ended, going, parse_processing_started_at,
  processing_started_at, reconcile_rows, reconcile_started, where_rows,
}
use mupitech_player.Tasks.Owed.{
  Verdict, aged_verdict, due_verdict, fail, halts, jobs_after, leave, requeue, row_after, stamp,
  state_of, swept_jobs, swept_rows, verdict,
}
use mupitech_player.Tasks.Rows.{All-where_rows, UniqueIds, where_dropped, where_kept, where_none}
use mupitech_player.Tasks.Steps.{behind, outcome, over, start_of_lem, started_first, started_later}

and_then-over :
    (first : Row) (m : Sweep) (rest rest' : State → State)
    → ((s : State) → rest' (behind first s) ≡ behind first (rest s))
    → and_then (over (behind first) m) rest' ≡ behind first (and_then m rest)
unfolding and_then over
and_then-over first (going s) rest rest' h = h s
and_then-over first (ended s) rest rest' h = refl

-- The loop leaves a row alone whose id is not among those it goes over.
rows_later :
    (w : Worker) (now limit : ℕ) (first : Row) (todo : List Row) (s : State)
    → All (λ row. row.asset_id ≢ first.asset_id) todo
    → reconcile_rows w now limit todo (behind first s)
      ≡ behind first (reconcile_rows w now limit todo s)
unfolding reconcile_rows behind
rows_later w now limit first [] s h = refl
rows_later w now zero first (row ∷ todo) s h = refl
rows_later w now (suc limit) first (row ∷ todo) s (apart, h) =
    let p = parse_processing_started_at w (get_key processing_started_at row.metadata) in
    rw (started_later w now first row s.rows s.jobs p (λ e. apart (sym e))) (
      and_then-over first (reconcile_started w now row p s) _ _
        (λ t. rows_later w now limit first todo t h))

pub row_after-asset_id :
    (w : Worker) (row : Row) (v : Verdict) → (row_after w row v).asset_id ≡ row.asset_id
unfolding row_after
row_after-asset_id w row leave = refl
row_after-asset_id w row stamp = refl
row_after-asset_id w row fail = refl
row_after-asset_id w row (requeue job) = refl

pub verdict_busy :
    (w : Worker) (now : ℕ) (row : Row)
    → row.is_processing ≡ true
    → verdict w now row
      ≡ aged_verdict w now row
          (parse_processing_started_at w (get_key processing_started_at row.metadata))
unfolding verdict aged_verdict due_verdict
verdict_busy w now row busy = rw busy (
    sym (ap (aged_verdict w now row) (start_of_lem w (get_key processing_started_at row.metadata))))

pub verdict_idle :
    (w : Worker) (now : ℕ) (row : Row) → row.is_processing ≡ false → verdict w now row ≡ leave
unfolding verdict
verdict_idle w now row idle = ground (arith, idle)

reconcile_rows_first :
    (w : Worker) (now limit : ℕ) (row : Row) (todo rows : List Row) (jobs : List Job)
    → row.is_processing ≡ true
    → All (λ later. later.asset_id ≢ row.asset_id) rows
    → (let v = verdict w now row in
        reconcile_rows w now (suc limit) (row ∷ todo) (state_of (row ∷ rows) jobs)
        ≡ and_then
            (outcome w v (state_of (row_after w row v ∷ rows) (jobs ++ jobs_after w v)))
            (reconcile_rows w now limit todo))
unfolding reconcile_rows
reconcile_rows_first w now limit row todo rows jobs busy h =
    rw
      (
        verdict_busy w now row busy,
        started_first w now row rows jobs
            (parse_processing_started_at w (get_key processing_started_at row.metadata)) h,
      )
      refl

reconcile_rows_none : (w : Worker) (now limit : ℕ) (s : State) → reconcile_rows w now limit [] s ≡ s
unfolding reconcile_rows
reconcile_rows_none w now limit s = refl

-- After the first row, the rest of the table is swept or left, as the verdict has it.
first_done :
    (w : Worker) (now limit : ℕ) (row : Row) (rows : List Row) (jobs : List Job) (v : Verdict)
    → All (λ later. later.asset_id ≢ row.asset_id) rows
    → reconcile_rows w now limit
        (where_rows (λ r. r.is_processing) rows)
        (state_of rows (jobs ++ jobs_after w v))
      ≡ state_of (swept_rows w now rows) ((jobs ++ jobs_after w v) ++ swept_jobs w now rows)
    → and_then
        (outcome w v (state_of (row_after w row v ∷ rows) (jobs ++ jobs_after w v)))
        (reconcile_rows w now limit (where_rows (λ r. r.is_processing) rows))
      ≡ state_of
          (row_after w row v ∷ (if halts w v then rows else swept_rows w now rows))
          (jobs ++ (jobs_after w v ++ (if halts w v then [] else swept_jobs w now rows)))
unfolding outcome and_then behind
first_done w now limit row rows jobs v apart rest = elim (Bool-cases (halts w v)) [
  | inl halted ↦ rw halted (
      ap (λ l. state_of (row_after w row v ∷ rows) (jobs ++ l)) (sym (append_nil (jobs_after w v))))
  | inr goes_on ↦
      let busy = where_rows (λ r. r.is_processing) rows in
      let apart' =
        subst (λ id. All (λ later. later.asset_id ≢ id) rows) (sym (row_after-asset_id w row v))
          apart in
      let later =
        rows_later w now limit (row_after w row v) busy (state_of rows (jobs ++ jobs_after w v))
          (All-where_rows _ _ rows apart') in
      rw goes_on (
        later
        ∙ ap (behind (row_after w row v)) rest
        ∙ ap (state_of (row_after w row v ∷ swept_rows w now rows))
            (append_assoc jobs (jobs_after w v) (swept_jobs w now rows)))
]

idle_done :
    (w : Worker) (now limit : ℕ) (row : Row) (rows : List Row) (jobs : List Job)
    → All (λ later. later.asset_id ≢ row.asset_id) rows
    → reconcile_rows w now limit (where_rows (λ r. r.is_processing) rows) (state_of rows jobs)
      ≡ state_of (swept_rows w now rows) (jobs ++ swept_jobs w now rows)
    → reconcile_rows w now limit
        (where_rows (λ r. r.is_processing) rows)
        (state_of (row ∷ rows) jobs)
      ≡ state_of
          (row_after w row leave ∷ (if halts w leave then rows else swept_rows w now rows))
          (jobs ++ (jobs_after w leave ++ (if halts w leave then [] else swept_jobs w now rows)))
unfolding row_after halts jobs_after behind
idle_done w now limit row rows jobs apart rest =
    rows_later w now limit row (where_rows (λ r. r.is_processing) rows) (state_of rows jobs)
      (All-where_rows _ _ rows apart)
    ∙ ap (behind row) rest

-- In a table of distinct ids, where the time limit allows for every row, the sweep treats each row
-- by itself, in the order of the table: it leaves one that is not processing or that started within
-- the last hour, stamps one without a readable start, stamps a stuck image or video and queues one
-- job for it where its `.delay()` gets through, and marks any other stuck row as failed and disabled.
-- Where a `.delay()` loses the job, that row has its stamp and the sweep goes on; where one raises,
-- that row has its stamp and the rest of the table stays as it was.
pub reconcile_rows_each :
    (w : Worker) (now limit : ℕ) (rows : List Row) (jobs : List Job)
    → UniqueIds rows
    → length rows ≤ limit
    → reconcile_rows w now limit (where_rows (λ row. row.is_processing) rows) (state_of rows jobs)
      ≡ state_of (swept_rows w now rows) (jobs ++ swept_jobs w now rows)
unfolding swept_rows swept_jobs UniqueIds
reconcile_rows_each w now limit [] jobs h l =
    rw (where_none (λ r. r.is_processing), append_nil jobs) (reconcile_rows_none w now limit _)
reconcile_rows_each w now zero (row ∷ rows) jobs h l = ground arith
reconcile_rows_each w now (suc limit) (row ∷ rows) jobs (apart, h) l =
    elim (Bool-cases row.is_processing) [
      | inl busy ↦
          rw
            (
              where_kept (λ r. r.is_processing) row rows busy,
              reconcile_rows_first w now limit row (where_rows (λ r. r.is_processing) rows) rows
                  jobs busy apart,
            )
            (first_done w now limit row rows jobs (verdict w now row) apart (
              reconcile_rows_each w now limit rows (jobs ++ jobs_after w (verdict w now row)) h
                (omega (arith, l))))
      | inr idle ↦
          rw (where_dropped (λ r. r.is_processing) row rows idle, verdict_idle w now row idle)
            (idle_done w now (suc limit) row rows jobs apart
              (reconcile_rows_each w now (suc limit) rows jobs h (omega (arith, l))))
    ]
