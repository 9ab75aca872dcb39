-- ===== src/Tasks.antt =====
-- src/anthias_server/celery_tasks.py and src/anthias_server/processing.py: the sweep of rows that
-- are stuck in processing, the checks whether an asset's URI answers, and the Redis locks that both
-- take. The table and the queue of jobs are values; `Worker` and `Redis` are parameters.
pub mod Rows
pub mod Owed
pub mod Steps
pub mod Reconcile
pub mod Locks
pub mod Reach
pub mod Calm
pub mod Examples
use mupitech_player.Prelude.{
  Bool, List, Option, Text, [], codes, false, if◌then◌else◌, ltb, none, not, some, suc, text_eq,
  true, zero, ℕ, ◌&&◌, ◌++◌, ◌+◌, ◌==◌, ◌||◌, ◌∷◌,
}
use mupitech_player.Models.{Fields, Items, Json, arr, cons, end, field, get_key, nil, str}

-- The columns of the row `Asset` that these tasks read or write.
pub record Row : Type 0 where
  pub asset_id : Text
  pub uri : Option Text
  pub mimetype : Option Text
  pub is_enabled : Bool
  pub is_processing : Bool
  pub skip_asset_check : Bool
  pub skip_ssl_verify : Bool
  pub is_reachable : Bool
  pub last_reachability_check : Option ℕ
  -- the JSON object `metadata`; NULL reads as the empty one
  pub metadata : Fields

-- What `datetime.fromisoformat` makes of a string, in microseconds.
pub data IsoTime : Type 0 where
  aware : ℕ → IsoTime
  naive value_error : IsoTime

-- The answer of a probe: whether it fails, or how it is cut short.
pub data Probe : Type 0 where
  answers : Bool → Probe
  soft_limit crashes : Probe

-- What `.delay()` does with a job: the broker takes it, loses it, or an exception comes back, the
-- soft time limit among them.
pub data Publish : Type 0 where
  queued dropped raises : Publish

pub data Job : Type 0 where
  normalize_image normalize_video : Text → Job

-- The libraries, the settings, the clock as each row is written, and the network.
pub record Worker : Type 0 where
  pub fromisoformat : Text → IsoTime
  pub isoformat : ℕ → Text
  pub lower : Text → Text
  pub now_for : Text → ℕ
  pub verify_ssl : Bool
  pub isfile : Text → Probe
  -- `not url_fails(uri, verify_ssl=...)`
  pub url_answers : Text → Bool → Probe
  pub publish : Job → Publish

-- Redis at given seconds: `get`, `set` with `nx=True` and `ex`, `none` where it sets nothing, and `del`.
pub record Redis : Type 1 where
  pub Db : Type 0
  pub get : Text → ℕ → Db → Option Text
  pub set_nx : Text → Text → ℕ → ℕ → Db → Option Db
  pub del : Text → Db → Db

pub record State : Type 0 where
  pub rows : List Row
  pub jobs : List Job

-- Whether the loop over the stuck rows goes on: an exception ends it, after what was done so far. The
-- task swallows the soft time limit and passes on any other; its lock is released either way.
pub data Sweep : Type 0 where
  going ended : State → Sweep

pub and_then : Sweep → (State → State) → State
and_then (going s) rest = rest s
and_then (ended s) rest = s

abbrev pub processing_started_at : Text
processing_started_at = codes "processing_started_at"

abbrev pub reconcile_stuck_threshold : ℕ
reconcile_stuck_threshold = 3_600_000_000

abbrev pub stalled_message : Text
stalled_message =
    codes
      "Processing stalled past threshold; flag cleared by reconciler. Re-upload the asset to retry."

-- `metadata[key] = value` and `metadata.pop(key, None)`.
pub set_key : Text → Json → Fields → Fields
set_key k v end = field k v end
set_key k v (field j w rest) = if text_eq j k then field j v rest else field j w (set_key k v rest)

pub pop_key : Text → Fields → Fields
pop_key k end = end
pop_key k (field j v rest) = if text_eq j k then rest else field j v (pop_key k rest)

-- `Asset.objects.filter(asset_id=...).update(...)`
pub update_row : Text → (Row → Row) → List Row → List Row
update_row id f [] = []
update_row id f (row ∷ rows) =
    (if text_eq row.asset_id id then f row else row) ∷ update_row id f rows

-- `_parse_processing_started_at`
of_iso : IsoTime → Option ℕ
of_iso (aware t) = some t
of_iso naive = none
of_iso value_error = none

pub parse_processing_started_at : Worker → Option Json → Option ℕ
unfolding of_iso
parse_processing_started_at w (some (str (c ∷ s))) = of_iso (w.fromisoformat (c ∷ s))
parse_processing_started_at w _ = none

-- `stamp_processing_start`
pub stamped : Worker → Row → Row
unfolding set_key
stamped w row = record row {
  metadata =
      set_key processing_started_at (str (w.isoformat (w.now_for row.asset_id))) row.metadata;
}

pub stamp_processing_start : Worker → Text → List Row → List Row
unfolding update_row stamped
stamp_processing_start w id rows = update_row id (stamped w) rows

published : Publish → Job → State → Sweep
published queued job s = going (record s { jobs = s.jobs ++ job ∷ [] })
published dropped job s = going s
published raises job s = ended s

-- `dispatch_normalize_image` and `dispatch_normalize_video`: the start is stamped before the job is
-- queued, and stays where `.delay()` fails.
pub dispatch : Worker → Job → Text → State → Sweep
unfolding stamp_processing_start published
dispatch w job id s =
    published (w.publish job) job (record s { rows = stamp_processing_start w id s.rows })

set_or_pop_text : Text → Text → Fields → Fields
unfolding set_key pop_key
set_or_pop_text k [] d = pop_key k d
set_or_pop_text k (c ∷ s) d = set_key k (str (c ∷ s)) d

set_or_pop_list : Text → Items → Fields → Fields
unfolding set_key pop_key
set_or_pop_list k nil d = pop_key k d
set_or_pop_list k (cons v vs) d = set_key k (arr (cons v vs)) d

-- `_set_processing_error`
pub failed : Text → Text → Items → Row → Row
unfolding set_or_pop_text set_or_pop_list
failed message recipe handbrake row = record row {
  is_processing = false;
  is_enabled = false;
  metadata = set_or_pop_list (codes "error_handbrake") handbrake (
      set_or_pop_text (codes "error_recipe") recipe
        (set_key (codes "error_message") (str message) row.metadata));
}

pub set_processing_error : Text → Text → Text → Items → List Row → List Row
unfolding update_row failed
set_processing_error id message recipe handbrake rows =
    update_row id (failed message recipe handbrake) rows

-- `x or ''`
abbrev pub or_empty : Option Text → Text
or_empty none = []
or_empty (some s) = s

-- `(asset.mimetype or '').lower()`
pub mimetype_of : Worker → Row → Text
mimetype_of w row = w.lower (or_empty row.mimetype)

redispatch : Worker → Row → State → Sweep
unfolding dispatch set_processing_error mimetype_of
redispatch w row s =
    if text_eq (mimetype_of w row) (codes "image")
    then dispatch w (normalize_image row.asset_id) row.asset_id s
    else if text_eq (mimetype_of w row) (codes "video")
    then dispatch w (normalize_video row.asset_id) row.asset_id s
    else going (record s { rows = set_processing_error row.asset_id stalled_message [] nil s.rows })

-- `started_at > cutoff`, where the cutoff is the threshold before `now`.
pub is_recent : ℕ → ℕ → Bool
is_recent now started = ltb now (started + reconcile_stuck_threshold)

pub reconcile_started : Worker → ℕ → Row → Option ℕ → State → Sweep
unfolding stamp_processing_start is_recent redispatch
reconcile_started w now row none s =
    going (record s { rows = stamp_processing_start w row.asset_id s.rows })
reconcile_started w now row (some started) s =
    if is_recent now started then going s else redispatch w row s

-- The loop of `reconcile_stuck_processing` over the rows that are processing; it stops after `limit`
-- rows, where the soft time limit strikes, and where a row raises.
pub reconcile_rows : Worker → ℕ → ℕ → List Row → State → State
unfolding reconcile_started parse_processing_started_at get_key and_then
reconcile_rows w now limit [] s = s
reconcile_rows w now zero (row ∷ rows) s = s
reconcile_rows w now (suc limit) (row ∷ rows) s =
    and_then
      (reconcile_started w now row
        (parse_processing_started_at w (get_key processing_started_at row.metadata)) s)
      (reconcile_rows w now limit rows)

-- `_LOCK_RELEASE_LUA`
pub release : (redis : Redis) → Text → Text → ℕ → redis.Db → redis.Db
release redis k token now db = elim (redis.get k now db) [
  | none ↦ db
  | some holder ↦ if text_eq holder token then redis.del k db else db
]

abbrev pub reconcile_lock_key : Text
reconcile_lock_key = codes "celery:reconcile_stuck_processing:lock"

abbrev pub reconcile_time_limit : ℕ
reconcile_time_limit = 300

-- The rows of a query.
pub where_rows : (Row → Bool) → List Row → List Row
where_rows p [] = []
where_rows p (row ∷ rows) = if p row then row ∷ where_rows p rows else where_rows p rows

-- `reconcile_stuck_processing`, from second `from` to second `until`.
pub reconcile_stuck_processing :
    (redis : Redis) → Worker → Text → ℕ → ℕ → ℕ → ℕ → State → redis.Db → State × redis.Db
unfolding reconcile_rows release where_rows
reconcile_stuck_processing redis w token now limit from until s locks =
    elim (redis.set_nx reconcile_lock_key token reconcile_time_limit from locks) [
      | none ↦ (s, locks)
      | some mine ↦ (
        reconcile_rows w now limit (where_rows (λ row. row.is_processing) s.rows) s,
        release redis reconcile_lock_key token until mine,
      )
    ]

starts_with_slash : Text → Bool
starts_with_slash [] = false
starts_with_slash (c ∷ s) = c == 47

-- `_check_asset_reachability`
pub check_asset_reachability : Worker → Row → Probe
unfolding starts_with_slash
check_asset_reachability w row =
    if row.skip_asset_check
    then answers true
    else if starts_with_slash (or_empty row.uri)
    then w.isfile (or_empty row.uri)
    else w.url_answers (or_empty row.uri) (w.verify_ssl && not row.skip_ssl_verify)

-- The update of `is_reachable` and `last_reachability_check`.
pub checked : Worker → Bool → Row → Row
checked w reachable row = record row {
  is_reachable = reachable;
  last_reachability_check = some (w.now_for row.asset_id);
}

-- The loop of `revalidate_asset_urls`, which the soft time limit ends.
pub revalidate_rows : Worker → List Row → List Row → List Row
unfolding check_asset_reachability checked update_row
revalidate_rows w [] table = table
revalidate_rows w (row ∷ rows) table =
    if row.skip_asset_check
    then revalidate_rows w rows table
    else elim (check_asset_reachability w row) [
      | soft_limit ↦ table
      | crashes ↦ revalidate_rows w rows table
      | answers reachable ↦
          revalidate_rows w rows (update_row row.asset_id (checked w reachable) table)
    ]

abbrev pub revalidation_lock_key : Text
revalidation_lock_key = codes "celery:revalidate_asset_urls:lock"

abbrev pub revalidation_time_limit : ℕ
revalidation_time_limit = 1800

-- `Asset.objects.filter(is_enabled=True, is_processing=False)`
pub is_probed : Row → Bool
is_probed row = row.is_enabled && not row.is_processing

pub revalidate_asset_urls :
    (redis : Redis) → Worker → Text → ℕ → ℕ → List Row → redis.Db → List Row × redis.Db
unfolding revalidate_rows release where_rows is_probed
revalidate_asset_urls redis w token from until table locks =
    elim (redis.set_nx revalidation_lock_key token revalidation_time_limit from locks) [
      | none ↦ (table, locks)
      | some mine ↦ (
        revalidate_rows w (where_rows is_probed table) table,
        release redis revalidation_lock_key token until mine,
      )
    ]

abbrev pub recheck_cooldown : ℕ
recheck_cooldown = 60

-- `asset_recheck_lock_key`
pub asset_recheck_lock_key : Text → Text
asset_recheck_lock_key id = codes "recheck:" ++ (id ++ codes ":lock")

-- `Asset.objects.get(asset_id=...)`
pub find_row : Text → List Row → Option Row
find_row id [] = none
find_row id (row ∷ rows) = if text_eq row.asset_id id then some row else find_row id rows

-- What `revalidate_asset_url` writes after the probe of the row.
record_probe : Worker → Text → Probe → List Row → List Row
unfolding checked update_row
record_probe w id (answers reachable) table = update_row id (checked w reachable) table
record_probe w id soft_limit table = update_row id (checked w false) table
record_probe w id crashes table = table

recheck :
    (redis : Redis) → Worker → Text → ℕ → Option Row → List Row → redis.Db → List Row × redis.Db
unfolding record_probe check_asset_reachability asset_recheck_lock_key is_probed
recheck redis w id now none table locks = (table, locks)
recheck redis w id now (some row) table locks =
    if not (is_probed row) || row.skip_asset_check
    then (table, locks)
    else elim (redis.set_nx (asset_recheck_lock_key id) (codes "1") recheck_cooldown now locks) [
      | none ↦ (table, locks)
      | some mine ↦ (record_probe w id (check_asset_reachability w row) table, mine)
    ]

-- `revalidate_asset_url`
pub revalidate_asset_url :
    (redis : Redis) → Worker → Text → ℕ → List Row → redis.Db → List Row × redis.Db
unfolding recheck find_row
revalidate_asset_url redis w id now table locks =
    recheck redis w id now (find_row id table) table locks
