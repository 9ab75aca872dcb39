-- ===== src/Tasks/Examples.antt =====
-- A table with a stuck image, a stuck row of an unknown type and an idle web page.
use mupitech_player.Prelude.{
  All, Bool-cases, List, Option, Option-cases, Text, [], arith, codes, false, if◌then◌else◌, inl,
  inr, ltb, lt→ltb, none, refl, some, subst, text_eq, text_eq_refl, text_eq_unequal, true, ℕ, ◌++◌,
  ◌+◌, ◌<◌, ◌∷◌, ◌≡◌, ◌≢◌, ◌≤◌,
}
use mupitech_player.Models.{Fields, end, field, get_key, str}
use mupitech_player.Tasks.{
  IsoTime, Redis, Row, Worker, answers, asset_recheck_lock_key, aware, check_asset_reachability,
  checked, find_row, is_probed, normalize_image, processing_started_at, queued, raises,
  reconcile_lock_key, reconcile_rows, reconcile_started, reconcile_stuck_processing, release,
  revalidate_asset_url, revalidate_rows, soft_limit, value_error, where_rows,
}
use mupitech_player.Tasks.Calm.{Reads, reconcile_rows_again}
use mupitech_player.Tasks.Locks.{
  IsRedis, reconcile_stuck_processing_alone, revalidate_asset_url_cooldown,
}
use mupitech_player.Tasks.Owed.{
  aged_verdict, due_verdict, fail, leave, requeue, start_of, state_of, swept_jobs, swept_rows,
  taken, verdict,
}
use mupitech_player.Tasks.Reach.{probed_rows, revalidate_rows_each}
use mupitech_player.Tasks.Reconcile.{reconcile_rows_each}
use mupitech_player.Tasks.Rows.{UniqueIds}

read_time : Text → IsoTime
read_time (c ∷ t ∷ []) = aware t
read_time _ = value_error

abbrev sweep_time : ℕ
sweep_time = 10_000_000_000

-- A clock that writes an instant as one code point after a mark.
abbrev worker : Worker
worker = record {
  fromisoformat = read_time;
  isoformat = λ t. 84 ∷ t ∷ [];
  lower = λ s. s;
  now_for = λ id. sweep_time;
  verify_ssl = true;
  isfile = λ uri. answers true;
  url_answers = λ uri verify. answers verify;
  publish = λ job. queued;
}

abbrev started : ℕ → Fields
started t = field processing_started_at (str (84 ∷ t ∷ [])) end

abbrev stuck_image : Row
stuck_image = record {
  asset_id = codes "a";
  uri = some (codes "/data/a.png");
  mimetype = some (codes "image");
  is_enabled = true;
  is_processing = true;
  skip_asset_check = false;
  skip_ssl_verify = false;
  is_reachable = true;
  last_reachability_check = none;
  metadata = started 1_000_000;
}

abbrev stuck_feed : Row
stuck_feed = record stuck_image { asset_id = codes "b"; mimetype = none }

abbrev idle_page : Row
idle_page = record stuck_image {
  asset_id = codes "c";
  uri = some (codes "https://pi");
  mimetype = some (codes "webpage");
  is_processing = false;
  skip_ssl_verify = true;
}

-- A Redis as the list of its keys, each with its value and the second it expires at.
abbrev Slot : Type 0
Slot = Text × (Text × ℕ)

store_get : Text → ℕ → List Slot → Option Text
store_get k now [] = none
store_get k now ((j, (v, expires)) ∷ rest) =
    if text_eq j k then (if ltb now expires then some v else none) else store_get k now rest

store_del : Text → List Slot → List Slot
store_del k [] = []
store_del k ((j, v) ∷ rest) = if text_eq j k then store_del k rest else (j, v) ∷ store_del k rest

store_set : Text → Text → ℕ → ℕ → List Slot → Option (List Slot)
unfolding store_get store_del
store_set k token ttl now db = elim (store_get k now db) [
  | none ↦ some ((k, (token, now + ttl)) ∷ store_del k db)
  | some holder ↦ none
]

abbrev store : Redis
store = record { Db = List Slot; get = store_get; set_nx = store_set; del = store_del }

store_get_del : (k : Text) (now : ℕ) (db : List Slot) → store_get k now (store_del k db) ≡ none
unfolding store_get store_del
store_get_del k now [] = refl
store_get_del k now ((j, v) ∷ db) = elim (Bool-cases (text_eq j k)) [
  | inl same ↦ rw same (store_get_del k now db)
  | inr apart ↦ rw (apart, apart) (store_get_del k now db)
]

store_get_own :
    (k token : Text) (expires now : ℕ) (db : List Slot)
    → now < expires
    → store_get k now ((k, (token, expires)) ∷ db) ≡ some token
unfolding store_get
store_get_own k token expires now db early = rw (text_eq_refl k, lt→ltb now expires early) refl

store_keeps :
    (k token : Text) (ttl now later : ℕ) (db db' : List Slot)
    → store_set k token ttl now db ≡ some db'
    → now ≤ later
    → later < now + ttl
    → store_get k later db' ≡ some token
unfolding store_set
store_keeps k token ttl now later db db' h after early = elim (Option-cases (store_get k now db)) [
  | inl free ↦
      let e : ((k, (token, now + ttl)) ∷ store_del k db) ≡ db' = ground (arith, free, h) in
      subst (λ x. store_get k later x ≡ some token) e
        (store_get_own k token (now + ttl) later (store_del k db) early)
  | inr (holder, taken) ↦ ground (arith, taken, h)
]

store_refuses :
    (k token holder : Text) (ttl now : ℕ) (db : List Slot)
    → store_get k now db ≡ some holder
    → store_set k token ttl now db ≡ none
unfolding store_set
store_refuses k token holder ttl now db h = ground (arith, h)

store-IsRedis : IsRedis store
unfolding IsRedis
store-IsRedis = (store_refuses, store_keeps, store_get_del)

abbrev table : List Row
table = stuck_image ∷ stuck_feed ∷ idle_page ∷ []

table_distinct : UniqueIds table
unfolding UniqueIds text_eq
table_distinct = (
  (text_eq_unequal _ _ refl, (text_eq_unequal _ _ refl, tt)),
  ((text_eq_unequal _ _ refl, tt), (tt, tt)),
)

abbrev busy_rows : List Row → List Row
busy_rows = where_rows (λ row. row.is_processing)

one_job :
    (reconcile_rows worker sweep_time 3 (busy_rows table) (state_of table [])).jobs
    ≡ normalize_image (codes "a") ∷ []
unfolding reconcile_rows where_rows text_eq read_time reconcile_started
one_job = refl

-- A worker whose broker is down.
abbrev cut_off : Worker
cut_off = record worker { publish = λ job. raises }

-- The stuck image is stamped, nothing is queued, and the stuck feed behind it stays as it was.
cut_off_sweep :
    reconcile_rows cut_off sweep_time 3 (busy_rows table) (state_of table [])
    ≡ state_of
        (record stuck_image { metadata = started sweep_time } ∷ stuck_feed ∷ idle_page ∷ [])
        []
unfolding reconcile_rows where_rows text_eq read_time reconcile_started
cut_off_sweep = refl

reconcile_rows_each_example :
    reconcile_rows cut_off sweep_time 3 (busy_rows table) (state_of table [])
    ≡ state_of (swept_rows cut_off sweep_time table) ([] ++ swept_jobs cut_off sweep_time table)
reconcile_rows_each_example =
    reconcile_rows_each cut_off sweep_time 3 table [] table_distinct (omega arith)

worker-Reads : Reads worker worker
unfolding Reads read_time
worker-Reads t = (84, t ∷ [], refl, refl)

image_due : verdict worker sweep_time stuck_image ≡ requeue (normalize_image (codes "a"))
unfolding verdict aged_verdict due_verdict get_key start_of read_time text_eq
image_due = refl

feed_due : verdict worker sweep_time stuck_feed ≡ fail
unfolding verdict aged_verdict due_verdict get_key start_of read_time text_eq
feed_due = refl

table_is_due : All (λ row. verdict worker sweep_time row ≡ leave → row.is_processing ≡ false) table
table_is_due = ((λ h. cc (h, image_due)), ((λ h. cc (h, feed_due)), ((λ h. refl), tt)))

reconcile_rows_again_example :
    (let first = reconcile_rows worker sweep_time 3 (busy_rows table) (state_of table []) in
      reconcile_rows worker 10_600_000_000 3 (busy_rows first.rows) (state_of first.rows [])
      ≡ state_of first.rows [])
reconcile_rows_again_example =
    reconcile_rows_again worker worker sweep_time 10_600_000_000 3 table worker-Reads table_distinct
      (omega arith) (omega arith, (omega arith, (omega arith, tt))) table_is_due (λ job. cc)

abbrev locked : List Slot
locked = (reconcile_lock_key, (codes "one", 400)) ∷ []

one_two : text_eq (codes "one") (codes "two") ≡ false
unfolding text_eq
one_two = refl

reconcile_stuck_processing_alone_example :
    (reconcile_stuck_processing store worker
        (codes "two")
        sweep_time
        3
        200
        300
        (state_of table [])
        locked
      ≡ (state_of table [], locked))
    × (release store reconcile_lock_key (codes "two") 200 locked ≡ locked)
    × (store.get reconcile_lock_key 200 (release store reconcile_lock_key (codes "one") 200 locked)
        ≡ none)
unfolding store_set
reconcile_stuck_processing_alone_example =
    reconcile_stuck_processing_alone store worker (codes "one") (codes "two") 100 200 sweep_time 3
      300 (state_of table []) [] locked store-IsRedis refl (omega arith) (omega arith)
      (text_eq_unequal _ _ one_two)

revalidate_asset_url_cooldown_example :
    (let after = (revalidate_asset_url store worker (codes "c") 7 table []).1 in
      revalidate_asset_url store worker (codes "c") 60 [] after ≡ ([], after))
unfolding find_row text_eq is_probed store_set
revalidate_asset_url_cooldown_example =
    revalidate_asset_url_cooldown store worker worker (codes "c") 7 60 table [] []
      ((asset_recheck_lock_key (codes "c"), (codes "1", 67)) ∷ []) idle_page store-IsRedis refl refl
      refl refl (omega arith) (omega arith)

table_timely : All (λ row. check_asset_reachability worker row ≢ soft_limit) table
unfolding check_asset_reachability
table_timely = (cc, (cc, (cc, tt)))

revalidate_rows_each_example :
    revalidate_rows worker (where_rows is_probed table) table ≡ probed_rows worker table
revalidate_rows_each_example = revalidate_rows_each worker table table_distinct table_timely

page_unreachable : probed_rows worker (idle_page ∷ []) ≡ checked worker false idle_page ∷ []
unfolding probed_rows checked
page_unreachable = refl
