-- ===== src/Tasks/Locks.antt =====
-- The locks of the tasks: one sweep at a time, and no release of another's lock.
use mupitech_player.Prelude.{
  List, Option, Text, arith, codes, false, none, refl, some, subst, sym, text_eq_apart,
  text_eq_refl, true, ℕ, ◌+◌, ◌<◌, ◌≡◌, ◌≢◌, ◌≤◌,
}
use mupitech_player.Tasks.{
  Redis, Row, State, Worker, asset_recheck_lock_key, find_row, is_probed, recheck, recheck_cooldown,
  reconcile_lock_key, reconcile_stuck_processing, reconcile_time_limit, release,
  revalidate_asset_url,
}
use mupitech_player.Tasks.Owed.{taken}

-- What the tasks rely on: `set` with `nx` sets nothing where the key has a value, what it sets stays
-- until it expires, and a key is without a value once it is deleted.
unfoldable pub IsRedis : Redis → Type 0
IsRedis redis =
    ((k token holder : Text) (ttl now : ℕ) (db : redis.Db)
      → redis.get k now db ≡ some holder
      → redis.set_nx k token ttl now db ≡ none)
    × ((k token : Text) (ttl now later : ℕ) (db db' : redis.Db)
        → redis.set_nx k token ttl now db ≡ some db'
        → now ≤ later
        → later < now + ttl
        → redis.get k later db' ≡ some token)
    × ((k : Text) (now : ℕ) (db : redis.Db) → redis.get k now (redis.del k db) ≡ none)

release_foreign :
    (redis : Redis) (k token holder : Text) (now : ℕ) (db : redis.Db)
    → redis.get k now db ≡ some holder
    → holder ≢ token
    → release redis k token now db ≡ db
unfolding release
release_foreign redis k token holder now db h apart =
    ground (arith, h, text_eq_apart holder token apart)

release_own :
    (redis : Redis) (k token : Text) (now : ℕ) (db : redis.Db)
    → redis.get k now db ≡ some token
    → release redis k token now db ≡ redis.del k db
unfolding release
release_own redis k token now db h = ground (arith, h, text_eq_refl token)

-- With a Redis that keeps a key until it expires: after a sweep took the lock of the stuck rows, and
-- until it expires, another sweep changes neither the rows and the queue nor the locks, a release
-- with another token keeps the lock, and a release with the sweep's own token frees it.
pub reconcile_stuck_processing_alone :
    (redis : Redis) (w : Worker) (token token' : Text) (from later now limit until : ℕ) (s : State)
    (locks mine : redis.Db)
    → IsRedis redis
    → redis.set_nx reconcile_lock_key token reconcile_time_limit from locks ≡ some mine
    → from ≤ later
    → later < from + reconcile_time_limit
    → token ≢ token'
    → (reconcile_stuck_processing redis w token' now limit later until s mine ≡ (s, mine))
      × (release redis reconcile_lock_key token' later mine ≡ mine)
      × (redis.get reconcile_lock_key later (release redis reconcile_lock_key token later mine)
          ≡ none)
unfolding reconcile_stuck_processing IsRedis
reconcile_stuck_processing_alone redis w token token' from later now limit until s locks mine
      (nx, kept, deleted) taken after early apart =
    let holds =
      kept reconcile_lock_key token reconcile_time_limit from later locks mine taken after early in
    let blocked = nx reconcile_lock_key token' token reconcile_time_limit later mine holds in
    (
      ground (arith, blocked),
      release_foreign redis reconcile_lock_key token' token later mine holds apart,
      subst (λ x. redis.get reconcile_lock_key later x ≡ none)
          (sym (release_own redis reconcile_lock_key token later mine holds))
          (deleted reconcile_lock_key later mine),
    )

recheck_blocked :
    (redis : Redis) (w : Worker) (id : Text) (now : ℕ) (found : Option Row) (table : List Row)
    (locks : redis.Db)
    → redis.set_nx (asset_recheck_lock_key id) (codes "1") recheck_cooldown now locks ≡ none
    → recheck redis w id now found table locks ≡ (table, locks)
unfolding recheck
recheck_blocked redis w id now none table locks h = refl
recheck_blocked redis w id now (some row) table locks h = ground (arith, h)

recheck_locks :
    (redis : Redis) (w : Worker) (id : Text) (now : ℕ) (row : Row) (table : List Row)
    (locks mine : redis.Db)
    → is_probed row ≡ true
    → row.skip_asset_check ≡ false
    → redis.set_nx (asset_recheck_lock_key id) (codes "1") recheck_cooldown now locks ≡ some mine
    → (recheck redis w id now (some row) table locks).1 ≡ mine
unfolding recheck
recheck_locks redis w id now row table locks mine probed unskipped taken =
    ground (arith, probed, unskipped, taken)

-- With a Redis that keeps a key until it expires: a recheck that takes its lock on an asset that is
-- enabled, not processing and not exempt, and is followed by another one of the same asset within the
-- cooldown, whatever became of the table in between: the second changes neither the rows nor the locks.
pub revalidate_asset_url_cooldown :
    (redis : Redis) (w w' : Worker) (id : Text) (now later : ℕ) (table table' : List Row)
    (locks mine : redis.Db) (row : Row)
    → IsRedis redis
    → find_row id table ≡ some row
    → is_probed row ≡ true
    → row.skip_asset_check ≡ false
    → redis.set_nx (asset_recheck_lock_key id) (codes "1") recheck_cooldown now locks ≡ some mine
    → now ≤ later
    → later < now + recheck_cooldown
    → (let after = (revalidate_asset_url redis w id now table locks).1 in
        revalidate_asset_url redis w' id later table' after ≡ (table', after))
unfolding revalidate_asset_url IsRedis
revalidate_asset_url_cooldown redis w w' id now later table table' locks mine row
      (nx, kept, deleted) found probed unskipped taken after early =
    let first = recheck_locks redis w id now row table locks mine probed unskipped taken in
    let holds =
      kept (asset_recheck_lock_key id) (codes "1") recheck_cooldown now later locks mine taken after
        early in
    let blocked =
      nx (asset_recheck_lock_key id) (codes "1") (codes "1") recheck_cooldown later mine holds in
    rw found (
      subst (λ x. recheck redis w' id later (find_row id table') table' x ≡ (table', x)) (sym first)
        (recheck_blocked redis w' id later (find_row id table') table' mine blocked))
