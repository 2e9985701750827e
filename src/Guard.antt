-- ===== src/Guard.antt =====
-- `TaskLeaseGuard` of xingestion/lease_guard.py: the statements that renew and release a lease. What
-- Redis answers to XCLAIM is an argument, `none` where the call raised.
use xingestionv.Prelude.{
  ℕ, ◌+◌, ◌*◌, Bool, false, ◌&&◌, ◌||◌, Option, none, some, List, [], ◌∷◌, String, ◌==◌, leb, after,
  str_eq, if◌then◌else◌,
}
use xingestionv.Schema.{Db, Task, enqueued, second, Result, ok, err, value_error, task_lease_lost}
use xingestionv.Table.{update, count}
use xingestionv.Tasks.{TaskLease, fence}

-- The settings of a guard, the heartbeat in microseconds.
pub record TaskLeaseGuard : Type 0 where
  pub lease_seconds : ℕ
  pub heartbeat : ℕ

-- TaskLeaseGuard.__init__
unfoldable pub new_guard : ℕ → ℕ → Result TaskLeaseGuard
new_guard lease_seconds heartbeat =
    if leb lease_seconds 0
    then err value_error
    else if leb heartbeat 0
    then err value_error
    else if leb (lease_seconds * second) heartbeat
    then err value_error
    else ok (record { lease_seconds = lease_seconds; heartbeat = heartbeat })

-- `message_id in claimed_ids`
unfoldable pub touch_pending : String → List String → Bool
touch_pending message_id [] = false
touch_pending message_id (c ∷ claimed) = str_eq c message_id || touch_pending message_id claimed

-- How a heartbeat ends that did not raise.
pub data Heartbeat : Type 0 where
  touched not_found redis_failed : Heartbeat

abbrev pub heartbeat_of : String → Option (List String) → Heartbeat
heartbeat_of message_id none = redis_failed
heartbeat_of message_id (some claimed) =
    if touch_pending message_id claimed then touched else not_found

-- The WHERE clause of renew_once.
abbrev pub may_renew : TaskLease → ℕ → Task → Bool
may_renew task now t = fence task t && after t.lease_expires_at now

abbrev pub renewed_row : ℕ → ℕ → Task → Task
renewed_row lease_seconds now t = record t {
  lease_expires_at = some (now + lease_seconds * second);
  updated_at = now;
}

-- TaskLeaseGuard.renew_once
unfoldable pub renew_once :
    TaskLeaseGuard → Db → TaskLease → String → Option (List String) → ℕ → Result Heartbeat × Db
renew_once guard db task message_id claimed now = (
  (if count (may_renew task now) db.tasks == 1
      then ok (heartbeat_of message_id claimed)
      else err task_lease_lost),
  record db { tasks = update (may_renew task now) (renewed_row guard.lease_seconds now) db.tasks },
)

abbrev pub released_row : ℕ → Task → Task
released_row now t = record t {
  status = enqueued;
  lease_owner = none;
  lease_started_at = none;
  lease_expires_at = none;
  updated_at = now;
}

-- TaskLeaseGuard.release_for_recovery
unfoldable pub release_for_recovery : Db → TaskLease → ℕ → Bool × Db
release_for_recovery db task now = (
  count (fence task) db.tasks == 1,
  record db { tasks = update (fence task) (released_row now) db.tasks },
)
