-- ===== src/Worker/Delivery.antt =====
-- transition_failure and handle_delivery of worker.py. A delivery is handled in several transactions:
-- what the guarded work and other processes do to the ledger between them is an argument, and the
-- result tells whether the message is acknowledged.
use Prim.Native.Nat.{◌^◌, min}
use Prim.Native.String.{◌++◌}
use xingestionv.Prelude.{
  ℕ, suc, ◌+◌, ◌*◌, ℤ, pos, Bool, false, not, ◌||◌, Option, none, some, String, leb, if◌then◌else◌,
}
use xingestionv.Json.{Json}
use xingestionv.Schema.{Db, second}
use xingestionv.Tasks.{
  TaskLease, lease_task, complete_task, schedule_retry, dead_letter_task, is_terminal_or_stale,
}
use xingestionv.Guard.{release_for_recovery}
use xingestionv.Worker.{Raised, class_name, retryable, is_collection_error}

-- backoff_delay_seconds in microseconds: min(300, 2 ** attempt) seconds and the jitter.
abbrev pub backoff_delay : ℕ → ℕ → ℕ
backoff_delay attempt jitter = min 300 (2 ^ attempt) * second + jitter

-- Only a CollectionError says when to retry.
abbrev pub retry_after_of : Raised → Option ℤ
retry_after_of error = if is_collection_error error.failure_class then error.retry_after else none

abbrev pub delay_of : TaskLease → Raised → ℕ → ℤ
delay_of task error jitter = elim (retry_after_of error) [
  | some d ↦ d
  | none ↦ pos (backoff_delay task.attempts jitter)
]

abbrev pub error_message : Raised → String
error_message error = class_name error.failure_class ++ (":" ++ error.message)

-- not retryable or exhausted
abbrev pub gives_up : TaskLease → Raised → Bool
gives_up task error =
    not (retryable error.failure_class) || leb task.max_attempts (suc task.attempts)

-- transition_failure
unfoldable pub transition_failure : Db → TaskLease → Raised → ℕ → ℕ → ℕ → Bool × Db
transition_failure db task error jitter utcnow now =
    if gives_up task error
    then dead_letter_task db task (error_message error) (class_name error.failure_class) now
    else schedule_retry db task (error_message error) (delay_of task error jitter)
        (class_name error.failure_class) utcnow now

-- How the guarded work ends: with its metadata, by losing the lease, by cancellation, or with
-- another exception.
pub data Work : Type 0 where
  finished : Json → Work
  lease_lost : Work
  cancelled : Work
  failed : Raised → Work

-- The end of handle_delivery.
unfoldable pub settle_work : Db → TaskLease → Work → ℕ → ℕ → ℕ → Bool × Db
unfolding transition_failure
settle_work db task (finished metadata) jitter utcnow now =
    complete_task db task (some metadata) now
settle_work db task lease_lost jitter utcnow now = (false, db)
settle_work db task cancelled jitter utcnow now = (false, (release_for_recovery db task now).1)
settle_work db task (failed error) jitter utcnow now =
    transition_failure db task error jitter utcnow now

-- handle_delivery after lease_task.
unfoldable pub handle_leased :
    (TaskLease → Db → Work × Db) → (Db → Db) → ℕ → ℕ → ℕ → ℕ → ℕ → Option TaskLease → Db → Bool × Db
unfolding settle_work
handle_leased guarded others task_id generation jitter utcnow now none db =
    let db' = others db in (is_terminal_or_stale db' task_id generation, db')
handle_leased guarded others task_id generation jitter utcnow now (some task) db =
    let (work, db') = guarded task db in settle_work db' task work jitter utcnow now

-- handle_delivery
unfoldable pub handle_delivery :
    (TaskLease → Db → Work × Db) → (Db → Db) → Db → ℕ → ℕ → String → ℕ → ℕ → ℕ → ℕ → ℕ → Bool × Db
unfolding handle_leased
handle_delivery guarded others db task_id generation worker_id lease_seconds leased_at jitter utcnow
      now =
    let (lease, db') = lease_task db task_id generation worker_id lease_seconds leased_at in
    handle_leased guarded others task_id generation jitter utcnow now lease db'
