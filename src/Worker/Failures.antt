-- ===== src/Worker/Failures.antt =====
-- What a worker does with a task that failed.
use Prim.Native.Nat.{◌^◌, min}
use xingestionv.Prelude.{
  ℕ, suc, ◌+◌, ◌*◌, ◌≤◌, ℤ, pos_part, ◌≡◌, ◌≢◌, ◌⊎◌, inl, inr, refl, true, none, some, arith,
}
use xingestionv.Schema.{Db, Task, second}
use xingestionv.Tasks.{TaskLease}
use xingestionv.Ledger.{Inv, task_at}
use xingestionv.System.Fence.{Shows}
use xingestionv.System.Fence.Ends.{Buried, dead_letter_task-Buried}
use xingestionv.Worker.{Raised, permanent_task_failure, unexpected_error, class_name}
use xingestionv.Worker.Delivery.{gives_up, error_message, transition_failure}

-- When a failed task is due again: after the delay that a collection error asks for, where a
-- negative delay counts as none, or else after 2 ^ attempts seconds, 300 at most, and the jitter.
pub data IsDue (l : TaskLease) (r : Raised) (jitter utcnow due : ℕ) : Type 0 where
  asked :
      (d : ℤ)
      → r.failure_class ≢ unexpected_error
      → r.retry_after ≡ some d
      → due ≡ utcnow + pos_part d
      → IsDue l r jitter utcnow due
  backs_off :
      (r.failure_class ≡ unexpected_error) ⊎ (r.retry_after ≡ none)
      → due ≡ utcnow + (min 300 (2 ^ l.attempts) * second + jitter)
      → IsDue l r jitter utcnow due

module _ (db : Db) (l : TaskLease) (t : Task) (v : Inv db) (here : task_at db l.id ≡ some t)
    (w : Shows l t) (r : Raised) (jitter utcnow now i : ℕ) (another : l.id ≢ i) where
  -- transition_failure on a lease that the ledger shows, where the failure is permanent or this
  -- attempt is the last of the maximum: it returns true; the leased row is DEAD_LETTER without an
  -- owner, with one attempt more in the same generation and the cause; the dead letters gain one
  -- with the task's type and payload and the cause; and no other task and no outbox row changes.
  pub transition_failure-gives_up :
      (r.failure_class ≡ permanent_task_failure) ⊎ (l.max_attempts ≤ suc l.attempts)
      → Buried db l t
          (error_message r)
          (class_name r.failure_class)
          i
          (transition_failure db l r jitter utcnow now)
  unfolding transition_failure
  transition_failure-gives_up a = rw (stops a) (
      dead_letter_task-Buried db l t v here w (error_message r) (class_name r.failure_class) now i
        another)
    where
      stops :
          (r.failure_class ≡ permanent_task_failure) ⊎ (l.max_attempts ≤ suc l.attempts)
          → gives_up l r ≡ true
      stops (inl h) = rw h refl
      stops (inr h) = ground arith
