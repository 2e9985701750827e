-- ===== src/System/Rows.antt =====
-- The transitions of a row of worker_tasks: the SET clauses, each under its WHERE clause.
mod Updates
mod Inserts
pub mod Numbers
pub mod Claims
pub mod Refines
use xingestionv.Prelude.{ℕ, ◌≡◌, Bool, true, Option, none, some, String, if◌then◌else◌}
use xingestionv.Json.{Json}
use xingestionv.Schema.{Db, Task, is_ready}
use xingestionv.Tasks.{TaskLease, may_lease, leased_row, fence, completed_row, retry_row, dead_row}
use xingestionv.Guard.{may_renew, renewed_row, released_row}
use xingestionv.Outbox.{enqueued_row}
use xingestionv.Cleanup.{purged, unlinked_row}
use xingestionv.Ledger.{task_at}

-- One transition of a task: from the row `t` to the row `u`.
pub data RowStep (now : ℕ) (actor : Option TaskLease) (t u : Task) : Type 0 where
  stays : u ≡ t → RowStep now actor t u
  enqueues : is_ready t.status ≡ true → u ≡ enqueued_row now t → RowStep now actor t u
  leases :
      (i g seconds : ℕ) (worker : String)
      → may_lease i g now t ≡ true
      → u ≡ leased_row worker seconds now t
      → RowStep now actor t u
  renews :
      (l : TaskLease) (seconds : ℕ)
      → actor ≡ some l
      → may_renew l now t ≡ true
      → u ≡ renewed_row seconds now t
      → RowStep now actor t u
  releases :
      (l : TaskLease)
      → actor ≡ some l
      → fence l t ≡ true
      → u ≡ released_row now t
      → RowStep now actor t u
  completes :
      (l : TaskLease) (m : Option Json)
      → actor ≡ some l
      → fence l t ≡ true
      → u ≡ completed_row m now t
      → RowStep now actor t u
  retries :
      (l : TaskLease) (at : ℕ) (e c : String)
      → actor ≡ some l
      → fence l t ≡ true
      → u ≡ retry_row at e c now t
      → RowStep now actor t u
  dies :
      (l : TaskLease) (e c : String)
      → actor ≡ some l
      → fence l t ≡ true
      → u ≡ dead_row e c now t
      → RowStep now actor t u
  unlinks : u ≡ unlinked_row t → RowStep now actor t u

-- What a transaction leaves in the place of a row.
pub data Next (now : ℕ) (actor : Option TaskLease) (t : Task) (o : Option Task) : Type 0 where
  row : (u : Task) → o ≡ some u → RowStep now actor t u → Next now actor t o
  gone : purged t ≡ true → o ≡ none → Next now actor t o
