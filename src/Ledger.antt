-- ===== src/Ledger.antt =====
-- The well-formedness of the task ledger: what the tables worker_tasks and task_outbox satisfy
-- between transactions.
pub mod Rows
pub mod Publish
pub mod Create
pub mod Updates
pub mod Retry
pub mod Both
pub mod Dispatch
pub mod Sent
pub mod Replays
pub mod Purge
use xingestionv.Prelude.{ℕ, ◌≤◌, ◌≡◌, Bool, true, not, ◌&&◌, Option, none, some, is_null, ◌==◌}
use xingestionv.Schema.{Db, Task, OutboxRow, is_ready, is_running}
use xingestionv.Table.{find}
use xingestionv.Table.Keyed.{Unique}

-- The row with a primary key.
abbrev pub task_at : Db → ℕ → Option Task
task_at db i = find (λ t. t.id == i) db.tasks

abbrev pub outbox_id : Db → ℕ → Option OutboxRow
outbox_id db k = find (λ o. o.id == k) db.outbox

-- The row with the key (task_id, delivery_generation).
abbrev pub outbox_at : Db → ℕ → ℕ → Option OutboxRow
outbox_at db i g = find (λ o. o.task_id == i && o.delivery_generation == g) db.outbox

-- The lease columns are set exactly while the task is RUNNING.
pub record LeaseOk (t : Task) : Type 0 where
  pub owner : is_null t.lease_owner ≡ not (is_running t.status)
  pub started : is_null t.lease_started_at ≡ not (is_running t.status)
  pub expires : is_null t.lease_expires_at ≡ not (is_running t.status)

-- The outbox row for the current generation of a task: the task waits for a dispatcher only while
-- that row is neither published nor claimed.
pub record Tracked (t : Task) (o : OutboxRow) : Type 0 where
  pub unpublished : is_ready t.status ≡ true → o.published_at ≡ none
  pub unclaimed : is_ready t.status ≡ true → o.claim_token ≡ none

pub record Sound (db : Db) : Type 0 where
  -- Primary keys, and the numbers still to be drawn.
  pub task_ids : Unique (λ t. t.id) db.tasks
  pub outbox_ids : Unique (λ o. o.id) db.outbox
  pub fresh_task : (i : ℕ) → db.next_task ≤ i → task_at db i ≡ none
  pub fresh_outbox : (k : ℕ) → db.next_outbox ≤ k → outbox_id db k ≡ none
  -- Lease columns.
  pub leased : (i : ℕ) (t : Task) → task_at db i ≡ some t → LeaseOk t
  -- An outbox row belongs to a task, and is of its generation or an earlier one.
  pub owned :
      (i g : ℕ) (o : OutboxRow)
      → outbox_at db i g ≡ some o
      → (t : Task) × (task_at db i ≡ some t) × (g ≤ t.delivery_generation)
  -- The row with a key (task_id, delivery_generation) is the one with its number.
  pub keyed : (i g : ℕ) (o : OutboxRow) → outbox_at db i g ≡ some o → outbox_id db o.id ≡ some o

-- The outbox row that a task waits for.
abbrev pub TrackedAt : Db → ℕ → Task → Type 0
TrackedAt db i t = (o : OutboxRow) × (outbox_at db i t.delivery_generation ≡ some o) × Tracked t o

-- The ledger between transactions: also, every task has an outbox row for its generation.
pub record Inv (db : Db) : Type 0 where
  pub sound : Sound db
  pub open sound use *
  pub tracked : (i : ℕ) (t : Task) → task_at db i ≡ some t → TrackedAt db i t
