-- ===== src/Tasks.antt =====
-- `TaskRepository` of xingestion/control_plane.py. Each method is one transaction on the ledger.
-- `now` is the database's NOW(), `utcnow` the clock of the process. A call returns its result and
-- the ledger after it.
mod Inserts
unfoldable pub use Inserts.{
  upsert_task, new_outbox_row, insert_outbox, outbox_from_task, new_task, run_at,
}
use xingestionv.Prelude.{
  ℕ, suc, ◌+◌, ◌*◌, ℤ, pos_part, Bool, true, false, not, ◌&&◌, ◌||◌, Option, none, some, String,
  ◌==◌, leb, at_most, is_text, str_eq, if◌then◌else◌, take_text,
}
use mathlib.Core.Option
use xingestionv.Json.{Json, Fields, ready_payload}
use xingestionv.Schema.{
  Db, Task, OutboxRow, DeadLetter, pending, running, done, retry_scheduled, dead_letter, is_ready,
  is_enqueued, is_running, is_terminal, second, value_error, Result, ok, err,
}
use xingestionv.Table.{find, update, count, insert, returning}

pub record TaskLease : Type 0 where
  pub id : ℕ
  pub task_type : String
  pub payload : Fields
  pub attempts : ℕ
  pub max_attempts : ℕ
  pub delivery_generation : ℕ
  pub lease_owner : String
  pub lease_expires_at : Option ℕ

-- TaskRepository.create_task
unfoldable pub create_task :
    Db → String → Fields → String → ℕ → ℤ → Option ℕ → ℕ → ℕ → Result ℕ × Db
create_task db task_type payload idempotency_key max_attempts priority next_run_at utcnow now =
    if str_eq idempotency_key ""
    then (err value_error, db)
    else if leb max_attempts 0
    then (err value_error, db)
    else let (t, db') = upsert_task db (
        new_task db.next_task task_type payload max_attempts (run_at next_run_at utcnow)
          idempotency_key priority none none now) in
      (ok t.id, outbox_from_task db' t.id now)

-- The WHERE clause of lease_task.
abbrev pub may_lease : ℕ → ℕ → ℕ → Task → Bool
may_lease task_id generation now t =
    t.id == task_id
    && (t.delivery_generation == generation
        && (leb t.next_run_at now
            && (is_enqueued t.status || is_running t.status && at_most t.lease_expires_at now)))

-- Its SET clause.
abbrev pub leased_row : String → ℕ → ℕ → Task → Task
leased_row worker_id lease_seconds now t = record t {
  status = running;
  lease_owner = some worker_id;
  lease_started_at = some now;
  lease_expires_at = some (now + lease_seconds * second);
  updated_at = now;
}

-- str(row["lease_owner"])
abbrev pub text_of : Option String → String
text_of none = "None"
text_of (some s) = s

abbrev pub to_lease : Task → TaskLease
to_lease t = record {
  id = t.id;
  task_type = t.task_type;
  payload = t.payload;
  attempts = t.attempts;
  max_attempts = t.max_attempts;
  delivery_generation = t.delivery_generation;
  lease_owner = text_of t.lease_owner;
  lease_expires_at = t.lease_expires_at;
}

-- TaskRepository.lease_task
unfoldable pub lease_task : Db → ℕ → ℕ → String → ℕ → ℕ → Option TaskLease × Db
lease_task db task_id generation worker_id lease_seconds now =
    let chosen = may_lease task_id generation now in
    let set = leased_row worker_id lease_seconds now in
    (
      Option.map to_lease (returning chosen set db.tasks),
      record db { tasks = update chosen set db.tasks },
    )

-- WHERE id = $1 AND delivery_generation = $2 AND lease_owner = $3 AND status = 'RUNNING', which
-- complete_task, schedule_retry, dead_letter_task and release_for_recovery share.
abbrev pub fence : TaskLease → Task → Bool
fence task t =
    t.id == task.id
    && (t.delivery_generation == task.delivery_generation
        && (is_text t.lease_owner task.lease_owner && is_running t.status))

-- COALESCE($4::jsonb, result_metadata)
abbrev pub coalesce {ℓ} : {A : Type ℓ} → Option A → Option A → Option A
coalesce (some a) b = some a
coalesce none b = b

abbrev pub completed_row : Option Json → ℕ → Task → Task
completed_row metadata now t = record t {
  status = done;
  completed_at = some now;
  lease_owner = none;
  lease_started_at = none;
  lease_expires_at = none;
  last_error = none;
  result_metadata = coalesce metadata t.result_metadata;
  updated_at = now;
}

-- TaskRepository.complete_task: `status == "UPDATE 1"`
unfoldable pub complete_task : Db → TaskLease → Option Json → ℕ → Bool × Db
complete_task db task result_metadata now = (
  count (fence task) db.tasks == 1,
  record db { tasks = update (fence task) (completed_row result_metadata now) db.tasks },
)

-- error_message[:4000] and failure_class[:100]
abbrev pub clip : String → Option String
clip message = some (take_text 4000 message)

abbrev pub clip_class : String → Option String
clip_class name = some (take_text 100 name)

abbrev pub retry_row : ℕ → String → String → ℕ → Task → Task
retry_row next_run_at error_message failure_class now t = record t {
  status = retry_scheduled;
  attempts = suc t.attempts;
  delivery_generation = suc t.delivery_generation;
  next_run_at = next_run_at;
  lease_owner = none;
  lease_started_at = none;
  lease_expires_at = none;
  last_error = clip error_message;
  last_failure_class = clip_class failure_class;
  updated_at = now;
}

-- TaskRepository.schedule_retry, the delay in microseconds
unfoldable pub schedule_retry : Db → TaskLease → String → ℤ → String → ℕ → ℕ → Bool × Db
schedule_retry db task error_message delay failure_class utcnow now =
    let set = retry_row (utcnow + pos_part delay) error_message failure_class now in
    let db' = record db { tasks = update (fence task) set db.tasks } in
    elim (returning (fence task) set db.tasks) [
      | none ↦ (false, db')
      | some t ↦ (true, insert_outbox db' t.id t.delivery_generation t.next_run_at now)
    ]

abbrev pub dead_row : String → String → ℕ → Task → Task
dead_row error_message failure_class now t = record t {
  status = dead_letter;
  attempts = suc t.attempts;
  lease_owner = none;
  lease_started_at = none;
  lease_expires_at = none;
  last_error = clip error_message;
  last_failure_class = clip_class failure_class;
  updated_at = now;
}

-- The archive row for a task that dead_letter_task has just updated.
abbrev pub archive_row : ℕ → String → String → ℕ → Task → DeadLetter
archive_row id error_message failure_class now t = record {
  id = id;
  original_task_id = t.id;
  task_type = t.task_type;
  payload = t.payload;
  last_error = clip error_message;
  failure_class = clip_class failure_class;
  delivery_generation = t.delivery_generation;
  failed_at = now;
  replayed_at = none;
  replay_task_id = none;
  replay_generation = 0;
}

-- TaskRepository.dead_letter_task
unfoldable pub dead_letter_task : Db → TaskLease → String → String → ℕ → Bool × Db
dead_letter_task db task error_message failure_class now =
    let set = dead_row error_message failure_class now in
    let db' = record db { tasks = update (fence task) set db.tasks } in
    elim (returning (fence task) set db.tasks) [
      | none ↦ (false, db')
      | some t ↦ (
        true,
        record db' {
          dead_letters =
              insert (archive_row db.next_dead_letter error_message failure_class now t)
                db.dead_letters;
          next_dead_letter = suc db.next_dead_letter;
        },
      )
    ]

-- TaskRepository.is_terminal_or_stale
unfoldable pub is_terminal_or_stale : Db → ℕ → ℕ → Bool
is_terminal_or_stale db task_id generation = elim (find (λ t. t.id == task_id) db.tasks) [
  | none ↦ true
  | some t ↦ not (t.delivery_generation == generation) || is_terminal t.status
]
