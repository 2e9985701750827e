-- ===== src/Tasks/Inserts.antt =====
-- The INSERT statements for worker_tasks and task_outbox, which create_task, schedule_retry and
-- replay share.
use xingestionv.Prelude.{ℕ, suc, ℤ, ◌&&◌, Option, none, some, String, ◌==◌, str_eq}
use xingestionv.Json.{Fields, ready_payload}
use xingestionv.Schema.{Db, Task, OutboxRow, pending, is_ready}
use xingestionv.Table.{find, insert}

-- INSERT INTO worker_tasks ... ON CONFLICT (idempotency_key) DO UPDATE SET updated_at =
-- worker_tasks.updated_at RETURNING: the row that holds the key afterwards. The number of the new
-- row is drawn in either case.
unfoldable pub upsert_task : Db → Task → Task × Db
upsert_task db new = elim (find (λ t. str_eq t.idempotency_key new.idempotency_key) db.tasks) [
  | some t ↦ (t, record db { next_task = suc db.next_task })
  | none ↦ (new, record db { tasks = insert new db.tasks; next_task = suc db.next_task })
]

-- A row of task_outbox with the columns that an INSERT leaves to their defaults.
abbrev pub new_outbox_row : ℕ → ℕ → ℕ → ℕ → ℕ → OutboxRow
new_outbox_row id task_id generation available_at now = record {
  id = id;
  task_id = task_id;
  delivery_generation = generation;
  event_type = "TASK_READY";
  payload = ready_payload task_id generation;
  available_at = available_at;
  created_at = now;
  published_at = none;
  redis_message_id = none;
  publish_attempts = 0;
  last_error = none;
  claim_token = none;
  claim_expires_at = none;
}

-- INSERT INTO task_outbox ... ON CONFLICT (task_id, delivery_generation) DO NOTHING
unfoldable pub insert_outbox : Db → ℕ → ℕ → ℕ → ℕ → Db
insert_outbox db task_id generation available_at now =
    elim (find (λ o. o.task_id == task_id && o.delivery_generation == generation) db.outbox) [
      | some o ↦ record db { next_outbox = suc db.next_outbox }
      | none ↦ record db {
        outbox =
            insert (new_outbox_row db.next_outbox task_id generation available_at now) db.outbox;
        next_outbox = suc db.next_outbox;
      }
    ]

-- INSERT INTO task_outbox ... SELECT ... FROM worker_tasks WHERE id = $1 AND status IN (...)
unfoldable pub outbox_from_task : Db → ℕ → ℕ → Db
outbox_from_task db task_id now = elim (find (λ t. t.id == task_id && is_ready t.status) db.tasks) [
  | some t ↦ insert_outbox db t.id t.delivery_generation t.next_run_at now
  | none ↦ db
]

-- A row of worker_tasks as the INSERT statements write it.
abbrev pub new_task : ℕ → String → Fields → ℕ → ℕ → String → ℤ → Option ℕ → Option ℕ → ℕ → Task
new_task id task_type payload max_attempts next_run_at key priority origin replay_of now = record {
  id = id;
  task_type = task_type;
  payload = payload;
  status = pending;
  attempts = 0;
  max_attempts = max_attempts;
  next_run_at = next_run_at;
  idempotency_key = key;
  priority = priority;
  delivery_generation = 0;
  enqueued_at = none;
  lease_owner = none;
  lease_started_at = none;
  lease_expires_at = none;
  leased_at = none;
  completed_at = none;
  last_error = none;
  last_failure_class = none;
  result_metadata = none;
  origin_task_id = origin;
  replay_of_dead_letter_id = replay_of;
  created_at = now;
  updated_at = now;
}

-- `next_run_at or utcnow()`
abbrev pub run_at : Option ℕ → ℕ → ℕ
run_at none utcnow = utcnow
run_at (some t) utcnow = t
