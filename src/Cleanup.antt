-- ===== src/Cleanup.antt =====
-- The task statement of db_cleanup.py, with what the foreign keys of the schema do on a DELETE:
-- task_outbox cascades, worker_tasks.origin_task_id is set to NULL.
use xingestionv.Prelude.{ℕ, Bool, not, ◌&&◌, Option, none, some, ◌==◌, is_null}
use xingestionv.Schema.{Db, Task, is_done}
use xingestionv.Table.{find, update, delete}

-- WHERE status = 'DONE' AND leased_at IS NULL
abbrev pub purged : Task → Bool
purged t = is_done t.status && is_null t.leased_at

-- The row with this number goes.
abbrev pub purges : Db → ℕ → Bool
purges db i = not (is_null (find (λ t. t.id == i && purged t) db.tasks))

abbrev pub orphaned : (ℕ → Bool) → Option ℕ → Bool
orphaned gone none = Bool.false
orphaned gone (some i) = gone i

abbrev pub unlinked_row : Task → Task
unlinked_row t = record t { origin_task_id = none }

-- DELETE FROM worker_tasks in execute_database_garbage_collection
unfoldable pub purge_tasks : Db → Db
purge_tasks db = record db {
  tasks = update (λ t. orphaned (purges db) t.origin_task_id) unlinked_row (delete purged db.tasks);
  outbox = delete (λ o. purges db o.task_id) db.outbox;
}
