-- ===== src/Replay.antt =====
-- `DeadLetterReplayService` of xingestion/replay.py. The rows that SKIP LOCKED passes over are
-- given by the test `locked`. The call is one transaction: where it raises, the ledger is as before.
use Prim.Native.String.{◌++◌}
use xingestionv.Prelude.{
  ℕ, suc, ℤ, pos, Bool, true, false, not, ◌&&◌, ◌||◌, Option, none, some, List, [], ◌∷◌, String,
  ◌==◌, ltb, leb, is_null, is_text, str_eq, if◌then◌else◌, decimal,
}
use xingestionv.Json.{Json, Items, null, int, str, arr, obj, nil, cons, end, field}
use xingestionv.Schema.{
  ◌>>=◌, Db, Task, DeadLetter, ReplayRow, Result, ok, err, value_error, runtime_error,
  unique_violation, foreign_key_violation,
}
use xingestionv.Table.{find, select, update, count, insert, limit, order_by}
use xingestionv.Tasks.{upsert_task, insert_outbox, new_task}

pub record ReplaySelector : Type 0 where
  pub dead_letter_ids : List ℕ
  pub task_type : Option String
  pub failure_class : Option String

pub record ReplayResult : Type 0 where
  pub dead_letter_id : ℕ
  pub replay_generation : ℕ
  pub replay_task_id : ℕ

abbrev nullable : Option String → Json
nullable none = null
nullable (some s) = str s

numbers : List ℕ → Items
numbers [] = nil
numbers (n ∷ ns) = cons (int (pos n)) (numbers ns)

-- ReplaySelector.metadata
unfoldable pub metadata : ReplaySelector → Json
unfolding numbers
metadata s = obj (
    field "dead_letter_ids" (arr (numbers s.dead_letter_ids)) (
      field "task_type" (nullable s.task_type)
        (field "failure_class" (nullable s.failure_class) end)))

unfoldable pub any_of : ℕ → List ℕ → Bool
any_of n [] = false
any_of n (m ∷ ms) = n == m || any_of n ms

-- `list(selector.dead_letter_ids) or None`, and $2 IS NULL OR dl.id = ANY($2)
unfoldable pub id_selected : List ℕ → ℕ → Bool
unfolding any_of
id_selected [] n = true
id_selected (m ∷ ms) n = any_of n (m ∷ ms)

-- $3::text IS NULL OR column = $3
abbrev pub text_selected : Option String → Option String → Bool
text_selected none column = true
text_selected (some s) column = is_text column s

-- The WHERE clause of replay, and its SKIP LOCKED.
unfoldable pub may_replay : ReplaySelector → (ℕ → Bool) → DeadLetter → Bool
may_replay s locked d =
    is_null d.replayed_at
    && (id_selected s.dead_letter_ids d.id
        && (text_selected s.task_type (some d.task_type)
            && (text_selected s.failure_class d.failure_class && not (locked d.id))))

-- ORDER BY dl.failed_at ASC, dl.id ASC
abbrev pub failed_before : DeadLetter → DeadLetter → Bool
failed_before a b = ltb a.failed_at b.failed_at || (a.failed_at == b.failed_at && leb a.id b.id)

-- The SELECT of replay.
unfoldable pub replayable : Db → ReplaySelector → (ℕ → Bool) → ℕ → List DeadLetter
replayable db selector locked n =
    limit n (order_by failed_before (select (may_replay selector locked) db.dead_letters))

unfoldable pub idempotency_key : ℕ → ℕ → String
idempotency_key dead_letter_id replay_generation =
    "dead-letter:" ++ (decimal dead_letter_id ++ (":replay:" ++ decimal replay_generation))

-- The task row that replaces a dead letter.
abbrev pub replacement : ℕ → ℕ → ℤ → ℕ → DeadLetter → Task
replacement id max_attempts priority now d =
    new_task id d.task_type d.payload max_attempts now
      (idempotency_key d.id (suc d.replay_generation)) priority (some d.original_task_id)
      (some d.id) now

-- The foreign key of origin_task_id, which an INSERT of a new row checks.
abbrev pub origin_exists : Db → DeadLetter → Bool
origin_exists db d = not (is_null (find (λ t. t.id == d.original_task_id) db.tasks))

abbrev pub key_taken : Db → String → Bool
key_taken db key = not (is_null (find (λ t. str_eq t.idempotency_key key) db.tasks))

-- INSERT INTO worker_tasks, with its foreign key.
unfoldable pub insert_replacement : Db → Task → Bool → Result (Task × Db)
insert_replacement db new true = ok (upsert_task db new)
insert_replacement db new false = err foreign_key_violation

-- INSERT INTO worker_dead_letter_replays ... ON CONFLICT (dead_letter_id, replay_generation) DO
-- NOTHING, with the other unique key of that table, replay_task_id.
unfoldable pub insert_audit : Db → ReplayRow → Result Db
insert_audit db row =
    elim (find
      (λ r. r.dead_letter_id == row.dead_letter_id && r.replay_generation == row.replay_generation)
      db.replays) [
        | some r ↦ ok (record db { next_replay = suc db.next_replay })
        | none ↦ elim (find (λ r. r.replay_task_id == row.replay_task_id) db.replays) [
          | some r ↦ err unique_violation
          | none ↦
              ok (record db { replays = insert row db.replays; next_replay = suc db.next_replay })
        ]
      ]

-- WHERE id = $1 AND replayed_at IS NULL
abbrev pub still_dead : ℕ → DeadLetter → Bool
still_dead id d = d.id == id && is_null d.replayed_at

abbrev pub replayed_row : ℕ → ℕ → ℕ → DeadLetter → DeadLetter
replayed_row task_id generation now d = record d {
  replayed_at = some now;
  replay_task_id = some task_id;
  replay_generation = generation;
}

-- UPDATE worker_dead_letters, with the check of its status.
unfoldable pub mark_replayed : Db → DeadLetter → ℕ → ℕ → Result (ReplayResult × Db)
mark_replayed db d task_id now =
    if count (still_dead d.id) db.dead_letters == 1
    then ok (
      record {
        dead_letter_id = d.id;
        replay_generation = suc d.replay_generation;
        replay_task_id = task_id;
      },
      record db {
        dead_letters =
            update (still_dead d.id) (replayed_row task_id (suc d.replay_generation) now)
              db.dead_letters;
      },
    )
    else err runtime_error

abbrev audit_row : ReplaySelector → ℕ → DeadLetter → ℕ → ℕ → ReplayRow
audit_row selector id d task_id now = record {
  replay_id = id;
  dead_letter_id = d.id;
  replay_generation = suc d.replay_generation;
  replay_task_id = task_id;
  requested_at = now;
  selector_metadata = metadata selector;
}

-- One round of the loop of replay.
unfoldable pub replay_one :
    ReplaySelector → ℕ → ℤ → ℕ → DeadLetter → Db → Result (ReplayResult × Db)
replay_one selector max_attempts priority now d db = do
  let new = replacement db.next_task max_attempts priority now d
  (t, inserted) ← insert_replacement db new (key_taken db new.idempotency_key || origin_exists db d)
  let published = insert_outbox inserted t.id t.delivery_generation t.next_run_at now
  audited ← insert_audit published (audit_row selector published.next_replay d t.id now)
  mark_replayed audited d t.id now

-- The loop of replay.
unfoldable pub replay_rows :
    ReplaySelector → ℕ → ℤ → ℕ → List DeadLetter → Db → Result (List ReplayResult × Db)
replay_rows selector max_attempts priority now [] db = ok ([], db)
replay_rows selector max_attempts priority now (d ∷ rows) db = do
  (r, db') ← replay_one selector max_attempts priority now d db
  (rest, db'') ← replay_rows selector max_attempts priority now rows db'
  ok (r ∷ rest, db'')

-- The end of the transaction: committed, or rolled back.
abbrev pub commit {ℓ} : {A : Type ℓ} → Db → Result (A × Db) → Result A × Db
commit db (ok (a, db')) = (ok a, db')
commit db (err f) = (err f, db)

-- DeadLetterReplayService.replay
unfoldable pub replay :
    Db → ReplaySelector → (ℕ → Bool) → ℕ → ℕ → ℤ → ℕ → Result (List ReplayResult) × Db
replay db selector locked n max_attempts priority now =
    if leb n 0
    then (err value_error, db)
    else if leb max_attempts 0
    then (err value_error, db)
    else commit db
        (replay_rows selector max_attempts priority now (replayable db selector locked n) db)
