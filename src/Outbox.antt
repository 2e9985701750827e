-- ===== src/Outbox.antt =====
-- `DurableOutboxDispatcher` of xingestion/outbox.py. A claim token is the argument `claim_token`
-- (uuid.uuid4().hex in the source). The rows that SKIP LOCKED passes over, since another
-- transaction holds their locks, are given by the test `locked`. Redis enters by the answer to each
-- XADD: `none` where the call raised, with the exception's text in `record_failure`.
use xingestionv.Prelude.{
  ℤ, pos, negsuc, ℕ, suc, ◌+◌, ◌*◌, Bool, true, false, not, ◌&&◌, ◌||◌, none, some, List, [], ◌∷◌,
  String, ◌==◌, ltb, leb, ltb_ℤ, is_null, at_most, is_text, if◌then◌else◌,
}
use xingestionv.Json.{Fields}
use xingestionv.Schema.{
  Db, Task, OutboxRow, enqueued, is_ready, is_enqueued, second, Result, ok, err, value_error,
  runtime_error,
}
use xingestionv.Table.{find, select, update, count, limit, order_by}
use xingestionv.Tasks.{clip}

pub record ClaimedOutboxEvent : Type 0 where
  pub outbox_id : ℕ
  pub task_id : ℕ
  pub generation : ℕ
  pub event_type : String
  pub payload : Fields
  pub claim_token : String

-- DurableOutboxDispatcher.__init__: the seconds of a claim
unfoldable pub new_dispatcher : ℤ → Result ℕ
new_dispatcher (pos n) = if leb n 0 then err value_error else ok n
new_dispatcher (negsuc n) = err value_error

-- A row of the join of task_outbox and worker_tasks.
pub record Joined : Type 0 where
  pub row : OutboxRow
  pub task : Task

-- FROM task_outbox o JOIN worker_tasks wt ON wt.id = o.task_id
unfoldable pub join : List Task → List OutboxRow → List Joined
join tasks [] = []
join tasks (o ∷ rows) =
    let rest = join tasks rows in
    elim (find (λ t. t.id == o.task_id) tasks) [
      | none ↦ rest
      | some t ↦ record { row = o; task = t } ∷ rest
    ]

-- The WHERE clause of claim_ready, and its SKIP LOCKED.
abbrev pub may_claim : (ℕ → Bool) → ℕ → Joined → Bool
may_claim locked now j =
    is_null j.row.published_at
    && (leb j.row.available_at now
        && ((is_null j.row.claim_expires_at || at_most j.row.claim_expires_at now)
            && (j.task.delivery_generation == j.row.delivery_generation
                && ((is_ready j.task.status || is_enqueued j.task.status)
                    && not (locked j.row.id)))))

-- ORDER BY wt.priority DESC, o.available_at ASC, o.id ASC
abbrev pub dispatched_before : Joined → Joined → Bool
dispatched_before a b =
    ltb_ℤ b.task.priority a.task.priority
    || (not (ltb_ℤ a.task.priority b.task.priority)
        && (ltb a.row.available_at b.row.available_at
            || (a.row.available_at == b.row.available_at && leb a.row.id b.row.id)))

abbrev pub claimed_row : String → ℕ → OutboxRow → OutboxRow
claimed_row claim_token claim_until o = record o {
  claim_token = some claim_token;
  claim_expires_at = some claim_until;
  publish_attempts = suc o.publish_attempts;
  last_error = none;
}

-- WHERE id = $1 AND delivery_generation = $2 AND status IN ('PENDING', 'RETRY_SCHEDULED')
abbrev pub may_enqueue : ℕ → ℕ → Task → Bool
may_enqueue task_id generation t =
    t.id == task_id && (t.delivery_generation == generation && is_ready t.status)

abbrev pub enqueued_row : ℕ → Task → Task
enqueued_row now t = record t { status = enqueued; enqueued_at = some now; updated_at = now }

abbrev pub to_event : String → Joined → ClaimedOutboxEvent
to_event claim_token j = record {
  outbox_id = j.row.id;
  task_id = j.row.task_id;
  generation = j.row.delivery_generation;
  event_type = j.row.event_type;
  payload = j.row.payload;
  claim_token = claim_token;
}

-- The two statements of the loop of claim_ready, for one row.
unfoldable pub claim_one : String → ℕ → ℕ → Joined → Db → Db
claim_one claim_token claim_until now j db = record db {
  outbox = update (λ o. o.id == j.row.id) (claimed_row claim_token claim_until) db.outbox;
  tasks = update (may_enqueue j.row.task_id j.row.delivery_generation) (enqueued_row now) db.tasks;
}

-- The loop of claim_ready.
unfoldable pub claim_rows : String → ℕ → ℕ → List Joined → Db → List ClaimedOutboxEvent × Db
claim_rows claim_token claim_until now [] db = ([], db)
claim_rows claim_token claim_until now (j ∷ rows) db =
    let (events, db') =
      claim_rows claim_token claim_until now rows (claim_one claim_token claim_until now j db) in
    (to_event claim_token j ∷ events, db')

-- The SELECT of claim_ready.
unfoldable pub claimable : Db → (ℕ → Bool) → ℕ → ℕ → List Joined
claimable db locked batch_size now =
    limit batch_size
      (order_by dispatched_before (select (may_claim locked now) (join db.tasks db.outbox)))

-- DurableOutboxDispatcher.claim_ready
unfoldable pub claim_ready :
    ℕ → Db → (ℕ → Bool) → String → ℕ → ℕ → ℕ → Result (List ClaimedOutboxEvent) × Db
claim_ready claim_seconds db locked claim_token batch_size utcnow now =
    if leb batch_size 0
    then (err value_error, db)
    else let (events, db') =
        claim_rows claim_token (utcnow + claim_seconds * second) now
          (claimable db locked batch_size now) db in
      (ok events, db')

-- WHERE id = $1 AND claim_token = $2 AND published_at IS NULL
abbrev pub holds_claim : ClaimedOutboxEvent → OutboxRow → Bool
holds_claim event o =
    o.id == event.outbox_id && (is_text o.claim_token event.claim_token && is_null o.published_at)

abbrev pub published_row : String → ℕ → OutboxRow → OutboxRow
published_row message_id now o = record o {
  published_at = some now;
  redis_message_id = some message_id;
  claim_token = none;
  claim_expires_at = none;
  last_error = none;
}

-- DurableOutboxDispatcher.publish_claimed, once XADD has answered with `message_id`
unfoldable pub publish_claimed : Db → ClaimedOutboxEvent → String → ℕ → Result String × Db
publish_claimed db event message_id now = (
  (if count (holds_claim event) db.outbox == 1 then ok message_id else err runtime_error),
  record db { outbox = update (holds_claim event) (published_row message_id now) db.outbox },
)

abbrev pub failed_row : String → OutboxRow → OutboxRow
failed_row message o = record o {
  claim_token = none;
  claim_expires_at = none;
  last_error = clip message;
}

-- DurableOutboxDispatcher.record_failure
unfoldable pub record_failure : Db → ClaimedOutboxEvent → String → Db
record_failure db event message = record db {
  outbox = update (holds_claim event) (failed_row message) db.outbox;
}

-- What happens when an event is sent: XADD raises, or answers with the number of the new entry.
pub data Sent : Type 0 where
  raised : String → Sent
  added : String → Sent

-- `except Exception as exc: await self.record_failure(event, exc)` after publish_claimed.
unfoldable pub settle : ClaimedOutboxEvent → String → Result String → Db → Bool × Db
settle event lost (ok message_id) db = (true, db)
settle event lost (err f) db = (false, record_failure db event lost)

-- One round of the loop of dispatch_ready. The text of the RuntimeError of publish_claimed is
-- `lost`.
unfoldable pub dispatch_one : Db → ClaimedOutboxEvent → Sent → String → ℕ → Bool × Db
dispatch_one db event (raised message) lost now = (false, record_failure db event message)
dispatch_one db event (added message_id) lost now =
    let (r, db') = publish_claimed db event message_id now in settle event lost r db'

-- The loop of dispatch_ready over the claimed events, with the outcome of each XADD and the stream
-- that it writes to. It returns the number of events dispatched and the stream entries made.
unfoldable pub dispatch_events :
    Db → List ClaimedOutboxEvent → (ClaimedOutboxEvent → Sent) → String → ℕ → ℕ × Db
dispatch_events db [] sent lost now = (0, db)
dispatch_events db (event ∷ events) sent lost now =
    let (done, db') = dispatch_one db event (sent event) lost now in
    let (n, db'') = dispatch_events db' events sent lost now in ((if done then suc n else n), db'')

-- dispatch_ready after claim_ready.
unfoldable pub dispatch_claimed :
    Result (List ClaimedOutboxEvent) → Db → (ClaimedOutboxEvent → Sent) → String → ℕ → Result ℕ × Db
dispatch_claimed (err f) db sent lost now = (err f, db)
dispatch_claimed (ok events) db sent lost now =
    let (n, db') = dispatch_events db events sent lost now in (ok n, db')

-- DurableOutboxDispatcher.dispatch_ready
unfoldable pub dispatch_ready :
    ℕ → Db → (ℕ → Bool) → String → ℕ → (ClaimedOutboxEvent → Sent) → String → ℕ → ℕ → Result ℕ × Db
dispatch_ready claim_seconds db locked claim_token batch_size sent lost utcnow now =
    let (claimed, db') = claim_ready claim_seconds db locked claim_token batch_size utcnow now in
    dispatch_claimed claimed db' sent lost now
