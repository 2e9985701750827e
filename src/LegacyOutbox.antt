-- ===== src/LegacyOutbox.antt =====
-- `OutboxDispatcher` of xingestion/control_plane.py, the dispatcher before the durable one: it sends
-- to Redis inside its transaction. The answer to the XADD of an outbox row is given by its number,
-- `none` where the call raised; then the transaction is rolled back.
use xingestionv.Prelude.{
  ℕ, suc, refl, Bool, not, ◌&&◌, Option, none, some, List, [], ◌∷◌, String, ◌==◌, leb, is_null,
  Option-cases, inl, inr,
}
use xingestionv.Schema.{Db, OutboxRow, is_ready, Result, ok, err, runtime_error}
use xingestionv.Results.{Ok}
use xingestionv.Table.{select, update, limit, order_by}
use xingestionv.Table.All.{All, All-map}
use xingestionv.Outbox.{Joined, join, dispatched_before, may_enqueue, enqueued_row}
use xingestionv.Replay.{commit}
use xingestionv.Ledger.{Inv}
use xingestionv.Ledger.Dispatch.{Listed, KeepsKeys, marked-Inv, marked-Listed, selected-Listed}

-- The WHERE clause, and its SKIP LOCKED.
abbrev pub may_dispatch : (ℕ → Bool) → ℕ → Joined → Bool
may_dispatch locked now j =
    is_null j.row.published_at
    && (leb j.row.available_at now
        && (j.task.delivery_generation == j.row.delivery_generation
            && (is_ready j.task.status && not (locked j.row.id))))

abbrev pub sent_row : String → ℕ → OutboxRow → OutboxRow
sent_row message_id now o = record o {
  published_at = some now;
  redis_message_id = some message_id;
  publish_attempts = suc o.publish_attempts;
  last_error = none;
}

-- The two statements for a row that was sent.
unfoldable pub send_one : String → ℕ → Joined → Db → Db
send_one message_id now j db = record db {
  outbox = update (λ o. o.id == j.row.id) (sent_row message_id now) db.outbox;
  tasks = update (may_enqueue j.row.task_id j.row.delivery_generation) (enqueued_row now) db.tasks;
}

-- The loop, with the number of rows that it has dispatched.
unfoldable pub send_rows : (ℕ → Option String) → ℕ → List Joined → ℕ → Db → Result (ℕ × Db)
unfolding send_one
send_rows answers now [] dispatched db = ok (dispatched, db)
send_rows answers now (j ∷ rows) dispatched db = elim (answers j.row.id) [
  | none ↦ err runtime_error
  | some message_id ↦ send_rows answers now rows (suc dispatched) (send_one message_id now j db)
]

-- OutboxDispatcher.dispatch_ready
unfoldable pub dispatch_in_transaction :
    Db → (ℕ → Bool) → (ℕ → Option String) → ℕ → ℕ → Result ℕ × Db
unfolding send_rows
dispatch_in_transaction db locked answers batch_size now = commit db (
    send_rows answers now
      (limit batch_size
        (order_by dispatched_before (select (may_dispatch locked now) (join db.tasks db.outbox))))
      0 db)

sent-KeepsKeys : (message_id : String) (now : ℕ) → KeepsKeys (sent_row message_id now)
sent-KeepsKeys message_id now = record { id = λ o. refl; task = λ o. refl; generation = λ o. refl }

send_rows-Inv :
    (answers : ℕ → Option String) (now : ℕ) (rows : List Joined) (n : ℕ) (db : Db)
    → All (Listed db) rows
    → Inv db
    → Ok (λ r. Inv r.1) (send_rows answers now rows n db)
unfolding send_rows send_one
send_rows-Inv answers now [] n db h v = v
send_rows-Inv answers now (j ∷ rows) n db h v = elim (Option-cases (answers j.row.id)) [
  | inl e ↦ rw (e, send_rows) tt
  | inr (m, e) ↦
      rw (e, send_rows)
        (send_rows-Inv answers now rows (suc n) (send_one m now j db)
          (All-map (Listed db) _ rows
            (λ k. marked-Listed db (sent_row m now) now j k (sent-KeepsKeys m now)) h.1)
          (marked-Inv db (sent_row m now) (sent-KeepsKeys m now) now j h.0 v))
]

commit-Inv : (db : Db) (r : Result (ℕ × Db)) → Inv db → Ok (λ p. Inv p.1) r → Inv (commit db r).1
commit-Inv db (ok p) v h = h
commit-Inv db (err f) v h = v

-- The older dispatcher also keeps the ledger well-formed, whatever Redis answers.
pub dispatch_in_transaction-Inv :
    (db : Db) (locked : ℕ → Bool) (answers : ℕ → Option String) (batch now : ℕ)
    → Inv db
    → Inv (dispatch_in_transaction db locked answers batch now).1
unfolding dispatch_in_transaction
dispatch_in_transaction-Inv db locked answers batch now v =
    commit-Inv db _ v
      (send_rows-Inv answers now _ 0 db (selected-Listed db (may_dispatch locked now) batch v) v)
