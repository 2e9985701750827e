-- ===== src/System/Rows/Inserts.antt =====
-- The transactions that add rows to worker_tasks leave the rows that are there alone.
use xingestionv.Prelude.{
  ℕ, ◌≡◌, Bool, true, false, Option, some, List, [], ◌∷◌, String, ℤ, arith, Option-cases,
  Bool-cases, inl, inr, ◌==◌, ◌&&◌, str_eq, leb,
}
use xingestionv.Json.{Fields}
use xingestionv.Schema.{Db, Task, DeadLetter, ReplayRow, Result, ok, err, is_ready}
use xingestionv.Table.{find, count}
use xingestionv.Table.Laws.{find-insert}
use xingestionv.Tasks.{upsert_task, insert_outbox, outbox_from_task, create_task}
use xingestionv.Replay.{
  ReplaySelector, commit, insert_replacement, insert_audit, mark_replayed, still_dead, replacement,
  replay_one, replay_rows, replayable, replay,
}
use xingestionv.Ledger.{task_at}
use xingestionv.Results.{Ok, Ok-bind}
use xingestionv.System.Rows.Updates.{insert_outbox-tasks}

-- The row `t` is in its place.
abbrev pub Has : ℕ → Task → Db → Type 0
Has i t db = task_at db i ≡ some t

insert_outbox-Has :
    (i : ℕ) (t : Task) (db : Db) (k g at n : ℕ) → Has i t db → Has i t (insert_outbox db k g at n)
insert_outbox-Has i t db k g at n h = rw (insert_outbox-tasks db k g at n) h

upsert-Has : (i : ℕ) (t : Task) (db : Db) (new : Task) → Has i t db → Has i t (upsert_task db new).1
unfolding upsert_task
upsert-Has i t db new h =
    elim (Option-cases (find (λ s. str_eq s.idempotency_key new.idempotency_key) db.tasks)) [
      | inl e ↦ rw (e, upsert_task) (ground (arith, find-insert (λ s. s.id == i) new db.tasks))
      | inr (s, e) ↦ rw (e, upsert_task) h
    ]

outbox_from_task-Has :
    (i : ℕ) (t : Task) (db : Db) (k now : ℕ) → Has i t db → Has i t (outbox_from_task db k now)
unfolding outbox_from_task
outbox_from_task-Has i t db k now h =
    elim (Option-cases (find (λ s. s.id == k && is_ready s.status) db.tasks)) [
      | inl e ↦ rw (e, outbox_from_task) h
      | inr (s, e) ↦ rw (e, outbox_from_task) (insert_outbox-Has i t db _ _ _ _ h)
    ]

pub create_task-Has :
    (i : ℕ) (t : Task) (db : Db) (task_type : String) (payload : Fields) (key : String)
    (max_attempts : ℕ) (priority : ℤ) (next_run_at : Option ℕ) (utcnow now : ℕ)
    → Has i t db
    → Has i t (create_task db task_type payload key max_attempts priority next_run_at utcnow now).1
unfolding create_task
create_task-Has i t db task_type payload key max_attempts priority next_run_at utcnow now h =
    elim (Bool-cases (str_eq key "")) [
      | inl y ↦ rw y h
      | inr n ↦ rw n (elim (Bool-cases (leb max_attempts 0)) [
        | inl y ↦ rw y h
        | inr m ↦ rw m (outbox_from_task-Has i t _ _ now (upsert-Has i t db _ h))
      ])
    ]

insert_audit-Has :
    (i : ℕ) (t : Task) (db : Db) (row : ReplayRow) → Has i t db → Ok (Has i t) (insert_audit db row)
unfolding insert_audit
insert_audit-Has i t db row v =
    elim (Option-cases (
      find
        (λ r.
          r.dead_letter_id == row.dead_letter_id && r.replay_generation == row.replay_generation)
        db.replays)) [
          | inr (r, h) ↦ rw (h, insert_audit) v
          | inl h ↦
              elim (Option-cases (find (λ r. r.replay_task_id == row.replay_task_id) db.replays)) [
                | inr (r, k) ↦ rw (h, k, insert_audit) tt
                | inl k ↦ rw (h, k, insert_audit) v
              ]
        ]

mark_replayed-Has :
    (i : ℕ) (t : Task) (db : Db) (d : DeadLetter) (task_id now : ℕ)
    → Has i t db
    → Ok (λ p. Has i t p.1) (mark_replayed db d task_id now)
unfolding mark_replayed
mark_replayed-Has i t db d task_id now v =
    elim (Bool-cases (count (still_dead d.id) db.dead_letters == 1)) [
      | inl y ↦ rw y v
      | inr n ↦ rw n tt
    ]

insert_replacement-Has :
    (i : ℕ) (t : Task) (db : Db) (new : Task) (b : Bool)
    → Has i t db
    → Ok (λ p. Has i t p.1) (insert_replacement db new b)
unfolding insert_replacement
insert_replacement-Has i t db new true h = upsert-Has i t db new h
insert_replacement-Has i t db new false h = tt

module _ (i : ℕ) (t : Task) (s : ReplaySelector) (max : ℕ) (priority : ℤ) (now : ℕ) where
  replay_one-Has :
      (d : DeadLetter) (db : Db)
      → Has i t db
      → Ok (λ p. Has i t p.1) (replay_one s max priority now d db)
  unfolding replay_one
  replay_one-Has d db h =
      Ok-bind (λ p. Has i t p.1) (λ p. Has i t p.1) _ _
        (insert_replacement-Has i t db (replacement db.next_task max priority now d) _ h)
        λ (a, db') u.
          Ok-bind (Has i t) (λ p. Has i t p.1) _ _
            (insert_audit-Has i t _ _ (insert_outbox-Has i t db' _ _ _ _ u))
            λ db'' w. mark_replayed-Has i t db'' d a.id now w

  replay_rows-Has :
      (rows : List DeadLetter) (db : Db)
      → Has i t db
      → Ok (λ p. Has i t p.1) (replay_rows s max priority now rows db)
  unfolding replay_rows
  replay_rows-Has [] db v = v
  replay_rows-Has (d ∷ rows) db v =
      Ok-bind (λ p. Has i t p.1) (λ p. Has i t p.1) _ _ (replay_one-Has d db v)
        λ (r, db') w.
          Ok-bind (λ p. Has i t p.1) (λ p. Has i t p.1) _ _ (replay_rows-Has rows db' w) λ p x. x

commit-Has {ℓ} :
    {A : Type ℓ} (i : ℕ) (t : Task) (db : Db) (r : Result (A × Db))
    → Has i t db
    → Ok (λ p. Has i t p.1) r
    → Has i t (commit db r).1
commit-Has i t db (ok p) v h = h
commit-Has i t db (err f) v h = v

pub replay-Has :
    (i : ℕ) (t : Task) (db : Db) (s : ReplaySelector) (locked : ℕ → Bool) (n max : ℕ) (priority : ℤ)
    (now : ℕ)
    → Has i t db
    → Has i t (replay db s locked n max priority now).1
unfolding replay
replay-Has i t db s locked n max priority now v = elim (Bool-cases (leb n 0)) [
  | inl y ↦ rw y v
  | inr m ↦ rw m (elim (Bool-cases (leb max 0)) [
    | inl y ↦ rw y v
    | inr k ↦ rw k (
        commit-Has i t db _ v
          (replay_rows-Has i t s max priority now (replayable db s locked n) db v))
  ])
]
