-- ===== src/Ledger/Create.antt =====
-- INSERT INTO worker_tasks with its outbox row, as create_task and replay make them.
use xingestionv.Prelude.{
  ℕ, suc, ◌≤◌, ◌≡◌, ◌≢◌, refl, Bool, true, Option, none, some, arith, if◌then◌else◌, ◌==◌, ==_iff,
  ◌&&◌, Option-cases, Bool-cases, inl, inr, str_eq, String, ℤ, leb,
}
use xingestionv.Json.{Fields}
use xingestionv.Schema.{Db, Task, OutboxRow, is_ready}
use xingestionv.Table.{find, insert}
use xingestionv.Table.Laws.{find-insert, find-IsTrue}
use xingestionv.Table.Keyed.{insert-Unique, find-keyed, find_self, Unique}
use xingestionv.Tasks.{upsert_task, insert_outbox, outbox_from_task, create_task, new_task, run_at}
use xingestionv.Ledger.{Inv, Sound, LeaseOk, TrackedAt, task_at, outbox_at}
use xingestionv.Ledger.Publish.{insert_outbox-Inv, insert_outbox_again}

-- A row that an INSERT makes: it has the next number and waits for a dispatcher.
pub record IsNew (db : Db) (new : Task) : Type 0 where
  pub id : new.id ≡ db.next_task
  pub ready : is_ready new.status ≡ true
  pub lease : LeaseOk new

-- The task was there, or is new and has no outbox row yet.
pub data Upserted (t : Task) (db' : Db) : Type 0 where
  old : Inv db' → task_at db' t.id ≡ some t → Upserted t db'
  made :
      Sound db'
      → task_at db' t.id ≡ some t
      → is_ready t.status ≡ true
      → outbox_at db' t.id t.delivery_generation ≡ none
      → ((i : ℕ) (s : Task) → i ≢ t.id → task_at db' i ≡ some s → TrackedAt db' i s)
      → Upserted t db'

-- The row found by any test is the one with its number.
pub task_at-find :
    (db : Db) (p : Task → Bool) (t : Task)
    → Unique (λ t. t.id) db.tasks
    → find p db.tasks ≡ some t
    → task_at db t.id ≡ some t
task_at-find db p t u e = find_self (λ a. a.id) p db.tasks t u e

module _ (db : Db) (new : Task) (n : IsNew db new) (v : Inv db) where
  abbrev drawn : Db
  drawn = record db { next_task = suc db.next_task }

  drawn-Inv : Inv drawn
  drawn-Inv = record {
    sound = record {
      task_ids = v.task_ids;
      outbox_ids = v.outbox_ids;
      fresh_task = λ i h. v.fresh_task i (omega arith);
      fresh_outbox = v.fresh_outbox;
      leased = v.leased;
      owned = v.owned;
      keyed = v.keyed;
    };
    tracked = v.tracked;
  }

  abbrev made_db : Db
  made_db = record db { tasks = insert new db.tasks; next_task = suc db.next_task }

  task_at-insert :
      (i : ℕ)
      → task_at made_db i
        ≡ elim (task_at db i) [ none ↦ if new.id == i then some new else none | some t ↦ some t ]
  task_at-insert i = find-insert _ _ db.tasks

  absent : task_at db new.id ≡ none
  absent = v.fresh_task new.id (omega (arith, n.id))

  leased : (i : ℕ) (t : Task) → task_at made_db i ≡ some t → LeaseOk t
  leased i t e = elim (Option-cases (task_at db i)) [
    | inl h ↦ let q : new ≡ t = ground (arith, task_at-insert i) in rw (← q) n.lease
    | inr (s, h) ↦ v.leased i t (ground (arith, task_at-insert i))
  ]

  owned :
      (i g : ℕ) (o : OutboxRow)
      → outbox_at db i g ≡ some o
      → (t : Task) × (task_at made_db i ≡ some t) × (g ≤ t.delivery_generation)
  owned i g o e = let (t, h, le) = v.owned i g o e in (t, ground (arith, task_at-insert i), le)

  no_outbox : outbox_at db new.id new.delivery_generation ≡ none
  no_outbox = elim (Option-cases (outbox_at db new.id new.delivery_generation)) [
    | inl h ↦ h
    | inr (o, h) ↦
        let (t, e, le) = v.owned new.id new.delivery_generation o h in
        absurd (ground (arith, absent))
  ]

  others : (i : ℕ) (s : Task) → i ≢ new.id → task_at made_db i ≡ some s → TrackedAt made_db i s
  others i s ne e = v.tracked i s (ground (arith, task_at-insert i, ==_iff new.id i))

  made-Upserted : Upserted new made_db
  made-Upserted =
      made
        (record {
          task_ids = insert-Unique (λ t. t.id) new db.tasks absent v.task_ids;
          outbox_ids = v.outbox_ids;
          fresh_task = λ i h. ground (arith, task_at-insert i, v.fresh_task i, n.id);
          fresh_outbox = v.fresh_outbox;
          leased = leased;
          owned = owned;
          keyed = v.keyed;
        })
        (ground (arith, task_at-insert new.id, absent)) n.ready no_outbox others

  pub upsert-Upserted : let (t, db') = upsert_task db new in Upserted t db'
  unfolding upsert_task
  upsert-Upserted =
      elim (Option-cases (find (λ t. str_eq t.idempotency_key new.idempotency_key) db.tasks)) [
        | inl h ↦ rw (h, upsert_task) made-Upserted
        | inr (t, h) ↦ rw (h, upsert_task) (old drawn-Inv (task_at-find db _ t v.task_ids h))
      ]

-- Publishing the row that upsert_task returns restores the ledger.
pub publish-Inv :
    {t : Task} {db' : Db} (available now : ℕ)
    → Upserted t db'
    → Inv (insert_outbox db' t.id t.delivery_generation available now)
publish-Inv {t} {db'} available now (old v h) =
    let (o, ho, w) = v.tracked t.id t h in
    insert_outbox_again db' t.id t.delivery_generation available now o ho v
publish-Inv {t} {db'} available now (made v h r absent others) =
    insert_outbox-Inv db' t.id t.delivery_generation available now absent v t h refl others

-- The SELECT of create_task finds the row, if it still waits for a dispatcher.
ready_row :
    (db : Db) (t : Task)
    → Unique (λ t. t.id) db.tasks
    → task_at db t.id ≡ some t
    → find (λ s. s.id == t.id && is_ready s.status) db.tasks
      ≡ (if is_ready t.status then some t else none)
ready_row db t u h = ground (
  arith,
  find-keyed (λ s. s.id) t.id (λ s. s.id == t.id && is_ready s.status) db.tasks u
      (λ a e. ground arith),
  find-IsTrue (λ s. s.id == t.id) db.tasks t h,
)

outbox_from_task-Inv :
    {t : Task} {db' : Db} (now : ℕ) → Upserted t db' → Inv (outbox_from_task db' t.id now)
unfolding outbox_from_task
outbox_from_task-Inv {t} {db'} now (old v h) = elim (Bool-cases (is_ready t.status)) [
  | inl y ↦
      rw (ready_row db' t v.task_ids h, y, outbox_from_task)
        (publish-Inv t.next_run_at now (old v h))
  | inr n ↦ rw (ready_row db' t v.task_ids h, n, outbox_from_task) v
]
outbox_from_task-Inv {t} {db'} now (made v h r out others) =
    rw (ready_row db' t v.task_ids h, r, outbox_from_task)
      (publish-Inv t.next_run_at now (made v h r out others))

-- create_task keeps the ledger well-formed, whatever its arguments.
pub create_task-Inv :
    (db : Db) (task_type : String) (payload : Fields) (key : String) (max_attempts : ℕ)
    (priority : ℤ) (next_run_at : Option ℕ) (utcnow now : ℕ)
    → Inv db
    → Inv (create_task db task_type payload key max_attempts priority next_run_at utcnow now).1
unfolding create_task
create_task-Inv db task_type payload key max_attempts priority next_run_at utcnow now v =
    elim (Bool-cases (str_eq key "")) [
      | inl y ↦ rw y v
      | inr n ↦ rw n (elim (Bool-cases (leb max_attempts 0)) [
        | inl y ↦ rw y v
        | inr m ↦ rw m (outbox_from_task-Inv now (upsert-Upserted db _ new v))
      ])
    ]
  where
    new : IsNew db (
        new_task db.next_task task_type payload max_attempts
          (run_at next_run_at utcnow)
          key
          priority
          none
          none
          now)
    new = record {
      id = refl;
      ready = refl;
      lease = record { owner = refl; started = refl; expires = refl };
    }
