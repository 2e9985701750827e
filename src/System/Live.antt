-- ===== src/System/Live.antt =====
-- About the way of a waiting task from claim_ready of xingestion/outbox.py to lease_task.
use mathlib.Core.List.{Memᴰ}
use mathlib.Core.Option.{some-injective}
use xingestionv.Prelude.{
  ℕ, ◌+◌, ◌*◌, ◌≤◌, ◌<◌, ◌≡◌, refl, sym, ap, true, false, ◌&&◌, ◌||◌, none, some, List, [], ◌∷◌,
  String, arith, leb, subst, Option-cases, ◌∙◌, is_null, at_most, ◌==◌, ==_iff, inl, inr,
  Bool-cases,
}
use xingestionv.Schema.{Db, Task, OutboxRow, is_ready, is_enqueued, second, Result, ok}
use xingestionv.Table.{find, select, count, order_by}
use xingestionv.Table.Laws.{find-IsTrue}
use xingestionv.Table.Keyed.{find-keyed}
use xingestionv.Table.Members.{find-Memᴰ, select-Memᴰ, order_by-Memᴰ, limit_all, order_by-count}
use xingestionv.Tasks.{TaskLease, may_lease, leased_row, to_lease, lease_task}
use xingestionv.Outbox.{
  ClaimedOutboxEvent, Joined, join, may_claim, dispatched_before, may_enqueue, enqueued_row,
  to_event, claim_one, claim_rows, claimable, claim_ready,
}
use xingestionv.Ledger.{Inv, task_at, outbox_at}
use xingestionv.Ledger.Dispatch.{claim_ready-Inv}
use xingestionv.Ledger.Rows.{task_at-update}
use xingestionv.System.Rows.Claims.{Claimed, claim_one-Claimed, claim_rows-Claimed}

join-Memᴰ :
    (tasks : List Task) (rows : List OutboxRow) (o : OutboxRow) (t : Task)
    → find (λ s. s.id == o.task_id) tasks ≡ some t
    → Memᴰ o rows
    → Memᴰ (record { row = o; task = t }) (join tasks rows)
unfolding join
join-Memᴰ tasks [] o t h m = elim m [ ]
join-Memᴰ tasks (q ∷ rows) o t h (Memᴰ.head e) =
    rw (join, moved) (Memᴰ.head (ap (λ (x : OutboxRow). pair x) e))
  where
    pair : OutboxRow → Joined
    pair x = record { row = x; task = t }

    moved : find (λ s. s.id == q.task_id) tasks ≡ some t
    moved = subst (λ (x : OutboxRow). find (λ s. s.id == x.task_id) tasks ≡ some t) e h
join-Memᴰ tasks (q ∷ rows) o t h (Memᴰ.tail m) =
    elim (Option-cases (find (λ s. s.id == q.task_id) tasks)) [
      | inl e ↦ rw (e, join) (join-Memᴰ tasks rows o t h m)
      | inr (u, e) ↦ rw (e, join) (Memᴰ.tail (join-Memᴰ tasks rows o t h m))
    ]

module _ (token : String) (until now : ℕ) where
  claim_rows-Memᴰ :
      (rows : List Joined) (db : Db) (j : Joined)
      → Memᴰ j rows
      → Memᴰ (to_event token j) (claim_rows token until now rows db).0
  unfolding claim_rows
  claim_rows-Memᴰ [] db j m = elim m [ ]
  claim_rows-Memᴰ (k ∷ rows) db j (Memᴰ.head e) = Memᴰ.head (ap (to_event token) e)
  claim_rows-Memᴰ (k ∷ rows) db j (Memᴰ.tail m) =
      Memᴰ.tail (claim_rows-Memᴰ rows (claim_one token until now k db) j m)

  one_enqueues :
      (db : Db) (j : Joined) (i : ℕ) (t : Task)
      → j.row.task_id ≡ i
      → j.row.delivery_generation ≡ t.delivery_generation
      → task_at db i ≡ some t
      → is_ready t.status ≡ true
      → task_at (claim_one token until now j db) i ≡ some (enqueued_row now t)
  unfolding claim_one
  one_enqueues db j i t e g h r = ground (
    arith,
    task_at-update db (may_enqueue j.row.task_id j.row.delivery_generation) (enqueued_row now) i
        (λ a. refl),
    find-IsTrue (λ a. a.id == i) db.tasks t h,
  )

  stays_enqueued :
      (rows : List Joined) (db : Db) (i : ℕ) (t : Task)
      → task_at db i ≡ some (enqueued_row now t)
      → task_at (claim_rows token until now rows db).1 i ≡ some (enqueued_row now t)
  stays_enqueued rows db i t h =
      let (u, hu, cu) = claim_rows-Claimed token until now rows db i (enqueued_row now t) h in
      hu ∙ ap some (same u cu)
    where
      same : (u : Task) → Claimed now (enqueued_row now t) u → u ≡ enqueued_row now t
      same u (inl e) = e
      same u (inr (y, q)) = absurd (ground arith)

  -- The task of a listed row is ENQUEUED in the end.
  claim_rows_enqueues :
      (rows : List Joined) (db : Db) (j : Joined) (i : ℕ) (t : Task)
      → Memᴰ j rows
      → j.row.task_id ≡ i
      → j.row.delivery_generation ≡ t.delivery_generation
      → task_at db i ≡ some t
      → is_ready t.status ≡ true
      → task_at (claim_rows token until now rows db).1 i ≡ some (enqueued_row now t)
  unfolding claim_rows claim_one
  claim_rows_enqueues [] db j i t m e g h r = elim m [ ]
  claim_rows_enqueues (k ∷ rows) db j i t (Memᴰ.head x) e g h r =
      stays_enqueued rows (claim_one token until now k db) i t (
        one_enqueues db k i t (ground (arith, ap (λ (y : Joined). y.row.task_id) x))
          (ground (arith, ap (λ (y : Joined). y.row.delivery_generation) x)) h r)
  claim_rows_enqueues (k ∷ rows) db j i t (Memᴰ.tail m) e g h r =
      let (u, hu, cu) = claim_one-Claimed token until now k db i t h in
      elim cu [
        | inl q ↦
            claim_rows_enqueues rows (claim_one token until now k db) j i t m e g (hu ∙ ap some q) r
        | inr (y, q) ↦ stays_enqueued rows (claim_one token until now k db) i t (hu ∙ ap some q)
      ]

-- An ENQUEUED task is given to a worker that asks for its delivery.
enqueued_leases :
    (db : Db) (i g : ℕ) (t : Task) (worker : String) (seconds later : ℕ)
    → Inv db
    → task_at db i ≡ some t
    → t.delivery_generation ≡ g
    → is_enqueued t.status ≡ true
    → t.next_run_at ≤ later
    → (l : TaskLease) × ((lease_task db i g worker seconds later).0 ≡ some l)
unfolding lease_task
enqueued_leases db i g t worker seconds later v h e r d =
    (to_lease (leased_row worker seconds later t), ground (arith, found))
  where
    found : find (may_lease i g later) db.tasks ≡ some t
    found = ground (
      arith,
      find-keyed (λ a. a.id) i (may_lease i g later) db.tasks v.task_ids (λ a y. ground arith),
      find-IsTrue (λ a. a.id == i) db.tasks t h,
      h,
      e,
      d,
    )

-- In a well-formed ledger, a task that waits and whose outbox row is due reaches a worker: where no
-- row is locked and the batch takes all rows that can be claimed, claim_ready returns an event for
-- the task and its generation, and then lease_task gives the task to any worker that asks for this
-- delivery once the task's next run is due.
pub waiting_reaches_worker :
    (db : Db) (i : ℕ) (t : Task) (o : OutboxRow) (seconds batch utcnow now later lease_seconds : ℕ)
    (token worker : String)
    → Inv db
    → task_at db i ≡ some t
    → is_ready t.status ≡ true
    → outbox_at db i t.delivery_generation ≡ some o
    → o.available_at ≤ now
    → (is_null o.claim_expires_at || at_most o.claim_expires_at now) ≡ true
    → 0 < batch
    → count (λ j. true) (select (may_claim (λ k. false) now) (join db.tasks db.outbox)) ≤ batch
    → t.next_run_at ≤ later
    → (events : List ClaimedOutboxEvent) × ((claim_ready seconds db
          (λ k. false)
          token
          batch
          utcnow
          now).0
        ≡ ok events)
      × ((e : ClaimedOutboxEvent) × Memᴰ e events
          × (e.task_id ≡ i)
          × (e.generation ≡ t.delivery_generation))
      × ((l : TaskLease) × ((lease_task
              (claim_ready seconds db (λ k. false) token batch utcnow now).1
              i
              t.delivery_generation
              worker
              lease_seconds
              later).0
            ≡ some l))
unfolding claim_ready claimable
waiting_reaches_worker db i t o seconds batch utcnow now later lease_seconds token worker v h r ho a
      c b n d =
    rw claimed (
      events,
      refl,
      (to_event token j, claim_rows-Memᴰ token until now rows db j listed, task, generation),
      enqueued_leases last i t.delivery_generation (enqueued_row now t) worker lease_seconds later
          (subst (λ (p : Result (List ClaimedOutboxEvent) × Db). Inv p.1) claimed
            (claim_ready-Inv seconds db (λ k. false) token batch utcnow now v))
          (claim_rows_enqueues token until now rows db j i t listed task generation h r) refl refl
          d,
    )
  where
    until : ℕ
    until = utcnow + seconds * second

    rows : List Joined
    rows = claimable db (λ k. false) batch now

    j : Joined
    j = record { row = o; task = t }

    events : List ClaimedOutboxEvent
    events = (claim_rows token until now rows db).0

    last : Db
    last = (claim_rows token until now rows db).1

    claimed : claim_ready seconds db (λ k. false) token batch utcnow now ≡ (ok events, last)
    claimed = elim (Bool-cases (leb batch 0)) [ inl y ↦ absurd (ground arith) | inr m ↦ rw m refl ]

    task : o.task_id ≡ i
    task = ground (
      arith,
      find-IsTrue (λ q. q.task_id == i && q.delivery_generation == t.delivery_generation) db.outbox
          o ho,
      ==_iff o.task_id i,
    )

    generation : o.delivery_generation ≡ t.delivery_generation
    generation = ground (
      arith,
      find-IsTrue (λ q. q.task_id == i && q.delivery_generation == t.delivery_generation) db.outbox
          o ho,
      ==_iff o.delivery_generation t.delivery_generation,
    )

    due : List Joined
    due = select (may_claim (λ k. false) now) (join db.tasks db.outbox)

    unpublished : o.published_at ≡ none
    unpublished =
        let (q, hq, w) = v.tracked i t h in
        let same : q ≡ o = some-injective q o (sym hq ∙ ho) in
        subst (λ (x : OutboxRow). x.published_at ≡ none) same (w.unpublished r)

    may : may_claim (λ k. false) now j ≡ true
    may = ground (arith, unpublished, a, c, r, generation)

    listed : Memᴰ j rows
    listed =
        rw
          (limit_all batch (order_by dispatched_before due)
            (rw (order_by-count dispatched_before (λ k. true) due) n))
          (order_by-Memᴰ dispatched_before due j (
            select-Memᴰ (may_claim (λ k. false) now) (join db.tasks db.outbox) j may
              (join-Memᴰ db.tasks db.outbox o t (rw task h) (find-Memᴰ _ db.outbox o ho))))
