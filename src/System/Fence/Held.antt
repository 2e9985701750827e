-- ===== src/System/Fence/Held.antt =====
-- What the ends of a task do on a lease that the ledger shows.
use xingestionv.Prelude.{
  ℕ, suc, ◌+◌, ◌≡◌, refl, ap, true, Option, none, some, String, ℤ, pos_part, arith, Option-cases,
  inl, inr, ◌==◌, ==_iff, if◌then◌else◌,
}
use xingestionv.Json.{Json}
use xingestionv.Schema.{Db, Task}
use xingestionv.Table.{find, count, insert}
use xingestionv.Table.Laws.{find-IsTrue}
use xingestionv.Table.Keyed.{find-keyed, count-keyed}
use xingestionv.Tasks.{
  TaskLease, fence, completed_row, complete_task, retry_row, schedule_retry, dead_row,
  dead_letter_task, archive_row, new_outbox_row,
}
use xingestionv.Ledger.{Inv, task_at, outbox_at}
use xingestionv.Ledger.Publish.{insert_outbox_lem}
use xingestionv.Ledger.Retry.{out}
use xingestionv.Ledger.Rows.{with_tasks, task_at-update}
use xingestionv.System.Fence.{Shows, Shows-fence}

module _ (db : Db) (l : TaskLease) (t : Task) (v : Inv db) (here : task_at db l.id ≡ some t)
    (w : Shows l t) where
  y : fence l t ≡ true
  y = Shows-fence db l t here w

  hit : find (fence l) db.tasks ≡ some t
  hit = ground (
    arith,
    find-keyed (λ a. a.id) l.id (fence l) db.tasks v.task_ids (λ a h. ground arith),
    here,
    y,
  )

  one : count (fence l) db.tasks ≡ 1
  one =
      ground (
        arith,
        count-keyed (λ a. a.id) l.id (fence l) db.tasks v.task_ids (λ a h. ground arith),
        hit,
      )

  -- The row of another task stays.
  other :
      (f : Task → Task) (i : ℕ)
      → ((a : Task) → (f a).id ≡ a.id)
      → task_at (with_tasks db (fence l) f) i ≡ (if l.id == i then some (f t) else task_at db i)
  other f i h = elim (Option-cases (task_at db i)) [
    | inl e ↦ ground (arith, task_at-update db (fence l) f i h, here, y, ==_iff l.id i)
    | inr (s, e) ↦ ground (
      arith,
      task_at-update db (fence l) f i h,
      here,
      y,
      ==_iff l.id i,
      ==_iff s.id l.id,
      find-IsTrue (λ a. a.id == i) db.tasks s e,
      ==_iff s.id i,
    )
  ]

  -- complete_task on a lease that the ledger shows: it returns true, completes exactly the leased
  -- task, and changes no other task and no other table.
  pub complete_task_held :
      (m : Option Json) (now i : ℕ)
      → ((complete_task db l m now).0 ≡ true)
        × (task_at (complete_task db l m now).1 i
            ≡ (if l.id == i then some (completed_row m now t) else task_at db i))
        × ((complete_task db l m now).1.outbox ≡ db.outbox)
        × ((complete_task db l m now).1.dead_letters ≡ db.dead_letters)
  unfolding complete_task
  complete_task_held m now i =
      (ground (arith, one), other (completed_row m now) i (λ a. refl), refl, refl)

  -- dead_letter_task on a lease that the ledger shows: it returns true, dead-letters exactly the
  -- leased task with one more attempt, and archives it in the same transaction.
  pub dead_letter_task_held :
      (e c : String) (now i : ℕ)
      → ((dead_letter_task db l e c now).0 ≡ true)
        × (task_at (dead_letter_task db l e c now).1 i
            ≡ (if l.id == i then some (dead_row e c now t) else task_at db i))
        × ((dead_letter_task db l e c now).1.dead_letters
            ≡ insert (archive_row db.next_dead_letter e c now (dead_row e c now t)) db.dead_letters)
        × ((dead_letter_task db l e c now).1.outbox ≡ db.outbox)
  unfolding dead_letter_task
  dead_letter_task_held e c now i =
      rw (hit, dead_letter_task) (refl, other (dead_row e c now) i (λ a. refl), refl, refl)

  -- schedule_retry on a lease that the ledger shows: it returns true, moves exactly the leased task
  -- to its next attempt and generation, due after the delay (a negative delay counts as none), and
  -- inserts the outbox row of that generation, due at the same time, in the same transaction.
  pub schedule_retry_held :
      (e : String) (d : ℤ) (c : String) (utcnow now i : ℕ)
      → ((schedule_retry db l e d c utcnow now).0 ≡ true)
        × (task_at (schedule_retry db l e d c utcnow now).1 i ≡ (
            if l.id == i then some (retry_row (utcnow + pos_part d) e c now t) else task_at db i))
        × ((schedule_retry db l e d c utcnow now).1.outbox
            ≡ insert
                (new_outbox_row db.next_outbox l.id
                  (suc t.delivery_generation)
                  (utcnow + pos_part d)
                  now)
                db.outbox)
  unfolding schedule_retry
  schedule_retry_held e d c utcnow now i =
      rw
        (
          hit,
          schedule_retry,
          insert_outbox_lem (with_tasks db (fence l) (retry_row (utcnow + pos_part d) e c now)) t.id
              (suc t.delivery_generation) (utcnow + pos_part d) now absent,
        )
        (
          refl,
          other (retry_row (utcnow + pos_part d) e c now) i (λ a. refl),
          ap
              (λ (k : ℕ).
                insert
                  (new_outbox_row db.next_outbox k (suc t.delivery_generation) (utcnow + pos_part d)
                    now)
                  db.outbox)
              same,
        )
    where
      same : t.id ≡ l.id
      same = ground (arith, ==_iff t.id l.id, y)

      absent :
          outbox_at
            (with_tasks db (fence l) (retry_row (utcnow + pos_part d) e c now))
            t.id
            (suc t.delivery_generation)
          ≡ none
      absent = out db l (utcnow + pos_part d) e c now v t hit
