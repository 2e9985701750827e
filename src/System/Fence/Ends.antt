-- ===== src/System/Fence/Ends.antt =====
-- The ends of a lease that the ledger shows, column by column.
use xingestionv.Prelude.{
  Bool, ℤ, pos_part, ◌+◌, ℕ, suc, ◌≡◌, ◌≢◌, ◌∙◌, true, Option, some, String, ==_iff, ◌==◌,
  if◌then◌else◌, arith,
}
use xingestionv.Json.{Json}
use xingestionv.Schema.{Db, Task, OutboxRow, DeadLetter}
use xingestionv.Table.{insert}
use xingestionv.Tasks.{
  TaskLease, complete_task, completed_row, schedule_retry, dead_letter_task, insert_outbox,
  retry_row, dead_row, archive_row, new_outbox_row,
}
use xingestionv.Ledger.{Inv, task_at}
use xingestionv.System.Fence.{Shows}
use xingestionv.System.Fence.Held.{complete_task_held, schedule_retry_held, dead_letter_task_held}
use xingestionv.System.Fence.Columns.{
  IsCompleted, IsRetried, IsDead, Announces, Archives, completed_row-IsCompleted,
  retry_row-IsRetried, dead_row-IsDead, archive_row-Archives, new_outbox_row-Announces,
}

-- The row at its own key, and at another one.
pub if_same : (i : ℕ) (a b : Option Task) → (if i == i then a else b) ≡ a
if_same i a b = ground (arith, ==_iff i i)

pub if_other : (i j : ℕ) (a b : Option Task) → i ≢ j → (if i == j then a else b) ≡ b
if_other i j a b n = ground (arith, ==_iff i j)

-- complete_task on a lease that the ledger shows: it returns true, the leased row is DONE at `now`
-- without an owner or an error, with the given metadata or else its own, in the same attempt and
-- generation, and no other task, no outbox row and no dead letter changes.
pub complete_task_completes :
    (db : Db) (l : TaskLease) (t : Task) (m : Option Json) (now i : ℕ)
    → Inv db
    → task_at db l.id ≡ some t
    → Shows l t
    → l.id ≢ i
    → ((complete_task db l m now).0 ≡ true)
      × ((u : Task) × (task_at (complete_task db l m now).1 l.id ≡ some u) × IsCompleted m now t u)
      × (task_at (complete_task db l m now).1 i ≡ task_at db i)
      × ((complete_task db l m now).1.outbox ≡ db.outbox)
      × ((complete_task db l m now).1.dead_letters ≡ db.dead_letters)
complete_task_completes db l t m now i v here w n =
    let (returned, at_own, outbox, dead) = complete_task_held db l t v here w m now l.id in
    (
      returned,
      (completed_row m now t, at_own ∙ if_same l.id _ _, completed_row-IsCompleted t now m),
      (complete_task_held db l t v here w m now i).1 ∙ if_other l.id i _ _ n,
      outbox,
      dead,
    )

-- A task that is retried: what the call returns and the ledger after it show the leased row
-- rescheduled for `due`, one more message for it, and no change of the task `i` or of a dead letter.
pub record Rescheduled (db : Db) (l : TaskLease) (t : Task) (due : ℕ) (e c : String) (i : ℕ)
    (result : Bool × Db) : Type 0 where
  pub returned : result.0 ≡ true
  pub row : (u : Task) × (task_at result.1 l.id ≡ some u) × IsRetried due e c t u
  pub message :
      (o : OutboxRow) × (result.1.outbox ≡ insert o db.outbox)
      × Announces l.id (suc t.delivery_generation) due o
  pub other : task_at result.1 i ≡ task_at db i
  pub dead_letters : result.1.dead_letters ≡ db.dead_letters

-- A task that is given up: what the call returns and the ledger after it show the leased row dead,
-- one more dead letter for it, and no change of the task `i` or of the outbox.
pub record Buried (db : Db) (l : TaskLease) (t : Task) (e c : String) (i : ℕ) (result : Bool × Db)
    : Type 0 where
  pub returned : result.0 ≡ true
  pub row : (u : Task) × (task_at result.1 l.id ≡ some u) × IsDead e c t u
  pub archive :
      (d : DeadLetter) × (result.1.dead_letters ≡ insert d db.dead_letters) × Archives t e c d
  pub other : task_at result.1 i ≡ task_at db i
  pub outbox : result.1.outbox ≡ db.outbox

module _ (db : Db) (l : TaskLease) (t : Task) (v : Inv db) (here : task_at db l.id ≡ some t)
    (w : Shows l t) (e c : String) (now i : ℕ) (another : l.id ≢ i) where
  retry-dead_letters :
      (d : ℤ) (utcnow : ℕ) → (schedule_retry db l e d c utcnow now).1.dead_letters ≡ db.dead_letters
  unfolding schedule_retry insert_outbox
  retry-dead_letters d utcnow = ground arith

  pub schedule_retry-Rescheduled :
      (d : ℤ) (utcnow : ℕ)
      → Rescheduled db l t (utcnow + pos_part d) e c i (schedule_retry db l e d c utcnow now)
  schedule_retry-Rescheduled d utcnow =
      let due = utcnow + pos_part d in
      let (returned, own, message) = schedule_retry_held db l t v here w e d c utcnow now l.id in
      let (_, that, _) = schedule_retry_held db l t v here w e d c utcnow now i in
      record {
        returned = returned;
        row = (retry_row due e c now t, own ∙ if_same l.id _ _, retry_row-IsRetried t now due e c);
        message = (
          new_outbox_row db.next_outbox l.id (suc t.delivery_generation) due now,
          message,
          new_outbox_row-Announces db.next_outbox l.id (suc t.delivery_generation) due now,
        );
        other = that ∙ if_other l.id i _ _ another;
        dead_letters = retry-dead_letters d utcnow;
      }

  pub dead_letter_task-Buried : Buried db l t e c i (dead_letter_task db l e c now)
  dead_letter_task-Buried =
      let (returned, own, archive, outbox) = dead_letter_task_held db l t v here w e c now l.id in
      let (_, that, _, _) = dead_letter_task_held db l t v here w e c now i in
      record {
        returned = returned;
        row = (dead_row e c now t, own ∙ if_same l.id _ _, dead_row-IsDead t now e c);
        archive = (
          archive_row db.next_dead_letter e c now (dead_row e c now t),
          archive,
          archive_row-Archives t now db.next_dead_letter e c,
        );
        other = that ∙ if_other l.id i _ _ another;
        outbox = outbox;
      }
