-- ===== src/System/Rows/Numbers.antt =====
-- The numbers of tasks that the transactions draw, and the rows with them.
pub mod Replays
pub mod Steps
use xingestionv.Prelude.{
  ℕ, ◌+◌, pos_part, ◌<◌, ◌≡◌, refl, subst, sym, Bool, true, false, ◌&&◌, Option, none, List, [],
  ◌∷◌, String, ℤ, arith, Option-cases, Bool-cases, inl, inr, ◌==◌, ==_iff, str_eq, leb,
}
use xingestionv.Json.{Json, Fields}
use xingestionv.Schema.{Db, Task, DeadLetter, ReplayRow, Result, ok, err, is_ready}
use xingestionv.Results.{Ok, Ok-bind}
use xingestionv.Table.{find, count}
use xingestionv.Table.Laws.{find-insert}
use xingestionv.Tasks.{
  TaskLease, fence, retry_row, dead_row, upsert_task, insert_outbox, outbox_from_task, create_task,
  lease_task, complete_task, schedule_retry, dead_letter_task,
}
use xingestionv.Guard.{renew_once, release_for_recovery}
use xingestionv.Outbox.{
  Joined, may_enqueue, enqueued_row, claim_one, claim_rows, claimable, claim_ready, publish_claimed,
  record_failure,
}
use xingestionv.Replay.{
  ReplaySelector, commit, insert_replacement, insert_audit, mark_replayed, still_dead, replacement,
  replay_one, replay_rows, replayable, replay,
}
use xingestionv.Cleanup.{purge_tasks}
use xingestionv.Ledger.{Inv, task_at}
use xingestionv.Ledger.Purge.{task_at-purge}
use xingestionv.Ledger.Rows.{with_tasks, task_at-update}
use xingestionv.System.{
  Step, creates, leases, renews, releases, completes, retries, dies, claims, publishes, fails,
  replays, purges,
}

-- The number `i` has been drawn, and where `n` is true there is no row with it.
module _ (i : ℕ) (n : Bool) where
  pub record Drawn (db : Db) : Type 0 where
    pub number : i < db.next_task
    pub absent : n ≡ true → task_at db i ≡ none

  pub update-Drawn :
      (db : Db) (p : Task → Bool) (f : Task → Task)
      → ((t : Task) → (f t).id ≡ t.id)
      → Drawn db
      → Drawn (with_tasks db p f)
  update-Drawn db p f same h = record {
    number = h.number;
    absent = λ y. ground (arith, task_at-update db p f i same, h.absent y);
  }

  pub insert_outbox-Drawn : (db : Db) (k g at m : ℕ) → Drawn db → Drawn (insert_outbox db k g at m)
  unfolding insert_outbox
  insert_outbox-Drawn db k g at m h =
      elim (Option-cases (find (λ o. o.task_id == k && o.delivery_generation == g) db.outbox)) [
        | inl e ↦ rw (e, insert_outbox) (record { number = h.number; absent = h.absent })
        | inr (o, e) ↦ rw (e, insert_outbox) (record { number = h.number; absent = h.absent })
      ]

  pub upsert_task-Drawn :
      (db : Db) (new : Task) → new.id ≡ db.next_task → Drawn db → Drawn (upsert_task db new).1
  unfolding upsert_task
  upsert_task-Drawn db new e h =
      elim (Option-cases (find (λ t. str_eq t.idempotency_key new.idempotency_key) db.tasks)) [
        | inl k ↦
            rw (k, upsert_task)
              (record {
                number = omega (arith, h.number);
                absent = λ y. ground (
                  arith,
                  find-insert (λ t. t.id == i) new db.tasks,
                  h.absent y,
                  h.number,
                  e,
                  ==_iff new.id i,
                );
              })
        | inr (t, k) ↦
            rw (k, upsert_task) (record { number = omega (arith, h.number); absent = h.absent })
      ]

  outbox_from_task-Drawn : (db : Db) (k now : ℕ) → Drawn db → Drawn (outbox_from_task db k now)
  unfolding outbox_from_task
  outbox_from_task-Drawn db k now h =
      elim (Option-cases (find (λ t. t.id == k && is_ready t.status) db.tasks)) [
        | inl e ↦ rw (e, outbox_from_task) h
        | inr (t, e) ↦ rw (e, outbox_from_task) (insert_outbox-Drawn db _ _ _ _ h)
      ]

  pub create_task-Drawn :
      (db : Db) (task_type : String) (payload : Fields) (key : String) (max_attempts : ℕ)
      (priority : ℤ) (next_run_at : Option ℕ) (utcnow now : ℕ)
      → Drawn db
      → Drawn (create_task db task_type payload key max_attempts priority next_run_at utcnow now).1
  unfolding create_task
  create_task-Drawn db task_type payload key max_attempts priority next_run_at utcnow now h =
      elim (Bool-cases (str_eq key "")) [
        | inl y ↦ rw y h
        | inr m ↦ rw m (elim (Bool-cases (leb max_attempts 0)) [
          | inl y ↦ rw y h
          | inr k ↦ rw k (outbox_from_task-Drawn _ _ now (upsert_task-Drawn db _ refl h))
        ])
      ]
