-- ===== src/System/Rows/Numbers/Steps.antt =====
-- The numbers of tasks that the steps of the ledger draw.
use xingestionv.Prelude.{
  ℕ, ◌+◌, pos_part, ◌≡◌, refl, subst, sym, Bool, Option, List, [], ◌∷◌, String, ℤ, arith,
  Option-cases, Bool-cases, inl, inr, leb,
}
use xingestionv.Schema.{Db}
use xingestionv.Table.{find}
use xingestionv.Tasks.{
  TaskLease, fence, retry_row, dead_row, lease_task, complete_task, schedule_retry,
  dead_letter_task,
}
use xingestionv.Guard.{renew_once, release_for_recovery}
use xingestionv.Outbox.{
  Joined, may_enqueue, enqueued_row, claim_one, claim_rows, claimable, claim_ready, publish_claimed,
  record_failure,
}
use xingestionv.Cleanup.{purge_tasks}
use xingestionv.Ledger.{Inv}
use xingestionv.Ledger.Purge.{task_at-purge}
use xingestionv.Ledger.Rows.{with_tasks}
use xingestionv.System.{
  Step, creates, leases, renews, releases, completes, retries, dies, claims, publishes, fails,
  replays, purges,
}
use xingestionv.System.Rows.Numbers.{Drawn, update-Drawn, insert_outbox-Drawn, create_task-Drawn}
use xingestionv.System.Rows.Numbers.Replays.{replay-Drawn}

module _ (i : ℕ) (n : Bool) where
  claim_rows-Drawn :
      (token : String) (until now : ℕ) (rows : List Joined) (db : Db)
      → (Drawn i n) db
      → (Drawn i n) (claim_rows token until now rows db).1
  unfolding claim_rows claim_one
  claim_rows-Drawn token until now [] db h = h
  claim_rows-Drawn token until now (j ∷ rows) db h =
      claim_rows-Drawn token until now rows (claim_one token until now j db) (
        let w =
          update-Drawn i n db (may_enqueue j.row.task_id j.row.delivery_generation)
            (enqueued_row now) (λ t. refl) h in
        record { number = w.number; absent = w.absent })

  claim_ready-Drawn :
      (seconds : ℕ) (db : Db) (locked : ℕ → Bool) (token : String) (batch utcnow now : ℕ)
      → (Drawn i n) db
      → (Drawn i n) (claim_ready seconds db locked token batch utcnow now).1
  unfolding claim_ready
  claim_ready-Drawn seconds db locked token batch utcnow now h = elim (Bool-cases (leb batch 0)) [
    | inl y ↦ rw y h
    | inr m ↦ rw m (claim_rows-Drawn token _ now (claimable db locked batch now) db h)
  ]

  schedule_retry-Drawn :
      (db : Db) (l : TaskLease) (e : String) (d : ℤ) (c : String) (utcnow now : ℕ)
      → (Drawn i n) db
      → (Drawn i n) (schedule_retry db l e d c utcnow now).1
  unfolding schedule_retry
  schedule_retry-Drawn db l e d c utcnow now h =
      let w : (Drawn i n) (with_tasks db (fence l) (retry_row (utcnow + pos_part d) e c now)) =
        update-Drawn i n db (fence l) (retry_row (utcnow + pos_part d) e c now) (λ t. refl) h in
      elim (Option-cases (find (fence l) db.tasks)) [
        | inl k ↦ rw (k, schedule_retry) w
        | inr (t, k) ↦ rw (k, schedule_retry) (insert_outbox-Drawn i n _ _ _ _ now w)
      ]

  dead_letter_task-Drawn :
      (db : Db) (l : TaskLease) (e c : String) (now : ℕ)
      → (Drawn i n) db
      → (Drawn i n) (dead_letter_task db l e c now).1
  unfolding dead_letter_task
  dead_letter_task-Drawn db l e c now h =
      let w : (Drawn i n) (with_tasks db (fence l) (dead_row e c now)) =
        update-Drawn i n db (fence l) (dead_row e c now) (λ t. refl) h in
      elim (Option-cases (find (fence l) db.tasks)) [
        | inl k ↦ rw (k, dead_letter_task) w
        | inr (t, k) ↦ rw (k, dead_letter_task) (record { number = w.number; absent = w.absent })
      ]

  purge_tasks-Drawn : (db : Db) → Inv db → (Drawn i n) db → (Drawn i n) (purge_tasks db)
  unfolding purge_tasks
  purge_tasks-Drawn db v h = record {
    number = h.number;
    absent = λ y. ground (arith, task_at-purge db v i, h.absent y);
  }

  moved : {db' b : Db} → db' ≡ b → (Drawn i n) b → (Drawn i n) db'
  moved e h = subst (Drawn i n) (sym e) h

  pub Step-Drawn :
      {now : ℕ} {actor : Option TaskLease} {db db' : Db}
      → Inv db
      → Step now actor db db'
      → (Drawn i n) db
      → (Drawn i n) db'
  unfolding lease_task renew_once release_for_recovery complete_task publish_claimed record_failure
  Step-Drawn v (creates a b c d e f g eq) h = moved eq (create_task-Drawn i n _ a b c d e f g _ h)
  Step-Drawn v (leases k g w s eq) h = moved eq (update-Drawn i n _ _ _ (λ t. refl) h)
  Step-Drawn v (renews l g m c _ eq) h = moved eq (update-Drawn i n _ _ _ (λ t. refl) h)
  Step-Drawn v (releases l _ eq) h = moved eq (update-Drawn i n _ _ _ (λ t. refl) h)
  Step-Drawn v (completes l m _ eq) h = moved eq (update-Drawn i n _ _ _ (λ t. refl) h)
  Step-Drawn v (retries l e d c u _ eq) h = moved eq (schedule_retry-Drawn _ l e d c u _ h)
  Step-Drawn v (dies l e c _ eq) h = moved eq (dead_letter_task-Drawn _ l e c _ h)
  Step-Drawn v (claims s k c b u eq) h = moved eq (claim_ready-Drawn s _ k c b u _ h)
  Step-Drawn v (publishes e m eq) h = moved eq (record { number = h.number; absent = h.absent })
  Step-Drawn v (fails e m eq) h = moved eq (record { number = h.number; absent = h.absent })
  Step-Drawn v (replays s k limit m p eq) h = moved eq (replay-Drawn i n _ s k limit m p _ h)
  Step-Drawn v (purges eq) h = moved eq (purge_tasks-Drawn _ v h)
