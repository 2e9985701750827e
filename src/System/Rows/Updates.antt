-- ===== src/System/Rows/Updates.antt =====
-- The transactions that update rows of worker_tasks.
use xingestionv.Prelude.{
  ℕ, ◌≡◌, refl, Bool, true, Option, some, List, String, ℤ, pos_part, ◌+◌, arith, Option-cases,
  Bool-cases, inl, inr,
}
use xingestionv.Json.{Json}
use xingestionv.Schema.{Db, Task}
use xingestionv.Table.{find, update}
use xingestionv.Tasks.{
  TaskLease, may_lease, leased_row, lease_task, fence, completed_row, complete_task, retry_row,
  schedule_retry, dead_row, dead_letter_task, insert_outbox,
}
use xingestionv.Guard.{
  TaskLeaseGuard, may_renew, renewed_row, renew_once, released_row, release_for_recovery,
}
use xingestionv.Cleanup.{purged, orphaned, unlinked_row, purge_tasks, purges}
use xingestionv.Ledger.{Inv, task_at}
use xingestionv.Ledger.Rows.{with_tasks, task_at-update}
use xingestionv.Ledger.Purge.{task_at-purge}
use xingestionv.System.Rows.{
  RowStep, stays, leases, renews, releases, completes, retries, dies, unlinks, Next, row, gone,
}

pub insert_outbox-tasks : (b : Db) (k g at n : ℕ) → (insert_outbox b k g at n).tasks ≡ b.tasks
unfolding insert_outbox
insert_outbox-tasks b k g at n = ground arith

module _ (now : ℕ) (actor : Option TaskLease) (db : Db) (i : ℕ) (t : Task)
    (here : task_at db i ≡ some t) where
  -- An UPDATE whose SET clause is a transition under its WHERE clause.
  update-Next :
      (p : Task → Bool) (f : Task → Task)
      → ((a : Task) → (f a).id ≡ a.id)
      → (p t ≡ true → RowStep now actor t (f t))
      → Next now actor t (task_at (with_tasks db p f) i)
  update-Next p f h step = elim (Bool-cases (p t)) [
    | inl y ↦ row (f t) (ground (arith, task_at-update db p f i h, here)) (step y)
    | inr n ↦ row t (ground (arith, task_at-update db p f i h, here)) (stays refl)
  ]

  pub lease-Next :
      (k g seconds : ℕ) (worker : String)
      → Next now actor t (task_at (lease_task db k g worker seconds now).1 i)
  unfolding lease_task
  lease-Next k g seconds worker =
      update-Next (may_lease k g now) (leased_row worker seconds now) (λ a. refl)
        (λ y. leases k g seconds worker y refl)

  module _ (l : TaskLease) (by : actor ≡ some l) where
    pub renew-Next :
        (guard : TaskLeaseGuard) (m : String) (c : Option (List String))
        → Next now actor t (task_at (renew_once guard db l m c now).1 i)
    unfolding renew_once
    renew-Next guard m c =
        update-Next (may_renew l now) (renewed_row guard.lease_seconds now) (λ a. refl)
          (λ y. renews l guard.lease_seconds by y refl)

    pub release-Next : Next now actor t (task_at (release_for_recovery db l now).1 i)
    unfolding release_for_recovery
    release-Next = update-Next (fence l) (released_row now) (λ a. refl) (λ y. releases l by y refl)

    pub complete-Next :
        (m : Option Json) → Next now actor t (task_at (complete_task db l m now).1 i)
    unfolding complete_task
    complete-Next m =
        update-Next (fence l) (completed_row m now) (λ a. refl) (λ y. completes l m by y refl)

    dead_letter-tasks :
        (e c : String)
        → (dead_letter_task db l e c now).1.tasks ≡ update (fence l) (dead_row e c now) db.tasks
    unfolding dead_letter_task
    dead_letter-tasks e c = ground arith

    pub dead-Next : (e c : String) → Next now actor t (task_at (dead_letter_task db l e c now).1 i)
    dead-Next e c =
        rw (dead_letter-tasks e c)
          (update-Next (fence l) (dead_row e c now) (λ a. refl) (λ y. dies l e c by y refl))

    retry-tasks :
        (e : String) (d : ℤ) (c : String) (utc : ℕ)
        → (schedule_retry db l e d c utc now).1.tasks
          ≡ update (fence l) (retry_row (utc + pos_part d) e c now) db.tasks
    unfolding schedule_retry
    retry-tasks e d c utc = elim (Option-cases (find (fence l) db.tasks)) [
      | inl h ↦ rw (h, schedule_retry)
      | inr (a, h) ↦ rw (h, schedule_retry) (insert_outbox-tasks _ _ _ _ _)
    ]

    pub retry-Next :
        (e : String) (d : ℤ) (c : String) (utc : ℕ)
        → Next now actor t (task_at (schedule_retry db l e d c utc now).1 i)
    retry-Next e d c utc = rw (retry-tasks e d c utc) (
        update-Next (fence l) (retry_row (utc + pos_part d) e c now) (λ a. refl)
          (λ y. retries l (utc + pos_part d) e c by y refl))

  pub purge-Next : Inv db → Next now actor t (task_at (purge_tasks db) i)
  purge-Next v = elim (Bool-cases (purged t)) [
    | inl y ↦ gone y (ground (arith, task_at-purge db v i, here))
    | inr n ↦ elim (Bool-cases (orphaned (purges db) t.origin_task_id)) [
      | inl o ↦ row (unlinked_row t) (ground (arith, task_at-purge db v i, here)) (unlinks refl)
      | inr o ↦ row t (ground (arith, task_at-purge db v i, here)) (stays refl)
    ]
  ]
