-- ===== src/Ledger/Updates.antt =====
-- The statements that change one row of worker_tasks keep the ledger well-formed, for any lease,
-- also one that is stale or was never given.
use xingestionv.Prelude.{ℕ, refl, Option, List, String, arith, Option-cases, inl, inr}
use xingestionv.Json.{Json}
use xingestionv.Schema.{Db}
use xingestionv.Table.{find}
use xingestionv.Tasks.{
  TaskLease, may_lease, leased_row, lease_task, fence, completed_row, complete_task, dead_row,
  dead_letter_task,
}
use xingestionv.Guard.{
  TaskLeaseGuard, may_renew, renewed_row, renew_once, released_row, release_for_recovery,
}
use xingestionv.Ledger.{Inv}
use xingestionv.Ledger.Rows.{Gentle, update-Inv, aside-Inv}

lease-Gentle :
    (i g now seconds : ℕ) (worker : String)
    → Gentle (may_lease i g now) (leased_row worker seconds now)
lease-Gentle i g now seconds worker = record {
  id = λ t. refl;
  generation = λ t. refl;
  ready = λ t e. ground arith;
  lease = λ t h l. record { owner = refl; started = refl; expires = refl };
}

pub lease_task-Inv :
    (db : Db) (i g seconds now : ℕ) (worker : String)
    → Inv db
    → Inv (lease_task db i g worker seconds now).1
unfolding lease_task
lease_task-Inv db i g seconds now worker v =
    update-Inv db _ _ (lease-Gentle i g now seconds worker) v

complete-Gentle :
    (l : TaskLease) (m : Option Json) (now : ℕ) → Gentle (fence l) (completed_row m now)
complete-Gentle l m now = record {
  id = λ t. refl;
  generation = λ t. refl;
  ready = λ t e. ground arith;
  lease = λ t h o. record { owner = refl; started = refl; expires = refl };
}

pub complete_task-Inv :
    (db : Db) (l : TaskLease) (m : Option Json) (now : ℕ)
    → Inv db
    → Inv (complete_task db l m now).1
unfolding complete_task
complete_task-Inv db l m now v = update-Inv db _ _ (complete-Gentle l m now) v

dead-Gentle : (l : TaskLease) (e c : String) (now : ℕ) → Gentle (fence l) (dead_row e c now)
dead-Gentle l e c now = record {
  id = λ t. refl;
  generation = λ t. refl;
  ready = λ t e. ground arith;
  lease = λ t h o. record { owner = refl; started = refl; expires = refl };
}

pub dead_letter_task-Inv :
    (db : Db) (l : TaskLease) (e c : String) (now : ℕ)
    → Inv db
    → Inv (dead_letter_task db l e c now).1
unfolding dead_letter_task
dead_letter_task-Inv db l e c now v = elim (Option-cases (find (fence l) db.tasks)) [
  | inl h ↦ rw (h, dead_letter_task) (update-Inv db _ _ (dead-Gentle l e c now) v)
  | inr (t, h) ↦
      rw (h, dead_letter_task) (aside-Inv _ _ _ _ _ (update-Inv db _ _ (dead-Gentle l e c now) v))
]

renew-Gentle :
    (l : TaskLease) (now seconds : ℕ) → Gentle (may_renew l now) (renewed_row seconds now)
renew-Gentle l now seconds = record {
  id = λ t. refl;
  generation = λ t. refl;
  ready = λ t e. e;
  lease = λ t h o. record { owner = o.owner; started = o.started; expires = ground arith };
}

pub renew_once-Inv :
    (guard : TaskLeaseGuard) (db : Db) (l : TaskLease) (message : String)
    (claimed : Option (List String)) (now : ℕ)
    → Inv db
    → Inv (renew_once guard db l message claimed now).1
unfolding renew_once
renew_once-Inv guard db l message claimed now v =
    update-Inv db _ _ (renew-Gentle l now guard.lease_seconds) v

release-Gentle : (l : TaskLease) (now : ℕ) → Gentle (fence l) (released_row now)
release-Gentle l now = record {
  id = λ t. refl;
  generation = λ t. refl;
  ready = λ t e. ground arith;
  lease = λ t h o. record { owner = refl; started = refl; expires = refl };
}

pub release_for_recovery-Inv :
    (db : Db) (l : TaskLease) (now : ℕ) → Inv db → Inv (release_for_recovery db l now).1
unfolding release_for_recovery
release_for_recovery-Inv db l now v = update-Inv db _ _ (release-Gentle l now) v
