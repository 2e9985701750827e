-- ===== src/System/Fence.antt =====
-- The fence: what the ledger does with a lease that it shows, and with one that it shows no longer.
pub mod Held
pub mod Columns
pub mod Ends
use xingestionv.Prelude.{
  eq_iff, is_text, Bool-cases, ◌≢◌, ◌⊎◌, ℕ, suc, ◌+◌, ◌≡◌, refl, ap, true, false, Option, none,
  some, List, String, ℤ, pos_part, arith, Option-cases, inl, inr, ◌==◌, ==_iff, if◌then◌else◌,
}
use xingestionv.Json.{Json}
use xingestionv.Schema.{Db, Task, err, task_lease_lost, running}
use xingestionv.Table.{find, count, insert}
use xingestionv.Table.Laws.{find-IsTrue, update-none, count-none, find-eq-none}
use xingestionv.Table.Keyed.{find-keyed, count-keyed}
use xingestionv.Tasks.{
  TaskLease, fence, completed_row, complete_task, retry_row, schedule_retry, dead_row,
  dead_letter_task, archive_row, new_outbox_row,
}
use xingestionv.Guard.{
  TaskLeaseGuard, may_renew, renewed_row, renew_once, released_row, release_for_recovery,
}
use xingestionv.Ledger.{Inv, task_at, outbox_at}
use xingestionv.Ledger.Publish.{insert_outbox_lem}
use xingestionv.Ledger.Retry.{out}
use xingestionv.Ledger.Rows.{with_tasks, task_at-update}

-- The ledger does not show the lease: the task is gone, or its row has another generation, another
-- owner, or is not RUNNING.
abbrev pub IsStale : Db → TaskLease → Type 0
IsStale db l =
    (t : Task)
    → task_at db l.id ≡ some t
    → (t.delivery_generation ≢ l.delivery_generation)
      ⊎ (t.lease_owner ≢ some l.lease_owner)
      ⊎ (t.status ≢ running)

-- The row `t` is RUNNING under the lease: it has its generation and its owner.
pub record Shows (l : TaskLease) (t : Task) : Type 0 where
  pub generation : t.delivery_generation ≡ l.delivery_generation
  pub owner : t.lease_owner ≡ some l.lease_owner
  pub status : t.status ≡ running

-- The WHERE clause on a lease, read as a statement about the row.
is_text-eq : (o : Option String) (s : String) → is_text o s ≡ true → o ≡ some s
is_text-eq none s h = cc
is_text-eq (some r) s h = ap some ((eq_iff r s).0 h)

pub fence-Shows : (l : TaskLease) (t : Task) → fence l t ≡ true → Shows l t
fence-Shows l t y = record {
  generation = ground (arith, ==_iff t.delivery_generation l.delivery_generation);
  owner = is_text-eq t.lease_owner l.lease_owner (ground arith);
  status = ground arith;
}

pub Shows-fence :
    (db : Db) (l : TaskLease) (t : Task) → task_at db l.id ≡ some t → Shows l t → fence l t ≡ true
Shows-fence db l t h w = ground (
  arith,
  find-IsTrue (λ a. a.id == l.id) db.tasks t h,
  w.generation,
  w.owner,
  w.status,
  ==_iff t.delivery_generation l.delivery_generation,
  eq_iff l.lease_owner l.lease_owner,
)

stale-fence :
    (l : TaskLease) (t : Task)
    → (t.delivery_generation ≢ l.delivery_generation)
      ⊎ (t.lease_owner ≢ some l.lease_owner)
      ⊎ (t.status ≢ running)
    → fence l t ≡ false
stale-fence l t s = elim (Bool-cases (fence l t)) [
  | inr n ↦ n
  | inl y ↦ absurd (clash (fence-Shows l t y) s)
]
  where
    clash :
        Shows l t
        → (t.delivery_generation ≢ l.delivery_generation)
          ⊎ (t.lease_owner ≢ some l.lease_owner)
          ⊎ (t.status ≢ running)
        → ⊥
    clash w (inl n) = n w.generation
    clash w (inr (inl n)) = n w.owner
    clash w (inr (inr n)) = n w.status

fence-keyed :
    (db : Db) (l : TaskLease)
    → Inv db
    → find (fence l) db.tasks
      ≡ elim (task_at db l.id) [ none ↦ none | some t ↦ if fence l t then some t else none ]
fence-keyed db l v = find-keyed (λ a. a.id) l.id (fence l) db.tasks v.task_ids (λ a y. ground arith)

fence-miss : (db : Db) (l : TaskLease) → Inv db → IsStale db l → find (fence l) db.tasks ≡ none
fence-miss db l v s = elim (Option-cases (task_at db l.id)) [
  | inl h ↦ ground (arith, fence-keyed db l v)
  | inr (t, h) ↦ ground (arith, fence-keyed db l v, stale-fence l t (s t h))
]

-- The row that the WHERE clause of a lease finds is the row of its task, and shows the lease.
pub fence-held :
    (db : Db) (l : TaskLease) (t : Task)
    → Inv db
    → find (fence l) db.tasks ≡ some t
    → (task_at db l.id ≡ some t) × Shows l t
fence-held db l t v h = (
  elim (Option-cases (task_at db l.id)) [
    | inl e ↦ absurd (ground (arith, fence-keyed db l v))
    | inr (s, e) ↦ ground (arith, fence-keyed db l v)
  ],
  fence-Shows l t (find-IsTrue (fence l) db.tasks t h),
)

-- A lease that the ledger does not show is refused by every transaction on it: the call reports the
-- loss, and the ledger stays as it was.
pub stale_refused :
    (db : Db) (l : TaskLease) (m : Option Json) (e c : String) (d : ℤ) (guard : TaskLeaseGuard)
    (message : String) (claimed : Option (List String)) (utcnow now : ℕ)
    → Inv db
    → IsStale db l
    → (complete_task db l m now ≡ (false, db))
      × (schedule_retry db l e d c utcnow now ≡ (false, db))
      × (dead_letter_task db l e c now ≡ (false, db))
      × (release_for_recovery db l now ≡ (false, db))
      × (renew_once guard db l message claimed now ≡ (err task_lease_lost, db))
unfolding complete_task schedule_retry dead_letter_task release_for_recovery renew_once
stale_refused db l m e c d guard message claimed utcnow now v s = (
  ground (arith, none_left, update-none (fence l) (completed_row m now) db.tasks miss),
  rw (miss, schedule_retry)
      (ground
        (arith, update-none (fence l) (retry_row (utcnow + pos_part d) e c now) db.tasks miss)),
  rw (miss, dead_letter_task)
      (ground (arith, update-none (fence l) (dead_row e c now) db.tasks miss)),
  ground (arith, none_left, update-none (fence l) (released_row now) db.tasks miss),
  ground (
    arith,
    count-none (may_renew l now) db.tasks renew_miss,
    update-none (may_renew l now) (renewed_row guard.lease_seconds now) db.tasks renew_miss,
  ),
)
  where
    miss : find (fence l) db.tasks ≡ none
    miss = fence-miss db l v s

    none_left : count (fence l) db.tasks ≡ 0
    none_left = count-none (fence l) db.tasks miss

    renew_miss : find (may_renew l now) db.tasks ≡ none
    renew_miss = find-eq-none (may_renew l now) (fence l) db.tasks miss (λ a y. ground arith)
