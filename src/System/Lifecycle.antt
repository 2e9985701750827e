-- ===== src/System/Lifecycle.antt =====
-- The life cycle of a task, column by column, and the transactions of System as its transitions.
use xingestionv.Prelude.{
  ℕ, ◌≡◌, ◌⊎◌, inl, inr, refl, true, ◌||◌, ◌&&◌, Option, none, some, String, ◌≤◌, ◌<◌, ◌+◌, ◌*◌,
  at_most, after, arith,
}
use xingestionv.Json.{Json}
use xingestionv.Schema.{
  Db, Task, TaskStatus, pending, retry_scheduled, enqueued, running, done, dead_letter, is_ready,
  second, is_enqueued, is_running,
}
use xingestionv.Tasks.{TaskLease}
use xingestionv.Ledger.{Inv, task_at}
use xingestionv.System.{Step}
use xingestionv.System.Fence.{Shows, fence-Shows}
use xingestionv.System.Fence.Columns.{
  SameWork, Unowned, IsCompleted, IsRetried, IsDead, completed_row-IsCompleted, retry_row-IsRetried,
  dead_row-IsDead,
}
use xingestionv.System.Rows.{
  RowStep, stays, enqueues, leases, renews, releases, completes, retries, dies, unlinks, Next, row,
  gone,
}
use xingestionv.System.Rows.Refines.{Step-Next}

-- The same attempt of the same work: no attempt is used and no generation begins.
abbrev pub SameAttempt : Task → Task → Type 0
SameAttempt t u =
    (u.attempts ≡ t.attempts) × (u.delivery_generation ≡ t.delivery_generation) × SameWork t u

-- Nobody has a lease on the row, or the lease is over at `now`.
abbrev pub IsFree : ℕ → Task → Type 0
IsFree now t =
    (t.status ≡ enqueued)
    ⊎ ((t.status ≡ running) × ((e : ℕ) × (t.lease_expires_at ≡ some e) × (e ≤ now)))

-- RUNNING under `worker`, until a time that is not before `now`.
abbrev pub IsHeld : ℕ → String → Task → Type 0
IsHeld now worker u =
    (u.status ≡ running)
    × (u.lease_owner ≡ some worker)
    × ((e : ℕ) × (u.lease_expires_at ≡ some e) × (now ≤ e))

-- One transition of a task, from the row `t` to the row `u`, at the time `now`, by the holder of the
-- lease `actor` where there is one.
pub data Moves (now : ℕ) (actor : Option TaskLease) (t u : Task) : Type 0 where
  unchanged :
      u.status ≡ t.status
      → u.lease_owner ≡ t.lease_owner
      → u.lease_expires_at ≡ t.lease_expires_at
      → u.next_run_at ≡ t.next_run_at
      → SameAttempt t u
      → Moves now actor t u
  announced :
      (t.status ≡ pending) ⊎ (t.status ≡ retry_scheduled)
      → u.status ≡ enqueued
      → u.enqueued_at ≡ some now
      → SameAttempt t u
      → Moves now actor t u
  taken :
      (worker : String)
      → t.next_run_at ≤ now
      → IsFree now t
      → IsHeld now worker u
      → SameAttempt t u
      → Moves now actor t u
  prolonged :
      (l : TaskLease) (e : ℕ)
      → actor ≡ some l
      → Shows l t
      → t.lease_expires_at ≡ some e
      → now < e
      → IsHeld now l.lease_owner u
      → SameAttempt t u
      → Moves now actor t u
  given_back :
      (l : TaskLease)
      → actor ≡ some l
      → Shows l t
      → u.status ≡ enqueued
      → Unowned u
      → SameAttempt t u
      → Moves now actor t u
  completed :
      (l : TaskLease) (m : Option Json)
      → actor ≡ some l
      → Shows l t
      → IsCompleted m now t u
      → Moves now actor t u
  retried :
      (l : TaskLease) (due : ℕ) (e c : String)
      → actor ≡ some l
      → Shows l t
      → IsRetried due e c t u
      → Moves now actor t u
  died :
      (l : TaskLease) (e c : String)
      → actor ≡ some l
      → Shows l t
      → IsDead e c t u
      → Moves now actor t u

-- What stands in the place of the row `t` afterwards: a row, or nothing where the task was done.
pub data Moved (now : ℕ) (actor : Option TaskLease) (t : Task) (o : Option Task) : Type 0 where
  to : (u : Task) → o ≡ some u → Moves now actor t u → Moved now actor t o
  removed : t.status ≡ done → t.leased_at ≡ none → o ≡ none → Moved now actor t o

-- The WHERE clauses, read as statements about the row.
is_ready_lem : (s : TaskStatus) → is_ready s ≡ true → (s ≡ pending) ⊎ (s ≡ retry_scheduled)
is_ready_lem pending h = inl refl
is_ready_lem retry_scheduled h = inr refl
is_ready_lem enqueued h = absurd (ground (arith))
is_ready_lem running h = absurd (ground (arith))
is_ready_lem done h = absurd (ground (arith))
is_ready_lem dead_letter h = absurd (ground (arith))

at_most_lem : (o : Option ℕ) (n : ℕ) → at_most o n ≡ true → (e : ℕ) × (o ≡ some e) × (e ≤ n)
at_most_lem none n h = absurd (ground (arith))
at_most_lem (some e) n h = (e, refl, ground (arith))

after_lem : (o : Option ℕ) (n : ℕ) → after o n ≡ true → (e : ℕ) × (o ≡ some e) × (n < e)
after_lem none n h = absurd (ground (arith))
after_lem (some e) n h = (e, refl, ground (arith))

free_lem :
    (s : TaskStatus) (o : Option ℕ) (now : ℕ)
    → (is_enqueued s || is_running s && at_most o now) ≡ true
    → (s ≡ enqueued) ⊎ ((s ≡ running) × ((e : ℕ) × (o ≡ some e) × (e ≤ now)))
free_lem enqueued o now h = inl refl
free_lem running o now h = inr (refl, at_most_lem o now h)
free_lem pending o now h = absurd (ground (arith))
free_lem retry_scheduled o now h = absurd (ground (arith))
free_lem done o now h = absurd (ground (arith))
free_lem dead_letter o now h = absurd (ground (arith))

same : (t : Task) → SameAttempt t t
same t = (refl, refl, (refl, refl, refl, refl, refl, refl))

module _ {now : ℕ} {actor : Option TaskLease} (t : Task) where
  RowStep-Moves : (u : Task) → RowStep now actor t u → Moves now actor t u
  RowStep-Moves u (stays q) = rw q (unchanged refl refl refl refl (same t))
  RowStep-Moves u (unlinks q) = rw q (unchanged refl refl refl refl (same t))
  RowStep-Moves u (enqueues r q) = rw q (announced (is_ready_lem t.status r) refl refl (same t))
  RowStep-Moves u (leases i g seconds worker y q) = rw q (
      taken worker (ground (arith)) (free_lem t.status t.lease_expires_at now (ground (arith)))
        (refl, refl, (now + seconds * second, refl, ground (arith))) (same t))
  RowStep-Moves u (renews l seconds by y q) =
      let s = fence-Shows l t (ground (arith)) in
      let (e, expires, later) = after_lem t.lease_expires_at now (ground (arith)) in
      rw q (
        prolonged l e by s expires later
          (s.status, s.owner, (now + seconds * second, refl, ground (arith))) (same t))
  RowStep-Moves u (releases l by y q) =
      rw q (given_back l by (fence-Shows l t y) refl (refl, refl, refl) (same t))
  RowStep-Moves u (completes l m by y q) =
      rw q (completed l m by (fence-Shows l t y) (completed_row-IsCompleted t now m))
  RowStep-Moves u (retries l at e c by y q) =
      rw q (retried l at e c by (fence-Shows l t y) (retry_row-IsRetried t now at e c))
  RowStep-Moves u (dies l e c by y q) =
      rw q (died l e c by (fence-Shows l t y) (dead_row-IsDead t now e c))

  Next-Moved : (o : Option Task) → Next now actor t o → Moved now actor t o
  Next-Moved o (row u q s) = to u q (RowStep-Moves u s)
  Next-Moved o (gone y q) = removed (ground (arith)) (ground (arith)) q

-- Every transaction, of any process and on any lease, moves a task of a well-formed ledger by one
-- transition of its life cycle, or removes it, and then it was DONE. Only a task that is PENDING or
-- RETRY_SCHEDULED is announced; only one that is ENQUEUED, or RUNNING on a lease that is over, and
-- due is taken; and only the holder of the lease that the row shows prolongs it, gives it back, or
-- completes, retries or buries the task. Attempts and generation change on a retry and a burial only.
pub Step-Moved :
    (db db' : Db) (now i : ℕ) (actor : Option TaskLease) (t : Task)
    → Inv db
    → task_at db i ≡ some t
    → Step now actor db db'
    → Moved now actor t (task_at db' i)
Step-Moved db db' now i actor t v here s = Next-Moved t (task_at db' i) (Step-Next db i t v here s)
