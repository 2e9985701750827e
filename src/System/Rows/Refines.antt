-- ===== src/System/Rows/Refines.antt =====
-- The transactions of System, and the rows of worker_tasks.
use xingestionv.Prelude.{ℕ, ◌≡◌, refl, sym, subst, Option, some}
use xingestionv.Schema.{Db, Task}
use xingestionv.Tasks.{TaskLease}
use xingestionv.Outbox.{publish_claimed, record_failure}
use xingestionv.Ledger.{Inv, task_at}
use xingestionv.System.{
  Step, creates, leases, renews, releases, completes, retries, dies, claims, publishes, fails,
  replays, purges,
}
use xingestionv.System.Rows.{Next, row, stays}
use xingestionv.System.Rows.Updates.{
  lease-Next, renew-Next, release-Next, complete-Next, dead-Next, retry-Next, purge-Next,
}
use xingestionv.System.Rows.Inserts.{create_task-Has, replay-Has}
use xingestionv.System.Rows.Claims.{claim-Next}

module _ {now : ℕ} {actor : Option TaskLease} (db : Db) (i : ℕ) (t : Task) where
  kept : (o : Option Task) → o ≡ some t → Next now actor t o
  kept o h = row t h (stays refl)

  to : {db' b : Db} → db' ≡ b → Next now actor t (task_at b i) → Next now actor t (task_at db' i)
  to e n = subst (λ x. Next now actor t (task_at x i)) (sym e) n

  -- Every transaction, of any process and on any lease, leaves a row, applies a SET clause to it under
  -- its WHERE clause, or removes it under the WHERE clause of the cleanup.
  pub Step-Next :
      {db' : Db}
      → Inv db
      → task_at db i ≡ some t
      → Step now actor db db'
      → Next now actor t (task_at db' i)
  Step-Next v h (creates a b c d e f g eq) =
      to eq (kept _ (create_task-Has i t db a b c d e f g now h))
  Step-Next v h (leases k g w s eq) = to eq (lease-Next now actor db i t h k g s w)
  Step-Next v h (renews l g m c by eq) = to eq (renew-Next now actor db i t h l by g m c)
  Step-Next v h (releases l by eq) = to eq (release-Next now actor db i t h l by)
  Step-Next v h (completes l m by eq) = to eq (complete-Next now actor db i t h l by m)
  Step-Next v h (retries l e d c u by eq) = to eq (retry-Next now actor db i t h l by e d c u)
  Step-Next v h (dies l e c by eq) = to eq (dead-Next now actor db i t h l by e c)
  Step-Next v h (claims s k c b u eq) = to eq (claim-Next now actor db i t s k c b u h)
  Step-Next v h (publishes e m eq) = to eq (unfold publish_claimed in kept _ h)
  Step-Next v h (fails e m eq) = to eq (unfold record_failure in kept _ h)
  Step-Next v h (replays s k n m p eq) = to eq (kept _ (replay-Has i t db s k n m p now h))
  Step-Next v h (purges eq) = to eq (purge-Next now actor db i t h v)
