-- ===== src/Tests/Ledger.antt =====
-- A task from its creation to its first lease, and the theorems about the ledger there.
use xingestionv.Prelude.{
  inl, inr, eq_iff, ℕ, ◌≡◌, refl, Bool, true, false, none, some, String, pos, arith,
}
use xingestionv.Json.{Fields, str, end, field}
use xingestionv.Schema.{Db, Task, err, task_lease_lost}
use xingestionv.Table.{find, select, update, insert, limit, order_by}
use xingestionv.Tasks.{
  TaskLease, create_task, upsert_task, outbox_from_task, insert_outbox, lease_task, complete_task,
  schedule_retry, dead_letter_task,
}
use xingestionv.Guard.{TaskLeaseGuard, renew_once, release_for_recovery}
use xingestionv.Outbox.{claim_ready, claim_rows, claim_one, claimable, join}
use xingestionv.Cleanup.{purge_tasks}
use xingestionv.Ledger.{Inv, task_at}
use xingestionv.Ledger.Create.{create_task-Inv}
use xingestionv.Ledger.Updates.{lease_task-Inv}
use xingestionv.Ledger.Dispatch.{claim_ready-Inv}
use xingestionv.System.{creates, claims, purges, here, next, empty}
use xingestionv.System.Safe.{Reach-Inv, empty-Inv}
use xingestionv.System.Lifecycle.{Moved, Step-Moved}
use xingestionv.System.Exclusion.{lease_exclusive, start, follow}
use xingestionv.System.Fence.{IsStale, Shows, stale_refused}
use xingestionv.System.Fence.Columns.{IsCompleted}
use xingestionv.System.Fence.Ends.{complete_task_completes}

abbrev pub unlocked : ℕ → Bool
unlocked k = false

abbrev cats : Fields
cats = field "search_keyword" (str "cats") end

-- One task, created, claimed by a dispatcher, leased by a worker.
unfoldable pub created : Db
unfolding create_task upsert_task outbox_from_task insert_outbox find insert
created = (create_task empty "X_KEYWORD_SEARCH" cats "key" 3 (pos 100) none 10 10).1

pub created-Inv : Inv created
unfolding created
created-Inv = create_task-Inv empty "X_KEYWORD_SEARCH" cats "key" 3 (pos 100) none 10 10 empty-Inv

unfoldable pub claimed : Db
unfolding created claim_ready claim_rows claim_one claimable join select order_by limit update
claimed = (claim_ready 30 created unlocked "token" 5 20 20).1

pub claimed-Inv : Inv claimed
unfolding claimed
claimed-Inv = claim_ready-Inv 30 created unlocked "token" 5 20 20 created-Inv

unfoldable pub leased_db : Db
unfolding claimed lease_task
leased_db = (lease_task claimed 1 0 "worker-1" 60 30).1

pub leased_db-Inv : Inv leased_db
unfolding leased_db
leased_db-Inv = lease_task-Inv claimed 1 0 60 30 "worker-1" claimed-Inv

-- The worker's lease, and one of an earlier owner.
abbrev pub lease_of : String → TaskLease
lease_of owner = record {
  id = 1;
  task_type = "X_KEYWORD_SEARCH";
  payload = cats;
  attempts = 0;
  max_attempts = 3;
  delivery_generation = 0;
  lease_owner = owner;
  lease_expires_at = some 60000030;
}

abbrev pub guard : TaskLeaseGuard
guard = record { lease_seconds = 60; heartbeat = 20000000 }

lease_result : (lease_task claimed 1 0 "worker-1" 60 30).0 ≡ some (lease_of "worker-1")
unfolding leased_db
lease_result = refl

pub leased_row_there : (t : Task) × (task_at leased_db 1 ≡ some t) × Shows (lease_of "worker-1") t
unfolding leased_db
leased_row_there = (_, refl, record { generation = refl; owner = refl; status = refl })

lost_lease : IsStale leased_db (lease_of "worker-0")
unfolding leased_db
lost_lease t e = inr (inl (λ q. ground (arith, eq_iff "worker-1" "worker-0")))

-- Another worker tries to lease the task, and the cleanup daemon runs, while the lease runs.
lease_exclusive_example :
    lease_task (purge_tasks leased_db) 1 0 "worker-2" 60 40 ≡ (none, purge_tasks leased_db)
unfolding leased_db
lease_exclusive_example =
    lease_exclusive claimed (purge_tasks leased_db) 1 0 60 30 "worker-1" (lease_of "worker-1") 0 60
      40 "worker-2" claimed-Inv lease_result
      (follow 35 none start (omega arith) (λ l e. absurd (cc)) (purges refl)) (omega arith)

Reach-Inv_example : Inv claimed
unfolding claimed
Reach-Inv_example = Reach-Inv empty-Inv (
    next 20 none
      (next 10 none here (creates "X_KEYWORD_SEARCH" cats "key" 3 (pos 100) none 10 refl))
      (claims 30 unlocked "token" 5 20 refl))

created_row : (t : Task) × (task_at created 1 ≡ some t)
unfolding created
created_row = (_, refl)

Step-Moved_example : Moved 20 none created_row.0 (task_at claimed 1)
unfolding claimed
Step-Moved_example =
    Step-Moved created claimed 20 1 none created_row.0 created-Inv created_row.1
      (claims 30 unlocked "token" 5 20 refl)

stale_refused_example :
    (complete_task leased_db (lease_of "worker-0") none 50 ≡ (false, leased_db))
    × (schedule_retry leased_db (lease_of "worker-0") "e" (pos 1) "c" 50 50 ≡ (false, leased_db))
    × (dead_letter_task leased_db (lease_of "worker-0") "e" "c" 50 ≡ (false, leased_db))
    × (release_for_recovery leased_db (lease_of "worker-0") 50 ≡ (false, leased_db))
    × (renew_once guard leased_db (lease_of "worker-0") "0-1" none 50
        ≡ (err task_lease_lost, leased_db))
stale_refused_example =
    stale_refused leased_db (lease_of "worker-0") none "e" "c" (pos 1) guard "0-1" none 50 50
      leased_db-Inv lost_lease

complete_task_completes_example :
    ((complete_task leased_db (lease_of "worker-1") none 50).0 ≡ true)
    × ((u : Task) × (task_at (complete_task leased_db (lease_of "worker-1") none 50).1 1 ≡ some u)
        × IsCompleted none 50 leased_row_there.0 u)
    × (task_at (complete_task leased_db (lease_of "worker-1") none 50).1 2 ≡ task_at leased_db 2)
    × ((complete_task leased_db (lease_of "worker-1") none 50).1.outbox ≡ leased_db.outbox)
    × ((complete_task leased_db (lease_of "worker-1") none 50).1.dead_letters
        ≡ leased_db.dead_letters)
complete_task_completes_example =
    complete_task_completes leased_db (lease_of "worker-1") leased_row_there.0 none 50 2
      leased_db-Inv leased_row_there.1 leased_row_there.2 (omega arith)
