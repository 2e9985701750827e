-- ===== src/System.antt =====
-- The ledger as the processes of the system change it: each step is one transaction of a
-- dispatcher, a worker, the replay tool, the cleanup daemon or a client that creates a task. `now`
-- is the database's clock at the step; the processes' own clocks are arbitrary. A step that works on
-- a lease has that lease as its `actor`; any lease is allowed, also one that has been lost.
pub mod Lifecycle
pub mod Safe
pub mod Rows
pub mod Exclusion
pub mod Fence
pub mod Live
pub mod Over
use xingestionv.Prelude.{ℕ, ◌≡◌, Bool, ℤ, Option, none, some, List, [], String}
use xingestionv.Json.{Json, Fields}
use xingestionv.Schema.{Db}
use xingestionv.Tasks.{
  TaskLease, create_task, lease_task, complete_task, schedule_retry, dead_letter_task,
}
use xingestionv.Guard.{TaskLeaseGuard, renew_once, release_for_recovery}
use xingestionv.Outbox.{ClaimedOutboxEvent, claim_ready, publish_claimed, record_failure}
use xingestionv.Replay.{ReplaySelector, replay}
use xingestionv.Cleanup.{purge_tasks}
use xingestionv.Ledger.{Inv}

pub data Step (now : ℕ) (actor : Option TaskLease) (db db' : Db) : Type 0 where
  creates :
      (task_type : String) (payload : Fields) (key : String) (max_attempts : ℕ) (priority : ℤ)
      (next_run_at : Option ℕ) (utcnow : ℕ)
      → db' ≡ (create_task db task_type payload key max_attempts priority next_run_at utcnow now).1
      → Step now actor db db'
  leases :
      (task_id generation : ℕ) (worker_id : String) (seconds : ℕ)
      → db' ≡ (lease_task db task_id generation worker_id seconds now).1
      → Step now actor db db'
  renews :
      (l : TaskLease) (guard : TaskLeaseGuard) (message_id : String)
      (claimed : Option (List String))
      → actor ≡ some l
      → db' ≡ (renew_once guard db l message_id claimed now).1
      → Step now actor db db'
  releases :
      (l : TaskLease)
      → actor ≡ some l
      → db' ≡ (release_for_recovery db l now).1
      → Step now actor db db'
  completes :
      (l : TaskLease) (metadata : Option Json)
      → actor ≡ some l
      → db' ≡ (complete_task db l metadata now).1
      → Step now actor db db'
  retries :
      (l : TaskLease) (error_message : String) (delay : ℤ) (failure_class : String) (utcnow : ℕ)
      → actor ≡ some l
      → db' ≡ (schedule_retry db l error_message delay failure_class utcnow now).1
      → Step now actor db db'
  dies :
      (l : TaskLease) (error_message failure_class : String)
      → actor ≡ some l
      → db' ≡ (dead_letter_task db l error_message failure_class now).1
      → Step now actor db db'
  claims :
      (seconds : ℕ) (locked : ℕ → Bool) (claim_token : String) (batch_size utcnow : ℕ)
      → db' ≡ (claim_ready seconds db locked claim_token batch_size utcnow now).1
      → Step now actor db db'
  publishes :
      (event : ClaimedOutboxEvent) (message_id : String)
      → db' ≡ (publish_claimed db event message_id now).1
      → Step now actor db db'
  fails :
      (event : ClaimedOutboxEvent) (message : String)
      → db' ≡ record_failure db event message
      → Step now actor db db'
  replays :
      (selector : ReplaySelector) (locked : ℕ → Bool) (limit max_attempts : ℕ) (priority : ℤ)
      → db' ≡ (replay db selector locked limit max_attempts priority now).1
      → Step now actor db db'
  purges : db' ≡ purge_tasks db → Step now actor db db'

-- Any number of steps, each with its own time and actor.
pub data Reach (db : Db) : Db → Type 0 where
  here : Reach db db
  next :
      {b c : Db} (now : ℕ) (actor : Option TaskLease) → Reach db b → Step now actor b c → Reach db c

-- The ledger of an empty database.
abbrev pub empty : Db
empty = record {
  tasks = [];
  next_task = 1;
  outbox = [];
  next_outbox = 1;
  dead_letters = [];
  next_dead_letter = 1;
  replays = [];
  next_replay = 1;
}
