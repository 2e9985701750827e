-- ===== src/Schema.antt =====
-- The tables of schema_analytics.sql with the migrations 0001, 0003 and 0004 applied: a record for
-- a row, an `Option` for a column that may be NULL. A time is a number of microseconds, and a
-- SERIAL column takes its numbers from a counter beside the table.
use xingestionv.Prelude.{ℕ, ℤ, Bool, true, false, Option, List, String}
use xingestionv.Json.{Json, Fields}

-- INTERVAL '1 second'
abbrev pub second : ℕ
second = 1000000

-- The values that the sources write into `worker_tasks.status`.
pub data TaskStatus : Type 0 where
  pending enqueued running retry_scheduled done dead_letter : TaskStatus

-- status IN ('PENDING', 'RETRY_SCHEDULED')
abbrev pub is_ready : TaskStatus → Bool
is_ready pending = true
is_ready retry_scheduled = true
is_ready _ = false

abbrev pub is_enqueued : TaskStatus → Bool
is_enqueued enqueued = true
is_enqueued _ = false

abbrev pub is_running : TaskStatus → Bool
is_running running = true
is_running _ = false

abbrev pub is_done : TaskStatus → Bool
is_done done = true
is_done _ = false

-- status IN ('DONE', 'DEAD_LETTER')
abbrev pub is_terminal : TaskStatus → Bool
is_terminal done = true
is_terminal dead_letter = true
is_terminal _ = false

-- worker_tasks
pub record Task : Type 0 where
  pub id : ℕ
  pub task_type : String
  pub payload : Fields
  pub status : TaskStatus
  pub attempts : ℕ
  pub max_attempts : ℕ
  pub next_run_at : ℕ
  pub idempotency_key : String
  pub priority : ℤ
  pub delivery_generation : ℕ
  pub enqueued_at : Option ℕ
  pub lease_owner : Option String
  pub lease_started_at : Option ℕ
  pub lease_expires_at : Option ℕ
  pub leased_at : Option ℕ
  pub completed_at : Option ℕ
  pub last_error : Option String
  pub last_failure_class : Option String
  pub result_metadata : Option Json
  pub origin_task_id : Option ℕ
  pub replay_of_dead_letter_id : Option ℕ
  pub created_at : ℕ
  pub updated_at : ℕ

-- task_outbox
pub record OutboxRow : Type 0 where
  pub id : ℕ
  pub task_id : ℕ
  pub delivery_generation : ℕ
  pub event_type : String
  pub payload : Fields
  pub available_at : ℕ
  pub created_at : ℕ
  pub published_at : Option ℕ
  pub redis_message_id : Option String
  pub publish_attempts : ℕ
  pub last_error : Option String
  pub claim_token : Option String
  pub claim_expires_at : Option ℕ

-- worker_dead_letters
pub record DeadLetter : Type 0 where
  pub id : ℕ
  pub original_task_id : ℕ
  pub task_type : String
  pub payload : Fields
  pub last_error : Option String
  pub failure_class : Option String
  pub delivery_generation : ℕ
  pub failed_at : ℕ
  pub replayed_at : Option ℕ
  pub replay_task_id : Option ℕ
  pub replay_generation : ℕ

-- worker_dead_letter_replays
pub record ReplayRow : Type 0 where
  pub replay_id : ℕ
  pub dead_letter_id : ℕ
  pub replay_generation : ℕ
  pub replay_task_id : ℕ
  pub requested_at : ℕ
  pub selector_metadata : Json

-- The values that the sources write into `service_tokens.status`.
pub data TokenStatus : Type 0 where
  active cooldown revoked : TokenStatus

abbrev pub is_active : TokenStatus → Bool
is_active active = true
is_active _ = false

abbrev pub is_cooldown : TokenStatus → Bool
is_cooldown cooldown = true
is_cooldown _ = false

-- service_tokens
pub record Token : Type 0 where
  pub id : ℕ
  pub token_key : String
  pub token_value : String
  pub status : TokenStatus
  pub cooldown_until : Option ℕ
  pub last_error : Option String
  pub last_leased_at : Option ℕ
  pub last_used_at : Option ℕ
  pub max_concurrency : ℕ
  pub updated_at : ℕ

-- service_token_leases
pub record LeaseRow : Type 0 where
  pub id : ℕ
  pub token_id : ℕ
  pub lease_owner : String
  pub acquired_at : ℕ
  pub lease_expires_at : ℕ

-- The tables of the task ledger, with the next number of each SERIAL column.
pub record Db : Type 0 where
  pub tasks : List Task
  pub next_task : ℕ
  pub outbox : List OutboxRow
  pub next_outbox : ℕ
  pub dead_letters : List DeadLetter
  pub next_dead_letter : ℕ
  pub replays : List ReplayRow
  pub next_replay : ℕ

-- The tables of the session pool.
pub record Sessions : Type 0 where
  pub tokens : List Token
  pub leases : List LeaseRow
  pub next_lease : ℕ

-- The sources' exceptions.
pub data Failure : Type 0 where
  value_error runtime_error type_error key_error data_error task_lease_lost unique_violation
        foreign_key_violation :
      Failure
  capability_contract_error unsupported_capability no_approved_route : Failure

pub data Result {ℓ} (A : Type ℓ) : Type ℓ where
  ok : A → Result A
  err : Failure → Result A

-- What follows a call that may raise.
infixl 5 ◌>>=◌
abbrev pub ◌>>=◌ {ℓ κ} : {A : Type ℓ} {B : Type κ} → Result A → (A → Result B) → Result B
ok a >>= f = f a
err e >>= f = err e
