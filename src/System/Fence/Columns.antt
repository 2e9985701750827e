-- ===== src/System/Fence/Columns.antt =====
-- The columns of a task's row after each end of a lease, and of the rows that go with it.
use xingestionv.Prelude.{ℕ, suc, ◌≡◌, refl, Option, none, some, String, take_text}
use xingestionv.Json.{Json}
use xingestionv.Schema.{Task, OutboxRow, DeadLetter, done, retry_scheduled, dead_letter}
use xingestionv.Tasks.{completed_row, retry_row, dead_row, archive_row, new_outbox_row}

-- The columns that no end of a lease writes are those of `t`.
abbrev pub SameWork : Task → Task → Type 0
SameWork t u =
    (u.id ≡ t.id)
    × (u.task_type ≡ t.task_type)
    × (u.payload ≡ t.payload)
    × (u.max_attempts ≡ t.max_attempts)
    × (u.idempotency_key ≡ t.idempotency_key)
    × (u.priority ≡ t.priority)

-- Nobody holds the row.
abbrev pub Unowned : Task → Type 0
Unowned u = (u.lease_owner ≡ none) × (u.lease_started_at ≡ none) × (u.lease_expires_at ≡ none)

-- DONE at `now`, with the new metadata where there is one and the old otherwise.
pub record IsCompleted (m : Option Json) (now : ℕ) (t u : Task) : Type 0 where
  pub status : u.status ≡ done
  pub completed_at : u.completed_at ≡ some now
  pub last_error : u.last_error ≡ none
  pub result : u.result_metadata ≡ elim m [ none ↦ t.result_metadata | some j ↦ some j ]
  pub attempts : u.attempts ≡ t.attempts
  pub generation : u.delivery_generation ≡ t.delivery_generation
  pub unowned : Unowned u
  pub work : SameWork t u

-- RETRY_SCHEDULED for `due`, with one attempt and one generation more, and the cause.
pub record IsRetried (due : ℕ) (e c : String) (t u : Task) : Type 0 where
  pub status : u.status ≡ retry_scheduled
  pub attempts : u.attempts ≡ suc t.attempts
  pub generation : u.delivery_generation ≡ suc t.delivery_generation
  pub next_run_at : u.next_run_at ≡ due
  pub last_error : u.last_error ≡ some (take_text 4000 e)
  pub failure_class : u.last_failure_class ≡ some (take_text 100 c)
  pub unowned : Unowned u
  pub work : SameWork t u

-- DEAD_LETTER, with one attempt more in the same generation, and the cause.
pub record IsDead (e c : String) (t u : Task) : Type 0 where
  pub status : u.status ≡ dead_letter
  pub attempts : u.attempts ≡ suc t.attempts
  pub generation : u.delivery_generation ≡ t.delivery_generation
  pub last_error : u.last_error ≡ some (take_text 4000 e)
  pub failure_class : u.last_failure_class ≡ some (take_text 100 c)
  pub unowned : Unowned u
  pub work : SameWork t u

-- An unpublished and unclaimed message of the generation `g` of task `i`, due at `due`.
pub record Announces (i g due : ℕ) (o : OutboxRow) : Type 0 where
  pub task_id : o.task_id ≡ i
  pub generation : o.delivery_generation ≡ g
  pub available_at : o.available_at ≡ due
  pub published_at : o.published_at ≡ none
  pub claim_token : o.claim_token ≡ none

-- The dead letter of the row `t`, not replayed yet, with the cause.
pub record Archives (t : Task) (e c : String) (d : DeadLetter) : Type 0 where
  pub task_id : d.original_task_id ≡ t.id
  pub task_type : d.task_type ≡ t.task_type
  pub payload : d.payload ≡ t.payload
  pub generation : d.delivery_generation ≡ t.delivery_generation
  pub last_error : d.last_error ≡ some (take_text 4000 e)
  pub failure_class : d.failure_class ≡ some (take_text 100 c)
  pub replayed_at : d.replayed_at ≡ none

module _ (t : Task) (now : ℕ) where
  result_kept :
      (m : Option Json)
      → (completed_row m now t).result_metadata
        ≡ elim m [ none ↦ t.result_metadata | some j ↦ some j ]
  result_kept none = refl
  result_kept (some j) = refl

  pub completed_row-IsCompleted : (m : Option Json) → IsCompleted m now t (completed_row m now t)
  completed_row-IsCompleted m = record {
    status = refl;
    completed_at = refl;
    last_error = refl;
    result = result_kept m;
    attempts = refl;
    generation = refl;
    unowned = (refl, refl, refl);
    work = (refl, refl, refl, refl, refl, refl);
  }

  pub retry_row-IsRetried : (due : ℕ) (e c : String) → IsRetried due e c t (retry_row due e c now t)
  retry_row-IsRetried due e c = record {
    status = refl;
    attempts = refl;
    generation = refl;
    next_run_at = refl;
    last_error = refl;
    failure_class = refl;
    unowned = (refl, refl, refl);
    work = (refl, refl, refl, refl, refl, refl);
  }

  pub dead_row-IsDead : (e c : String) → IsDead e c t (dead_row e c now t)
  dead_row-IsDead e c = record {
    status = refl;
    attempts = refl;
    generation = refl;
    last_error = refl;
    failure_class = refl;
    unowned = (refl, refl, refl);
    work = (refl, refl, refl, refl, refl, refl);
  }

  pub archive_row-Archives :
      (k : ℕ) (e c : String) → Archives t e c (archive_row k e c now (dead_row e c now t))
  archive_row-Archives k e c = record {
    task_id = refl;
    task_type = refl;
    payload = refl;
    generation = refl;
    last_error = refl;
    failure_class = refl;
    replayed_at = refl;
  }

pub new_outbox_row-Announces :
    (k i g due now : ℕ) → Announces i g due (new_outbox_row k i g due now)
new_outbox_row-Announces k i g due now = record {
  task_id = refl;
  generation = refl;
  available_at = refl;
  published_at = refl;
  claim_token = refl;
}
