-- ===== src/Worker.antt =====
-- worker.py and the failure classes of xingestion/collectors/base.py: what a worker does with a
-- delivery. An adapter's answers are arguments.
pub mod Session
pub mod Pages
pub mod Delivery
pub mod Acked
pub mod Guarded
pub mod Heartbeats
pub mod Failures
pub mod Sessions
pub mod Loop
pub mod Final
pub mod Execute
use xingestionv.Prelude.{
  ℕ, suc, ◌+◌, ◌*◌, ℤ, pos, Bool, true, false, not, Option, none, some, List, String,
}
use xingestionv.Json.{Fields}

-- The classes of CollectionError, and any other exception.
pub data FailureClass : Type 0 where
  collection_error authentication_failure rate_limited transient_network_failure : FailureClass
  collector_changed permanent_task_failure unexpected_error : FailureClass

abbrev pub class_name : FailureClass → String
class_name collection_error = "collection_error"
class_name authentication_failure = "authentication_failure"
class_name rate_limited = "rate_limited"
class_name transient_network_failure = "transient_network_failure"
class_name collector_changed = "collector_changed"
class_name permanent_task_failure = "permanent_task_failure"
class_name unexpected_error = "unexpected_error"

abbrev pub retryable : FailureClass → Bool
retryable permanent_task_failure = false
retryable _ = true

abbrev pub session_fault : FailureClass → Bool
session_fault authentication_failure = true
session_fault rate_limited = true
session_fault _ = false

-- isinstance(error, CollectionError)
abbrev pub is_collection_error : FailureClass → Bool
is_collection_error unexpected_error = false
is_collection_error _ = true

-- An exception: its class, its text, and its `retry_after_seconds` in microseconds.
pub record Raised : Type 0 where
  pub failure_class : FailureClass
  pub message : String
  pub retry_after : Option ℤ

pub data Outcome {ℓ} (A : Type ℓ) : Type ℓ where
  returned : A → Outcome A
  raised : Raised → Outcome A

pub record CollectionRequest : Type 0 where
  pub query : String
  pub product : String
  pub cursor : Option String
  pub page_size : ℤ

pub record CollectionBatch : Type 0 where
  pub items : List Fields
  pub next_cursor : Option String
  pub adapter_name : String
  pub adapter_version : String
  pub metadata : Fields

-- The settings that the executor reads.
pub record Settings : Type 0 where
  pub token_lease_seconds : ℕ
  pub token_cooldown_seconds : ℕ
  pub collector_max_pages : ℕ
