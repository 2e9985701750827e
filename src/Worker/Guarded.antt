-- ===== src/Worker/Guarded.antt =====
-- TaskLeaseGuard.run_guarded and its heartbeat loop, of xingestion/lease_guard.py, as a function of
-- the order of events: the heartbeats until the work ends, and how it ends.
use xingestionv.Prelude.{ℕ, Option, none, some, List, [], ◌∷◌, String}
use xingestionv.Json.{Json}
use xingestionv.Schema.{Db, Result, ok, err}
use xingestionv.Tasks.{TaskLease}
use xingestionv.Guard.{TaskLeaseGuard, Heartbeat, renew_once, release_for_recovery}
use xingestionv.Worker.{Raised}
use xingestionv.Worker.Delivery.{Work, finished, lease_lost, cancelled, failed}

-- A turn of the heartbeat loop: its time, the answer of Redis to XCLAIM, what happened to the
-- ledger since the turn before, and the exception of the database where the statement raised.
pub record Beat : Type 0 where
  pub at : ℕ
  pub claimed : Option (List String)
  pub since : Db → Db
  pub raised_by_database : Option Raised

-- What a renewal raises: TaskLeaseLost, or an exception of the database.
pub data Fault : Type 0 where
  lost : Fault
  broken : Raised → Fault

abbrev pub fault_of : Result Heartbeat → Option Fault
fault_of (ok h) = none
fault_of (err f) = some lost

-- How the wait for the operation ends: with its metadata, maybe while a renewal is under way, with
-- an exception of the operation, or with the cancellation of the worker.
pub data Ending : Type 0 where
  completes : Json → Option Beat → Ending
  raises : Raised → Ending
  cancels : ℕ → Ending

unfoldable pub beat_once : TaskLeaseGuard → TaskLease → String → Beat → Db → Option Fault × Db
beat_once guard task message_id beat db = elim beat.raised_by_database [
  | some r ↦ (some (broken r), beat.since db)
  | none ↦
      let (r, db') = renew_once guard (beat.since db) task message_id beat.claimed beat.at in
      (fault_of r, db')
]

-- _heartbeat_loop: renewals until one raises, and what it raises.
unfoldable pub heartbeat_loop :
    TaskLeaseGuard → TaskLease → String → List Beat → Db → Option Fault × Db
unfolding beat_once
heartbeat_loop guard task message_id [] db = (none, db)
heartbeat_loop guard task message_id (beat ∷ beats) db =
    let (fault, db') = beat_once guard task message_id beat db in
    elim fault [ some f ↦ (some f, db') | none ↦ heartbeat_loop guard task message_id beats db' ]

-- `raise heartbeat_error`
abbrev pub faulted : Fault → Work
faulted lost = lease_lost
faulted (broken r) = failed r

-- `await heartbeat_task` after the result: a renewal that is under way is finished, and what it
-- raises is raised in place of the result.
unfoldable pub await_heartbeat :
    TaskLeaseGuard → TaskLease → String → Json → Option Beat → Db → Work × Db
unfolding beat_once
await_heartbeat guard task message_id metadata none db = (finished metadata, db)
await_heartbeat guard task message_id metadata (some beat) db =
    let (fault, db') = beat_once guard task message_id beat db in
    (elim fault [ some f ↦ faulted f | none ↦ finished metadata ], db')

-- What run_guarded does once the wait is over, where no renewal raised before.
unfoldable pub end_guarded : TaskLeaseGuard → TaskLease → String → Ending → Db → Work × Db
unfolding await_heartbeat
end_guarded guard task message_id (completes metadata beat) db =
    await_heartbeat guard task message_id metadata beat db
end_guarded guard task message_id (raises r) db = (failed r, db)
end_guarded guard task message_id (cancels now) db =
    (cancelled, (release_for_recovery db task now).1)

unfoldable pub after_beats :
    TaskLeaseGuard → TaskLease → String → (Db → Db) → Ending → Option Fault × Db → Work × Db
unfolding end_guarded
after_beats guard task message_id others ending (none, db) =
    end_guarded guard task message_id ending (others db)
after_beats guard task message_id others ending (some f, db) = (faulted f, db)

-- TaskLeaseGuard.run_guarded. `others` is what happened to the ledger since the last heartbeat.
unfoldable pub run_guarded :
    TaskLeaseGuard → String → List Beat → (Db → Db) → Ending → TaskLease → Db → Work × Db
unfolding after_beats heartbeat_loop
run_guarded guard message_id beats others ending task db =
    after_beats guard task message_id others ending (heartbeat_loop guard task message_id beats db)
