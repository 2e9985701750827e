-- ===== src/Worker/Heartbeats.antt =====
-- A worker under its lease guard: what it does when a renewal raises.
use xingestionv.Prelude.{ℕ, ◌≡◌, refl, Bool, false, some, List, String}
use xingestionv.Schema.{Db}
use xingestionv.Tasks.{TaskLease, lease_task}
use xingestionv.Guard.{TaskLeaseGuard}
use xingestionv.Worker.Delivery.{handle_delivery, handle_leased, settle_work}
use xingestionv.Worker.Guarded.{Beat, Ending, lost, heartbeat_loop, after_beats, run_guarded}

module _ (guard : TaskLeaseGuard) (message_id : String) (beats : List Beat)
    (others meanwhile : Db → Db) (ending : Ending) (db d leased : Db)
    (i g seconds at jitter utcnow now : ℕ) (worker : String) (l : TaskLease)
    (given : lease_task db i g worker seconds at ≡ (some l, leased)) where
  -- What handle_delivery returns and leaves, under the guard.
  abbrev handled : Bool × Db
  handled =
      handle_delivery (run_guarded guard message_id beats others ending) meanwhile db i g worker
        seconds at jitter utcnow now

  -- Once a renewal is refused, the worker writes nothing more for the task and does not acknowledge
  -- the message, whatever the operation would have returned: the ledger is the one that the
  -- heartbeats left.
  pub refused_renewal_abandons :
      heartbeat_loop guard l message_id beats leased ≡ (some lost, d) → handled ≡ (false, d)
  unfolding handle_delivery handle_leased run_guarded after_beats settle_work
  refused_renewal_abandons b = rw (given, b) refl
