-- ===== src/Tests/Heartbeats.antt =====
-- A worker whose heartbeat renews its lease, and one whose heartbeat comes too late.
use xingestionv.Prelude.{◌≡◌, refl, false, none, some, [], ◌∷◌}
use xingestionv.Json.{null}
use xingestionv.Schema.{Db}
use xingestionv.Table.{count, update}
use xingestionv.Tasks.{lease_task}
use xingestionv.Guard.{renew_once}
use xingestionv.Worker.{Raised, unexpected_error}
use xingestionv.Worker.Delivery.{handle_delivery}
use xingestionv.Worker.Guarded.{Beat, lost, completes, run_guarded, heartbeat_loop, beat_once}
use xingestionv.Worker.Heartbeats.{refused_renewal_abandons}
use xingestionv.LegacyOutbox.{dispatch_in_transaction, dispatch_in_transaction-Inv}
use xingestionv.Ledger.{Inv}
use xingestionv.Tests.Ledger.{created, created-Inv, unlocked, claimed, leased_db, lease_of, guard}

abbrev idle : Db → Db
idle d = d

abbrev too_late : Beat
too_late = record { at = 60000030; claimed = none; since = idle; raised_by_database = none }

given : lease_task claimed 1 0 "worker-1" 60 30 ≡ (some (lease_of "worker-1"), leased_db)
unfolding leased_db
given = refl

refused :
    heartbeat_loop guard (lease_of "worker-1") "0-1" (too_late ∷ []) leased_db
    ≡ (some lost, leased_db)
unfolding leased_db heartbeat_loop beat_once renew_once count update
refused = refl

refused_renewal_abandons_example :
    handle_delivery
      (run_guarded guard "0-1" (too_late ∷ []) idle (completes null none))
      idle
      claimed
      1
      0
      "worker-1"
      60
      30
      0
      50
      50
    ≡ (false, leased_db)
refused_renewal_abandons_example =
    refused_renewal_abandons guard "0-1" (too_late ∷ []) idle idle (completes null none) claimed
      leased_db leased_db 1 0 60 30 0 50 50 "worker-1" (lease_of "worker-1") given refused

-- The database goes away.
abbrev down : Raised
down = record { failure_class = unexpected_error; message = "down"; retry_after = none }

abbrev cut_off : Beat
cut_off = record { at = 40; claimed = none; since = idle; raised_by_database = some down }

-- The dispatch of the created task, which Redis takes.
dispatch_in_transaction-Inv_example :
    Inv (dispatch_in_transaction created unlocked (λ k. some "0-1") 5 20).1
dispatch_in_transaction-Inv_example =
    dispatch_in_transaction-Inv created unlocked (λ k. some "0-1") 5 20 created-Inv
