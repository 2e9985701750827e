-- ===== src/Tests/Runs.antt =====
-- A worker's loop, the repair of a session and the way of a task to a worker, at concrete values.
use mathlib.Core.List.{Memᴰ}
use xingestionv.Prelude.{
  ℕ, ℤ, pos, ◌≡◌, refl, arith, true, false, Option, none, some, List, [], ◌∷◌, String, str_eq,
  decimal, if◌then◌else◌,
}
use xingestionv.Json.{Fields, str, obj, end, field}
use xingestionv.Schema.{Db, Token, active, ok}
use xingestionv.Table.{find, select, update, count}
use xingestionv.Table.All.{All}
use xingestionv.Tasks.{TaskLease, lease_task, complete_task, is_terminal_or_stale}
use xingestionv.Outbox.{ClaimedOutboxEvent, claim_ready, join}
use xingestionv.Ledger.{Inv}
use xingestionv.Ledger.Updates.{complete_task-Inv}
use xingestionv.Cleanup.{purge_tasks}
use xingestionv.System.{here, next, purges}
use xingestionv.System.Over.{over_for_ever}
use xingestionv.System.Live.{waiting_reaches_worker}
use xingestionv.Capabilities.{Builtins}
use xingestionv.Capabilities.Values.{get}
use xingestionv.Queue.{Wire, text, bytes, Entry, entry_fields, wire_text, decode_delivery}
use xingestionv.Queue.RoundTrip.{nothing, pair, decode_delivery-entry_fields}
use xingestionv.Worker.Delivery.{handle_delivery, handle_leased, settle_work}
use xingestionv.Worker.Final.{acked_never_leased}
use xingestionv.Worker.Loop.{LoopTurn, worker_loop}
use xingestionv.Worker.Loop.Acks.{IsDone, Keeps, worker_loop_acks-IsDone}
use xingestionv.Tokens.Capacity.{token_at}
use xingestionv.TokenRefresh.{
  answers, raises, JsonTools, Repair, attempt, programmatically_repair_session,
}
use xingestionv.TokenRefresh.Once.{repaired_once}
use xingestionv.Tests.Ledger.{
  leased_db, leased_db-Inv, lease_of, created, created-Inv, claimed, claimed-Inv,
}
use xingestionv.Tests.Worker.{work, idle, pool}

abbrev int_of_text : String → Option ℤ
int_of_text s = if str_eq s "1" then some (pos 1) else if str_eq s "0" then some (pos 0) else none

abbrev reader : Builtins
reader = record {
  is_date = λ s. true;
  int_of_text = int_of_text;
  text_of_value = λ v. "";
  strip = λ s. s;
}

-- The only bytes that are sent are those of "task_id".
abbrev decode : List ℕ → Option String
decode b = some "task_id"

abbrev event : ClaimedOutboxEvent
event = record {
  outbox_id = 1;
  task_id = 1;
  generation = 0;
  event_type = "task.ready";
  payload = end;
  claim_token = "token";
}

abbrev sent : List (Wire × Wire)
sent =
    (bytes (116 ∷ []), text "1")
    ∷ (text "generation", text "0")
    ∷ (text "event_type", text "task.ready")
    ∷ []

decode_delivery-entry_fields_example :
    decode_delivery reader decode (text "5-0", sent)
    ≡ ok (record { message_id = "5-0"; task_id = pos 1; generation = pos 0 })
unfolding wire_text entry_fields decimal
decode_delivery-entry_fields_example =
    decode_delivery-entry_fields reader decode event (text "5-0") sent "5-0" refl
      (pair refl refl (pair refl refl (pair refl refl nothing))) refl refl

-- The first turn has a delivery, and the second finds only one to reclaim.
abbrev loop_turn : Option (List (Wire × List Entry)) → LoopTurn
loop_turn answer = record {
  answer = answer;
  reclaimed = some (some ((text "5-0", sent) ∷ []));
  guarded = λ d. work;
  others = idle;
  since = idle;
  leased_at = 30;
  jitter = 0;
  utcnow = 50;
  now = 50;
}

abbrev turns : List LoopTurn
turns = loop_turn (some ((text "stream", (text "5-0", sent) ∷ []) ∷ [])) ∷ loop_turn (some []) ∷ []

turn-Keeps : (answer : Option (List (Wire × List Entry))) → Keeps (loop_turn answer)
turn-Keeps answer = record { work = λ d l db v. v; others = λ db v. v; since = λ db v. v }

worker_loop_acks-IsDone_example :
    All IsDone (worker_loop reader decode "worker-1" 60 turns claimed).0
    × Inv (worker_loop reader decode "worker-1" 60 turns claimed).1
worker_loop_acks-IsDone_example =
    worker_loop_acks-IsDone reader decode "worker-1" 60 turns claimed
      (
        turn-Keeps (some ((text "stream", (text "5-0", sent) ∷ []) ∷ [])),
        (turn-Keeps (some []), tt),
      )
      claimed-Inv

acked_twice : count (λ p. true) (worker_loop reader decode "worker-1" 60 turns claimed).0 ≡ 2
unfolding worker_loop claimed count lease_task complete_task is_terminal_or_stale find update
acked_twice = refl

abbrev cookies : Fields
cookies = field "auth_token" (str "c") end

abbrev credentials : Fields
credentials = field "email" (str "a@b") (field "password" (str "p") end)

-- One text is the printed cookies, every other the credentials.
abbrev json_tools : JsonTools
json_tools = record {
  loads = λ s. if str_eq s "cookies" then answers (obj cookies) else answers (obj credentials);
  dumps = λ v. "cookies";
  no_get = λ v. "";
  upper = λ s. s;
  remove_spaces = λ s. s;
}

abbrev repair : Repair
repair = record {
  pin = λ s. raises "";
  login = λ c. answers (obj cookies);
  now = 70;
  since = λ s. s;
}

abbrev refused : Repair
refused = record repair { login = λ c. raises "401" }

repaired_once_example :
    (u : Token) × (token_at
        (programmatically_repair_session reader json_tools repair 1 "bot" "creds" pool)
        1
      ≡ some u)
    × (u.status ≡ active)
    × (u.last_error ≡ none)
    × (programmatically_repair_session reader json_tools refused 1 u.token_key u.token_value pool
        ≡ pool)
unfolding find attempt get
repaired_once_example =
    repaired_once reader json_tools repair refused 1 "bot" "creds" pool pool _ cookies refl refl
      refl refl

waiting_reaches_worker_example :
    (events : List ClaimedOutboxEvent) × ((claim_ready 30 created (λ k. false) "token" 5 20 20).0
      ≡ ok events)
    × ((e : ClaimedOutboxEvent) × Memᴰ e events × (e.task_id ≡ 1) × (e.generation ≡ 0))
    × ((l : TaskLease) × ((lease_task
            (claim_ready 30 created (λ k. false) "token" 5 20 20).1
            1
            0
            "worker-1"
            60
            30).0
          ≡ some l))
unfolding created find select join count
waiting_reaches_worker_example =
    waiting_reaches_worker created 1 _ _ 30 5 20 20 30 60 "token" "worker-1" created-Inv refl refl
      refl (omega arith) refl (omega arith) (omega arith) (omega arith)

abbrev done_db : Db
done_db = (complete_task leased_db (lease_of "worker-1") none 50).1

done_db-Inv : Inv done_db
done_db-Inv = complete_task-Inv leased_db (lease_of "worker-1") none 50 leased_db-Inv

-- The task is done, and the cleanup daemon runs.
over_for_ever_example :
    lease_task (purge_tasks done_db) 1 0 "worker-2" 60 90 ≡ (none, purge_tasks done_db)
unfolding leased_db complete_task find update is_terminal_or_stale
over_for_ever_example =
    over_for_ever 1 0 done_db (purge_tasks done_db) "worker-2" 60 90 done_db-Inv (omega arith)
      (λ t e. omega arith) refl (next 60 none here (purges refl))

-- A worker handles the delivery and acknowledges it, and then the cleanup daemon runs.
abbrev handled_db : Db
handled_db = (handle_delivery work idle claimed 1 0 "worker-1" 60 30 0 50 50).1

acked_never_leased_example :
    lease_task (purge_tasks handled_db) 1 0 "worker-2" 60 90 ≡ (none, purge_tasks handled_db)
unfolding claimed handle_delivery handle_leased settle_work lease_task complete_task count
acked_never_leased_example =
    acked_never_leased claimed (purge_tasks handled_db) work idle 1 0 60 30 0 50 50 "worker-1" 60 90
      "worker-2" claimed-Inv (record { number = omega arith; reached = λ t e. omega arith })
      (λ l d. here) (λ d. here) refl (next 60 none here (purges refl))
