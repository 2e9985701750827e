-- ===== src/Tests/Worker.antt =====
-- A worker with one delivery, and with one session.
use xingestionv.Prelude.{inl, ◌≡◌, refl, true, none, some, pos, [], ◌∷◌}
use xingestionv.Json.{null}
use xingestionv.Schema.{Db, Sessions, Token, active, ok}
use xingestionv.Table.{find, insert, select, delete, count, order_by, place, update}
use xingestionv.Tasks.{TaskLease, lease_task, complete_task, is_terminal_or_stale}
use xingestionv.Tokens.{TokenLease, is_lease, checkout_token, candidate, first, grant}
use xingestionv.Prelude.{arith}
use xingestionv.Tokens.Capacity.{Capacity}
use xingestionv.Tokens.Reach.{PoolReach-Capacity, begin, call, checks_out}
use xingestionv.Worker.{
  Raised, raised, rate_limited, permanent_task_failure, Settings, CollectionRequest,
}
use xingestionv.Worker.Session.{Turn, collect_with_session}
use xingestionv.Worker.Delivery.{
  Work, finished, transition_failure, handle_delivery, handle_leased, settle_work,
}
use xingestionv.Worker.Acked.{acked_only_over}
use xingestionv.System.Fence.Ends.{Buried}
use xingestionv.Worker.Failures.{transition_failure-gives_up}
use xingestionv.Worker.Sessions.{session_given_back}
use xingestionv.Tests.Ledger.{
  claimed, claimed-Inv, leased_db, leased_db-Inv, lease_of, leased_row_there, unlocked,
}

abbrev pub work : TaskLease → Db → Work × Db
work l d = (finished null, d)

abbrev pub idle : Db → Db
idle d = d

handled : (handle_delivery work idle claimed 1 0 "worker-1" 60 30 0 50 50).0 ≡ true
unfolding claimed handle_delivery handle_leased settle_work lease_task complete_task count
handled = refl

acked_only_over_example :
    is_terminal_or_stale (handle_delivery work idle claimed 1 0 "worker-1" 60 30 0 50 50).1 1 0
    ≡ true
acked_only_over_example =
    acked_only_over claimed work idle 1 0 60 30 0 50 50 "worker-1" claimed-Inv (λ l d v. v) handled

abbrev limited : Raised
limited = record { failure_class = rate_limited; message = "429"; retry_after = some (pos 7) }

abbrev malformed : Raised
malformed = record { failure_class = permanent_task_failure; message = "bad"; retry_after = none }

transition_failure-gives_up_example :
    Buried leased_db
      (lease_of "worker-1")
      leased_row_there.0
      "permanent_task_failure:bad"
      "permanent_task_failure"
      2
      (transition_failure leased_db (lease_of "worker-1") malformed 0 50 50)
transition_failure-gives_up_example =
    transition_failure-gives_up leased_db (lease_of "worker-1") leased_row_there.0 leased_db-Inv
      leased_row_there.1 leased_row_there.2 malformed 0 50 50 2 (omega arith) (inl refl)

-- One session, and an adapter that it is rate limited for.
abbrev token : Token
token = record {
  id = 1;
  token_key = "key";
  token_value = "value";
  status = active;
  cooldown_until = none;
  last_error = none;
  last_leased_at = none;
  last_used_at = none;
  max_concurrency = 1;
  updated_at = 0;
}

abbrev pub pool : Sessions
pool = record { tokens = token ∷ []; leases = []; next_lease = 1 }

abbrev settings : Settings
settings = record {
  token_lease_seconds = 60;
  token_cooldown_seconds = 900;
  collector_max_pages = 2;
}

abbrev turn : Turn
turn = record {
  requires_session = true;
  locked = unlocked;
  leased_at = 10;
  ended_at = 20;
  answer = λ request lease s. (raised limited, s);
}

abbrev cats : CollectionRequest
cats = record { query = "cats"; product = "Latest"; cursor = none; page_size = pos 20 }

leased_session :
    (lease : TokenLease) × (s1 : Sessions) × (checkout_token pool unlocked "worker-1" 60 10
      ≡ (ok (some lease), s1))
unfolding checkout_token candidate first grant find insert select delete count order_by place update
leased_session = (_, _, refl)

session_given_back_example :
    find
      (is_lease leased_session.0)
      (collect_with_session settings turn cats "worker-1" pool).1.leases
    ≡ none
session_given_back_example =
    session_given_back settings turn cats "worker-1" pool leased_session.1 leased_session.0 refl
      leased_session.2

pool-Capacity : Capacity 5 pool
unfolding find count
pool-Capacity = record { token_ids = (refl, tt); within = λ i t e. omega arith }

PoolReach-Capacity_example : Capacity 10 leased_session.1
unfolding checkout_token leased_session
PoolReach-Capacity_example =
    PoolReach-Capacity 5 pool 10 leased_session.1
      (call begin (omega arith) (checks_out unlocked "worker-1" 60 refl)) pool-Capacity
