-- ===== src/Worker/Session.antt =====
-- IngestionExecutor._collect_with_session and the failover of `collect`, of worker.py.
use Prim.Native.String.{◌++◌}
use xingestionv.Prelude.{ℕ, Bool, Option, none, some, String, if◌then◌else◌}
use xingestionv.Schema.{Sessions, Result, ok, err}
use xingestionv.Tokens.{TokenLease, checkout_token, release_lease, record_success, mark_cooldown}
use xingestionv.Worker.{
  Settings, Raised, Outcome, returned, raised, CollectionRequest, CollectionBatch, class_name,
  session_fault, authentication_failure, unexpected_error, is_collection_error,
}

-- One call of an adapter: whether the adapter needs a session, the times of the checkout and of the
-- end, the sessions that SKIP LOCKED passes over, and the adapter's answer, with what other
-- processes do to the session pool until then.
pub record Turn : Type 0 where
  pub requires_session : Bool
  pub locked : ℕ → Bool
  pub leased_at : ℕ
  pub ended_at : ℕ
  pub answer : CollectionRequest → Option TokenLease → Sessions → Outcome CollectionBatch × Sessions

-- What is done to the leased session after the adapter's answer.
unfoldable pub settle_session :
    Settings → Turn → TokenLease → Outcome CollectionBatch → Sessions → Sessions
settle_session settings turn lease (returned batch) s = record_success s lease turn.ended_at
settle_session settings turn lease (raised r) s =
    if session_fault r.failure_class
    then mark_cooldown s lease settings.token_cooldown_seconds
        (class_name r.failure_class ++ (":" ++ r.message)) turn.ended_at
    else release_lease s lease

abbrev pub no_session : Raised
no_session = record {
  failure_class = authentication_failure;
  message = "no ACTIVE session is currently available";
  retry_after = none;
}

-- An exception that is not the collectors'.
abbrev pub unexpected : Raised
unexpected = record { failure_class = unexpected_error; message = ""; retry_after = none }

-- The call of the adapter with a checked out session.
unfoldable pub with_lease :
    Settings → Turn → CollectionRequest → TokenLease → Sessions → Outcome CollectionBatch × Sessions
unfolding settle_session
with_lease settings turn request lease s =
    let (outcome, s') = turn.answer request (some lease) s in
    (outcome, settle_session settings turn lease outcome s')

-- How the call goes on after checkout_token, which may raise.
unfoldable pub after_checkout :
    Settings
    → Turn
    → CollectionRequest
    → Result (Option TokenLease)
    → Sessions
    → Outcome CollectionBatch × Sessions
unfolding with_lease
after_checkout settings turn request (err f) s = (raised unexpected, s)
after_checkout settings turn request (ok none) s = (raised no_session, s)
after_checkout settings turn request (ok (some lease)) s = with_lease settings turn request lease s

-- IngestionExecutor._collect_with_session
unfoldable pub collect_with_session :
    Settings → Turn → CollectionRequest → String → Sessions → Outcome CollectionBatch × Sessions
unfolding after_checkout
collect_with_session settings turn request worker_id s =
    if turn.requires_session
    then (let (r, s') =
          checkout_token s turn.locked worker_id settings.token_lease_seconds turn.leased_at in
        after_checkout settings turn request r s')
    else turn.answer request none s

-- The three calls that a page may make: the primary adapter, the same with another session, and the
-- recovery adapter where there is one.
pub record PageTurns : Type 0 where
  pub primary : Turn
  pub failover : Turn
  pub recovery : Option Turn

-- `except CollectionError`: the recovery adapter, where there is one, or the same exception.
unfoldable pub or_recovery :
    Settings
    → PageTurns
    → CollectionRequest
    → String
    → Raised
    → Sessions
    → Outcome CollectionBatch × Sessions
unfolding collect_with_session
or_recovery settings turns request worker_id r s = elim turns.recovery [
  | none ↦ (raised r, s)
  | some turn ↦
      if is_collection_error r.failure_class
      then collect_with_session settings turn request (worker_id ++ ":recovery") s
      else (raised r, s)
]

-- The second attempt, with another session.
unfoldable pub after_failover :
    Settings
    → PageTurns
    → CollectionRequest
    → String
    → Outcome CollectionBatch × Sessions
    → Outcome CollectionBatch × Sessions
unfolding or_recovery
after_failover settings turns request worker_id (returned batch, s) = (returned batch, s)
after_failover settings turns request worker_id (raised r, s) =
    or_recovery settings turns request worker_id r s

-- What follows the first attempt. The exceptions AuthenticationFailure and RateLimited, which take
-- the failover, are the session faults.
unfoldable pub after_primary :
    Settings
    → PageTurns
    → CollectionRequest
    → String
    → Outcome CollectionBatch × Sessions
    → Outcome CollectionBatch × Sessions
unfolding after_failover or_recovery collect_with_session
after_primary settings turns request worker_id (returned batch, s) = (returned batch, s)
after_primary settings turns request worker_id (raised r, s) =
    if session_fault r.failure_class
    then after_failover settings turns request worker_id
        (collect_with_session settings turns.failover request (worker_id ++ ":failover") s)
    else or_recovery settings turns request worker_id r s

-- The attempts for one page in IngestionExecutor.collect.
unfoldable pub collect_page :
    Settings
    → PageTurns
    → CollectionRequest
    → String
    → Sessions
    → Outcome CollectionBatch × Sessions
unfolding after_primary collect_with_session
collect_page settings turns request worker_id s =
    after_primary settings turns request worker_id
      (collect_with_session settings turns.primary request worker_id s)
