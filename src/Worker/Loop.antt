-- ===== src/Worker/Loop.antt =====
-- worker_loop of worker.py, turn by turn. The answers of Redis, what the guarded work does, and what
-- other processes do to the ledger between the turns, are arguments; a cancellation ends the list of
-- turns.
pub mod Acks
use xingestionv.Prelude.{
  ℕ, ℤ, pos, Bool, true, Option, none, some, List, [], ◌∷◌, String, if◌then◌else◌,
}
use xingestionv.Schema.{Db, Result, ok, err, ◌>>=◌, runtime_error}
use xingestionv.Tasks.{TaskLease}
use xingestionv.Capabilities.{Builtins}
use xingestionv.Queue.{StreamDelivery, Wire, Entry, read_new, reclaim}
use xingestionv.Worker.Delivery.{Work, handle_delivery}

-- A turn: the answers to XREADGROUP and XAUTOCLAIM, `none` where the call raises, the work on a
-- leased task, and what happens to the ledger before the turn and before is_terminal_or_stale.
pub record LoopTurn : Type 0 where
  pub answer : Option (List (Wire × List Entry))
  pub reclaimed : Option (Option (List Entry))
  pub guarded : StreamDelivery → TaskLease → Db → Work × Db
  pub others : Db → Db
  pub since : Db → Db
  pub leased_at : ℕ
  pub jitter : ℕ
  pub utcnow : ℕ
  pub now : ℕ

abbrev pub raising {ℓ} : {A : Type ℓ} → Option A → Result A
raising none = err runtime_error
raising (some a) = ok a

-- deliveries[0], where there is one
abbrev pub head_of : List StreamDelivery → Option StreamDelivery
head_of [] = none
head_of (d ∷ rest) = some d

module _ (py : Builtins) (decode : List ℕ → Option String) (worker_id : String)
    (lease_seconds : ℕ) where
  abbrev pub or_reclaim : LoopTurn → List StreamDelivery → Result (List StreamDelivery)
  or_reclaim turn [] = raising turn.reclaimed >>= reclaim py decode
  or_reclaim turn (d ∷ rest) = ok (d ∷ rest)

  -- The delivery of a turn.
  unfoldable pub received : LoopTurn → Result (Option StreamDelivery)
  unfolding read_new reclaim
  received turn =
      raising turn.answer >>= read_new py decode >>= or_reclaim turn >>= (λ ds. ok (head_of ds))

  -- handle_delivery of a decoded delivery. No row has a negative number: then lease_task finds no
  -- task, and is_terminal_or_stale answers true.
  unfoldable pub handle_numbered : LoopTurn → StreamDelivery → ℤ → ℤ → Db → Bool × Db
  unfolding handle_delivery
  handle_numbered turn d (pos i) (pos g) db =
      handle_delivery (turn.guarded d) turn.others db i g worker_id lease_seconds turn.leased_at
        turn.jitter turn.utcnow turn.now
  handle_numbered turn d _ _ db = (true, turn.others db)

  abbrev pub handle_message : LoopTurn → StreamDelivery → Db → Bool × Db
  handle_message turn d db = handle_numbered turn d d.task_id d.generation db

  -- worker_loop: the acknowledged deliveries, each with the ledger at that time, and the ledger at
  -- the end.
  unfoldable pub worker_loop : List LoopTurn → Db → List (StreamDelivery × Db) × Db
  unfolding received handle_numbered
  worker_loop [] db = ([], db)
  worker_loop (turn ∷ turns) db = elim (received turn) [
    | err f ↦ worker_loop turns (turn.since db)
    | ok none ↦ worker_loop turns (turn.since db)
    | ok (some d) ↦
        let (acked, after) = handle_message turn d (turn.since db) in
        let (log, last) = worker_loop turns after in (if acked then (d, after) ∷ log else log, last)
  ]
