-- ===== src/Worker/Loop/Acks.antt =====
-- What worker_loop of worker.py acknowledges.
use xingestionv.Prelude.{
  ℕ, ℤ, pos, negsuc, pos_part, ap, Option-cases, ◌≡◌, refl, Bool, true, false, Option, none, some,
  List, [], ◌∷◌, String, Bool-cases, inl, inr, if◌then◌else◌, sym,
}
use xingestionv.Schema.{Db}
use xingestionv.Results.{result_cases}
use xingestionv.Table.All.{All}
use xingestionv.Tasks.{TaskLease, is_terminal_or_stale}
use xingestionv.Capabilities.{Builtins}
use xingestionv.Queue.{StreamDelivery}
use xingestionv.Ledger.{Inv}
use xingestionv.Ledger.Updates.{
  lease_task-Inv, complete_task-Inv, dead_letter_task-Inv, release_for_recovery-Inv,
}
use xingestionv.Ledger.Retry.{schedule_retry-Inv}
use xingestionv.Worker.{Raised}
use xingestionv.Worker.Delivery.{
  Work, finished, lease_lost, cancelled, failed, gives_up, transition_failure, settle_work,
  handle_leased, handle_delivery,
}
use xingestionv.Worker.Acked.{acked_only_over}
use xingestionv.Worker.Loop.{LoopTurn, received, handle_numbered, handle_message, worker_loop}

failure-Inv :
    (db : Db) (l : TaskLease) (r : Raised) (jitter utcnow now : ℕ)
    → Inv db
    → Inv (transition_failure db l r jitter utcnow now).1
unfolding transition_failure
failure-Inv db l r jitter utcnow now v = elim (Bool-cases (gives_up l r)) [
  | inl y ↦ rw y (dead_letter_task-Inv db l _ _ now v)
  | inr n ↦ rw n (schedule_retry-Inv db l _ _ _ utcnow now v)
]

settle-Inv :
    (db : Db) (l : TaskLease) (w : Work) (jitter utcnow now : ℕ)
    → Inv db
    → Inv (settle_work db l w jitter utcnow now).1
unfolding settle_work
settle-Inv db l (finished m) jitter utcnow now v = complete_task-Inv db l (some m) now v
settle-Inv db l lease_lost jitter utcnow now v = v
settle-Inv db l cancelled jitter utcnow now v = release_for_recovery-Inv db l now v
settle-Inv db l (failed r) jitter utcnow now v = failure-Inv db l r jitter utcnow now v

-- What the work on a turn's task and the other processes do keeps the ledger well-formed.
pub record Keeps (turn : LoopTurn) : Type 0 where
  pub work : (d : StreamDelivery) (l : TaskLease) (db : Db) → Inv db → Inv (turn.guarded d l db).1
  pub others : (db : Db) → Inv db → Inv (turn.others db)
  pub since : (db : Db) → Inv db → Inv (turn.since db)

leased-Inv :
    (turn : LoopTurn) (d : StreamDelivery) (i g : ℕ) (o : Option TaskLease) (db : Db)
    → Keeps turn
    → Inv db
    → Inv (handle_leased (turn.guarded d) turn.others i g turn.jitter turn.utcnow turn.now o db).1
unfolding handle_leased
leased-Inv turn d i g none db k v = k.others db v
leased-Inv turn d i g (some l) db k v =
    settle-Inv (turn.guarded d l db).1 l (turn.guarded d l db).0 turn.jitter turn.utcnow turn.now
      (k.work d l db v)

-- The delivery of this number and generation is over.
abbrev pub IsDone : StreamDelivery × Db → Type 0
IsDone (d, db) =
    (i g : ℕ) → d.task_id ≡ pos i → d.generation ≡ pos g → is_terminal_or_stale db i g ≡ true

pos-injective : (i j : ℕ) → pos i ≡ pos j → i ≡ j
pos-injective i j e = ap pos_part e

logged :
    (d : StreamDelivery) (b : Bool) (after : Db) (log : List (StreamDelivery × Db))
    → (b ≡ true → IsDone (d, after))
    → All IsDone log
    → All IsDone (if b then (d, after) ∷ log else log)
logged d true after log h k = (h refl, k)
logged d false after log h k = k

module _ (py : Builtins) (decode : List ℕ → Option String) (worker_id : String)
    (lease_seconds : ℕ) where
  module _ (turn : LoopTurn) (d : StreamDelivery) (db : Db) (k : Keeps turn) (v : Inv db) where
    numbered-Inv :
        (m n : ℤ) → Inv (handle_numbered py decode worker_id lease_seconds turn d m n db).1
    unfolding handle_numbered handle_delivery
    numbered-Inv (pos i) (pos g) =
        leased-Inv turn d i g _ _ k (lease_task-Inv db i g lease_seconds turn.leased_at worker_id v)
    numbered-Inv (pos i) (negsuc g) = k.others db v
    numbered-Inv (negsuc i) n = k.others db v

    numbered-over :
        (m n : ℤ) (i g : ℕ)
        → m ≡ pos i
        → n ≡ pos g
        → (handle_numbered py decode worker_id lease_seconds turn d m n db).0 ≡ true
        → is_terminal_or_stale
            (handle_numbered py decode worker_id lease_seconds turn d m n db).1
            i
            g
          ≡ true
    unfolding handle_numbered
    numbered-over (pos j) (pos h) i g p q e =
        rw (pos-injective i j (sym p), pos-injective g h (sym q))
          (acked_only_over db (turn.guarded d) turn.others j h lease_seconds turn.leased_at
            turn.jitter turn.utcnow turn.now worker_id v (k.work d) e)
    numbered-over (pos j) (negsuc h) i g p q e = absurd (cc)
    numbered-over (negsuc j) n i g p q e = absurd (cc)

  -- Every delivery that worker_loop acknowledges is over at that time: no task has its number, or the
  -- task has another generation, is DONE or is dead-lettered; and the ledger stays well-formed.
  pub worker_loop_acks-IsDone :
      (turns : List LoopTurn) (db : Db)
      → All Keeps turns
      → Inv db
      → All IsDone (worker_loop py decode worker_id lease_seconds turns db).0
        × Inv (worker_loop py decode worker_id lease_seconds turns db).1
  unfolding worker_loop
  worker_loop_acks-IsDone [] db k v = (tt, v)
  worker_loop_acks-IsDone (turn ∷ turns) db k v =
      elim (result_cases (received py decode worker_id lease_seconds turn)) [
        | inl (f, e) ↦
            rw (e, worker_loop) (worker_loop_acks-IsDone turns (turn.since db) k.1 (k.0.since db v))
        | inr (o, e) ↦ elim (Option-cases o) [
          | inl n ↦
              rw (e, n, worker_loop)
                (worker_loop_acks-IsDone turns (turn.since db) k.1 (k.0.since db v))
          | inr (d, n) ↦
              let v' : Inv (turn.since db) = k.0.since db v in
              let (log, w) =
                worker_loop_acks-IsDone turns
                  (handle_message py decode worker_id lease_seconds turn d (turn.since db)).1 k.1
                  (numbered-Inv turn d (turn.since db) k.0 v' d.task_id d.generation) in
              rw (e, n, worker_loop)
                (
                  logged d _ _ _
                      (λ y i g p q.
                        numbered-over turn d (turn.since db) k.0 v' d.task_id d.generation i g p q
                          y)
                      log,
                  w,
                )
        ]
      ]
