-- ===== src/Worker/Acked.antt =====
-- The acknowledgement of a delivery.
use xingestionv.Prelude.{
  ℤ, Bool-cases, ℕ, ◌≡◌, refl, sym, Bool, true, false, Option, none, some, String, arith,
  Option-cases, inl, inr, ==_iff,
}
use xingestionv.Json.{Json}
use xingestionv.Schema.{Db}
use xingestionv.Table.{find}
use xingestionv.Table.Laws.{find-IsTrue, count-none}
use xingestionv.Tasks.{
  TaskLease, fence, may_lease, lease_task, complete_task, schedule_retry, dead_letter_task,
  is_terminal_or_stale,
}
use xingestionv.Ledger.{Inv}
use xingestionv.Ledger.Updates.{lease_task-Inv}
use xingestionv.System.Fence.{fence-held}
use xingestionv.System.Fence.Held.{complete_task_held, schedule_retry_held, dead_letter_task_held}
use xingestionv.Worker.{Raised, class_name}
use xingestionv.Worker.Delivery.{
  Work, finished, lease_lost, cancelled, failed, gives_up, error_message, delay_of,
  transition_failure, settle_work, handle_leased, handle_delivery,
}

-- A delivery is over for a task: later deliveries of its generation find nothing to do.
abbrev IsOver : Bool × Db → TaskLease → Type 0
IsOver r l = r.0 ≡ true → is_terminal_or_stale r.1 l.id l.delivery_generation ≡ true

-- A call on a lease that no row shows returns false.
module _ (db : Db) (l : TaskLease) (h : find (fence l) db.tasks ≡ none) where
  complete_lost : (m : Option Json) (now : ℕ) → (complete_task db l m now).0 ≡ false
  unfolding complete_task
  complete_lost m now = ground (arith, count-none (fence l) db.tasks h)

  retry_lost :
      (e c : String) (d : ℤ) (utcnow now : ℕ) → (schedule_retry db l e d c utcnow now).0 ≡ false
  unfolding schedule_retry
  retry_lost e c d utcnow now = rw (h, schedule_retry) refl

  dead_lost : (e c : String) (now : ℕ) → (dead_letter_task db l e c now).0 ≡ false
  unfolding dead_letter_task
  dead_lost e c now = rw (h, dead_letter_task) refl

complete-IsOver :
    (db : Db) (l : TaskLease) (m : Option Json) (now : ℕ)
    → Inv db
    → IsOver (complete_task db l m now) l
unfolding is_terminal_or_stale
complete-IsOver db l m now v e = elim (Option-cases (find (fence l) db.tasks)) [
  | inl h ↦ absurd (ground (arith, complete_lost db l h m now))
  | inr (t, h) ↦
      let (here, w) = fence-held db l t v h in
      ground (arith, (complete_task_held db l t v here w m now l.id).1)
]

retry-IsOver :
    (db : Db) (l : TaskLease) (e c : String) (d : ℤ) (utcnow now : ℕ)
    → Inv db
    → IsOver (schedule_retry db l e d c utcnow now) l
unfolding is_terminal_or_stale
retry-IsOver db l e c d utcnow now v y = elim (Option-cases (find (fence l) db.tasks)) [
  | inl h ↦ absurd (ground (arith, retry_lost db l h e c d utcnow now))
  | inr (t, h) ↦
      let (here, w) = fence-held db l t v h in
      ground (arith, (schedule_retry_held db l t v here w e d c utcnow now l.id).1, w.generation)
]

dead-IsOver :
    (db : Db) (l : TaskLease) (e c : String) (now : ℕ)
    → Inv db
    → IsOver (dead_letter_task db l e c now) l
unfolding is_terminal_or_stale
dead-IsOver db l e c now v y = elim (Option-cases (find (fence l) db.tasks)) [
  | inl h ↦ absurd (ground (arith, dead_lost db l h e c now))
  | inr (t, h) ↦
      let (here, w) = fence-held db l t v h in
      ground (arith, (dead_letter_task_held db l t v here w e c now l.id).1)
]

failure-IsOver :
    (db : Db) (l : TaskLease) (r : Raised) (jitter utcnow now : ℕ)
    → Inv db
    → IsOver (transition_failure db l r jitter utcnow now) l
unfolding transition_failure
failure-IsOver db l r jitter utcnow now v = elim (Bool-cases (gives_up l r)) [
  | inl y ↦ rw y (dead-IsOver db l (error_message r) (class_name r.failure_class) now v)
  | inr n ↦ rw n (
      retry-IsOver db l (error_message r) (class_name r.failure_class) (delay_of l r jitter) utcnow
        now v)
]

settle-IsOver :
    (db : Db) (l : TaskLease) (w : Work) (jitter utcnow now : ℕ)
    → Inv db
    → IsOver (settle_work db l w jitter utcnow now) l
unfolding settle_work
settle-IsOver db l (finished m) jitter utcnow now v = complete-IsOver db l (some m) now v
settle-IsOver db l lease_lost jitter utcnow now v = λ e. cc
settle-IsOver db l cancelled jitter utcnow now v = λ e. cc
settle-IsOver db l (failed r) jitter utcnow now v = failure-IsOver db l r jitter utcnow now v

leased_id :
    (db : Db) (i g seconds at : ℕ) (worker : String) (l : TaskLease)
    → (lease_task db i g worker seconds at).0 ≡ some l
    → (l.id ≡ i) × (l.delivery_generation ≡ g)
unfolding lease_task
leased_id db i g seconds at worker l e = elim (Option-cases (find (may_lease i g at) db.tasks)) [
  | inl h ↦ absurd (ground arith)
  | inr (t, h) ↦ ground (
    arith,
    find-IsTrue (may_lease i g at) db.tasks t h,
    ==_iff t.id i,
    ==_iff t.delivery_generation g,
  )
]

handled_over :
    (guarded : TaskLease → Db → Work × Db) (others : Db → Db) (i g jitter utcnow now : ℕ)
    (o : Option TaskLease) (db : Db)
    → Inv db
    → ((l : TaskLease) (d : Db) → Inv d → Inv (guarded l d).1)
    → ((l : TaskLease) → o ≡ some l → (l.id ≡ i) × (l.delivery_generation ≡ g))
    → (handle_leased guarded others i g jitter utcnow now o db).0 ≡ true
    → is_terminal_or_stale (handle_leased guarded others i g jitter utcnow now o db).1 i g ≡ true
unfolding handle_leased
handled_over guarded others i g jitter utcnow now none db v k n e = e
handled_over guarded others i g jitter utcnow now (some l) db v k n e =
    rw (sym (n l refl).0, sym (n l refl).1)
      (settle-IsOver (guarded l db).1 l (guarded l db).0 jitter utcnow now (k l db v) e)

-- Where handle_delivery acknowledges a message, the ledger that it leaves no longer has the task, or
-- has it under another generation, DONE or dead-lettered; whatever the guarded work and the other
-- processes do meanwhile, as long as they keep the ledger well-formed.
pub acked_only_over :
    (db : Db) (guarded : TaskLease → Db → Work × Db) (others : Db → Db)
    (i g seconds at jitter utcnow now : ℕ) (worker : String)
    → Inv db
    → ((l : TaskLease) (d : Db) → Inv d → Inv (guarded l d).1)
    → (handle_delivery guarded others db i g worker seconds at jitter utcnow now).0 ≡ true
    → is_terminal_or_stale
        (handle_delivery guarded others db i g worker seconds at jitter utcnow now).1
        i
        g
      ≡ true
unfolding handle_delivery handle_leased
acked_only_over db guarded others i g seconds at jitter utcnow now worker v k e =
    handled_over guarded others i g jitter utcnow now _ _
      (lease_task-Inv db i g seconds at worker v) k (leased_id db i g seconds at worker) e
