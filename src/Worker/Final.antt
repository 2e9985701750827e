-- ===== src/Worker/Final.antt =====
-- handle_delivery of worker.py as steps of the ledger, and what follows an acknowledgement.
use mathlib.Core.Option.{some-injective}
use xingestionv.Prelude.{
  ℕ, ◌<◌, ◌≤◌, ◌≡◌, refl, subst, sym, ◌∙◌, true, false, Option, none, some, String, arith,
  Option-cases, Bool-cases, inl, inr,
}
use xingestionv.Schema.{Db, Task}
use xingestionv.Tasks.{TaskLease, lease_task}
use xingestionv.Ledger.{Inv, task_at}
use xingestionv.System.{Step, leases, completes, releases, retries, dies, Reach, here, next}
use xingestionv.System.Safe.{Reach-Inv}
use xingestionv.System.Rows.{RowStep, Next}
use xingestionv.System.Rows.Refines.{Step-Next}
use xingestionv.System.Rows.Numbers.Steps.{Step-Drawn}
use xingestionv.System.Over.{over_for_ever}
use xingestionv.Worker.{Raised, class_name}
use xingestionv.Worker.Delivery.{
  Work, finished, lease_lost, cancelled, failed, gives_up, error_message, delay_of,
  transition_failure, settle_work, handle_leased, handle_delivery,
}
use xingestionv.Worker.Acked.{acked_only_over}

pub Reach-trans : {a b c : Db} → Reach a b → Reach b c → Reach a c
Reach-trans r here = r
Reach-trans r (next now actor q s) = next now actor (Reach-trans r q) s

abbrev one : {a b : Db} (now : ℕ) (actor : Option TaskLease) → Step now actor a b → Reach a b
one now actor s = next now actor here s

failure-Reach :
    (db : Db) (l : TaskLease) (r : Raised) (jitter utcnow now : ℕ)
    → Reach db (transition_failure db l r jitter utcnow now).1
unfolding transition_failure
failure-Reach db l r jitter utcnow now = elim (Bool-cases (gives_up l r)) [
  | inl y ↦
      rw y (one now (some l) (dies l (error_message r) (class_name r.failure_class) refl refl))
  | inr n ↦ rw n (
      one now (some l) (
        retries l (error_message r) (delay_of l r jitter) (class_name r.failure_class) utcnow refl
          refl))
]

settle-Reach :
    (db : Db) (l : TaskLease) (w : Work) (jitter utcnow now : ℕ)
    → Reach db (settle_work db l w jitter utcnow now).1
unfolding settle_work
settle-Reach db l (finished m) jitter utcnow now = one now (some l) (completes l (some m) refl refl)
settle-Reach db l lease_lost jitter utcnow now = here
settle-Reach db l cancelled jitter utcnow now = one now (some l) (releases l refl refl)
settle-Reach db l (failed r) jitter utcnow now = failure-Reach db l r jitter utcnow now

module _ (guarded : TaskLease → Db → Work × Db) (others : Db → Db)
    (work : (l : TaskLease) (d : Db) → Reach d (guarded l d).1)
    (rest : (d : Db) → Reach d (others d)) (i g jitter utcnow now : ℕ) where
  leased-Reach :
      (o : Option TaskLease) (db : Db)
      → Reach db (handle_leased guarded others i g jitter utcnow now o db).1
  unfolding handle_leased
  leased-Reach none db = rest db
  leased-Reach (some l) db =
      Reach-trans (work l db) (settle-Reach (guarded l db).1 l (guarded l db).0 jitter utcnow now)

  handle_delivery-Reach :
      (db : Db) (worker : String) (seconds at : ℕ)
      → Reach db (handle_delivery guarded others db i g worker seconds at jitter utcnow now).1
  unfolding handle_delivery
  handle_delivery-Reach db worker seconds at =
      Reach-trans (one at none (leases i g worker seconds refl)) (leased-Reach _ _)

-- The delivery was sent: its number has been drawn, and the task, where it is there, has not a
-- smaller generation.
pub record WasSent (i g : ℕ) (db : Db) : Type 0 where
  pub number : i < db.next_task
  pub reached : (t : Task) → task_at db i ≡ some t → g ≤ t.delivery_generation

RowStep-generation :
    {now : ℕ} {actor : Option TaskLease} (t u : Task)
    → RowStep now actor t u
    → t.delivery_generation ≤ u.delivery_generation
RowStep-generation t u (RowStep.stays q) = rw q (omega arith)
RowStep-generation t u (RowStep.enqueues r q) = rw q (omega arith)
RowStep-generation t u (RowStep.leases i k s w y q) = rw q (omega arith)
RowStep-generation t u (RowStep.renews l s by y q) = rw q (omega arith)
RowStep-generation t u (RowStep.releases l by y q) = rw q (omega arith)
RowStep-generation t u (RowStep.completes l m by y q) = rw q (omega arith)
RowStep-generation t u (RowStep.retries l at e c by y q) = rw q (omega arith)
RowStep-generation t u (RowStep.dies l e c by y q) = rw q (omega arith)
RowStep-generation t u (RowStep.unlinks q) = rw q (omega arith)

module _ (i g : ℕ) where
  next_generation :
      {now : ℕ} {actor : Option TaskLease} (t u : Task) (o : Option Task)
      → g ≤ t.delivery_generation
      → Next now actor t o
      → o ≡ some u
      → g ≤ u.delivery_generation
  next_generation t u o h (Next.row w e s) q =
      subst (λ (x : Task). g ≤ x.delivery_generation) (some-injective w u (sym e ∙ q))
        (omega (arith, h, RowStep-generation t w s))
  next_generation t u o h (Next.gone y e) q = absurd (ground arith)

  Step-WasSent :
      {now : ℕ} {actor : Option TaskLease} (db db' : Db)
      → Inv db
      → WasSent i g db
      → Step now actor db db'
      → WasSent i g db'
  Step-WasSent db db' v h s = elim (Option-cases (task_at db i)) [
    | inl e ↦
        let d = Step-Drawn i true v s (record { number = h.number; absent = λ y. e }) in
        record { number = d.number; reached = λ u q. absurd (ground (arith, d.absent refl)) }
    | inr (t, e) ↦
        let d = Step-Drawn i false v s (record { number = h.number; absent = λ y. absurd (cc) }) in
        record {
          number = d.number;
          reached =
              λ u q. next_generation t u (task_at db' i) (h.reached t e) (Step-Next db i t v e s) q;
        }
  ]

  Reach-WasSent : (db db' : Db) → Inv db → WasSent i g db → Reach db db' → WasSent i g db'
  Reach-WasSent db db' v h here = h
  Reach-WasSent db db' v h (next {b = b} now actor r s) =
      Step-WasSent b db' (Reach-Inv v r) (Reach-WasSent db b v h r) s

-- Where handle_delivery acknowledges a message for a task and a generation that was sent, the task
-- is never given out under this generation again: after any further transactions of any processes,
-- lease_task gives it to nobody and changes nothing. The guarded work and the other processes do
-- transactions of the ledger meanwhile.
pub acked_never_leased :
    (db db' : Db) (guarded : TaskLease → Db → Work × Db) (others : Db → Db)
    (i g seconds at jitter utcnow now : ℕ) (worker : String) (seconds' now' : ℕ) (worker' : String)
    → Inv db
    → WasSent i g db
    → ((l : TaskLease) (d : Db) → Reach d (guarded l d).1)
    → ((d : Db) → Reach d (others d))
    → (handle_delivery guarded others db i g worker seconds at jitter utcnow now).0 ≡ true
    → Reach (handle_delivery guarded others db i g worker seconds at jitter utcnow now).1 db'
    → lease_task db' i g worker' seconds' now' ≡ (none, db')
acked_never_leased db db' guarded others i g seconds at jitter utcnow now worker seconds' now'
      worker' v h work rest e r =
    over_for_ever i g after db' worker' seconds' now' (Reach-Inv v made) sent.number sent.reached
      (acked_only_over db guarded others i g seconds at jitter utcnow now worker v
        (λ l d w. Reach-Inv w (work l d)) e)
      r
  where
    after : Db
    after = (handle_delivery guarded others db i g worker seconds at jitter utcnow now).1

    made : Reach db after
    made = handle_delivery-Reach guarded others work rest i g jitter utcnow now db worker seconds at

    sent : WasSent i g after
    sent = Reach-WasSent i g db after v h made
