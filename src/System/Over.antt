-- ===== src/System/Over.antt =====
-- About deliveries that are over, as is_terminal_or_stale of xingestion/control_plane.py finds them.
use xingestionv.Prelude.{
  ℕ, ◌<◌, ◌≤◌, ◌≡◌, refl, subst, sym, Bool, true, false, ◌&&◌, ◌||◌, Option, none, some, String,
  arith, Option-cases, inl, inr, ◌==◌, ==_iff, ltb, ◌∙◌,
}
use mathlib.Core.Option.{some-injective}
use xingestionv.Schema.{Db, Task, is_terminal}
use xingestionv.Table.{find}
use xingestionv.Table.Laws.{update-none}
use xingestionv.Table.Keyed.{find-keyed}
use xingestionv.Tasks.{TaskLease, may_lease, leased_row, lease_task, is_terminal_or_stale}
use xingestionv.Ledger.{Inv, task_at}
use xingestionv.System.{Step, Reach, here, next}
use xingestionv.System.Safe.{Reach-Inv}
use xingestionv.System.Rows.{
  RowStep, stays, enqueues, leases, renews, releases, completes, retries, dies, unlinks, Next, row,
  gone,
}
use xingestionv.System.Rows.Refines.{Step-Next}
use xingestionv.System.Rows.Numbers.Steps.{Step-Drawn}

-- The row has left the generation `g`, or has ended in it.
abbrev left_behind : ℕ → Task → Bool
left_behind g t = ltb g t.delivery_generation || t.delivery_generation == g && is_terminal t.status

RowStep-left_behind :
    {now : ℕ} {actor : Option TaskLease} (g : ℕ) (t u : Task)
    → left_behind g t ≡ true
    → RowStep now actor t u
    → left_behind g u ≡ true
RowStep-left_behind g t u h (stays q) = rw q h
RowStep-left_behind g t u h (enqueues r q) = rw q (ground arith)
RowStep-left_behind g t u h (leases i k s w y q) = rw q (ground arith)
RowStep-left_behind g t u h (renews l s by y q) = rw q (ground arith)
RowStep-left_behind g t u h (releases l by y q) = rw q (ground arith)
RowStep-left_behind g t u h (completes l m by y q) = rw q (ground arith)
RowStep-left_behind g t u h (retries l at e c by y q) = rw q (ground arith)
RowStep-left_behind g t u h (dies l e c by y q) = rw q (ground arith)
RowStep-left_behind g t u h (unlinks q) = rw q h

module _ (i g : ℕ) where
  -- The number has been drawn, and its row, where there is one, has left the generation behind.
  pub record StaysOver (db : Db) : Type 0 where
    pub number : i < db.next_task
    pub passed : (t : Task) → task_at db i ≡ some t → left_behind g t ≡ true

  next_left :
      {now : ℕ} {actor : Option TaskLease} (t u : Task) (o : Option Task)
      → left_behind g t ≡ true
      → Next now actor t o
      → o ≡ some u
      → left_behind g u ≡ true
  next_left t u o h (row w e s) q =
      subst (λ (x : Task). left_behind g x ≡ true) (some-injective w u (sym e ∙ q))
        (RowStep-left_behind g t w h s)
  next_left t u o h (gone y e) q = absurd (ground arith)

  Step-StaysOver :
      {now : ℕ} {actor : Option TaskLease} (db db' : Db)
      → Inv db
      → StaysOver db
      → Step now actor db db'
      → StaysOver db'
  Step-StaysOver db db' v h s = elim (Option-cases (task_at db i)) [
    | inl e ↦
        let d = Step-Drawn i true v s (record { number = h.number; absent = λ y. e }) in
        record { number = d.number; passed = λ u q. absurd (ground (arith, d.absent refl)) }
    | inr (t, e) ↦
        let d = Step-Drawn i false v s (record { number = h.number; absent = λ y. absurd (cc) }) in
        record {
          number = d.number;
          passed = λ u q. next_left t u (task_at db' i) (h.passed t e) (Step-Next db i t v e s) q;
        }
  ]

  Reach-StaysOver : (db db' : Db) → Inv db → StaysOver db → Reach db db' → StaysOver db'
  Reach-StaysOver db db' v h here = h
  Reach-StaysOver db db' v h (next {b = b} now actor r s) =
      Step-StaysOver b db' (Reach-Inv v r) (Reach-StaysOver db b v h r) s

  refuses :
      (db : Db) (worker : String) (seconds now : ℕ)
      → Inv db
      → StaysOver db
      → lease_task db i g worker seconds now ≡ (none, db)
  unfolding lease_task
  refuses db worker seconds now v h =
      ground
        (arith, miss, update-none (may_lease i g now) (leased_row worker seconds now) db.tasks miss)
    where
      miss : find (may_lease i g now) db.tasks ≡ none
      miss = elim (Option-cases (task_at db i)) [
        | inl e ↦ ground (
          arith,
          find-keyed (λ a. a.id) i (may_lease i g now) db.tasks v.task_ids (λ a y. ground arith),
          e,
        )
        | inr (t, e) ↦ ground (
          arith,
          find-keyed (λ a. a.id) i (may_lease i g now) db.tasks v.task_ids (λ a y. ground arith),
          e,
          h.passed t e,
          ==_iff t.delivery_generation g,
        )
      ]

  -- A delivery that was sent and is over, as a worker finds it before it acknowledges the message,
  -- is over for ever: after any transactions of any processes, lease_task gives the task under this
  -- generation to nobody and changes nothing; so no work is lost by the acknowledgement. It was
  -- sent: its number has been drawn, and the task, where it is still there, has not a smaller
  -- generation.
  pub over_for_ever :
      (db db' : Db) (worker : String) (seconds now : ℕ)
      → Inv db
      → i < db.next_task
      → ((t : Task) → task_at db i ≡ some t → g ≤ t.delivery_generation)
      → is_terminal_or_stale db i g ≡ true
      → Reach db db'
      → lease_task db' i g worker seconds now ≡ (none, db')
  unfolding is_terminal_or_stale
  over_for_ever db db' worker seconds now v n sent over r =
      refuses db' worker seconds now (Reach-Inv v r) (
        Reach-StaysOver db db' v
          (record {
            number = n;
            passed = λ t e. ground (arith, sent t e, ==_iff t.delivery_generation g);
          })
          r)
