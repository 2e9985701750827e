-- ===== src/Ledger/Rows.antt =====
-- An UPDATE of worker_tasks that keeps a row's key and generation, and makes no row ready again,
-- keeps the ledger well-formed.
use xingestionv.Prelude.{
  ℕ, ◌≤◌, ◌≡◌, ap, Bool, true, some, List, arith, if◌then◌else◌, ◌==◌, Option-cases, Bool-cases,
  inl, inr,
}
use mathlib.Core.Option
use xingestionv.Schema.{Db, Task, OutboxRow, DeadLetter, ReplayRow, is_ready}
use xingestionv.Table.{update}
use xingestionv.Table.Laws.{find-update}
use xingestionv.Table.Keyed.{update-Unique}
use xingestionv.Ledger.{Inv, LeaseOk, TrackedAt, task_at, outbox_at}

-- What the SET clause `f` does to a row that passes the test `p`.
pub record Gentle (p : Task → Bool) (f : Task → Task) : Type 0 where
  pub id : (t : Task) → (f t).id ≡ t.id
  pub generation : (t : Task) → (f t).delivery_generation ≡ t.delivery_generation
  pub ready : (t : Task) → is_ready (f t).status ≡ true → is_ready t.status ≡ true
  pub lease : (t : Task) → p t ≡ true → LeaseOk t → LeaseOk (f t)

-- The ledger after an UPDATE of worker_tasks.
abbrev pub with_tasks : Db → (Task → Bool) → (Task → Task) → Db
with_tasks db p f = record db { tasks = update p f db.tasks }

pub task_at-update :
    (db : Db) (p : Task → Bool) (f : Task → Task) (i : ℕ)
    → ((t : Task) → (f t).id ≡ t.id)
    → task_at (with_tasks db p f) i ≡ Option.map (λ r. if p r then f r else r) (task_at db i)
task_at-update db p f i h =
    find-update (λ t. t.id == i) p f db.tasks (λ t. ap (λ (k : ℕ). k == i) (h t))

module _ (db : Db) (p : Task → Bool) (f : Task → Task) (g : Gentle p f) (v : Inv db) where
  -- The row that stood there before.
  abbrev Was : ℕ → Task → Type 0
  Was i t = (s : Task) × (task_at db i ≡ some s) × (t ≡ (if p s then f s else s))

  was : (i : ℕ) (t : Task) → task_at (with_tasks db p f) i ≡ some t → Was i t
  was i t e = elim (Option-cases (task_at db i)) [
    | inl h ↦ absurd (ground (arith, task_at-update db p f i g.id))
    | inr (s, h) ↦ (s, h, ground (arith, task_at-update db p f i g.id))
  ]

  leased : (i : ℕ) (t : Task) → task_at (with_tasks db p f) i ≡ some t → LeaseOk t
  leased i t e =
      let (s, h, q) = was i t e in
      rw q (elim (Bool-cases (p s)) [
        | inl y ↦ rw y (g.lease s y (v.leased i s h))
        | inr n ↦ rw n (v.leased i s h)
      ])

  tracked : (i : ℕ) (t : Task) → task_at (with_tasks db p f) i ≡ some t → TrackedAt db i t
  tracked i t e =
      let (s, h, q) = was i t e in
      let (o, ho, to) = v.tracked i s h in
      let same : t.delivery_generation ≡ s.delivery_generation = ground (arith, g.generation s) in
      let back : is_ready t.status ≡ true → is_ready s.status ≡ true =
        λ r. ground (arith, g.ready s) in
      (
        o,
        rw same ho,
        record {
          unpublished = λ r. to.unpublished (back r);
          unclaimed = λ r. to.unclaimed (back r);
        },
      )

  owned :
      (i n : ℕ) (o : OutboxRow)
      → outbox_at db i n ≡ some o
      → (t : Task) × (task_at (with_tasks db p f) i ≡ some t) × (n ≤ t.delivery_generation)
  owned i n o e =
      let (s, h, le) = v.owned i n o e in
      (if p s then f s else s, rw (task_at-update db p f i g.id, h), ground (arith, g.generation s))

  pub update-Inv : Inv (with_tasks db p f)
  update-Inv = record {
    sound = record {
      task_ids = update-Unique (λ t. t.id) p f db.tasks g.id v.task_ids;
      outbox_ids = v.outbox_ids;
      fresh_task = λ i h. rw (task_at-update db p f i g.id, v.fresh_task i h);
      fresh_outbox = v.fresh_outbox;
      leased = leased;
      owned = owned;
      keyed = v.keyed;
    };
    tracked = tracked;
  }

-- The invariant speaks of worker_tasks and task_outbox only.
pub aside-Inv :
    (db : Db) (dead : List DeadLetter) (n : ℕ) (replays : List ReplayRow) (m : ℕ)
    → Inv db
    → Inv (record db {
      dead_letters = dead;
      next_dead_letter = n;
      replays = replays;
      next_replay = m;
    })
aside-Inv db dead n replays m v = record {
  sound = record {
    task_ids = v.task_ids;
    outbox_ids = v.outbox_ids;
    fresh_task = v.fresh_task;
    fresh_outbox = v.fresh_outbox;
    leased = v.leased;
    owned = v.owned;
    keyed = v.keyed;
  };
  tracked = v.tracked;
}
