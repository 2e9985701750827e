-- ===== src/Ledger/Both.antt =====
-- A pair of UPDATE statements, one of worker_tasks and one of task_outbox, that leave keys and
-- generations alone.
use xingestionv.Prelude.{
  ℕ, ◌≤◌, ◌≡◌, ap, Bool, true, some, arith, if◌then◌else◌, ◌==◌, ◌&&◌, Option-cases, Bool-cases,
  inl, inr,
}
use mathlib.Core.Option
use mathlib.Core.Path.{ap₂}
use xingestionv.Schema.{Db, Task, OutboxRow}
use xingestionv.Table.{update}
use xingestionv.Table.Laws.{find-update}
use xingestionv.Table.Keyed.{update-Unique}
use xingestionv.Ledger.{Inv, LeaseOk, Tracked, TrackedAt, task_at, outbox_at, outbox_id}

-- `p` and `f` are the WHERE and SET of the update of worker_tasks, `q` and `h` of task_outbox.
abbrev pub with_both :
    Db → (Task → Bool) → (Task → Task) → (OutboxRow → Bool) → (OutboxRow → OutboxRow) → Db
with_both db p f q h = record db { tasks = update p f db.tasks; outbox = update q h db.outbox }

pub record Joint (db : Db) (p : Task → Bool) (f : Task → Task) (q : OutboxRow → Bool)
    (h : OutboxRow → OutboxRow) : Type 0 where
  pub id : (t : Task) → (f t).id ≡ t.id
  pub generation : (t : Task) → (f t).delivery_generation ≡ t.delivery_generation
  pub lease : (t : Task) → p t ≡ true → LeaseOk t → LeaseOk (f t)
  pub row_id : (o : OutboxRow) → (h o).id ≡ o.id
  pub row_task : (o : OutboxRow) → (h o).task_id ≡ o.task_id
  pub row_generation : (o : OutboxRow) → (h o).delivery_generation ≡ o.delivery_generation
  -- A task that still waits has a row that is neither published nor claimed.
  pub track :
      (i : ℕ) (s : Task) (o : OutboxRow)
      → task_at db i ≡ some s
      → outbox_at db i s.delivery_generation ≡ some o
      → Tracked s o
      → Tracked (if p s then f s else s) (if q o then h o else o)

module _ (db : Db) (p : Task → Bool) (f : Task → Task) (q : OutboxRow → Bool)
    (h : OutboxRow → OutboxRow) (j : Joint db p f q h) where
  abbrev both : Db
  both = with_both db p f q h

  task_at-both : (i : ℕ) → task_at both i ≡ Option.map (λ t. if p t then f t else t) (task_at db i)
  task_at-both i = find-update (λ t. t.id == i) p f db.tasks (λ t. ap (λ (k : ℕ). k == i) (j.id t))

  outbox_id-both :
      (i : ℕ) → outbox_id both i ≡ Option.map (λ o. if q o then h o else o) (outbox_id db i)
  outbox_id-both i =
      find-update (λ o. o.id == i) q h db.outbox (λ o. ap (λ (k : ℕ). k == i) (j.row_id o))

  outbox_at-both :
      (i g : ℕ) → outbox_at both i g ≡ Option.map (λ o. if q o then h o else o) (outbox_at db i g)
  outbox_at-both i g =
      find-update (λ o. o.task_id == i && o.delivery_generation == g) q h db.outbox
        (λ o. ap₂ (λ (a b : ℕ). a == i && b == g) (j.row_task o) (j.row_generation o))

  module _ (v : Inv db) where
    leased : (i : ℕ) (t : Task) → task_at both i ≡ some t → LeaseOk t
    leased i t e = elim (Option-cases (task_at db i)) [
      | inl no_row ↦ absurd (ground (arith, task_at-both i))
      | inr (s, there) ↦ elim (Bool-cases (p s)) [
        | inl y ↦
            let same : f s ≡ t = ground (arith, task_at-both i) in
            rw (← same) (j.lease s y (v.leased i s there))
        | inr n ↦
            let same : s ≡ t = ground (arith, task_at-both i) in rw (← same) (v.leased i s there)
      ]
    ]

    owned :
        (i g : ℕ) (o : OutboxRow)
        → outbox_at both i g ≡ some o
        → (t : Task) × (task_at both i ≡ some t) × (g ≤ t.delivery_generation)
    owned i g o e = elim (Option-cases (outbox_at db i g)) [
      | inl no_row ↦ absurd (ground (arith, outbox_at-both i g))
      | inr (o', there) ↦
          let (s, hs, le) = v.owned i g o' there in
          (if p s then f s else s, rw (task_at-both i, hs), ground (arith, j.generation s))
    ]

    keyed : (i g : ℕ) (o : OutboxRow) → outbox_at both i g ≡ some o → outbox_id both o.id ≡ some o
    keyed i g o e = elim (Option-cases (outbox_at db i g)) [
      | inl no_row ↦ absurd (ground (arith, outbox_at-both i g))
      | inr (o', there) ↦
          let same : (if q o' then h o' else o') ≡ o = ground (arith, outbox_at-both i g) in
          let number : o.id ≡ o'.id = ground (arith, j.row_id o') in
          rw number (ground (arith, outbox_id-both o'.id, v.keyed i g o' there))
    ]

    tracked : (i : ℕ) (t : Task) → task_at both i ≡ some t → TrackedAt both i t
    tracked i t e = elim (Option-cases (task_at db i)) [
      | inl no_row ↦ absurd (ground (arith, task_at-both i))
      | inr (s, there) ↦
          let same : (if p s then f s else s) ≡ t = ground (arith, task_at-both i) in
          let (o, ho, w) = v.tracked i s there in
          let gen : t.delivery_generation ≡ s.delivery_generation =
            ground (arith, j.generation s) in
          (
            if q o then h o else o,
            rw gen (rw (outbox_at-both i s.delivery_generation, ho)),
            rw (← same) (j.track i s o there ho w),
          )
    ]

    pub both-Inv : Inv both
    both-Inv = record {
      sound = record {
        task_ids = update-Unique (λ t. t.id) p f db.tasks j.id v.task_ids;
        outbox_ids = update-Unique (λ o. o.id) q h db.outbox j.row_id v.outbox_ids;
        fresh_task = λ i n. rw (task_at-both i, v.fresh_task i n);
        fresh_outbox = λ k n. rw (outbox_id-both k, v.fresh_outbox k n);
        leased = leased;
        owned = owned;
        keyed = keyed;
      };
      tracked = tracked;
    }
