-- ===== src/Ledger/Purge.antt =====
-- The cleanup daemon keeps the ledger well-formed.
use xingestionv.Prelude.{
  ℕ, ◌≤◌, ◌≡◌, refl, ap, true, false, none, some, arith, if◌then◌else◌, ◌==◌, ==_iff, ◌&&◌,
  Option-cases, inl, inr,
}
use xingestionv.Schema.{Db, Task, OutboxRow}
use xingestionv.Table.{find, delete}
use xingestionv.Table.Laws.{find-update, find-delete, find-IsTrue}
use xingestionv.Table.Keyed.{Unique, find-keyed, delete-keyed, delete-Unique, update-Unique}
use xingestionv.Cleanup.{purged, purges, orphaned, unlinked_row, purge_tasks}
use xingestionv.Ledger.{Inv, LeaseOk, TrackedAt, task_at, outbox_at, outbox_id}

module _ (db : Db) (v : Inv db) where
  abbrev pub kept : Task → Task
  kept t = if orphaned (purges db) t.origin_task_id then unlinked_row t else t

  pub task_at-purge :
      (i : ℕ)
      → task_at (purge_tasks db) i
        ≡ elim (task_at db i) [ none ↦ none | some t ↦ if purged t then none else some (kept t) ]
  unfolding purge_tasks
  task_at-purge i = ground (
    arith,
    find-update (λ t. t.id == i) (λ t. orphaned (purges db) t.origin_task_id) unlinked_row
        (delete purged db.tasks) (λ t. refl),
    delete-keyed (λ t. t.id) i purged db.tasks v.task_ids,
  )

  purges_lem : (i : ℕ) → purges db i ≡ elim (task_at db i) [ none ↦ false | some t ↦ purged t ]
  purges_lem i = elim (Option-cases (task_at db i)) [
    | inl h ↦ ground (arith, only)
    | inr (t, h) ↦ ground (arith, only, find-IsTrue (λ t. t.id == i) db.tasks t h)
  ]
    where
      only : find (λ t. t.id == i && purged t) db.tasks ≡ elim (task_at db i) [
        | none ↦ none
        | some r ↦ if r.id == i && purged r then some r else none
      ]
      only = find-keyed (λ t. t.id) i _ db.tasks v.task_ids (λ a e. ground arith)

  outbox_at-purge :
      (i g : ℕ) → outbox_at (purge_tasks db) i g ≡ (if purges db i then none else outbox_at db i g)
  unfolding purge_tasks
  outbox_at-purge i g =
      find-delete _ _ (purges db i) db.outbox
        (λ o e. ap (purges db) (ground (arith, ==_iff o.task_id i)))

  outbox_id-purge :
      (k : ℕ)
      → outbox_id (purge_tasks db) k ≡ elim (outbox_id db k) [
        | none ↦ none
        | some o ↦ if purges db o.task_id then none else some o
      ]
  unfolding purge_tasks
  outbox_id-purge k = delete-keyed (λ o. o.id) k _ db.outbox v.outbox_ids

  leased : (i : ℕ) (t : Task) → task_at (purge_tasks db) i ≡ some t → LeaseOk t
  leased i t e = elim (Option-cases (task_at db i)) [
    | inl h ↦ absurd (ground (arith, task_at-purge i))
    | inr (s, h) ↦
        let q : kept s ≡ t = ground (arith, task_at-purge i) in
        let o : LeaseOk s = v.leased i s h in
        record {
          owner = ground (arith, o.owner);
          started = ground (arith, o.started);
          expires = ground (arith, o.expires);
        }
  ]

  owned :
      (i g : ℕ) (o : OutboxRow)
      → outbox_at (purge_tasks db) i g ≡ some o
      → (t : Task) × (task_at (purge_tasks db) i ≡ some t) × (g ≤ t.delivery_generation)
  owned i g o e =
      let there : outbox_at db i g ≡ some o = ground (arith, outbox_at-purge i g) in
      let stays : purges db i ≡ false = ground (arith, outbox_at-purge i g) in
      let (s, h, le) = v.owned i g o there in
      (kept s, ground (arith, task_at-purge i, purges_lem i), ground arith)

  keyed :
      (i g : ℕ) (o : OutboxRow)
      → outbox_at (purge_tasks db) i g ≡ some o
      → outbox_id (purge_tasks db) o.id ≡ some o
  keyed i g o e =
      let there : outbox_at db i g ≡ some o = ground (arith, outbox_at-purge i g) in
      let stays : purges db i ≡ false = ground (arith, outbox_at-purge i g) in
      let key : (o.task_id == i && o.delivery_generation == g) ≡ true =
        find-IsTrue _ db.outbox o there in
      let same : o.task_id ≡ i = ground (arith, ==_iff o.task_id i) in
      let still : purges db o.task_id ≡ false = rw same stays in
      ground (arith, outbox_id-purge o.id, v.keyed i g o there)

  tracked :
      (i : ℕ) (t : Task) → task_at (purge_tasks db) i ≡ some t → TrackedAt (purge_tasks db) i t
  tracked i t e = elim (Option-cases (task_at db i)) [
    | inl h ↦ absurd (ground (arith, task_at-purge i))
    | inr (s, h) ↦
        let q : kept s ≡ t = ground (arith, task_at-purge i) in
        let (o, ho, w) = v.tracked i s h in
        let gen : t.delivery_generation ≡ s.delivery_generation = ground arith in
        let stays : purges db i ≡ false = ground (arith, task_at-purge i, purges_lem i) in
        (
          o,
          rw gen (rw (outbox_at-purge i s.delivery_generation, stays, ho)),
          record {
            unpublished = λ r. w.unpublished (ground arith);
            unclaimed = λ r. w.unclaimed (ground arith);
          },
        )
  ]

  task_keys : Unique (λ t. t.id) (purge_tasks db).tasks
  unfolding purge_tasks
  task_keys =
      update-Unique (λ t. t.id) _ unlinked_row (delete purged db.tasks) (λ t. refl)
        (delete-Unique (λ t. t.id) purged db.tasks v.task_ids)

  outbox_keys : Unique (λ o. o.id) (purge_tasks db).outbox
  unfolding purge_tasks
  outbox_keys = delete-Unique (λ o. o.id) _ db.outbox v.outbox_ids

  purge_next :
      ((purge_tasks db).next_task ≡ db.next_task) × ((purge_tasks db).next_outbox ≡ db.next_outbox)
  unfolding purge_tasks
  purge_next = (refl, refl)

  pub purge_tasks-Inv : Inv (purge_tasks db)
  purge_tasks-Inv = record {
    sound = record {
      task_ids = task_keys;
      outbox_ids = outbox_keys;
      fresh_task =
          λ i n. ground (arith, task_at-purge i, v.fresh_task i (omega (arith, purge_next)));
      fresh_outbox =
          λ k n. ground (arith, outbox_id-purge k, v.fresh_outbox k (omega (arith, purge_next)));
      leased = leased;
      owned = owned;
      keyed = keyed;
    };
    tracked = tracked;
  }
