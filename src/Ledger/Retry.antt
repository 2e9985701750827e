-- ===== src/Ledger/Retry.antt =====
-- schedule_retry moves a task to its next generation together with an outbox row for it.
use xingestionv.Prelude.{
  ℕ, suc, ◌≤◌, ◌≡◌, ◌≢◌, refl, true, none, some, String, ℤ, arith, Option-cases, Bool-cases, inl,
  inr, ◌==◌, ==_iff, if◌then◌else◌, ◌+◌, pos_part,
}
use xingestionv.Schema.{Db, Task, OutboxRow}
use xingestionv.Table.{find}
use xingestionv.Table.Laws.{find-IsTrue, update-none}
use xingestionv.Table.Keyed.{update-Unique}
use xingestionv.Tasks.{TaskLease, fence, retry_row, schedule_retry, insert_outbox}
use xingestionv.Ledger.{Inv, Sound, LeaseOk, TrackedAt, task_at, outbox_at}
use xingestionv.Ledger.Rows.{with_tasks, task_at-update}
use xingestionv.Ledger.Create.{task_at-find}
use xingestionv.Ledger.Publish.{insert_outbox-Inv}

module _ (db : Db) (l : TaskLease) (at : ℕ) (e c : String) (now : ℕ) (v : Inv db) where
  abbrev retried : Db
  retried = with_tasks db (fence l) (retry_row at e c now)

  task_at-retried :
      (i : ℕ)
      → task_at retried i ≡ elim (task_at db i) [
        | none ↦ none
        | some s ↦ some (if fence l s then retry_row at e c now s else s)
      ]
  task_at-retried i =
      ground (arith, task_at-update db (fence l) (retry_row at e c now) i (λ t. refl))

  leased : (i : ℕ) (t : Task) → task_at retried i ≡ some t → LeaseOk t
  leased i t h = elim (Option-cases (task_at db i)) [
    | inl no_row ↦ absurd (ground (arith, task_at-retried i))
    | inr (s, there) ↦ elim (Bool-cases (fence l s)) [
      | inl y ↦
          let q : retry_row at e c now s ≡ t = ground (arith, task_at-retried i) in
          rw (← q) (record { owner = refl; started = refl; expires = refl })
      | inr n ↦ let q : s ≡ t = ground (arith, task_at-retried i) in rw (← q) (v.leased i s there)
    ]
  ]

  owned :
      (i g : ℕ) (o : OutboxRow)
      → outbox_at db i g ≡ some o
      → (t : Task) × (task_at retried i ≡ some t) × (g ≤ t.delivery_generation)
  owned i g o h =
      let (s, there, le) = v.owned i g o h in
      (
        if fence l s then retry_row at e c now s else s,
        ground (arith, task_at-retried i),
        ground arith,
      )

  retried-Sound : Sound retried
  retried-Sound = record {
    task_ids =
        update-Unique (λ t. t.id) (fence l) (retry_row at e c now) db.tasks (λ t. refl) v.task_ids;
    outbox_ids = v.outbox_ids;
    fresh_task = λ i h. ground (arith, task_at-retried i, v.fresh_task i);
    fresh_outbox = v.fresh_outbox;
    leased = leased;
    owned = owned;
    keyed = v.keyed;
  }

  module _ (t : Task) (hit : find (fence l) db.tasks ≡ some t) where
    here : task_at db t.id ≡ some t
    here = task_at-find db (fence l) t v.task_ids hit

    fenced : fence l t ≡ true
    fenced = find-IsTrue (fence l) db.tasks t hit

    pub out : outbox_at db t.id (suc t.delivery_generation) ≡ none
    out = elim (Option-cases (outbox_at db t.id (suc t.delivery_generation))) [
      | inl h ↦ h
      | inr (o, h) ↦
          let (s, there, le) = v.owned t.id (suc t.delivery_generation) o h in
          let q : s ≡ t = ground (arith, here) in absurd (ground arith)
    ]

    others : (i : ℕ) (s : Task) → i ≢ t.id → task_at retried i ≡ some s → TrackedAt db i s
    others i s ne h = elim (Option-cases (task_at db i)) [
      | inl no_row ↦ absurd (ground (arith, task_at-retried i))
      | inr (s', there) ↦ v.tracked i s (
          ground (
            arith,
            task_at-retried i,
            find-IsTrue (λ a. a.id == i) db.tasks s' there,
            fenced,
            ==_iff s'.id l.id,
            ==_iff t.id l.id,
            ==_iff s'.id i,
          ))
    ]

    pub retried-Inv :
        (available : ℕ) → Inv (insert_outbox retried t.id (suc t.delivery_generation) available now)
    retried-Inv available =
        insert_outbox-Inv retried t.id (suc t.delivery_generation) available now out retried-Sound
          (retry_row at e c now t) (ground (arith, task_at-retried t.id, here, fenced)) refl others

pub schedule_retry-Inv :
    (db : Db) (l : TaskLease) (e : String) (delay : ℤ) (c : String) (utcnow now : ℕ)
    → Inv db
    → Inv (schedule_retry db l e delay c utcnow now).1
unfolding schedule_retry
schedule_retry-Inv db l e delay c utcnow now v = elim (Option-cases (find (fence l) db.tasks)) [
  | inl h ↦
      rw (h, schedule_retry)
        (rw (update-none (fence l) (retry_row (utcnow + pos_part delay) e c now) db.tasks h) v)
  | inr (t, h) ↦
      rw (h, schedule_retry)
        (retried-Inv db l (utcnow + pos_part delay) e c now v t h (utcnow + pos_part delay))
]
