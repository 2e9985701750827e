-- ===== src/Ledger/Publish.antt =====
-- INSERT INTO task_outbox makes a well-formed ledger of one in which a task has no outbox row yet.
use xingestionv.Prelude.{
  ℕ, suc, ◌≤◌, ◌≡◌, ◌≢◌, refl, none, some, arith, if◌then◌else◌, ◌==◌, ==_iff, ◌&&◌, Option-cases,
  Bool-cases, inl, inr,
}
use xingestionv.Schema.{Db, Task, OutboxRow}
use xingestionv.Table.{insert}
use xingestionv.Table.Laws.{find-insert}
use xingestionv.Table.Keyed.{insert-Unique}
use xingestionv.Tasks.{insert_outbox, new_outbox_row}
use xingestionv.Ledger.{Inv, Sound, TrackedAt, task_at, outbox_at, outbox_id}

module _ (db : Db) (k g available now : ℕ) (absent : outbox_at db k g ≡ none) where
  abbrev new : OutboxRow
  new = new_outbox_row db.next_outbox k g available now

  pub insert_outbox_lem :
      insert_outbox db k g available now
      ≡ record db { outbox = insert new db.outbox; next_outbox = suc db.next_outbox }
  unfolding insert_outbox
  insert_outbox_lem = rw (absent, insert_outbox)

  abbrev published : Db
  published = record db { outbox = insert new db.outbox; next_outbox = suc db.next_outbox }

  outbox_at-insert :
      (i n : ℕ)
      → outbox_at published i n ≡ elim (outbox_at db i n) [
        | none ↦ if k == i && g == n then some new else none
        | some o ↦ some o
      ]
  outbox_at-insert i n = find-insert _ _ db.outbox

  outbox_id-insert :
      (i : ℕ)
      → outbox_id published i ≡ elim (outbox_id db i) [
        | none ↦ if db.next_outbox == i then some new else none
        | some o ↦ some o
      ]
  outbox_id-insert i = find-insert _ _ db.outbox

  module _ (v : Sound db) (t : Task) (here : task_at db k ≡ some t)
      (at : t.delivery_generation ≡ g) where
    owned :
        (i n : ℕ) (o : OutboxRow)
        → outbox_at published i n ≡ some o
        → (s : Task) × (task_at db i ≡ some s) × (n ≤ s.delivery_generation)
    owned i n o e = elim (Option-cases (outbox_at db i n)) [
      | inl h ↦
          let q : k ≡ i = ground (arith, outbox_at-insert i n) in
          let r : g ≡ n = ground (arith, outbox_at-insert i n) in (t, rw (← q) here, omega arith)
      | inr (o', h) ↦ v.owned i n o' h
    ]

    keyed :
        (i n : ℕ) (o : OutboxRow)
        → outbox_at published i n ≡ some o
        → outbox_id published o.id ≡ some o
    keyed i n o e = elim (Option-cases (outbox_at db i n)) [
      | inl h ↦
          let q : new ≡ o = ground (arith, outbox_at-insert i n) in
          rw (← q) (ground (arith, outbox_id-insert db.next_outbox, v.fresh_outbox db.next_outbox))
      | inr (o', h) ↦
          let q : o' ≡ o = ground (arith, outbox_at-insert i n) in
          rw (← q) (ground (arith, outbox_id-insert o'.id, v.keyed i n o' h))
    ]

    tracked :
        ((i : ℕ) (s : Task) → i ≢ k → task_at db i ≡ some s → TrackedAt db i s)
        → (i : ℕ) (s : Task) → task_at db i ≡ some s
        → TrackedAt published i s
    tracked others i s e = elim (Bool-cases (i == k)) [
      | inl y ↦
          let q : s ≡ t = ground (arith, ==_iff i k) in
          (
            new,
            ground (arith, outbox_at-insert i s.delivery_generation, ==_iff i k),
            record { unpublished = λ r. refl; unclaimed = λ r. refl },
          )
      | inr n ↦
          let (o, h, w) = others i s (λ q. ground arith) e in
          (o, ground (arith, outbox_at-insert i s.delivery_generation), w)
    ]

    pub insert_outbox-Inv :
        ((i : ℕ) (s : Task) → i ≢ k → task_at db i ≡ some s → TrackedAt db i s)
        → Inv (insert_outbox db k g available now)
    insert_outbox-Inv others = rw insert_outbox_lem (record {
      sound = record {
        task_ids = v.task_ids;
        outbox_ids =
            insert-Unique (λ o. o.id) new db.outbox (v.fresh_outbox db.next_outbox (omega arith))
              v.outbox_ids;
        fresh_task = v.fresh_task;
        fresh_outbox =
            λ i h. rw (outbox_id-insert i, v.fresh_outbox i (omega arith)) (ground arith);
        leased = v.leased;
        owned = owned;
        keyed = keyed;
      };
      tracked = tracked others;
    })

-- Where the row is there already, the INSERT does nothing but draw a number.
pub insert_outbox_again :
    (db : Db) (k g available now : ℕ) (o : OutboxRow)
    → outbox_at db k g ≡ some o
    → Inv db
    → Inv (insert_outbox db k g available now)
unfolding insert_outbox
insert_outbox_again db k g available now o there v =
    rw (there, insert_outbox)
      (record {
        sound = record {
          task_ids = v.task_ids;
          outbox_ids = v.outbox_ids;
          fresh_task = v.fresh_task;
          fresh_outbox = λ i h. v.fresh_outbox i (omega arith);
          leased = v.leased;
          owned = v.owned;
          keyed = v.keyed;
        };
        tracked = v.tracked;
      })
