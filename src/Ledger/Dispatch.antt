-- ===== src/Ledger/Dispatch.antt =====
-- The statements of the outbox dispatcher keep the ledger well-formed.
use xingestionv.Prelude.{
  ℕ, ◌≡◌, refl, ap, Bool, true, some, List, [], ◌∷◌, String, arith, if◌then◌else◌, ◌==◌, ==_iff,
  ◌&&◌, Option-cases, Bool-cases, inl, inr, leb,
}
use xingestionv.Schema.{Db, Task, OutboxRow, is_ready}
use xingestionv.Table.{find, select, limit, order_by}
use xingestionv.Table.Laws.{find-update, find-IsTrue}
use xingestionv.Table.All.{All, All-map, select-All, limit-All, order_by-All, Unique-All}
use xingestionv.Outbox.{
  Joined, join, may_claim, dispatched_before, claimed_row, may_enqueue, enqueued_row, claim_one,
  claim_rows, claimable, claim_ready,
}
use xingestionv.Ledger.{Inv, LeaseOk, Tracked, task_at, outbox_at, outbox_id}
use xingestionv.Ledger.Both.{Joint, both-Inv, with_both}

-- The row of a selected pair still has its key.
pub record Listed (db : Db) (j : Joined) : Type 0 where
  pub now_row : OutboxRow
  pub there : outbox_id db j.row.id ≡ some now_row
  pub same_task : now_row.task_id ≡ j.row.task_id
  pub same_generation : now_row.delivery_generation ≡ j.row.delivery_generation

-- A change of an outbox row that keeps its keys.
pub record KeepsKeys (h : OutboxRow → OutboxRow) : Type 0 where
  pub id : (o : OutboxRow) → (h o).id ≡ o.id
  pub task : (o : OutboxRow) → (h o).task_id ≡ o.task_id
  pub generation : (o : OutboxRow) → (h o).delivery_generation ≡ o.delivery_generation

-- The two statements of a dispatcher for one row: a change of the outbox row, and its task ENQUEUED.
abbrev pub marked : (OutboxRow → OutboxRow) → ℕ → Joined → Db → Db
marked h now j db =
    with_both db (may_enqueue j.row.task_id j.row.delivery_generation) (enqueued_row now)
      (λ o. o.id == j.row.id) h

module _ (db : Db) (h : OutboxRow → OutboxRow) (keep : KeepsKeys h) (now : ℕ) (j : Joined)
    (listed : Listed db j) (v : Inv db) where
  abbrev p : Task → Bool
  p = may_enqueue j.row.task_id j.row.delivery_generation

  -- The claimed row belongs to a task that the second statement takes out of the waiting states.
  claimed_waits :
      (i : ℕ) (s : Task) (o : OutboxRow)
      → task_at db i ≡ some s
      → outbox_at db i s.delivery_generation ≡ some o
      → (o.id == j.row.id) ≡ true
      → is_ready s.status ≡ true
      → p s ≡ true
  claimed_waits i s o hs ho hit r =
      let number : o.id ≡ j.row.id = (==_iff _ _).0 hit in
      let same : listed.now_row ≡ o =
        ground (arith, v.keyed i s.delivery_generation o ho, listed.there) in
      let at : (s.id == i) ≡ true = find-IsTrue (λ t. t.id == i) db.tasks s hs in
      let of : (o.task_id == i && o.delivery_generation == s.delivery_generation) ≡ true =
        find-IsTrue _ db.outbox o ho in
      ground (arith, listed.same_task, listed.same_generation)

  claim_track :
      (i : ℕ) (s : Task) (o : OutboxRow)
      → task_at db i ≡ some s
      → outbox_at db i s.delivery_generation ≡ some o
      → Tracked s o
      → Tracked (if p s then enqueued_row now s else s) (if o.id == j.row.id then h o else o)
  claim_track i s o hs ho w = elim (Bool-cases (p s)) [
    | inl y ↦ rw y (record { unpublished = λ r. ground arith; unclaimed = λ r. ground arith })
    | inr n ↦ rw n (elim (Bool-cases (o.id == j.row.id)) [
      | inl hit ↦ rw hit (record {
        unpublished = λ r. absurd (ground (arith, claimed_waits i s o hs ho hit r));
        unclaimed = λ r. absurd (ground (arith, claimed_waits i s o hs ho hit r));
      })
      | inr miss ↦ rw miss w
    ])
  ]

  enqueued_lease : (t : Task) → p t ≡ true → LeaseOk t → LeaseOk (enqueued_row now t)
  enqueued_lease t y l = record {
    owner = ground (arith, l.owner);
    started = ground (arith, l.started);
    expires = ground (arith, l.expires);
  }

  claim-Joint : Joint db p (enqueued_row now) (λ o. o.id == j.row.id) h
  claim-Joint = record {
    id = λ t. refl;
    generation = λ t. refl;
    lease = enqueued_lease;
    row_id = keep.id;
    row_task = keep.task;
    row_generation = keep.generation;
    track = claim_track;
  }

  pub marked-Inv : Inv (marked h now j db)
  marked-Inv = both-Inv db _ _ _ _ claim-Joint v

pub marked-Listed :
    (db : Db) (h : OutboxRow → OutboxRow) (now : ℕ) (k j : Joined)
    → KeepsKeys h
    → Listed db j
    → Listed (marked h now k db) j
marked-Listed db h now k j keep l = record {
  now_row = if l.now_row.id == k.row.id then h l.now_row else l.now_row;
  there = ground (
    arith,
    l.there,
    find-update (λ o. o.id == j.row.id) (λ o. o.id == k.row.id) h db.outbox
        (λ o. ap (λ (n : ℕ). n == j.row.id) (keep.id o)),
  );
  same_task = ground (arith, l.same_task, keep.task l.now_row);
  same_generation = ground (arith, l.same_generation, keep.generation l.now_row);
}

claimed-KeepsKeys : (token : String) (until : ℕ) → KeepsKeys (claimed_row token until)
claimed-KeepsKeys token until = record { id = λ o. refl; task = λ o. refl; generation = λ o. refl }

pub claim_rows-Inv :
    (token : String) (until now : ℕ) (rows : List Joined) (db : Db)
    → All (Listed db) rows
    → Inv db
    → Inv (claim_rows token until now rows db).1
unfolding claim_rows claim_one
claim_rows-Inv token until now [] db h v = v
claim_rows-Inv token until now (j ∷ rows) db h v =
    claim_rows-Inv token until now rows (claim_one token until now j db)
      (All-map (Listed db) _ rows
        (λ k. marked-Listed db (claimed_row token until) now j k (claimed-KeepsKeys token until))
        h.1)
      (marked-Inv db (claimed_row token until) (claimed-KeepsKeys token until) now j h.0 v)

pub join-All :
    (db : Db) (tasks : List Task) (rows : List OutboxRow)
    → All (λ o. outbox_id db o.id ≡ some o) rows
    → All (Listed db) (join tasks rows)
unfolding join
join-All db tasks [] h = tt
join-All db tasks (o ∷ rows) h = elim (Option-cases (find (λ t. t.id == o.task_id) tasks)) [
  | inl e ↦ rw (e, join) (join-All db tasks rows h.1)
  | inr (t, e) ↦
      rw (e, join)
        (
          record { now_row = o; there = h.0; same_task = refl; same_generation = refl },
          join-All db tasks rows h.1,
        )
]

-- The rows that a dispatcher selects, under any conditions, are rows of the ledger.
pub selected-Listed :
    (db : Db) (chosen : Joined → Bool) (batch : ℕ)
    → Inv db
    → All
        (Listed db)
        (limit batch (order_by dispatched_before (select chosen (join db.tasks db.outbox))))
selected-Listed db chosen batch v = limit-All (Listed db) batch _ (
    order_by-All (Listed db) dispatched_before _ (
      select-All (Listed db) chosen _
        (join-All db db.tasks db.outbox (Unique-All (λ o. o.id) db.outbox v.outbox_ids))))

claimable-All :
    (db : Db) (locked : ℕ → Bool) (batch now : ℕ)
    → Inv db
    → All (Listed db) (claimable db locked batch now)
unfolding claimable
claimable-All db locked batch now v = selected-Listed db (may_claim locked now) batch v

pub claim_ready-Inv :
    (seconds : ℕ) (db : Db) (locked : ℕ → Bool) (token : String) (batch utcnow now : ℕ)
    → Inv db
    → Inv (claim_ready seconds db locked token batch utcnow now).1
unfolding claim_ready
claim_ready-Inv seconds db locked token batch utcnow now v = elim (Bool-cases (leb batch 0)) [
  | inl y ↦ rw y v
  | inr n ↦ rw n (claim_rows-Inv token _ now _ db (claimable-All db locked batch now v) v)
]
