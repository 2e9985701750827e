-- ===== src/Ledger/Replays.antt =====
-- replay keeps the ledger well-formed.
use xingestionv.Prelude.{
  ℕ, refl, ℤ, Bool, true, false, List, [], ◌∷◌, ◌==◌, ◌&&◌, Option-cases, Bool-cases, inl, inr, leb,
}
use xingestionv.Schema.{Db, Task, DeadLetter, ReplayRow, Result, ok, err}
use xingestionv.Table.{find, count}
use xingestionv.Replay.{
  ReplaySelector, commit, insert_replacement, insert_audit, mark_replayed, still_dead, replacement,
  replay_one, replay_rows, replayable, replay,
}
use xingestionv.Results.{Ok, Ok-bind}
use xingestionv.Ledger.{Inv}
use xingestionv.Ledger.Rows.{aside-Inv}
use xingestionv.Ledger.Create.{IsNew, Upserted, upsert-Upserted, publish-Inv}

insert_audit-Inv : (db : Db) (row : ReplayRow) → Inv db → Ok Inv (insert_audit db row)
unfolding insert_audit
insert_audit-Inv db row v =
    elim (Option-cases (
      find
        (λ r.
          r.dead_letter_id == row.dead_letter_id && r.replay_generation == row.replay_generation)
        db.replays)) [
          | inr (r, h) ↦ rw (h, insert_audit) (aside-Inv db _ _ _ _ v)
          | inl h ↦
              elim (Option-cases (find (λ r. r.replay_task_id == row.replay_task_id) db.replays)) [
                | inr (r, k) ↦ rw (h, k, insert_audit) tt
                | inl k ↦ rw (h, k, insert_audit) (aside-Inv db _ _ _ _ v)
              ]
        ]

mark_replayed-Inv :
    (db : Db) (d : DeadLetter) (task_id now : ℕ)
    → Inv db
    → Ok (λ p. Inv p.1) (mark_replayed db d task_id now)
unfolding mark_replayed
mark_replayed-Inv db d task_id now v =
    elim (Bool-cases (count (still_dead d.id) db.dead_letters == 1)) [
      | inl y ↦ rw y (aside-Inv db _ _ _ _ v)
      | inr n ↦ rw n tt
    ]

insert_replacement-Upserted :
    (db : Db) (new : Task) (b : Bool)
    → IsNew db new
    → Inv db
    → Ok (λ p. Upserted p.0 p.1) (insert_replacement db new b)
unfolding insert_replacement
insert_replacement-Upserted db new true n v = upsert-Upserted db new n v
insert_replacement-Upserted db new false n v = tt

replay_one-Inv :
    (s : ReplaySelector) (max : ℕ) (priority : ℤ) (now : ℕ) (d : DeadLetter) (db : Db)
    → Inv db
    → Ok (λ p. Inv p.1) (replay_one s max priority now d db)
unfolding replay_one
replay_one-Inv s max priority now d db v =
    Ok-bind (λ p. Upserted p.0 p.1) (λ p. Inv p.1) _ _
      (insert_replacement-Upserted db (replacement db.next_task max priority now d) _ new v)
      λ (t, db') u.
        Ok-bind Inv (λ p. Inv p.1) _ _ (insert_audit-Inv _ _ (publish-Inv t.next_run_at now u))
          λ db'' w. mark_replayed-Inv db'' d t.id now w
  where
    new : IsNew db (replacement db.next_task max priority now d)
    new = record {
      id = refl;
      ready = refl;
      lease = record { owner = refl; started = refl; expires = refl };
    }

replay_rows-Inv :
    (s : ReplaySelector) (max : ℕ) (priority : ℤ) (now : ℕ) (rows : List DeadLetter) (db : Db)
    → Inv db
    → Ok (λ p. Inv p.1) (replay_rows s max priority now rows db)
unfolding replay_rows
replay_rows-Inv s max priority now [] db v = v
replay_rows-Inv s max priority now (d ∷ rows) db v =
    Ok-bind (λ p. Inv p.1) (λ p. Inv p.1) _ _ (replay_one-Inv s max priority now d db v)
      λ (r, db') w.
        Ok-bind (λ p. Inv p.1) (λ p. Inv p.1) _ _ (replay_rows-Inv s max priority now rows db' w)
          λ p x. x

commit-Inv {ℓ} :
    {A : Type ℓ} (db : Db) (r : Result (A × Db))
    → Inv db
    → Ok (λ p. Inv p.1) r
    → Inv (commit db r).1
commit-Inv db (ok p) v h = h
commit-Inv db (err f) v h = v

-- replay keeps the ledger well-formed, whether it commits or rolls back.
pub replay-Inv :
    (db : Db) (s : ReplaySelector) (locked : ℕ → Bool) (n max : ℕ) (priority : ℤ) (now : ℕ)
    → Inv db
    → Inv (replay db s locked n max priority now).1
unfolding replay
replay-Inv db s locked n max priority now v = elim (Bool-cases (leb n 0)) [
  | inl y ↦ rw y v
  | inr m ↦ rw m (elim (Bool-cases (leb max 0)) [
    | inl y ↦ rw y v
    | inr k ↦
        rw k
          (commit-Inv db _ v (replay_rows-Inv s max priority now (replayable db s locked n) db v))
  ])
]
