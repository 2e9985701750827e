-- ===== src/System/Rows/Numbers/Replays.antt =====
-- The numbers of tasks that a replay draws.
use xingestionv.Prelude.{
  ℕ, ◌≡◌, refl, Bool, true, false, ◌&&◌, List, [], ◌∷◌, ℤ, Option-cases, Bool-cases, inl, inr, ◌==◌,
  leb,
}
use xingestionv.Schema.{Db, Task, DeadLetter, ReplayRow, Result, ok, err}
use xingestionv.Results.{Ok, Ok-bind}
use xingestionv.Table.{find, count}
use xingestionv.Replay.{
  ReplaySelector, commit, insert_replacement, insert_audit, mark_replayed, still_dead, replacement,
  replay_one, replay_rows, replayable, replay,
}
use xingestionv.System.Rows.Numbers.{Drawn, insert_outbox-Drawn, upsert_task-Drawn}

module _ (i : ℕ) (n : Bool) where
  insert_audit-Drawn :
      (db : Db) (row : ReplayRow) → (Drawn i n) db → Ok (Drawn i n) (insert_audit db row)
  unfolding insert_audit
  insert_audit-Drawn db row h =
      elim (Option-cases (
        find
          (λ r.
            r.dead_letter_id == row.dead_letter_id && r.replay_generation == row.replay_generation)
          db.replays)) [
            | inr (r, e) ↦ rw (e, insert_audit) (record { number = h.number; absent = h.absent })
            | inl e ↦
                elim (Option-cases
                  (find (λ r. r.replay_task_id == row.replay_task_id) db.replays)) [
                    | inr (r, k) ↦ rw (e, k, insert_audit) tt
                    | inl k ↦
                        rw (e, k, insert_audit) (record { number = h.number; absent = h.absent })
                  ]
          ]

  mark_replayed-Drawn :
      (db : Db) (d : DeadLetter) (task_id now : ℕ)
      → (Drawn i n) db
      → Ok (λ p. (Drawn i n) p.1) (mark_replayed db d task_id now)
  unfolding mark_replayed
  mark_replayed-Drawn db d task_id now h =
      elim (Bool-cases (count (still_dead d.id) db.dead_letters == 1)) [
        | inl y ↦ rw y (record { number = h.number; absent = h.absent })
        | inr m ↦ rw m tt
      ]

  insert_replacement-Drawn :
      (db : Db) (new : Task) (b : Bool)
      → new.id ≡ db.next_task
      → (Drawn i n) db
      → Ok (λ p. (Drawn i n) p.1) (insert_replacement db new b)
  unfolding insert_replacement
  insert_replacement-Drawn db new true e h = upsert_task-Drawn i n db new e h
  insert_replacement-Drawn db new false e h = tt

  module _ (s : ReplaySelector) (max : ℕ) (priority : ℤ) (now : ℕ) where
    replay_one-Drawn :
        (d : DeadLetter) (db : Db)
        → (Drawn i n) db
        → Ok (λ p. (Drawn i n) p.1) (replay_one s max priority now d db)
    unfolding replay_one
    replay_one-Drawn d db h =
        Ok-bind (λ p. (Drawn i n) p.1) (λ p. (Drawn i n) p.1) _ _
          (insert_replacement-Drawn db (replacement db.next_task max priority now d) _ refl h)
          λ (a, db') u.
            Ok-bind (Drawn i n) (λ p. (Drawn i n) p.1) _ _
              (insert_audit-Drawn _ _ (insert_outbox-Drawn i n db' _ _ _ _ u))
              λ db'' w. mark_replayed-Drawn db'' d a.id now w

    replay_rows-Drawn :
        (rows : List DeadLetter) (db : Db)
        → (Drawn i n) db
        → Ok (λ p. (Drawn i n) p.1) (replay_rows s max priority now rows db)
    unfolding replay_rows
    replay_rows-Drawn [] db h = h
    replay_rows-Drawn (d ∷ rows) db h =
        Ok-bind (λ p. (Drawn i n) p.1) (λ p. (Drawn i n) p.1) _ _ (replay_one-Drawn d db h)
          λ (r, db') w.
            Ok-bind (λ p. (Drawn i n) p.1) (λ p. (Drawn i n) p.1) _ _ (replay_rows-Drawn rows db' w)
              λ p x. x

  commit-Drawn {ℓ} :
      {A : Type ℓ} (db : Db) (r : Result (A × Db))
      → (Drawn i n) db
      → Ok (λ p. (Drawn i n) p.1) r
      → (Drawn i n) (commit db r).1
  commit-Drawn db (ok p) v h = h
  commit-Drawn db (err f) v h = v

  pub replay-Drawn :
      (db : Db) (s : ReplaySelector) (locked : ℕ → Bool) (m max : ℕ) (priority : ℤ) (now : ℕ)
      → (Drawn i n) db
      → (Drawn i n) (replay db s locked m max priority now).1
  unfolding replay
  replay-Drawn db s locked m max priority now h = elim (Bool-cases (leb m 0)) [
    | inl y ↦ rw y h
    | inr q ↦ rw q (elim (Bool-cases (leb max 0)) [
      | inl y ↦ rw y h
      | inr k ↦ rw k (
          commit-Drawn db _ h
            (replay_rows-Drawn s max priority now (replayable db s locked m) db h))
    ])
  ]
