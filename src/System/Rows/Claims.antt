-- ===== src/System/Rows/Claims.antt =====
-- A dispatcher's claims move waiting tasks to ENQUEUED and touch no other task.
use xingestionv.Prelude.{
  ℕ, ◌≡◌, refl, ap, subst, ◌∙◌, Bool, true, Option, some, List, [], ◌∷◌, String, arith, Bool-cases,
  inl, inr, ◌⊎◌, if◌then◌else◌, leb,
}
use mathlib.Core.Option
use xingestionv.Schema.{Db, Task, is_ready}
use xingestionv.Tasks.{TaskLease}
use xingestionv.Outbox.{
  Joined, claim_one, claim_rows, claimable, claim_ready, may_enqueue, enqueued_row,
}
use xingestionv.Ledger.{task_at}
use xingestionv.Ledger.Rows.{task_at-update}
use xingestionv.System.Rows.{stays, enqueues, Next, row}

-- The row stays, or it waited and is ENQUEUED.
abbrev pub Claimed : ℕ → Task → Task → Type 0
Claimed now t u = (u ≡ t) ⊎ (is_ready t.status ≡ true) × (u ≡ enqueued_row now t)

pub claim_one-Claimed :
    (token : String) (until now : ℕ) (j : Joined) (db : Db) (i : ℕ) (t : Task)
    → task_at db i ≡ some t
    → (u : Task) × (task_at (claim_one token until now j db) i ≡ some u) × Claimed now t u
unfolding claim_one
claim_one-Claimed token until now j db i t h =
    elim (Bool-cases (may_enqueue j.row.task_id j.row.delivery_generation t)) [
      | inl y ↦ (enqueued_row now t, ground (arith, after_update), inr (ground arith, refl))
      | inr n ↦ (t, ground (arith, after_update), inl refl)
    ]
  where
    after_update :
        task_at (claim_one token until now j db) i
        ≡ Option.map
            (λ r.
              if may_enqueue j.row.task_id j.row.delivery_generation r
              then enqueued_row now r
              else r)
            (task_at db i)
    after_update = task_at-update db _ (enqueued_row now) i (λ a. refl)

-- Two claims of one task in a row are one.
Claimed-trans : {now : ℕ} (t u w : Task) → Claimed now t u → Claimed now u w → Claimed now t w
Claimed-trans {now} t u w (inl e) b = subst (λ x. Claimed now x w) e b
Claimed-trans t u w (inr (r, q)) (inl e) = inr (r, e ∙ q)
Claimed-trans t u w (inr (r, q)) (inr (r', q')) =
    absurd (ground (arith, ap (λ (x : Task). is_ready x.status) q))

pub claim_rows-Claimed :
    (token : String) (until now : ℕ) (rows : List Joined) (db : Db) (i : ℕ) (t : Task)
    → task_at db i ≡ some t
    → (u : Task) × (task_at (claim_rows token until now rows db).1 i ≡ some u) × Claimed now t u
unfolding claim_rows
claim_rows-Claimed token until now [] db i t h = (t, h, inl refl)
claim_rows-Claimed token until now (j ∷ rows) db i t h =
    let (u, hu, cu) = claim_one-Claimed token until now j db i t h in
    let (w, hw, cw) =
      claim_rows-Claimed token until now rows (claim_one token until now j db) i u hu in
    (w, hw, Claimed-trans t u w cu cw)

Claimed-Next :
    (now : ℕ) (actor : Option TaskLease) (t u : Task) (o : Option Task)
    → o ≡ some u
    → Claimed now t u
    → Next now actor t o
Claimed-Next now actor t u o e (inl same) = row u e (stays same)
Claimed-Next now actor t u o e (inr (r, q)) = row u e (enqueues r q)

pub claim-Next :
    (now : ℕ) (actor : Option TaskLease) (db : Db) (i : ℕ) (t : Task) (seconds : ℕ)
    (locked : ℕ → Bool) (token : String) (batch utcnow : ℕ)
    → task_at db i ≡ some t
    → Next now actor t (task_at (claim_ready seconds db locked token batch utcnow now).1 i)
unfolding claim_ready
claim-Next now actor db i t seconds locked token batch utcnow h = elim (Bool-cases (leb batch 0)) [
  | inl y ↦ rw y (row t h (stays refl))
  | inr n ↦
      let (u, hu, cu) = claim_rows-Claimed token _ now (claimable db locked batch now) db i t h in
      rw n (Claimed-Next now actor t u _ hu cu)
]
