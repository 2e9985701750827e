-- ===== src/System/Exclusion.antt =====
-- Mutual exclusion: while a lease runs, no other worker is given the task.
use xingestionv.Prelude.{
  ℕ, ◌+◌, ◌*◌, ◌≤◌, ◌<◌, ◌≡◌, refl, subst, true, Option, none, some, String, arith, Option-cases,
  inl, inr, ==_iff, eq_iff,
}
use xingestionv.Schema.{Db, Task, is_running, second}
use xingestionv.Table.{find}
use xingestionv.Table.Laws.{find-IsTrue, update-none}
use xingestionv.Table.Keyed.{find-keyed}
use xingestionv.Tasks.{TaskLease, may_lease, leased_row, lease_task, fence}
use xingestionv.Ledger.{Inv, task_at}
use xingestionv.Ledger.Rows.{task_at-update}
use xingestionv.Ledger.Create.{task_at-find}
use xingestionv.Ledger.Updates.{lease_task-Inv}
use xingestionv.System.{Step}
use xingestionv.System.Safe.{Step-Inv}
use xingestionv.System.Rows.{
  RowStep, stays, enqueues, leases, renews, releases, completes, retries, dies, unlinks, Next, row,
  gone,
}
use xingestionv.System.Rows.Refines.{Step-Next}

-- The row is leased by `w` under the generation `g`, at least to the time `until`.
pub record Holds (g : ℕ) (w : String) (until : ℕ) (t : Task) : Type 0 where
  pub is_run : is_running t.status ≡ true
  pub generation : t.delivery_generation ≡ g
  pub owner : t.lease_owner ≡ some w
  pub expiry : ℕ
  pub expires : t.lease_expires_at ≡ some expiry
  pub lasts : until ≤ expiry

-- The step is not made by the holder of the lease: its lease is another.
abbrev pub Foreign : ℕ → ℕ → String → Option TaskLease → Type 0
Foreign i g w actor =
    (l : TaskLease)
    → actor ≡ some l
    → ¬ ((l.id ≡ i) × (l.delivery_generation ≡ g) × (l.lease_owner ≡ w))

module _ (i g : ℕ) (w : String) (until : ℕ) where
  fence-Foreign :
      (actor : Option TaskLease) (t : Task) (l : TaskLease)
      → Foreign i g w actor
      → t.id ≡ i
      → Holds g w until t
      → actor ≡ some l
      → fence l t ≡ true
      → ⊥
  fence-Foreign actor t l f e h by y = f l by (
    ground (arith, ==_iff t.id l.id),
    ground (arith, ==_iff t.delivery_generation l.delivery_generation, h.generation),
    ground (arith, h.owner, eq_iff w l.lease_owner),
  )

  RowStep-Holds :
      {now : ℕ} {actor : Option TaskLease} (t u : Task)
      → now < until
      → Foreign i g w actor
      → t.id ≡ i
      → Holds g w until t
      → RowStep now actor t u
      → (u.id ≡ i) × Holds g w until u
  RowStep-Holds t u b f e h (stays q) = rw q (e, h)
  RowStep-Holds t u b f e h (enqueues r q) = absurd (ground (arith, h.is_run))
  RowStep-Holds t u b f e h (leases k n s x y q) =
      absurd (ground (arith, h.is_run, h.expires, h.lasts))
  RowStep-Holds t u b f e h (renews l s by y q) =
      absurd (fence-Foreign _ t l f e h by (ground arith))
  RowStep-Holds t u b f e h (releases l by y q) = absurd (fence-Foreign _ t l f e h by y)
  RowStep-Holds t u b f e h (completes l m by y q) = absurd (fence-Foreign _ t l f e h by y)
  RowStep-Holds t u b f e h (retries l at m c by y q) = absurd (fence-Foreign _ t l f e h by y)
  RowStep-Holds t u b f e h (dies l m c by y q) = absurd (fence-Foreign _ t l f e h by y)
  RowStep-Holds t u b f e h (unlinks q) = rw q (
    e,
    record {
      is_run = h.is_run;
      generation = h.generation;
      owner = h.owner;
      expiry = h.expiry;
      expires = h.expires;
      lasts = h.lasts;
    },
  )

  -- The ledger shows the lease.
  abbrev pub Held : Db → Type 0
  Held db = (t : Task) × (task_at db i ≡ some t) × (t.id ≡ i) × Holds g w until t

  -- Steps of others, all before `until`.
  pub data Meanwhile (db : Db) : Db → Type 0 where
    start : Meanwhile db db
    follow :
        {b c : Db} (now : ℕ) (actor : Option TaskLease)
        → Meanwhile db b
        → now < until
        → Foreign i g w actor
        → Step now actor b c
        → Meanwhile db c

  Next-Held :
      {now : ℕ} {actor : Option TaskLease} (db : Db) (t : Task)
      → now < until
      → Foreign i g w actor
      → t.id ≡ i
      → Holds g w until t
      → Next now actor t (task_at db i)
      → Held db
  Next-Held db t b f e h (row u q s) = let (e', h') = RowStep-Holds t u b f e h s in (u, q, e', h')
  Next-Held db t b f e h (gone y q) = absurd (ground (arith, h.is_run))

  pub Meanwhile-Held : {db db' : Db} → Inv db → Held db → Meanwhile db db' → Inv db' × Held db'
  Meanwhile-Held v h start = (v, h)
  Meanwhile-Held v h (follow {c = d} now actor m b f s) =
      let (v', (t, q, e, k)) = Meanwhile-Held v h m in
      (Step-Inv s v', Next-Held d t b f e k (Step-Next _ i t v' q s))

  -- While the ledger shows the lease, an attempt to lease the task changes nothing.
  pub Held-refuses :
      (db : Db) (g' s' now : ℕ) (w' : String)
      → Inv db
      → Held db
      → now < until
      → lease_task db i g' w' s' now ≡ (none, db)
  unfolding lease_task
  Held-refuses db g' s' now w' v (t, q, e, h) b =
      ground (arith, miss, update-none (may_lease i g' now) (leased_row w' s' now) db.tasks miss)
    where
      miss : find (may_lease i g' now) db.tasks ≡ none
      miss = ground (
        arith,
        find-keyed (λ a. a.id) i (may_lease i g' now) db.tasks v.task_ids (λ a y. ground arith),
        q,
        h.is_run,
        h.expires,
        h.lasts,
      )

-- The lease that lease_task returns is in the ledger, for the time asked.
pub lease-Held :
    (db : Db) (i g s now : ℕ) (w : String) (l : TaskLease)
    → Inv db
    → (lease_task db i g w s now).0 ≡ some l
    → Held i g w (now + s * second) (lease_task db i g w s now).1
unfolding lease_task
lease-Held db i g s now w l v e = elim (Option-cases (find (may_lease i g now) db.tasks)) [
  | inl h ↦ absurd (ground arith)
  | inr (t, h) ↦
      let y : may_lease i g now t ≡ true = find-IsTrue (may_lease i g now) db.tasks t h in
      let at : t.id ≡ i = ground (arith, ==_iff t.id i) in
      let there : task_at db i ≡ some t =
        subst (λ k. task_at db k ≡ some t) at (task_at-find db _ t v.task_ids h) in
      (
        leased_row w s now t,
        ground (
          arith,
          task_at-update db (may_lease i g now) (leased_row w s now) i (λ a. refl),
          there,
        ),
        at,
        record {
          is_run = refl;
          generation = ground (arith, ==_iff t.delivery_generation g);
          owner = refl;
          expiry = now + s * second;
          expires = refl;
          lasts = omega arith;
        },
      )
]

-- Once lease_task has given a task to a worker, then for as long as the lease runs, and whatever
-- transactions others make in between, lease_task gives the task to nobody and changes nothing.
-- Only the holder itself can end this earlier, by a transaction on its own lease.
pub lease_exclusive :
    (db db' : Db) (i g s now : ℕ) (w : String) (l : TaskLease) (g' s' now' : ℕ) (w' : String)
    → Inv db
    → (lease_task db i g w s now).0 ≡ some l
    → Meanwhile i g w (now + s * second) (lease_task db i g w s now).1 db'
    → now' < now + s * second
    → lease_task db' i g' w' s' now' ≡ (none, db')
lease_exclusive db db' i g s now w l g' s' now' w' v e m b =
    let (v', h) =
      Meanwhile-Held i g w (now + s * second) (lease_task-Inv db i g s now w v)
        (lease-Held db i g s now w l v e) m in
    Held-refuses i g w (now + s * second) db' g' s' now' w' v' h b
