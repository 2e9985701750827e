-- ===== src/System/Safe.antt =====
-- The ledger stays well-formed, however the transactions interleave.
use xingestionv.Prelude.{ℕ, ◌≡◌, refl, subst, sym, Option}
use xingestionv.Schema.{Db}
use xingestionv.Table.{find}
use xingestionv.Tasks.{TaskLease}
use xingestionv.Ledger.{Inv}
use xingestionv.Ledger.Create.{create_task-Inv}
use xingestionv.Ledger.Updates.{
  lease_task-Inv, complete_task-Inv, dead_letter_task-Inv, renew_once-Inv, release_for_recovery-Inv,
}
use xingestionv.Ledger.Retry.{schedule_retry-Inv}
use xingestionv.Ledger.Dispatch.{claim_ready-Inv}
use xingestionv.Ledger.Sent.{publish_claimed-Inv, record_failure-Inv}
use xingestionv.Ledger.Replays.{replay-Inv}
use xingestionv.Ledger.Purge.{purge_tasks-Inv}
use xingestionv.System.{
  Step, creates, leases, renews, releases, completes, retries, dies, claims, publishes, fails,
  replays, purges, Reach, here, next, empty,
}

to : {a b : Db} → b ≡ a → Inv a → Inv b
to e v = subst Inv (sym e) v

-- Each transaction keeps the ledger well-formed.
pub Step-Inv :
    {now : ℕ} {actor : Option TaskLease} {db db' : Db} → Step now actor db db' → Inv db → Inv db'
Step-Inv (creates a b c d e f g eq) v = to eq (create_task-Inv _ a b c d e f g _ v)
Step-Inv (leases i g w s eq) v = to eq (lease_task-Inv _ i g s _ w v)
Step-Inv (renews l g m c _ eq) v = to eq (renew_once-Inv g _ l m c _ v)
Step-Inv (releases l _ eq) v = to eq (release_for_recovery-Inv _ l _ v)
Step-Inv (completes l m _ eq) v = to eq (complete_task-Inv _ l m _ v)
Step-Inv (retries l e d c u _ eq) v = to eq (schedule_retry-Inv _ l e d c u _ v)
Step-Inv (dies l e c _ eq) v = to eq (dead_letter_task-Inv _ l e c _ v)
Step-Inv (claims s k c b u eq) v = to eq (claim_ready-Inv s _ k c b u _ v)
Step-Inv (publishes e m eq) v = to eq (publish_claimed-Inv _ e m _ v)
Step-Inv (fails e m eq) v = to eq (record_failure-Inv _ e m v)
Step-Inv (replays s k n m p eq) v = to eq (replay-Inv _ s k n m p _ v)
Step-Inv (purges eq) v = to eq (purge_tasks-Inv _ v)

-- So does any sequence of transactions.
pub Reach-Inv : {db db' : Db} → Inv db → Reach db db' → Inv db'
Reach-Inv v here = v
Reach-Inv v (next now actor r s) = Step-Inv s (Reach-Inv v r)

pub empty-Inv : Inv empty
unfolding find
empty-Inv = record {
  sound = record {
    task_ids = tt;
    outbox_ids = tt;
    fresh_task = λ i h. refl;
    fresh_outbox = λ k h. refl;
    leased = λ i t e. absurd (cc);
    owned = λ i g o e. absurd (cc);
    keyed = λ i g o e. absurd (cc);
  };
  tracked = λ i t e. absurd (cc);
}
