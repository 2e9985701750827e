-- ===== src/Ledger/Sent.antt =====
-- publish_claimed, record_failure and dispatch_ready keep the ledger well-formed.
use xingestionv.Prelude.{
  ℕ, ◌≡◌, refl, Bool, false, List, [], ◌∷◌, String, arith, Bool-cases, inl, inr,
}
use xingestionv.Schema.{Db, OutboxRow, Result, ok, err}
use mathlib.Core.Path.{subst}
use xingestionv.Table.{update}
use xingestionv.Table.Laws.{update-never}
use xingestionv.Outbox.{
  ClaimedOutboxEvent, holds_claim, publish_claimed, record_failure, Sent, raised, added,
  dispatch_one, dispatch_events, dispatch_ready, claim_ready, settle, dispatch_claimed,
}
use xingestionv.Ledger.{Inv}
use xingestionv.Ledger.Both.{Joint, both-Inv}
use xingestionv.Ledger.Dispatch.{claim_ready-Inv}

-- An update of task_outbox alone, of a claimed row: its task waits no longer.
sent-Inv :
    (db : Db) (event : ClaimedOutboxEvent) (h : OutboxRow → OutboxRow)
    → ((o : OutboxRow) → (h o).id ≡ o.id)
    → ((o : OutboxRow) → (h o).task_id ≡ o.task_id)
    → ((o : OutboxRow) → (h o).delivery_generation ≡ o.delivery_generation)
    → Inv db
    → Inv (record db { outbox = update (holds_claim event) h db.outbox })
sent-Inv db event h a b c v =
    subst (λ ts. Inv (record db { tasks = ts; outbox = update (holds_claim event) h db.outbox }))
      (update-never (λ t. t) db.tasks)
      (both-Inv db (λ t. false) (λ t. t) (holds_claim event) h joint v)
  where
    joint : Joint db (λ t. false) (λ t. t) (holds_claim event) h
    joint = record {
      id = λ t. refl;
      generation = λ t. refl;
      lease = λ t y l. l;
      row_id = a;
      row_task = b;
      row_generation = c;
      track = λ i s o hs ho w. elim (Bool-cases (holds_claim event o)) [
        | inl y ↦ rw y (record {
          unpublished = λ r. absurd (ground (arith, w.unclaimed r));
          unclaimed = λ r. absurd (ground (arith, w.unclaimed r));
        })
        | inr n ↦ rw n w
      ];
    }

pub publish_claimed-Inv :
    (db : Db) (event : ClaimedOutboxEvent) (message : String) (now : ℕ)
    → Inv db
    → Inv (publish_claimed db event message now).1
unfolding publish_claimed
publish_claimed-Inv db event message now v =
    sent-Inv db event _ (λ o. refl) (λ o. refl) (λ o. refl) v

pub record_failure-Inv :
    (db : Db) (event : ClaimedOutboxEvent) (message : String)
    → Inv db
    → Inv (record_failure db event message)
unfolding record_failure
record_failure-Inv db event message v = sent-Inv db event _ (λ o. refl) (λ o. refl) (λ o. refl) v

settle-Inv :
    (db : Db) (event : ClaimedOutboxEvent) (lost : String) (r : Result String)
    → Inv db
    → Inv (settle event lost r db).1
unfolding settle
settle-Inv db event lost (ok m) v = v
settle-Inv db event lost (err f) v = record_failure-Inv db event lost v

dispatch_one-Inv :
    (db : Db) (event : ClaimedOutboxEvent) (s : Sent) (lost : String) (now : ℕ)
    → Inv db
    → Inv (dispatch_one db event s lost now).1
unfolding dispatch_one
dispatch_one-Inv db event (raised m) lost now v = record_failure-Inv db event m v
dispatch_one-Inv db event (added m) lost now v =
    settle-Inv (publish_claimed db event m now).1 event lost (publish_claimed db event m now).0
      (publish_claimed-Inv db event m now v)

dispatch_events-Inv :
    (db : Db) (events : List ClaimedOutboxEvent) (sent : ClaimedOutboxEvent → Sent) (lost : String)
    (now : ℕ)
    → Inv db
    → Inv (dispatch_events db events sent lost now).1
unfolding dispatch_events
dispatch_events-Inv db [] sent lost now v = v
dispatch_events-Inv db (e ∷ events) sent lost now v =
    dispatch_events-Inv (dispatch_one db e (sent e) lost now).1 events sent lost now
      (dispatch_one-Inv db e (sent e) lost now v)

dispatch_claimed-Inv :
    (db : Db) (r : Result (List ClaimedOutboxEvent)) (sent : ClaimedOutboxEvent → Sent)
    (lost : String) (now : ℕ)
    → Inv db
    → Inv (dispatch_claimed r db sent lost now).1
unfolding dispatch_claimed
dispatch_claimed-Inv db (ok events) sent lost now v = dispatch_events-Inv db events sent lost now v
dispatch_claimed-Inv db (err f) sent lost now v = v

-- A whole round of the dispatcher keeps the ledger well-formed, whatever Redis answers.
pub dispatch_ready-Inv :
    (seconds : ℕ) (db : Db) (locked : ℕ → Bool) (token : String) (batch : ℕ)
    (sent : ClaimedOutboxEvent → Sent) (lost : String) (utcnow now : ℕ)
    → Inv db
    → Inv (dispatch_ready seconds db locked token batch sent lost utcnow now).1
unfolding dispatch_ready
dispatch_ready-Inv seconds db locked token batch sent lost utcnow now v =
    dispatch_claimed-Inv (claim_ready seconds db locked token batch utcnow now).1
      (claim_ready seconds db locked token batch utcnow now).0 sent lost now
      (claim_ready-Inv seconds db locked token batch utcnow now v)
