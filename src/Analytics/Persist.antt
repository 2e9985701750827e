-- ===== src/Analytics/Persist.antt =====
-- persist_documents of worker.py. Each document is stored in a transaction of its own; what other
-- processes do to the tables since the one before is an argument, with the clocks.
use Prim.Native.String.{◌++◌}
use xingestionv.Prelude.{
  ℕ, suc, Bool, Option, none, some, List, [], ◌∷◌, String, if◌then◌else◌, decimal,
}
use xingestionv.Json.{Json, Fields}
use xingestionv.Schema.{Result, ok, err}
use xingestionv.Tasks.{TaskLease}
use xingestionv.Capabilities.{Builtins}
use xingestionv.Capabilities.Values.{get, is_truthy, to_text}
use xingestionv.Analytics.{SocialMediaDocument, Feed}
use xingestionv.Analytics.Document.{
  TextTools, Readers, document_of, compute_clean_text_hash, extract_keywords,
}
use xingestionv.Analytics.Upsert.{Provenance}
use xingestionv.Analytics.Record.{upsert_insight_record}

-- When a document is stored: the clock of the process and of the database, which tasks there are,
-- and what happened to the tables since the document before.
pub record Moment : Type 0 where
  pub utcnow : ℕ
  pub now : ℕ
  pub known : ℕ → Bool
  pub since : Feed → Feed

-- str(value) if value else None, of item.get(name)
abbrev pub text_if_truthy : Builtins → Option Json → Option String
text_if_truthy py none = none
text_if_truthy py (some v) = if is_truthy v then some (to_text py v) else none

abbrev pub provenance : Builtins → TaskLease → Fields → SocialMediaDocument → Provenance
provenance py task item d = record {
  observation_key = some (
      "task:"
      ++ (decimal task.id
          ++ (":generation:"
              ++ (decimal task.delivery_generation
                  ++ (":" ++ (d.platform ++ (":" ++ d.original_tweet_id)))))));
  ingestion_task_id = some task.id;
  task_generation = some task.delivery_generation;
  adapter_name = text_if_truthy py (get "_collector_adapter" item);
  adapter_version = text_if_truthy py (get "_collector_adapter_version" item);
}

module _ (py : Builtins) (tools : TextTools) (rd : Readers) (isoformat : ℕ → String)
    (task : TaskLease) where
  -- The upsert of one document.
  unfoldable pub store_document : Moment → Fields → SocialMediaDocument → Feed → Result Feed
  unfolding upsert_insight_record compute_clean_text_hash extract_keywords
  store_document m item d f =
      upsert_insight_record m.known isoformat (provenance py task item d) d
        (compute_clean_text_hash py tools d) (extract_keywords tools d.text_content) m.utcnow m.now
        f

  -- persist_documents: the numbers of stored and rejected documents, and the tables after it. The
  -- moments are given by the number of the item, from `number`.
  unfoldable pub persist_documents :
      (ℕ → Moment) → ℕ → List Fields → ℕ → ℕ → Feed → Result (ℕ × ℕ) × Feed
  unfolding document_of store_document
  persist_documents moments number [] stored rejected f = (ok (stored, rejected), f)
  persist_documents moments number (item ∷ items) stored rejected f =
      elim (document_of py tools rd item) [
        | err e ↦
            persist_documents moments (suc number) items stored (suc rejected)
              ((moments number).since f)
        | ok d ↦ elim (store_document (moments number) item d ((moments number).since f)) [
          | err e ↦ (err e, (moments number).since f)
          | ok g ↦ persist_documents moments (suc number) items (suc stored) rejected g
        ]
      ]
