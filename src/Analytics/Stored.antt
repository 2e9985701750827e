-- ===== src/Analytics/Stored.antt =====
-- What persist_documents of worker.py leaves.
use xingestionv.Prelude.{
  Bool, true, not, ℕ, suc, ◌+◌, ◌≡◌, refl, false, List, [], ◌∷◌, String, drop_text, arith, inl, inr,
}
use xingestionv.Json.{Fields}
use xingestionv.Schema.{ok, err, data_error}
use xingestionv.Results.{Ok, Ok_returned, result_cases}
use xingestionv.Table.{count, total}
use xingestionv.Tasks.{TaskLease}
use xingestionv.Capabilities.{Builtins}
use xingestionv.Analytics.{SocialMediaDocument, Feed, all_spaces, fits_varchar}
use xingestionv.Analytics.Document.{
  TextTools, Readers, document_of, compute_clean_text_hash, extract_keywords,
}
use xingestionv.Analytics.Upsert.{fits_feed}
use xingestionv.Analytics.Record.{upsert_insight_record}
use xingestionv.Analytics.Agree.{Agrees, upserted-Agrees}
use xingestionv.Analytics.Persist.{Moment, provenance, store_document, persist_documents}

module _ (py : Builtins) (tools : TextTools) (rd : Readers) (isoformat : ℕ → String)
    (task : TaskLease) (moments : ℕ → Moment) where
  store_document-Agrees :
      (m : Moment) (item : Fields) (d : SocialMediaDocument) (f : Feed)
      → Agrees f
      → Ok Agrees (store_document py tools rd isoformat task m item d f)
  unfolding store_document
  store_document-Agrees m item d f =
      upserted-Agrees m.known isoformat (provenance py task item d) d
        (compute_clean_text_hash py tools d) (extract_keywords tools d.text_content) m.utcnow m.now
        f

  -- However persist_documents ends, the rollups agree with the contributions, where they did before
  -- and other processes keep it so.
  pub persist_documents-Agrees :
      (items : List Fields) (number stored rejected : ℕ) (f : Feed)
      → ((k : ℕ) (g : Feed) → Agrees g → Agrees ((moments k).since g))
      → Agrees f
      → Agrees
          (persist_documents py tools rd isoformat task moments number items stored rejected f).1
  unfolding persist_documents
  persist_documents-Agrees [] number stored rejected f k h = h
  persist_documents-Agrees (item ∷ items) number stored rejected f k h =
      elim (result_cases (document_of py tools rd item)) [
        | inl (e, x) ↦
            rw (x, persist_documents)
              (persist_documents-Agrees items (suc number) stored (suc rejected) _ k (k number f h))
        | inr (d, x) ↦
            elim (result_cases (
              store_document py tools rd isoformat task (moments number) item d
                ((moments number).since f))) [
                  | inl (e, y) ↦ rw (x, persist_documents, y) (k number f h)
                  | inr (g, y) ↦
                      rw (x, persist_documents, y)
                        (persist_documents-Agrees items (suc number) (suc stored) rejected g k (
                          Ok_returned Agrees
                            (store_document py tools rd isoformat task (moments number) item d
                              ((moments number).since f))
                            g
                            (store_document-Agrees (moments number) item d
                              ((moments number).since f) (k number f h))
                            y))
                ]
      ]

  tally :
      (items : List Fields) (number stored rejected n : ℕ) (f : Feed)
      → stored + rejected + total items ≡ n
      → Ok
          (λ p. p.0 + p.1 ≡ n)
          (persist_documents py tools rd isoformat task moments number items stored rejected f).0
  unfolding persist_documents count
  tally [] number stored rejected n f h = omega (arith, h)
  tally (item ∷ items) number stored rejected n f h =
      elim (result_cases (document_of py tools rd item)) [
        | inl (e, x) ↦
            rw (x, persist_documents)
              (tally items (suc number) stored (suc rejected) n _ (omega (arith, h)))
        | inr (d, x) ↦
            elim (result_cases (
              store_document py tools rd isoformat task (moments number) item d
                ((moments number).since f))) [
                  | inl (e, y) ↦ rw (x, persist_documents, y) tt
                  | inr (g, y) ↦
                      rw (x, persist_documents, y)
                        (tally items (suc number) (suc stored) rejected n g (omega (arith, h)))
                ]
      ]

  -- Every item is counted once, as stored or as rejected.
  pub persist_documents-total :
      (items : List Fields) (number : ℕ) (f : Feed) (s r : ℕ)
      → (persist_documents py tools rd isoformat task moments number items 0 0 f).0 ≡ ok (s, r)
      → s + r ≡ total items
  persist_documents-total items number f s r e =
      Ok_returned (λ p. p.0 + p.1 ≡ total items)
        (persist_documents py tools rd isoformat task moments number items 0 0 f).0 (s, r)
        (tally items number 0 0 (total items) f (omega arith)) e

  -- The items that document_of makes a document of, and the others.
  abbrev pub is_valid : Fields → Bool
  is_valid item = elim (document_of py tools rd item) [ ok d ↦ true | err e ↦ false ]

  abbrev pub is_invalid : Fields → Bool
  is_invalid item = not (is_valid item)

  valid_tally :
      (items : List Fields) (number stored rejected n m : ℕ) (f : Feed)
      → stored + count is_valid items ≡ n
      → rejected + count is_invalid items ≡ m
      → Ok
          (λ p. (p.0 ≡ n) × (p.1 ≡ m))
          (persist_documents py tools rd isoformat task moments number items stored rejected f).0
  unfolding persist_documents count
  valid_tally [] number stored rejected n m f h k = (omega (arith, h), omega (arith, k))
  valid_tally (item ∷ items) number stored rejected n m f h k =
      elim (result_cases (document_of py tools rd item)) [
        | inl (e, x) ↦
            rw (x, persist_documents)
              (valid_tally items (suc number) stored (suc rejected) n m _ (ground (arith, h, x))
                (ground (arith, k, x)))
        | inr (d, x) ↦
            elim (result_cases (
              store_document py tools rd isoformat task (moments number) item d
                ((moments number).since f))) [
                  | inl (e, y) ↦ rw (x, persist_documents, y) tt
                  | inr (g, y) ↦
                      rw (x, persist_documents, y)
                        (valid_tally items (suc number) (suc stored) rejected n m g
                          (ground (arith, h, x)) (ground (arith, k, x)))
                ]
      ]

  -- Where persist_documents returns, its first number is that of the items that are valid documents,
  -- and its second that of the others.
  pub persist_documents_counted :
      (items : List Fields) (number : ℕ) (f : Feed) (s r : ℕ)
      → (persist_documents py tools rd isoformat task moments number items 0 0 f).0 ≡ ok (s, r)
      → (s ≡ count is_valid items) × (r ≡ count is_invalid items)
  persist_documents_counted items number f s r e =
      Ok_returned (λ p. (p.0 ≡ count is_valid items) × (p.1 ≡ count is_invalid items))
        (persist_documents py tools rd isoformat task moments number items 0 0 f).0 (s, r)
        (valid_tally items number 0 0 (count is_valid items) (count is_invalid items) f
          (omega arith) (omega arith))
        e

  -- A document may have an author of up to 128 characters, and the column takes 64 and spaces: where
  -- the first item has an author with another character than a space after the 64th,
  -- persist_documents raises and stores nothing, the later items included.
  pub long_author_stops :
      (item : Fields) (items : List Fields) (number stored rejected : ℕ) (f : Feed)
      (d : SocialMediaDocument)
      → document_of py tools rd item ≡ ok d
      → all_spaces (drop_text 64 d.author_id) ≡ false
      → persist_documents py tools rd isoformat task moments number (item ∷ items) stored rejected f
        ≡ (err data_error, (moments number).since f)
  unfolding persist_documents store_document upsert_insight_record fits_varchar
  long_author_stops item items number stored rejected f d e h =
      rw (e, persist_documents, too_long) refl
    where
      too_long : fits_feed d (compute_clean_text_hash py tools d) ≡ false
      too_long = ground (arith, h)
