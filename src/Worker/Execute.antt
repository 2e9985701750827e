-- ===== src/Worker/Execute.antt =====
-- _execute_leased_work of worker.py after `collect` has returned, with the metadata of `collect` and
-- the result that handle_delivery gives to complete_task.
use xingestionv.Prelude.{
  ℕ, suc, ◌+◌, ◌≡◌, refl, sym, ap, ◌∙◌, pos, some, List, [], ◌∷◌, String, inl, inr,
}
use xingestionv.Json.{Json, Items, Fields, int, str, arr, obj, nil, cons, end, field}
use xingestionv.Schema.{Result, ok, err}
use xingestionv.Results.{Ok, Ok_returned, result_cases}
use xingestionv.Table.{count}
use xingestionv.Tasks.{TaskLease}
use xingestionv.Capabilities.{Builtins, AcquisitionPlan}
use xingestionv.Capabilities.FromTask.{nullable}
use xingestionv.Capabilities.Values.{get, set}
use xingestionv.Analytics.{Feed}
use xingestionv.Analytics.Document.{TextTools, Readers}
use xingestionv.Analytics.Persist.{Moment, persist_documents}
use xingestionv.Analytics.Stored.{persist_documents-total}
use xingestionv.Table.{total}
use xingestionv.Worker.Pages.{AdapterUse, Collected, item_total}

abbrev pub adapter_entry : AdapterUse → Json
adapter_entry u = obj (
    field "page" (int (pos u.page)) (
      field "name" (str u.name) (
        field "version" (str u.version)
          (field "count" (int (pos u.item_count)) (field "metadata" (obj u.metadata) end)))))

unfoldable pub adapter_entries : List AdapterUse → Items
adapter_entries [] = nil
adapter_entries (u ∷ uses) = cons (adapter_entry u) (adapter_entries uses)

unfoldable pub text_items : List String → Items
text_items [] = nil
text_items (s ∷ rest) = cons (str s) (text_items rest)

-- The metadata that `collect` returns.
unfoldable pub collection_metadata : AcquisitionPlan → String → String → Collected → Fields
collection_metadata plan query product got =
    field "capability_id" (str plan.request.capability_id) (
      field "capability_contract_version" (str plan.request.capability_contract_version) (
        field "acquisition_route" (str plan.route.route_id) (
          field "query" (str query) (
            field "product" (str product) (
              field "pages" (int (pos (item_total got.adapters))) (
                field "items_collected" (int (pos (item_total got.items))) (
                  field "adapters" (arr (adapter_entries got.adapters)) (
                    field "next_cursor" (nullable got.next_cursor)
                      (field "planner_warnings" (arr (text_items plan.warnings)) end)))))))))

-- {**collection_metadata, "items_stored": stored, "items_rejected": rejected}
unfoldable pub result_metadata : Fields → ℕ → ℕ → Fields
unfolding set
result_metadata metadata stored rejected =
    set "items_rejected" (int (pos rejected)) (set "items_stored" (int (pos stored)) metadata)

module _ (py : Builtins) (tools : TextTools) (rd : Readers) (isoformat : ℕ → String)
    (task : TaskLease) (moments : ℕ → Moment) (plan : AcquisitionPlan)
    (query product : String) where
  unfoldable pub execute_collected : Collected → Feed → Result Fields × Feed
  unfolding persist_documents collection_metadata result_metadata
  execute_collected got f =
      let (counts, f') = persist_documents py tools rd isoformat task moments 0 got.items 0 0 f in
      elim counts [
        | err e ↦ (err e, f')
        | ok p ↦ (ok (result_metadata (collection_metadata plan query product got) p.0 p.1), f')
      ]

  item_total_lem {ℓ} : {A : Type ℓ} (xs : List A) → item_total xs ≡ total xs
  unfolding item_total count
  item_total_lem [] = refl
  item_total_lem (x ∷ xs) = ap suc (item_total_lem xs)

  -- The two numbers of persist_documents stand in the metadata and add up to the number of items.
  abbrev AddsUp : Fields → Type 0
  AddsUp metadata =
      (stored : ℕ) × (rejected : ℕ) × (get "items_stored" metadata ≡ some (int (pos stored)))
      × (get "items_rejected" metadata ≡ some (int (pos rejected)))
      × (get "items_collected" metadata ≡ some (int (pos (stored + rejected))))

  executed-AddsUp : (got : Collected) (f : Feed) → Ok AddsUp (execute_collected got f).0
  unfolding execute_collected result_metadata collection_metadata get set
  executed-AddsUp got f =
      elim (result_cases
        (persist_documents py tools rd isoformat task moments 0 got.items 0 0 f).0) [
          | inl (x, h) ↦ rw (h, execute_collected) tt
          | inr (p, h) ↦
              let sum : item_total got.items ≡ p.0 + p.1 =
                item_total_lem got.items
                ∙ sym (
                    persist_documents-total py tools rd isoformat task moments got.items 0 f p.0 p.1
                      h) in
              rw (h, execute_collected)
                (p.0, p.1, refl, refl, ap (λ (n : ℕ). some (int (pos n))) sum)
        ]

  -- The metadata that a completed task keeps adds up: "items_stored" and "items_rejected" are two
  -- numbers whose sum is "items_collected".
  pub execute_collected_adds_up :
      (got : Collected) (f : Feed) (metadata : Fields)
      → (execute_collected got f).0 ≡ ok metadata
      → (stored : ℕ) × (rejected : ℕ) × (get "items_stored" metadata ≡ some (int (pos stored)))
        × (get "items_rejected" metadata ≡ some (int (pos rejected)))
        × (get "items_collected" metadata ≡ some (int (pos (stored + rejected))))
  execute_collected_adds_up got f metadata e =
      Ok_returned AddsUp (execute_collected got f).0 metadata (executed-AddsUp got f) e
