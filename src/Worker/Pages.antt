-- ===== src/Worker/Pages.antt =====
-- IngestionExecutor.collect of worker.py: the plan of a task and the loop over its pages. The turns
-- of each page are given as a function of its number, from 0.
pub mod Bounds
use Prim.Native.String.{◌++◌ as append}
use xingestionv.Prelude.{
  ℕ, zero, suc, ◌+◌, ℤ, pos, pos_part, Bool, true, false, Option, none, some, List, [], ◌∷◌, ◌++◌,
  map, String, str_eq, if◌then◌else◌, decimal,
}
use xingestionv.Json.{Json, Fields, null, int, str, obj, end}
use xingestionv.Schema.{
  Sessions, Failure, Result, ok, err, capability_contract_error, unsupported_capability,
  no_approved_route, ◌>>=◌,
}
use xingestionv.Tasks.{TaskLease}
use xingestionv.Capabilities.{
  Builtins, CapabilityCatalog, CapabilityRequest, CapabilityRoute, AcquisitionPlan, ExecutorKind,
  legacy_source_adapter,
}
use xingestionv.Capabilities.Values.{get, set_default, to_text}
use xingestionv.Capabilities.Planner.{plan}
use xingestionv.Capabilities.FromTask.{request_from_task}
use xingestionv.Worker.{
  Settings, Raised, Outcome, returned, raised, CollectionRequest, CollectionBatch,
  permanent_task_failure,
}
use xingestionv.Worker.Session.{PageTurns, collect_page, unexpected}

-- An entry of `adapters_used`.
pub record AdapterUse : Type 0 where
  pub page : ℕ
  pub name : String
  pub version : String
  pub item_count : ℕ
  pub metadata : Fields

-- What `collect` returns: the items, and in its metadata the adapters and the cursor.
pub record Collected : Type 0 where
  pub items : List Fields
  pub adapters : List AdapterUse
  pub next_cursor : Option String

unfoldable pub item_total {ℓ} : {A : Type ℓ} → List A → ℕ
item_total [] = 0
item_total (a ∷ rest) = suc (item_total rest)

-- `str(cursor) if cursor else None`
abbrev pub usable : Option String → Option String
usable none = none
usable (some c) = if str_eq c "" then none else some c

-- item.setdefault(...), twice
abbrev pub stamped : CollectionBatch → Fields → Fields
stamped batch item =
    set_default "_collector_adapter_version" (str batch.adapter_version)
      (set_default "_collector_adapter" (str batch.adapter_name) item)

-- What `collect` has after one more page.
abbrev pub add_page : ℕ → CollectionBatch → Collected → Collected
add_page number batch got = record {
  items = got.items ++ map (stamped batch) batch.items;
  adapters =
      got.adapters
      ++ (record {
        page = suc number;
        name = batch.adapter_name;
        version = batch.adapter_version;
        item_count = item_total batch.items;
        metadata = batch.metadata;
      }
          ∷ []);
  next_cursor = batch.next_cursor;
}

-- The loop over the pages: `left` pages from the page `number`, with what the earlier ones gave.
unfoldable pub collect_pages :
    Settings
    → (ℕ → PageTurns)
    → String
    → (Option String → CollectionRequest)
    → ℕ
    → ℕ
    → Collected
    → Sessions
    → Outcome Collected × Sessions
unfolding collect_page
collect_pages settings turns worker_id request zero number got s = (returned got, s)
collect_pages settings turns worker_id request (suc left) number got s =
    let (outcome, s') =
      collect_page settings (turns number) (request (usable got.next_cursor)) worker_id s in
    elim outcome [
      | raised r ↦ (raised r, s')
      | returned batch ↦ elim (usable batch.next_cursor) [
        | none ↦ (returned (add_page number batch got), s')
        | some c ↦
            collect_pages settings turns worker_id request left (suc number)
              (add_page number batch got) s'
      ]
    ]

abbrev pub permanent : Raised
permanent = record { failure_class = permanent_task_failure; message = ""; retry_after = none }

-- `except CapabilityContractError`, which is raised again as PermanentTaskFailure. Another
-- exception passes.
abbrev pub plan_error : Failure → Raised
plan_error capability_contract_error = permanent
plan_error unsupported_capability = permanent
plan_error no_approved_route = permanent
plan_error _ = unexpected

abbrev pub is_legacy : ExecutorKind → Bool
is_legacy legacy_source_adapter = true
is_legacy _ = false

-- dict(task.payload), with the page limit of the settings for a legacy task
abbrev pub task_payload : Settings → TaskLease → Fields
task_payload settings task =
    if str_eq task.task_type "X_KEYWORD_SEARCH"
    then set_default "max_pages" (int (pos settings.collector_max_pages)) task.payload
    else task.payload

abbrev pub correlation : TaskLease → String
correlation task =
    append "task:"
      (append (decimal task.id) (append ":generation:" (decimal task.delivery_generation)))

unfoldable pub plan_task :
    Settings
    → Builtins
    → CapabilityCatalog
    → List CapabilityRoute
    → TaskLease
    → Result AcquisitionPlan
unfolding request_from_task plan
plan_task settings py catalog routes task = do
  request ←
      request_from_task py task.task_type (task_payload settings task) (some (correlation task))
  plan py catalog routes request

-- The request for a page, where the plan has a query and a product.
abbrev pub page_request :
    Builtins → AcquisitionPlan → Json → Json → Option String → CollectionRequest
page_request py p query product cursor = record {
  query = to_text py query;
  product = to_text py product;
  cursor = cursor;
  page_size = p.effective_page_size;
}

unfoldable pub collect_planned :
    Settings
    → Builtins
    → (ℕ → PageTurns)
    → String
    → AcquisitionPlan
    → Sessions
    → Outcome Collected × Sessions
unfolding collect_pages get
collect_planned settings py turns worker_id p s = elim (get "query" p.request.params) [
  | none ↦ (raised unexpected, s)
  | some query ↦ elim (get "product" p.request.params) [
    | none ↦ (raised unexpected, s)
    | some product ↦
        collect_pages settings turns worker_id (page_request py p query product)
          (pos_part p.effective_max_pages) 0
          (record { items = []; adapters = []; next_cursor = p.request.cursor }) s
  ]
]

-- How `collect` goes on after the planning, which may raise.
unfoldable pub after_plan :
    Settings
    → Builtins
    → (ℕ → PageTurns)
    → String
    → Result AcquisitionPlan
    → Sessions
    → Outcome Collected × Sessions
unfolding collect_planned
after_plan settings py turns worker_id (err f) s = (raised (plan_error f), s)
after_plan settings py turns worker_id (ok p) s =
    if is_legacy p.route.executor_kind
    then collect_planned settings py turns worker_id p s
    else (raised permanent, s)

-- IngestionExecutor.collect
unfoldable pub collect :
    Settings
    → Builtins
    → CapabilityCatalog
    → List CapabilityRoute
    → (ℕ → PageTurns)
    → TaskLease
    → String
    → Sessions
    → Outcome Collected × Sessions
unfolding plan_task after_plan
collect settings py catalog routes turns task worker_id s =
    after_plan settings py turns worker_id (plan_task settings py catalog routes task) s
