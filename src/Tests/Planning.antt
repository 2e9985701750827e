-- ===== src/Tests/Planning.antt =====
-- The plan of a legacy search task, and its pages.
use xingestionv.Prelude.{ℕ, ◌≤◌, ◌≡◌, refl, pos, Bool, true, false, none, some, String, [], ◌∷◌}
use xingestionv.Json.{Json, null, int, str, end, field}
use xingestionv.Schema.{Sessions, ok}
use xingestionv.Table.{order_by}
use xingestionv.Tasks.{TaskLease}
use xingestionv.Capabilities.{
  Builtins, post_init, InputFieldSpec, CapabilitySpec, CapabilityCatalog, CapabilityRoute,
  CapabilityRequest, AcquisitionPlan, legacy_source_adapter,
}
use xingestionv.Capabilities.FromTask.{request_from_task}
use xingestionv.Capabilities.Payload.{to_task_payload, request_from_task-to_task_payload}
use xingestionv.Capabilities.Planner.{plan}
use xingestionv.Capabilities.Planner.Sound.{Sound, plan-Sound}
use xingestionv.Worker.{Settings, returned}
use xingestionv.Worker.Session.{Turn, PageTurns}
use xingestionv.Worker.Pages.{Collected, item_total, collect}
use xingestionv.Worker.Pages.Bounds.{collect_bounded}

abbrev pub py : Builtins
py = record {
  is_date = λ s. true;
  int_of_text = λ s. none;
  text_of_value = λ v. "";
  strip = λ s. s;
}

abbrev input : String → Bool → Json → Bool → InputFieldSpec
input t required default has_default = record {
  value_type = t;
  required = required;
  nullable = false;
  default = default;
  has_default = has_default;
  enum = [];
  minimum = none;
  maximum = none;
  minimum_length = none;
  value_format = none;
}

abbrev search_tweets : CapabilitySpec
search_tweets = record {
  capability_id = "SEARCH_TWEETS";
  contract_version = "1";
  description = "";
  inputs =
      ("max_pages", input "integer" false (int (pos 2)) true)
      ∷ ("product", input "string" false (str "Latest") true)
      ∷ ("query", input "string" true null false)
      ∷ [];
  pagination = field "default_page_size" (int (pos 20)) end;
}

abbrev catalog : CapabilityCatalog
catalog = record { specs = search_tweets ∷ []; artifact_schema_version = "1" }

abbrev pub route : CapabilityRoute
route = record {
  route_id = "legacy-source-adapter/search-tweets/v1";
  capability_id = "SEARCH_TWEETS";
  capability_contract_version = "1";
  executor_kind = legacy_source_adapter;
  priority = pos 100;
  enabled = true;
  supported_products = "Latest" ∷ [];
  supported_inputs = "query" ∷ "product" ∷ "max_pages" ∷ [];
  maximum_page_size = some (pos 10);
  maximum_pages = some (pos 2);
  protocol_release_manifest = none;
}

abbrev pub request : CapabilityRequest
request = record {
  capability_id = "SEARCH_TWEETS";
  capability_contract_version = "1";
  params = field "query" (str "cats") (field "max_pages" (int (pos 5)) end);
  cursor = none;
  page_size = none;
  correlation_id = none;
}

planned : (p : AcquisitionPlan) × (plan py catalog (route ∷ []) request ≡ ok p)
unfolding plan order_by
planned = (_, refl)

plan-Sound_example : Sound (λ c. c ≡ route) py catalog request planned.0
plan-Sound_example =
    plan-Sound (λ c. c ≡ route) py catalog (route ∷ []) (refl, tt) request planned.0 planned.1

-- A search for five pages, where the route allows two and the adapter always has more.
abbrev endless : Turn
endless = record {
  requires_session = false;
  locked = λ k. false;
  leased_at = 0;
  ended_at = 0;
  answer = λ request lease s. (
    returned (record {
      items = field "id" (str "1") end ∷ [];
      next_cursor = some "more";
      adapter_name = "mock";
      adapter_version = "1";
      metadata = end;
    }),
    s,
  );
}

abbrev turns : ℕ → PageTurns
turns n = record { primary = endless; failover = endless; recovery = none }

abbrev settings : Settings
settings = record {
  token_lease_seconds = 60;
  token_cooldown_seconds = 900;
  collector_max_pages = 2;
}

abbrev pub search_task : TaskLease
search_task = record {
  id = 1;
  task_type = "X_KEYWORD_SEARCH";
  payload = field "search_keyword" (str "cats") (field "max_pages" (int (pos 5)) end);
  attempts = 0;
  max_attempts = 3;
  delivery_generation = 0;
  lease_owner = "worker-1";
  lease_expires_at = none;
}

abbrev no_sessions : Sessions
no_sessions = record { tokens = []; leases = []; next_lease = 1 }

collected :
    (got : Collected) × ((collect settings py catalog
        (route ∷ [])
        turns
        search_task
        "worker-1"
        no_sessions).0
      ≡ returned got)
unfolding collect order_by
collected = (_, refl)

collect_bounded_example : item_total collected.0.adapters ≤ 2
collect_bounded_example =
    collect_bounded settings turns "worker-1" py catalog (route ∷ []) 2 (refl, tt) search_task
      no_sessions collected.0 collected.1

abbrev named_request : CapabilityRequest
named_request = record request { page_size = some (pos 20); correlation_id = some "c-1" }

request_from_task-to_task_payload_example :
    request_from_task py "CAPABILITY_REQUEST" (to_task_payload named_request) none
    ≡ ok named_request
unfolding post_init
request_from_task-to_task_payload_example =
    request_from_task-to_task_payload py named_request "c-1" none refl refl refl
