-- ===== src/Capabilities/FromTask.antt =====
-- request_from_task and the planner of the legacy search, of xingestion/capabilities.py.
use xingestionv.Prelude.{ℤ, pos, true, Option, none, some, [], ◌∷◌, String, str_eq, if◌then◌else◌}
use xingestionv.Json.{Json, Fields, null, int, str, obj, end, field}
use xingestionv.Schema.{Result, ok, err, ◌>>=◌, capability_contract_error, unsupported_capability}
use xingestionv.Capabilities.{
  Builtins, CapabilityRequest, CapabilityRoute, legacy_source_adapter, new_route, post_init,
}
use xingestionv.Capabilities.Values.{
  get, get_or, is_truthy, text_or, optional_string, optional_integer, legacy_positive_integer,
}

-- payload.get(name) or other
abbrev pub value_or : String → Json → Fields → Json
value_or name other payload = elim (get name payload) [
  | none ↦ other
  | some v ↦ if is_truthy v then v else other
]

abbrev pub nullable : Option String → Json
nullable none = null
nullable (some s) = str s

-- A task of type CAPABILITY_REQUEST
unfoldable pub capability_request :
    Builtins → Fields → Option String → Json → Result CapabilityRequest
unfolding optional_string optional_integer post_init
capability_request py payload correlation_id (obj params) = do
  cursor ← optional_string (get_or "cursor" null payload)
  size ← optional_integer (get_or "page_size" null payload)
  correlation ← optional_string (value_or "correlation_id" (nullable correlation_id) payload)
  post_init (record {
    capability_id = text_or py "capability_id" "" payload;
    capability_contract_version = text_or py "capability_contract_version" "" payload;
    params = params;
    cursor = cursor;
    page_size = size;
    correlation_id = correlation;
  })
capability_request py payload correlation_id _ = err capability_contract_error

unfoldable pub legacy_size : Builtins → Json → Result (Option ℤ)
unfolding legacy_positive_integer
legacy_size py null = ok none
legacy_size py v = legacy_positive_integer py v >>= (λ n. ok (some n))

-- A task of type X_KEYWORD_SEARCH
unfoldable pub legacy_request : Builtins → Fields → Option String → Result CapabilityRequest
unfolding optional_string legacy_positive_integer legacy_size post_init
legacy_request py payload correlation_id = do
  pages ← legacy_positive_integer py (get_or "max_pages" (int (pos 1)) payload)
  cursor ← optional_string (get_or "cursor" null payload)
  size ← legacy_size py (get_or "page_size" null payload)
  post_init (record {
    capability_id = "SEARCH_TWEETS";
    capability_contract_version = "1";
    params = field "query" (str (py.strip (text_or py "search_keyword" "" payload))) (
        field "product" (str (text_or py "product" "Latest" payload))
          (field "max_pages" (int pages) end));
    cursor = cursor;
    page_size = size;
    correlation_id = correlation_id;
  })

-- request_from_task
unfoldable pub request_from_task :
    Builtins → String → Fields → Option String → Result CapabilityRequest
unfolding capability_request legacy_request
request_from_task py task_type payload correlation_id =
    if str_eq task_type "CAPABILITY_REQUEST"
    then capability_request py payload correlation_id (get_or "params" null payload)
    else if str_eq task_type "X_KEYWORD_SEARCH"
    then legacy_request py payload correlation_id
    else err unsupported_capability

-- The route of legacy_search_planner
unfoldable pub legacy_search_route : ℤ → ℤ → Result CapabilityRoute
unfolding new_route
legacy_search_route maximum_page_size maximum_pages = new_route (record {
  route_id = "legacy-source-adapter/search-tweets/v1";
  capability_id = "SEARCH_TWEETS";
  capability_contract_version = "1";
  executor_kind = legacy_source_adapter;
  priority = pos 100;
  enabled = true;
  supported_products = "Latest" ∷ [];
  supported_inputs = "query" ∷ "product" ∷ "max_pages" ∷ [];
  maximum_page_size = some maximum_page_size;
  maximum_pages = some maximum_pages;
  protocol_release_manifest = none;
})
