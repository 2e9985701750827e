-- ===== src/Capabilities/Planner.antt =====
-- CapabilityPlanner.plan of xingestion/capabilities.py.
pub mod Approved
pub mod Sound
use Prim.Native.Nat.{Ordering}
use Prim.Native.String.{compare}
use xingestionv.Prelude.{
  ℕ, ℤ, pos, ltb_ℤ, eqb_ℤ, Bool, true, false, not, ◌&&◌, ◌||◌, Option, none, some, List, [], ◌∷◌,
  String, ◌++◌, str_eq, if◌then◌else◌,
}
use xingestionv.Json.{Json, Fields, null, int, str, end, field}
use xingestionv.Schema.{Result, ok, err, ◌>>=◌, key_error, no_approved_route}
use xingestionv.Table.{order_by}
use xingestionv.Capabilities.{
  Builtins, CapabilitySpec, CapabilityRequest, CapabilityRoute, CapabilityCatalog, AcquisitionPlan,
  require_from,
}
use xingestionv.Capabilities.Values.{get, get_or, has_name, eq_json, to_int}
use xingestionv.Capabilities.Validate.{input_spec, validate}

abbrev pub is_none : Json → Bool
is_none null = true
is_none _ = false

-- The loop of _route_supports_params. `inputs[name]` raises where the contract lacks the name.
unfoldable pub supports_each : List String → CapabilitySpec → Fields → Result Bool
unfolding has_name input_spec eq_json
supports_each supported spec end = ok true
supports_each supported spec (field n v rest) =
    let more = supports_each supported spec rest in
    if has_name n supported then more else elim (input_spec n spec.inputs) [
      | none ↦ err key_error
      | some i ↦ if is_none v || i.has_default && eq_json v i.default then more else ok false
    ]

-- _route_supports_params
unfoldable pub route_supports_params : CapabilityRoute → CapabilitySpec → Fields → Result Bool
unfolding supports_each
route_supports_params route spec params = elim route.supported_inputs [
  | [] ↦ ok true
  | n ∷ names ↦ supports_each (n ∷ names) spec params
]

-- not route.supported_products or product is None or product in route.supported_products
abbrev pub supports_product : List String → Option Json → Bool
supports_product [] product = true
supports_product (p ∷ ps) none = true
supports_product (p ∷ ps) (some null) = true
supports_product (p ∷ ps) (some (str s)) = has_name s (p ∷ ps)
supports_product (p ∷ ps) (some _) = false

-- The conditions of `plan` on a route before its parameters are looked at.
abbrev pub matches : CapabilityRequest → CapabilityRoute → Bool
matches r route =
    route.enabled
    && (str_eq route.capability_id r.capability_id
        && (str_eq route.capability_contract_version r.capability_contract_version
            && supports_product route.supported_products (get "product" r.params)))

-- The comprehension `candidates` of `plan`.
unfoldable pub candidates :
    CapabilitySpec → CapabilityRequest → List CapabilityRoute → Result (List CapabilityRoute)
unfolding route_supports_params
candidates spec r [] = ok []
candidates spec r (route ∷ routes) =
    let rest = candidates spec r routes in
    if matches r route
    then (do
      b ← route_supports_params route spec r.params
      more ← rest
      ok (if b then route ∷ more else more))
    else rest

-- key=lambda item: (item.priority, item.route_id)
abbrev pub not_after : CapabilityRoute → CapabilityRoute → Bool
not_after a b =
    ltb_ℤ a.priority b.priority
    || eqb_ℤ a.priority b.priority
      && elim (compare a.route_id b.route_id) [ Ordering.gt ↦ false | _ ↦ true ]

unfoldable pub first_route : List CapabilityRoute → Result CapabilityRoute
first_route [] = err no_approved_route
first_route (route ∷ routes) = ok route

-- How `plan` cuts a requested number to what the route allows, and the warning for it.
abbrev pub clamp : Option ℤ → ℤ → ℤ
clamp none n = n
clamp (some m) n = if ltb_ℤ m n then m else n

abbrev pub warn : Option ℤ → ℤ → String → List String → List String
warn none n w ws = ws
warn (some m) n w ws = if ltb_ℤ m n then w ∷ ws else ws

-- validated.page_size or int(spec.pagination.get("default_page_size", 20))
unfoldable pub requested_size : Builtins → CapabilitySpec → Option ℤ → Result ℤ
requested_size py spec (some n) = ok n
requested_size py spec none = to_int py (get_or "default_page_size" (int (pos 20)) spec.pagination)

abbrev pub make_plan : CapabilityRequest → CapabilityRoute → ℤ → ℤ → AcquisitionPlan
make_plan r route size pages = record {
  request = r;
  route = route;
  effective_page_size = clamp route.maximum_page_size size;
  effective_max_pages = clamp route.maximum_pages pages;
  warnings =
      warn route.maximum_page_size size "PAGE_SIZE_CLAMPED_TO_ROUTE"
        (warn route.maximum_pages pages "MAX_PAGES_CLAMPED_TO_ROUTE" []);
}

-- What `plan` does with the route that it has chosen.
unfoldable pub with_route :
    Builtins → CapabilitySpec → CapabilityRequest → CapabilityRoute → Result AcquisitionPlan
unfolding requested_size
with_route py spec r route = do
  size ← requested_size py spec r.page_size
  pages ← to_int py (get_or "max_pages" (int (pos 1)) r.params)
  ok (make_plan r route size pages)

-- What `plan` does with a validated request.
unfoldable pub plan_validated :
    Builtins → CapabilitySpec → List CapabilityRoute → CapabilityRequest → Result AcquisitionPlan
unfolding candidates first_route with_route
plan_validated py spec routes r = do
  found ← candidates spec r routes
  route ← first_route (order_by not_after found)
  with_route py spec r route

-- CapabilityPlanner.plan
unfoldable pub plan :
    Builtins → CapabilityCatalog → List CapabilityRoute → CapabilityRequest → Result AcquisitionPlan
unfolding validate require_from plan_validated
plan py catalog routes request = do
  r ← validate py catalog request
  spec ← require_from catalog.specs r.capability_id r.capability_contract_version
  plan_validated py spec routes r
