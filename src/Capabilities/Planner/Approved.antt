-- ===== src/Capabilities/Planner/Approved.antt =====
-- What it takes to approve a route for a request.
use xingestionv.Prelude.{
  ◌≡◌, ◌⊎◌, inl, inr, refl, true, ◌&&◌, Option, none, some, List, [], ◌∷◌, String, str_eq, eq_iff,
  arith, Bool-cases, Option-cases,
}
use xingestionv.Json.{Json, Fields, null, bool, int, str, arr, obj, end, field}
use xingestionv.Schema.{ok}
use xingestionv.Capabilities.{CapabilitySpec, CapabilityRequest, CapabilityRoute, InputFieldSpec}
use xingestionv.Capabilities.Values.{get, has_name, eq_json}
use xingestionv.Capabilities.Validate.{input_spec}
use xingestionv.Capabilities.Planner.{
  is_none, supports_each, route_supports_params, supports_product, matches,
}

-- A name of the list.
abbrev pub Named : String → List String → Type 0
Named n [] = ⊥
Named n (m ∷ names) = (m ≡ n) ⊎ Named n names

-- The route is not bound to products, or no product is asked for, or it is one of the route's.
abbrev pub ServesProduct : List String → Option Json → Type 0
ServesProduct products product =
    (products ≡ [])
    ⊎ (product ≡ none)
    ⊎ (product ≡ some null)
    ⊎ ((s : String) × (product ≡ some (str s)) × Named s products)

-- A parameter is named by the route, or is None, or has the default of the contract.
abbrev pub Served : List String → CapabilitySpec → String → Json → Type 0
Served supported spec n v =
    Named n supported
    ⊎ (v ≡ null)
    ⊎ ((i : InputFieldSpec) × (input_spec n spec.inputs ≡ some i)
        × (i.has_default ≡ true)
        × (eq_json v i.default ≡ true))

abbrev pub AllServed : List String → CapabilitySpec → Fields → Type 0
AllServed supported spec end = Unit
AllServed supported spec (field n v rest) =
    Served supported spec n v × AllServed supported spec rest

-- A route that is approved for a request.
pub record Approved (spec : CapabilitySpec) (r : CapabilityRequest) (route : CapabilityRoute)
    : Type 0 where
  pub enabled : route.enabled ≡ true
  pub capability_id : route.capability_id ≡ r.capability_id
  pub version : route.capability_contract_version ≡ r.capability_contract_version
  pub product : ServesProduct route.supported_products (get "product" r.params)
  pub params : (route.supported_inputs ≡ []) ⊎ AllServed route.supported_inputs spec r.params

has_name-Named : (n : String) (names : List String) → has_name n names ≡ true → Named n names
unfolding has_name
has_name-Named n [] h = absurd (ground (arith))
has_name-Named n (m ∷ names) h = elim (Bool-cases (str_eq m n)) [
  | inl y ↦ inl ((eq_iff m n).0 y)
  | inr k ↦ inr (has_name-Named n names (ground (arith)))
]

supports_product-Serves :
    (ps : List String) (o : Option Json) → supports_product ps o ≡ true → ServesProduct ps o
supports_product-Serves [] o h = inl refl
supports_product-Serves (p ∷ ps) none h = inr (inl refl)
supports_product-Serves (p ∷ ps) (some null) h = inr (inr (inl refl))
supports_product-Serves (p ∷ ps) (some (str s)) h =
    inr (inr (inr (s, refl, has_name-Named s (p ∷ ps) h)))
supports_product-Serves (p ∷ ps) (some (bool b)) h = absurd (ground (arith))
supports_product-Serves (p ∷ ps) (some (int b)) h = absurd (ground (arith))
supports_product-Serves (p ∷ ps) (some (arr b)) h = absurd (ground (arith))
supports_product-Serves (p ∷ ps) (some (obj b)) h = absurd (ground (arith))

is_none_lem : (v : Json) → is_none v ≡ true → v ≡ null
is_none_lem v h = ground (arith)

supports_each-AllServed :
    (supported : List String) (spec : CapabilitySpec) (params : Fields)
    → supports_each supported spec params ≡ ok true
    → AllServed supported spec params
unfolding supports_each
supports_each-AllServed supported spec end h = tt
supports_each-AllServed supported spec (field n v rest) h =
    elim (Bool-cases (has_name n supported)) [
      | inl y ↦ (
        inl (has_name-Named n supported y),
        supports_each-AllServed supported spec rest (ground (arith)),
      )
      | inr k ↦ elim (Option-cases (input_spec n spec.inputs)) [
        | inl e ↦ absurd (ground (arith))
        | inr (i, e) ↦ elim (Bool-cases (is_none v)) [
          | inl y ↦ (
            inr (inl (is_none_lem v y)),
            supports_each-AllServed supported spec rest (ground (arith)),
          )
          | inr m ↦ elim (Bool-cases (i.has_default && eq_json v i.default)) [
            | inl y ↦ (
              inr (inr (i, e, ground (arith), ground (arith))),
              supports_each-AllServed supported spec rest (ground (arith)),
            )
            | inr z ↦ absurd (ground (arith))
          ]
        ]
      ]
    ]

supports_params :
    (spec : CapabilitySpec) (params : Fields) (route : CapabilityRoute)
    → route_supports_params route spec params ≡ ok true
    → (route.supported_inputs ≡ []) ⊎ AllServed route.supported_inputs spec params
unfolding route_supports_params
supports_params spec params route s = go route.supported_inputs s
  where
    go :
        (names : List String)
        → elim names [ [] ↦ ok true | n ∷ ns ↦ supports_each (n ∷ ns) spec params ] ≡ ok true
        → (names ≡ []) ⊎ AllServed names spec params
    go [] h = inl refl
    go (n ∷ ns) h = inr (supports_each-AllServed (n ∷ ns) spec params h)

-- The conditions of `plan` on a route approve it.
pub approved_lem :
    (spec : CapabilitySpec) (r : CapabilityRequest) (route : CapabilityRoute)
    → matches r route ≡ true
    → route_supports_params route spec r.params ≡ ok true
    → Approved spec r route
approved_lem spec r route y s = record {
  enabled = ground (arith);
  capability_id = (eq_iff route.capability_id r.capability_id).0 (ground (arith));
  version =
      (eq_iff route.capability_contract_version r.capability_contract_version).0 (ground (arith));
  product =
      supports_product-Serves route.supported_products (get "product" r.params) (ground (arith));
  params = supports_params spec r.params route s;
}
