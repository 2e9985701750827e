-- ===== src/Capabilities/Planner/Sound.antt =====
-- What a plan promises about its route and its sizes.
use xingestionv.Prelude.{
  ◌≡◌, refl, ℤ, pos, Bool, true, false, Option, none, some, List, [], ◌∷◌, arith, Bool-cases, inl,
  inr, if◌then◌else◌,
}
use xingestionv.Schema.{Result, ok, ◌>>=◌}
use xingestionv.Results.{Ok, Ok-step, Ok_returned}
use xingestionv.Table.{order_by}
use xingestionv.Table.All.{All, order_by-All}
use xingestionv.Capabilities.{
  Builtins, CapabilitySpec, CapabilityRequest, CapabilityRoute, CapabilityCatalog, AcquisitionPlan,
  require_from,
}
use xingestionv.Json.{int}
use xingestionv.Capabilities.Planner.Approved.{Approved, approved_lem}
use xingestionv.Capabilities.Values.{get_or, to_int}
use xingestionv.Capabilities.Validate.{validate, is_above}
use xingestionv.Capabilities.Planner.{
  matches, candidates, route_supports_params, first_route, not_after, clamp, with_route,
  requested_size, make_plan, plan_validated, plan,
}

-- A route satisfies `P`, and the conditions of `plan`.
abbrev Chosen {κ} :
    (CapabilityRoute → Type κ) → CapabilitySpec → CapabilityRequest → CapabilityRoute → Type κ
Chosen P spec r c = P c × Approved spec r c

module _ {κ} (P : CapabilityRoute → Type κ) (spec : CapabilitySpec) (r : CapabilityRequest) where
  add_candidate :
      (route : CapabilityRoute) (more : List CapabilityRoute) (b : Bool)
      → P route
      → matches r route ≡ true
      → route_supports_params route spec r.params ≡ ok b
      → All (Chosen P spec r) more
      → All (Chosen P spec r) (if b then route ∷ more else more)
  add_candidate route more true h y s k = ((h, approved_lem spec r route y s), k)
  add_candidate route more false h y s k = k

  candidates-Chosen :
      (routes : List CapabilityRoute)
      → All P routes
      → Ok (All (Chosen P spec r)) (candidates spec r routes)
  unfolding candidates
  candidates-Chosen [] h = tt
  candidates-Chosen (route ∷ routes) h = elim (Bool-cases (matches r route)) [
    | inr n ↦ rw n (candidates-Chosen routes h.1)
    | inl y ↦ rw y (
        Ok-step (All (Chosen P spec r)) (route_supports_params route spec r.params)
          (λ b. candidates spec r routes >>= (λ more. ok (if b then route ∷ more else more)))
          (λ b s.
            Ok-step (All (Chosen P spec r)) (candidates spec r routes)
              (λ more. ok (if b then route ∷ more else more))
              (λ more e. add_candidate route more b h.0 y s (
                Ok_returned (All (Chosen P spec r)) (candidates spec r routes) more
                  (candidates-Chosen routes h.1) e))))
  ]

-- A clamped number is not above the maximum.
clamp_bound : (m : Option ℤ) (n : ℤ) → is_above m (clamp m n) ≡ false
clamp_bound none n = refl
clamp_bound (some m) n = ground arith

first-All {κ} :
    (P : CapabilityRoute → Type κ) (routes : List CapabilityRoute)
    → All P routes
    → Ok P (first_route routes)
unfolding first_route
first-All P [] h = tt
first-All P (c ∷ cs) h = h.0

-- What holds of a plan: its request is validated, its contract is in the catalog, its route is one of
-- those given and approved for the request, and its sizes are not above the route's maxima.
pub record Sound {κ} (P : CapabilityRoute → Type κ) (py : Builtins) (catalog : CapabilityCatalog)
    (request : CapabilityRequest) (p : AcquisitionPlan) : Type κ where
  pub valid : validate py catalog request ≡ ok p.request
  pub spec : CapabilitySpec
  pub contract :
      require_from catalog.specs p.request.capability_id p.request.capability_contract_version
      ≡ ok spec
  pub given : P p.route
  pub approved : Approved spec p.request p.route
  pub page_size : is_above p.route.maximum_page_size p.effective_page_size ≡ false
  pub max_pages : is_above p.route.maximum_pages p.effective_max_pages ≡ false

module _ {κ} (P : CapabilityRoute → Type κ) (py : Builtins) (catalog : CapabilityCatalog)
    (routes : List CapabilityRoute) (h : All P routes) (request : CapabilityRequest) where
  with_found : CapabilitySpec → CapabilityRequest → List CapabilityRoute → Result AcquisitionPlan
  with_found spec r found = first_route (order_by not_after found) >>= with_route py spec r

  with_route-Sound :
      (spec : CapabilitySpec) (r : CapabilityRequest)
      → validate py catalog request ≡ ok r
      → require_from catalog.specs r.capability_id r.capability_contract_version ≡ ok spec
      → (route : CapabilityRoute) → Chosen P spec r route
      → Ok (Sound P py catalog request) (with_route py spec r route)
  unfolding with_route
  with_route-Sound spec r v c route k =
      Ok-step (Sound P py catalog request) (requested_size py spec r.page_size)
        (λ size.
          to_int py (get_or "max_pages" (int (pos 1)) r.params)
          >>= (λ pages. ok (make_plan r route size pages)))
        (λ size e.
          Ok-step (Sound P py catalog request)
            (to_int py (get_or "max_pages" (int (pos 1)) r.params))
            (λ pages. ok (make_plan r route size pages))
            (λ pages e'. record {
              valid = v;
              spec = spec;
              contract = c;
              given = k.0;
              approved = k.1;
              page_size = clamp_bound route.maximum_page_size size;
              max_pages = clamp_bound route.maximum_pages pages;
            }))

  plan_validated-Sound :
      (spec : CapabilitySpec) (r : CapabilityRequest)
      → validate py catalog request ≡ ok r
      → require_from catalog.specs r.capability_id r.capability_contract_version ≡ ok spec
      → Ok (Sound P py catalog request) (plan_validated py spec routes r)
  unfolding plan_validated with_found
  plan_validated-Sound spec r v c =
      Ok-step (Sound P py catalog request) (candidates spec r routes) (with_found spec r)
        (λ found e.
          Ok-step (Sound P py catalog request) (first_route (order_by not_after found))
            (with_route py spec r)
            (λ route e'. with_route-Sound spec r v c route (
              Ok_returned (Chosen P spec r) (first_route (order_by not_after found)) route
                (first-All (Chosen P spec r) (order_by not_after found) (
                  order_by-All (Chosen P spec r) not_after found (
                    Ok_returned (All (Chosen P spec r)) (candidates spec r routes) found
                      (candidates-Chosen P spec r routes h) e)))
                e')))

  -- Where `plan` returns a plan, the request of the plan is the validated one and its contract is in
  -- the catalog; its route is one of the given routes, enabled, for that contract, product and
  -- parameters; and its page size and number of pages are not above the route's maxima.
  pub plan-Sound :
      (p : AcquisitionPlan) → plan py catalog routes request ≡ ok p → Sound P py catalog request p
  unfolding plan
  plan-Sound p e =
      Ok_returned (Sound P py catalog request) _ p
        (Ok-step (Sound P py catalog request) (validate py catalog request)
          (λ r.
            require_from catalog.specs r.capability_id r.capability_contract_version
            >>= (λ spec. plan_validated py spec routes r))
          (λ r v.
            Ok-step (Sound P py catalog request)
              (require_from catalog.specs r.capability_id r.capability_contract_version)
              (λ spec. plan_validated py spec routes r)
              (λ spec c. plan_validated-Sound spec r v c)))
        e
