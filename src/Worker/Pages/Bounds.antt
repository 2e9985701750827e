-- ===== src/Worker/Pages/Bounds.antt =====
-- How many pages a worker asks for.
use xingestionv.Prelude.{
  ℕ, zero, suc, ◌+◌, ◌≤◌, ◌≡◌, refl, subst, ◌⊎◌, ℤ, pos, pos_part, Option, some, List, [], ◌∷◌,
  ◌++◌, String, arith, Bool-cases, Option-cases, inl, inr, false,
}
use xingestionv.Schema.{Sessions, Result, ok, err}
use xingestionv.Results.{Ok, Ok-step, Ok-returns}
use xingestionv.Tasks.{TaskLease}
use xingestionv.Table.All.{All}
use xingestionv.Capabilities.{
  Builtins, CapabilityCatalog, CapabilityRequest, CapabilityRoute, AcquisitionPlan,
}
use xingestionv.Capabilities.Values.{get}
use xingestionv.Capabilities.Validate.{is_above}
use xingestionv.Capabilities.FromTask.{request_from_task}
use xingestionv.Capabilities.Planner.{plan}
use xingestionv.Capabilities.Planner.Sound.{Sound, plan-Sound}
use xingestionv.Worker.{Settings, Raised, Outcome, returned, raised, CollectionRequest}
use xingestionv.Worker.Session.{PageTurns, collect_page}
use xingestionv.Worker.Pages.{
  Collected, AdapterUse, item_total, usable, add_page, collect_pages, collect_planned, plan_task,
  is_legacy, task_payload, correlation, page_request, after_plan, collect,
}

item_total-snoc {ℓ} :
    {A : Type ℓ} (xs : List A) (a : A) → item_total (xs ++ (a ∷ [])) ≡ suc (item_total xs)
unfolding item_total
item_total-snoc [] a = refl
item_total-snoc (x ∷ xs) a = ground (arith, item_total-snoc xs a)

outcome_cases {ℓ} :
    {A : Type ℓ} (o : Outcome A) → ((r : Raised) × (o ≡ raised r)) ⊎ ((a : A) × (o ≡ returned a))
outcome_cases (raised r) = inl (r, refl)
outcome_cases (returned a) = inr (a, refl)

-- What was collected, where anything was, took at most `n` pages.
abbrev Within : ℕ → Outcome Collected → Type 0
Within n (raised r) = Unit
Within n (returned got) = item_total got.adapters ≤ n

Within-mono : (m n : ℕ) (o : Outcome Collected) → m ≤ n → Within m o → Within n o
Within-mono m n (raised r) h w = tt
Within-mono m n (returned got) h w = omega arith

module _ (settings : Settings) (turns : ℕ → PageTurns) (worker_id : String) where
  collect_pages-Within :
      (request : Option String → CollectionRequest) (left number : ℕ) (got : Collected)
      (s : Sessions)
      → Within
          (item_total got.adapters + left)
          (collect_pages settings turns worker_id request left number got s).0
  unfolding collect_pages
  collect_pages-Within request zero number got s = omega arith
  collect_pages-Within request (suc left) number got s =
      elim (outcome_cases
        (collect_page settings (turns number) (request (usable got.next_cursor)) worker_id s).0) [
          | inl (r, h) ↦ rw (h, collect_pages) tt
          | inr (b, h) ↦ elim (Option-cases (usable b.next_cursor)) [
            | inl n ↦ rw (h, collect_pages, n) (one_more got.adapters _ left)
            | inr (c, k) ↦
                rw (h, collect_pages, k)
                  (Within-mono _ _ _ (step got.adapters _ left)
                    (collect_pages-Within request left (suc number) (add_page number b got) _))
          ]
        ]
    where
      one_more :
          (xs : List AdapterUse) (a : AdapterUse) (left : ℕ)
          → item_total (xs ++ (a ∷ [])) ≤ item_total xs + suc left
      one_more xs a left = omega (arith, item_total-snoc xs a)

      step :
          (xs : List AdapterUse) (a : AdapterUse) (left : ℕ)
          → item_total (xs ++ (a ∷ [])) + left ≤ item_total xs + suc left
      step xs a left = omega (arith, item_total-snoc xs a)

  collect_planned-Within :
      (py : Builtins) (p : AcquisitionPlan) (s : Sessions)
      → Within (pos_part p.effective_max_pages) (collect_planned settings py turns worker_id p s).0
  unfolding collect_planned item_total
  collect_planned-Within py p s = elim (Option-cases (get "query" p.request.params)) [
    | inl h ↦ rw (h, collect_planned) tt
    | inr (q, h) ↦ elim (Option-cases (get "product" p.request.params)) [
      | inl k ↦ rw (h, collect_planned, k) tt
      | inr (d, k) ↦
          rw (h, collect_planned, k)
            (Within-mono _ _ _ (none_used (pos_part p.effective_max_pages))
              (collect_pages-Within (page_request py p q d) (pos_part p.effective_max_pages) 0 _ s))
    ]
  ]
    where
      none_used : (k : ℕ) → item_total {A = AdapterUse} [] + k ≤ k
      none_used k = omega arith

  module _ (py : Builtins) (catalog : CapabilityCatalog) (routes : List CapabilityRoute) (n : ℕ)
      (h : All (λ c. c.maximum_pages ≡ some (pos n)) routes) where
    plan_task-Within :
        (task : TaskLease)
        → Ok (λ p. pos_part p.effective_max_pages ≤ n) (plan_task settings py catalog routes task)
    unfolding plan_task
    plan_task-Within task =
        Ok-step (λ p. pos_part p.effective_max_pages ≤ n)
          (request_from_task py task.task_type (task_payload settings task)
            (some (correlation task)))
          (plan py catalog routes)
          (λ request e. Ok-returns (plan py catalog routes request) (λ p e'.
            small p
              (plan-Sound (λ c. c.maximum_pages ≡ some (pos n)) py catalog routes h request p e')))
      where
        small :
            {request : CapabilityRequest} (p : AcquisitionPlan)
            → Sound (λ c. c.maximum_pages ≡ some (pos n)) py catalog request p
            → pos_part p.effective_max_pages ≤ n
        small p w =
            within p.effective_max_pages
              (subst (λ m. is_above m p.effective_max_pages ≡ false) w.given w.max_pages)
          where
            within : (m : ℤ) → is_above (some (pos n)) m ≡ false → pos_part m ≤ n
            within m e = ground arith

    after_plan-Within :
        (m : Result AcquisitionPlan) (s : Sessions)
        → Ok (λ p. pos_part p.effective_max_pages ≤ n) m
        → Within n (after_plan settings py turns worker_id m s).0
    unfolding after_plan
    after_plan-Within (err f) s k = tt
    after_plan-Within (ok p) s k = elim (Bool-cases (is_legacy p.route.executor_kind)) [
      | inl y ↦ rw y (Within-mono _ _ _ k (collect_planned-Within py p s))
      | inr f ↦ rw f tt
    ]

    -- Where every route allows n pages, `collect` uses an adapter for at most n pages: whatever the
    -- task asks for, and whatever cursors the adapters answer.
    pub collect_bounded :
        (task : TaskLease) (s : Sessions) (got : Collected)
        → (collect settings py catalog routes turns task worker_id s).0 ≡ returned got
        → item_total got.adapters ≤ n
    unfolding collect
    collect_bounded task s got e =
        let bound : Within n (returned got) = subst (Within n) e (
          after_plan-Within (plan_task settings py catalog routes task) s
            (plan_task-Within task)) in
        bound
