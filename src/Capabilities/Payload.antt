-- ===== src/Capabilities/Payload.antt =====
-- CapabilityRequest.to_task_payload of xingestion/capabilities.py, and its way back through
-- request_from_task.
use xingestionv.Prelude.{
  ℤ, ◌≡◌, refl, false, Option, none, some, String, arith, str_eq, Bool-cases, inl, inr,
}
use xingestionv.Json.{Json, Fields, null, int, str, obj, end, field}
use xingestionv.Schema.{ok}
use xingestionv.Capabilities.{Builtins, CapabilityRequest, post_init}
use xingestionv.Capabilities.Values.{get, optional_string, optional_integer}
use xingestionv.Capabilities.FromTask.{nullable, request_from_task, capability_request}

abbrev pub nullable_int : Option ℤ → Json
nullable_int none = null
nullable_int (some n) = int n

-- CapabilityRequest.to_task_payload
unfoldable pub to_task_payload : CapabilityRequest → Fields
to_task_payload r = field "capability_id" (str r.capability_id) (
    field "capability_contract_version" (str r.capability_contract_version) (
      field "params" (obj r.params) (
        field "cursor" (nullable r.cursor) (
          field "page_size" (nullable_int r.page_size)
            (field "correlation_id" (nullable r.correlation_id) end)))))

optional_string-nullable : (o : Option String) → optional_string (nullable o) ≡ ok o
unfolding optional_string
optional_string-nullable none = refl
optional_string-nullable (some s) = refl

optional_integer-nullable : (o : Option ℤ) → optional_integer (nullable_int o) ≡ ok o
unfolding optional_integer
optional_integer-nullable none = refl
optional_integer-nullable (some n) = refl

-- What __post_init__ accepts has both names.
post_init-names :
    (r : CapabilityRequest)
    → post_init r ≡ ok r
    → (str_eq r.capability_id "" ≡ false) × (str_eq r.capability_contract_version "" ≡ false)
unfolding post_init
post_init-names r h = elim (Bool-cases (str_eq r.capability_id "")) [
  | inr e ↦ elim (Bool-cases (str_eq r.capability_contract_version "")) [
    | inr f ↦ (e, f)
    | inl f ↦ ground arith
  ]
  | inl e ↦ ground arith
]

-- A request that is valid and has a correlation id is read back from the payload of its task.
pub request_from_task-to_task_payload :
    (py : Builtins) (r : CapabilityRequest) (c : String) (other : Option String)
    → post_init r ≡ ok r
    → r.correlation_id ≡ some c
    → str_eq c "" ≡ false
    → request_from_task py "CAPABILITY_REQUEST" (to_task_payload r) other ≡ ok r
unfolding request_from_task capability_request to_task_payload get post_init
request_from_task-to_task_payload py r c other h e n =
    let (i, v) = post_init-names r h in
    rw (optional_string-nullable r.cursor, optional_integer-nullable r.page_size, e, n, i, v)
      (ground arith)
