-- ===== src/Capabilities/Validate.antt =====
-- The validation of a request against its contract: CapabilitySpec.validate_params, _validate_input
-- and CapabilityCatalog.validate of xingestion/capabilities.py.
use Prim.Native.String.{count as count_chars}
use xingestionv.Prelude.{
  ℤ, ltb, ltb_ℤ, Bool, true, false, not, ◌&&◌, ◌||◌, Option, none, some, List, [], ◌∷◌, String,
  str_eq, if◌then◌else◌,
}
use xingestionv.Json.{Json, Fields, null, bool, int, str, end, field}
use xingestionv.Schema.{Result, ok, err, ◌>>=◌, capability_contract_error}
use xingestionv.Capabilities.{
  Builtins, InputFieldSpec, CapabilitySpec, CapabilityRequest, CapabilityCatalog, post_init,
  require_from,
}
use xingestionv.Capabilities.Values.{get, in_enum, to_int}

abbrev refuse_if {ℓ} : {A : Type ℓ} → Bool → A → Result A
refuse_if b a = if b then err capability_contract_error else ok a

-- inputs[name]
unfoldable pub input_spec : String → List (String × InputFieldSpec) → Option InputFieldSpec
input_spec name [] = none
input_spec name (i ∷ inputs) =
    let rest = input_spec name inputs in if str_eq i.0 name then some i.1 else rest

-- The type that the contract asks for. A Boolean is not an integer here.
abbrev pub has_type : String → Json → Bool
has_type t (str s) = str_eq t "string"
has_type t (int n) = str_eq t "integer"
has_type t (bool b) = str_eq t "boolean"
has_type t _ = false

-- `value.strip()`, where the contract has a minimum length
abbrev pub stripped : Builtins → InputFieldSpec → String → String
stripped py spec s = elim spec.minimum_length [ none ↦ s | some n ↦ py.strip s ]

abbrev pub too_short : InputFieldSpec → String → Bool
too_short spec s = elim spec.minimum_length [ none ↦ false | some n ↦ ltb (count_chars s) n ]

abbrev pub not_date : Builtins → InputFieldSpec → String → Bool
not_date py spec s = elim spec.value_format [
  | none ↦ false
  | some f ↦ str_eq f "date" && not (py.is_date s)
]

abbrev pub is_below : Option ℤ → ℤ → Bool
is_below none n = false
is_below (some m) n = ltb_ℤ n m

abbrev pub is_above : Option ℤ → ℤ → Bool
is_above none n = false
is_above (some m) n = ltb_ℤ m n

-- The checks of _validate_input on a value of the right type.
unfoldable pub check_value : Builtins → InputFieldSpec → Json → Result Json
check_value py spec (str s) =
    let t = stripped py spec s in refuse_if (too_short spec t || not_date py spec t) (str t)
check_value py spec (int n) = refuse_if (is_below spec.minimum n || is_above spec.maximum n) (int n)
check_value py spec v = ok v

abbrev pub outside_enum : List Json → Json → Bool
outside_enum [] v = false
outside_enum (e ∷ es) v = not (in_enum v (e ∷ es))

-- _validate_input
unfoldable pub validate_input : Builtins → Json → InputFieldSpec → Result Json
unfolding check_value
validate_input py null spec = if spec.nullable then ok null else err capability_contract_error
validate_input py v spec =
    if not (has_type spec.value_type v)
    then err capability_contract_error
    else if outside_enum spec.enum v
    then err capability_contract_error
    else check_value py spec v

-- set(params) - set(inputs) is not empty
unfoldable pub has_unknown : Fields → List (String × InputFieldSpec) → Bool
unfolding input_spec
has_unknown end inputs = false
has_unknown (field n v rest) inputs =
    let more = has_unknown rest inputs in
    elim (input_spec n inputs) [ none ↦ true | some spec ↦ more ]

-- An input of the contract that the parameters do not have: its default, nothing, or a refusal.
abbrev pub absent : String → InputFieldSpec → Result Fields → Result Fields
absent name spec rest =
    if spec.has_default
    then rest >>= (λ fields. ok (field name spec.default fields))
    else if spec.required
    then err capability_contract_error
    else rest

-- The loop of validate_params over the inputs of the contract. All its refusals are the same error,
-- so the inputs after the refused one make no difference.
unfoldable pub normalized : Builtins → Fields → List (String × InputFieldSpec) → Result Fields
unfolding validate_input get
normalized py params [] = ok end
normalized py params (i ∷ inputs) =
    let rest = normalized py params inputs in
    elim (get i.0 params) [
      | none ↦ absent i.0 i.1 rest
      | some v ↦ validate_input py v i.1 >>= (λ w. rest >>= (λ fields. ok (field i.0 w fields)))
    ]

-- CapabilitySpec.validate_params
unfoldable pub validate_params : Builtins → CapabilitySpec → Fields → Result Fields
unfolding has_unknown normalized
validate_params py spec params =
    if has_unknown params spec.inputs
    then err capability_contract_error
    else normalized py params spec.inputs

-- The check of the page size in CapabilityCatalog.validate.
unfoldable pub check_page_size : Builtins → CapabilitySpec → Option ℤ → Result (Option ℤ)
unfolding get
check_page_size py spec none = ok none
check_page_size py spec (some n) = elim (get "maximum_page_size" spec.pagination) [
  | none ↦ ok (some n)
  | some m ↦ to_int py m >>= (λ maximum. refuse_if (ltb_ℤ maximum n) (some n))
]

-- CapabilityCatalog.validate
unfoldable pub validate :
    Builtins → CapabilityCatalog → CapabilityRequest → Result CapabilityRequest
unfolding require_from check_page_size validate_params post_init
validate py catalog r = do
  spec ← require_from catalog.specs r.capability_id r.capability_contract_version
  size ← check_page_size py spec r.page_size
  params ← validate_params py spec r.params
  post_init (record r { params = params; page_size = size })
