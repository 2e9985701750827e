-- ===== src/Capabilities.antt =====
-- xingestion/capabilities.py: the contracts of capabilities, the requests for them and the routes
-- that can carry them out. A mapping is a list of pairs or a JSON object, in its order.
pub mod Values
pub mod Validate
pub mod Planner
pub mod FromTask
pub mod Payload
use xingestionv.Prelude.{
  ℕ, ℤ, pos, ltb_ℤ, Bool, true, false, not, ◌&&◌, ◌||◌, Option, none, some, List, [], ◌∷◌, String,
  str_eq, if◌then◌else◌,
}
use xingestionv.Json.{Json, Fields}
use xingestionv.Schema.{Result, ok, err, capability_contract_error, unsupported_capability}

-- What the sources use of Python on texts and values: `date.fromisoformat` accepts a text, `int` of
-- a text, `str` of a value that is not a text, and `str.strip`.
pub record Builtins : Type 0 where
  pub is_date : String → Bool
  pub int_of_text : String → Option ℤ
  pub text_of_value : Json → String
  pub strip : String → String

pub data ExecutorKind : Type 0 where
  legacy_source_adapter xrev_protocol_runtime fixture : ExecutorKind

pub record InputFieldSpec : Type 0 where
  pub value_type : String
  pub required : Bool
  pub nullable : Bool
  pub default : Json
  pub has_default : Bool
  pub enum : List Json
  pub minimum : Option ℤ
  pub maximum : Option ℤ
  pub minimum_length : Option ℕ
  pub value_format : Option String

-- `output` and the required fidelity and provenance are not read by the planner.
pub record CapabilitySpec : Type 0 where
  pub capability_id : String
  pub contract_version : String
  pub description : String
  pub inputs : List (String × InputFieldSpec)
  pub pagination : Fields

pub record CapabilityRequest : Type 0 where
  pub capability_id : String
  pub capability_contract_version : String
  pub params : Fields
  pub cursor : Option String
  pub page_size : Option ℤ
  pub correlation_id : Option String

-- CapabilityRequest.__post_init__
unfoldable pub post_init : CapabilityRequest → Result CapabilityRequest
post_init r =
    if str_eq r.capability_id "" || str_eq r.capability_contract_version ""
    then err capability_contract_error
    else elim r.page_size [
      | none ↦ ok r
      | some n ↦ if ltb_ℤ (pos 0) n then ok r else err capability_contract_error
    ]

pub record CapabilityRoute : Type 0 where
  pub route_id : String
  pub capability_id : String
  pub capability_contract_version : String
  pub executor_kind : ExecutorKind
  pub priority : ℤ
  pub enabled : Bool
  pub supported_products : List String
  pub supported_inputs : List String
  pub maximum_page_size : Option ℤ
  pub maximum_pages : Option ℤ
  pub protocol_release_manifest : Option String

abbrev pub is_positive : Option ℤ → Bool
is_positive none = true
is_positive (some n) = ltb_ℤ (pos 0) n

abbrev pub has_manifest : CapabilityRoute → Bool
has_manifest r = elim r.executor_kind [
  | xrev_protocol_runtime ↦ elim r.protocol_release_manifest [
    | none ↦ false
    | some m ↦ not (str_eq m "")
  ]
  | _ ↦ true
]

-- CapabilityRoute.__post_init__
unfoldable pub new_route : CapabilityRoute → Result CapabilityRoute
new_route r =
    if str_eq r.route_id ""
      || (str_eq r.capability_id "" || str_eq r.capability_contract_version "")
    then err capability_contract_error
    else if not (is_positive r.maximum_page_size && is_positive r.maximum_pages)
    then err capability_contract_error
    else if has_manifest r
    then ok r
    else err capability_contract_error

pub record AcquisitionPlan : Type 0 where
  pub request : CapabilityRequest
  pub route : CapabilityRoute
  pub effective_page_size : ℤ
  pub effective_max_pages : ℤ
  pub warnings : List String

pub record CapabilityCatalog : Type 0 where
  pub specs : List CapabilitySpec
  pub artifact_schema_version : String

-- CapabilityCatalog.require
abbrev pub is_contract : String → String → CapabilitySpec → Bool
is_contract capability_id contract_version spec =
    str_eq spec.capability_id capability_id && str_eq spec.contract_version contract_version

unfoldable pub require_from : List CapabilitySpec → String → String → Result CapabilitySpec
require_from [] capability_id contract_version = err unsupported_capability
require_from (spec ∷ specs) capability_id contract_version =
    let rest = require_from specs capability_id contract_version in
    if is_contract capability_id contract_version spec then ok spec else rest

-- The loop of CapabilityCatalog.__init__, which refuses a second contract under one key.
unfoldable pub has_duplicate : List CapabilitySpec → Bool
unfolding require_from
has_duplicate [] = false
has_duplicate (spec ∷ specs) =
    let rest = has_duplicate specs in
    elim (require_from specs spec.capability_id spec.contract_version) [
      | ok other ↦ true
      | err f ↦ rest
    ]

-- CapabilityCatalog.__init__
unfoldable pub new_catalog : List CapabilitySpec → String → Result CapabilityCatalog
unfolding has_duplicate
new_catalog [] artifact_schema_version = err capability_contract_error
new_catalog (spec ∷ specs) artifact_schema_version =
    if str_eq artifact_schema_version "" || has_duplicate (spec ∷ specs)
    then err capability_contract_error
    else ok (record { specs = spec ∷ specs; artifact_schema_version = artifact_schema_version })
