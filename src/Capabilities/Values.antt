-- ===== src/Capabilities/Values.antt =====
-- Python's operations on JSON values: equality, truth, `int`, `str`, and the readers
-- `_optional_string`, `_optional_integer` and `_legacy_positive_integer` of capabilities.py.
use xingestionv.Prelude.{
  ℤ, pos, ltb_ℤ, eqb_ℤ, Bool, true, false, not, ◌&&◌, ◌||◌, Option, none, some, List, [], ◌∷◌,
  String, str_eq, if◌then◌else◌,
}
use xingestionv.Json.{Json, Items, Fields, null, bool, int, str, arr, obj, nil, cons, end, field}
use xingestionv.Schema.{Result, ok, err, type_error, value_error, capability_contract_error}
use xingestionv.Capabilities.{Builtins}

-- mapping.get(name)
unfoldable pub get : String → Fields → Option Json
get name end = none
get name (field n v rest) = let found = get name rest in if str_eq n name then some v else found

-- mapping.get(name, default)
abbrev pub get_or : String → Json → Fields → Json
get_or name d fields = elim (get name fields) [ none ↦ d | some v ↦ v ]

-- payload[name] = value, on a mapping with or without the name
unfoldable pub set : String → Json → Fields → Fields
set name v end = field name v end
set name v (field n w rest) =
    let changed = set name v rest in if str_eq n name then field n v rest else field n w changed

-- payload.setdefault(name, value)
abbrev pub set_default : String → Json → Fields → Fields
set_default name v fields = elim (get name fields) [ none ↦ set name v fields | some w ↦ fields ]

unfoldable pub has_name : String → List String → Bool
has_name name [] = false
has_name name (n ∷ names) = let rest = has_name name names in if str_eq n name then true else rest

abbrev pub bool_int : Bool → ℤ
bool_int true = pos 1
bool_int false = pos 0

-- a == b, where one of them is a text, a number, a Boolean or None. Python's True is its 1.
abbrev pub eq_scalar : Json → Json → Bool
eq_scalar (str s) (str t) = str_eq s t
eq_scalar (int a) (int b) = eqb_ℤ a b
eq_scalar (int a) (bool b) = eqb_ℤ a (bool_int b)
eq_scalar (bool a) (int b) = eqb_ℤ (bool_int a) b
eq_scalar (bool a) (bool b) = eqb_ℤ (bool_int a) (bool_int b)
eq_scalar null null = true
eq_scalar _ _ = false

unfoldable mutual
  -- a == b of a default and a value that was read from it or is a scalar: there the order of an
  -- object's fields makes no difference.
  pub eq_json : Json → Json → Bool
  eq_json (arr a) (arr b) = eq_items a b
  eq_json (obj a) (obj b) = eq_fields a b
  eq_json a b = eq_scalar a b

  pub eq_items : Items → Items → Bool
  eq_items nil nil = true
  eq_items (cons a r) (cons b s) = eq_json a b && eq_items r s
  eq_items _ _ = false

  pub eq_fields : Fields → Fields → Bool
  eq_fields end end = true
  eq_fields (field m a r) (field n b s) = str_eq m n && (eq_json a b && eq_fields r s)
  eq_fields _ _ = false

-- value in enum, of a text, a number or a Boolean
unfoldable pub in_enum : Json → List Json → Bool
in_enum v [] = false
in_enum v (e ∷ es) = eq_scalar v e || in_enum v es

-- bool(value)
abbrev pub is_truthy : Json → Bool
is_truthy null = false
is_truthy (bool b) = b
is_truthy (int n) = not (eqb_ℤ n (pos 0))
is_truthy (str s) = not (str_eq s "")
is_truthy (arr nil) = false
is_truthy (arr (cons v vs)) = true
is_truthy (obj end) = false
is_truthy (obj (field n v fs)) = true

-- str(value)
abbrev pub to_text : Builtins → Json → String
to_text py (str s) = s
to_text py v = py.text_of_value v

-- int(value)
abbrev pub to_int : Builtins → Json → Result ℤ
to_int py (int n) = ok n
to_int py (bool b) = ok (bool_int b)
to_int py (str s) = elim (py.int_of_text s) [ none ↦ err value_error | some n ↦ ok n ]
to_int py _ = err type_error

-- str(payload.get(name) or default)
abbrev pub text_or : Builtins → String → String → Fields → String
text_or py name d fields = elim (get name fields) [
  | none ↦ d
  | some v ↦ if is_truthy v then to_text py v else d
]

-- _optional_string
unfoldable pub optional_string : Json → Result (Option String)
optional_string null = ok none
optional_string (str s) = ok (some s)
optional_string _ = err capability_contract_error

-- _optional_integer
unfoldable pub optional_integer : Json → Result (Option ℤ)
optional_integer null = ok none
optional_integer (int n) = ok (some n)
optional_integer _ = err capability_contract_error

abbrev pub positive : Result ℤ → Result ℤ
positive (ok n) = if ltb_ℤ (pos 0) n then ok n else err capability_contract_error
positive (err f) = err capability_contract_error

-- _legacy_positive_integer
unfoldable pub legacy_positive_integer : Builtins → Json → Result ℤ
legacy_positive_integer py v = positive (to_int py v)
