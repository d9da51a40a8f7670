-- ===== src/Params.antt =====
-- Validation of tool parameters against a tool's input schema: apps/tools/validation.py,
-- `validate_params`.
--
-- Schemas and parameters are JSON. Where a schema is not of the form that the code reads (its
-- `fields` or a field's spec is no object, `required` is no list of texts) Python raises an error of
-- its own, which is `malformed` here.
pub mod Laws
mod Tests
use matrix_scanner_saas.Prelude.{
  ℕ, Bool, true, false, not, ◌&&◌, ◌||◌, Option, none, some, List, [], ◌∷◌, ◌++◌, if◌then◌else◌,
  all, any,
}
use matrix_scanner_saas.Prelude.Results.{Result, ok, err, guard, ◌>>=◌, ◌>>◌}
use matrix_scanner_saas.Text.{Text, codes, text_eq, one_of}
use matrix_scanner_saas.Json.{
  Value, Items, Fields, null, bool, int, float, str, arr, obj, nil, cons, end, field, get, keys,
  or_empty,
}
use matrix_scanner_saas.Paths.{PathError, canonicalize_path}

-- What `ToolParamValidationError` says; `bad_path` is one that the path functions raise.
pub data ParamError : Type 0 where
  not_object : ParamError
  unknown_params : ParamError
  missing_params : ParamError
  unsupported_type : ParamError
  invalid_type : ParamError
  not_scalar : ParamError
  unresolved_placeholders : ParamError
  blocked_token : ParamError
  secret_like_value : ParamError
  bad_path : PathError → ParamError
  malformed : ParamError

abbrev pub on_path {ℓ} : {A : Type ℓ} → Result PathError A → Result ParamError A
on_path (ok a) = ok a
on_path (err e) = err (bad_path e)

-- isinstance(value, python_type) for the types of PRIMITIVE_TYPES, a bool being no number
unfoldable pub is_str : Value → Bool
is_str (str s) = true
is_str _ = false

unfoldable pub is_int : Value → Bool
is_int (int n) = true
is_int _ = false

unfoldable pub is_number : Value → Bool
is_number (int n) = true
is_number (float r) = true
is_number _ = false

unfoldable pub is_bool : Value → Bool
is_bool (bool b) = true
is_bool _ = false

unfoldable pub is_object : Value → Bool
is_object (obj fs) = true
is_object _ = false

unfoldable pub is_array : Value → Bool
is_array (arr xs) = true
is_array _ = false

-- The type test that PRIMITIVE_TYPES gives for a type name; `none` for a name that is not in it.
unfoldable pub type_test : Text → Option (Value → Bool)
unfolding text_eq
type_test expected =
    if text_eq expected (codes "string")
    then some is_str
    else if text_eq expected (codes "integer")
    then some is_int
    else if text_eq expected (codes "number")
    then some is_number
    else if text_eq expected (codes "boolean")
    then some is_bool
    else if text_eq expected (codes "object")
    then some is_object
    else if text_eq expected (codes "array")
    then some is_array
    else if text_eq expected (codes "path")
    then some is_str
    else none

-- spec.get("type"): `none` where there is none or it is no text, which no type name equals
unfoldable pub spec_type : Value → Result ParamError (Option Text)
unfolding get
spec_type (obj spec) = ok (elim (get spec (codes "type")) [ some (str t) ↦ some t | _ ↦ none ])
spec_type _ = err malformed

unfoldable pub canonical_value : Value → Result ParamError (Value × Option Text)
canonical_value (str s) = on_path (canonicalize_path s) >>= λ path. ok (str path, some path)
canonical_value v = ok (v, none)

unfoldable pub check_type :
    Text → Option (Value → Bool) → Value → Result ParamError (Value × Option Text)
unfolding canonical_value text_eq
check_type expected none value = err unsupported_type
check_type expected (some test) value =
    if test value
    then (if text_eq expected (codes "path") then canonical_value value else ok (value, none))
    else err invalid_type

unfoldable pub check_expected : Option Text → Value → Result ParamError (Value × Option Text)
check_expected none value = err unsupported_type
check_expected (some expected) value = check_type expected (type_test expected) value

-- The body of the loop: the value to keep, and the canonical path if the field is a path.
unfoldable pub check_param : Value → Value → Result ParamError (Value × Option Text)
check_param spec value = spec_type spec >>= λ expected. check_expected expected value

abbrev pub Validated : Type 0
Validated = Fields × List (Text × Text)

abbrev pub add_path : Text → Option Text → List (Text × Text) → List (Text × Text)
add_path name none paths = paths
add_path name (some path) paths = (name, path) ∷ paths

-- for name, spec in fields.items(): ...
unfoldable pub validate_fields : Fields → Fields → Result ParamError Validated
validate_fields end params = ok (end, [])
validate_fields (field name spec fs) params =
    let rest = validate_fields fs params in
    elim (get params name) [
      | none ↦ rest
      | some value ↦ check_param spec value >>= λ checked.
          rest >>= λ others. ok (field name checked.0 others.0, add_path name checked.1 others.1)
    ]

unfoldable pub fields_of : Value → Result ParamError Fields
unfolding get
fields_of (obj schema) = elim (get schema (codes "fields")) [
  | none ↦ ok end
  | some (obj fs) ↦ ok fs
  | some _ ↦ err malformed
]
fields_of _ = err malformed

unfoldable pub texts_of : Items → Result ParamError (List Text)
texts_of nil = ok []
texts_of (cons (str s) xs) = texts_of xs >>= λ rest. ok (s ∷ rest)
texts_of (cons _ xs) = err malformed

unfoldable pub required_of : Value → Result ParamError (List Text)
unfolding get texts_of
required_of (obj schema) = elim (get schema (codes "required")) [
  | none ↦ ok []
  | some (arr xs) ↦ texts_of xs
  | some _ ↦ err malformed
]
required_of _ = err malformed

-- Every one of the names is a key of the object.
unfoldable pub all_keys : List Text → Fields → Bool
unfolding one_of
all_keys names fs = all (λ name. one_of name (keys fs)) names

unfoldable pub validate_object : Fields → List Text → Value → Result ParamError Validated
validate_object fields required (obj params) = do
  guard (all_keys (keys params) fields) unknown_params
  guard (all_keys required params) missing_params
  validate_fields fields params
validate_object fields required _ = err not_object

unfoldable pub validate_params : Value → Value → Result ParamError Validated
validate_params schema params = do
  fields ← fields_of (or_empty schema)
  required ← required_of (or_empty schema)
  validate_object fields required (or_empty params)
