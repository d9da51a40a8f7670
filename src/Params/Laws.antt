-- ===== src/Params/Laws.antt =====
-- What a successful `validate_params` guarantees of the parameters that it returns.
use matrix_scanner_saas.Prelude.{
  ◌≡◌, refl, sym, ◌∙◌, inl, inr, Bool, true, false, Option, none, some, List, arith, Bool-cases,
  Option-cases,
}
use matrix_scanner_saas.Prelude.Results.{ok, Result-cases}
use matrix_scanner_saas.Text.{Text, codes, text_eq}
use matrix_scanner_saas.Text.Laws.{text_eq_iff}
use matrix_scanner_saas.Json.{
  Value, Fields, null, bool, int, float, str, arr, obj, end, field, get, keys, or_empty,
}
use matrix_scanner_saas.Paths.{canonicalize_path}
use matrix_scanner_saas.Params.{
  Validated, type_test, spec_type, canonical_value, check_type, check_expected, check_param,
  add_path, validate_fields, fields_of, required_of, all_keys, validate_object, validate_params,
  is_str,
}

-- The value that was kept for a name comes from the caller's value of that name, by the check of the
-- schema's field of that name.
pub record Origin (fields params : Fields) (name : Text) (value : Value) : Type 0 where
  pub spec : Value
  pub raw : Value
  pub path : Option Text
  pub declared : get fields name ≡ some spec
  pub given : get params name ≡ some raw
  pub checked : check_param spec raw ≡ ok (value, path)

-- How the loop continues, by what the caller gave for the field.
module _ (n : Text) (spec : Value) (fs params : Fields) where
  skip_absent :
      get params n ≡ none → validate_fields (field n spec fs) params ≡ validate_fields fs params
  unfolding validate_fields
  skip_absent absent = rw (absent, validate_fields)

  keep_given :
      (raw value : Value) (path : Option Text) (others : Validated)
      → get params n ≡ some raw
      → check_param spec raw ≡ ok (value, path)
      → validate_fields fs params ≡ ok others
      → validate_fields (field n spec fs) params
        ≡ ok (field n value others.0, add_path n path others.1)
  unfolding validate_fields
  keep_given raw value path others given checked rest = ground arith

  -- A loop that succeeds at a given field has checked it, and has succeeded on the later fields.
  given_parts :
      (raw : Value) (result : Validated)
      → get params n ≡ some raw
      → validate_fields (field n spec fs) params ≡ ok result
      → (checked : Value × Option Text) × (others : Validated) × (check_param spec raw ≡ ok checked)
        × (validate_fields fs params ≡ ok others)
        × (result ≡ (field n checked.0 others.0, add_path n checked.1 others.1))
  unfolding validate_fields
  given_parts raw result given h = elim (Result-cases (check_param spec raw)) [
    | inr (e, bad) ↦ absurd (ground arith)
    | inl (checked, good) ↦ elim (Result-cases (validate_fields fs params)) [
      | inr (e, bad) ↦ absurd (ground arith)
      | inl (others, rest) ↦ (checked, others, good, rest, ground arith)
    ]
  ]

module _ (n : Text) (spec : Value) (fs params : Fields) where
  Origin-later :
      (name : Text) (value : Value)
      → text_eq n name ≡ false
      → Origin fs params name value
      → Origin (field n spec fs) params name value
  unfolding get
  Origin-later name value ne o = record {
    spec = o.spec;
    raw = o.raw;
    path = o.path;
    declared = rw ne o.declared;
    given = o.given;
    checked = o.checked;
  }

  Origin-absent :
      (name : Text) (value : Value)
      → get params n ≡ none
      → Origin fs params name value
      → Origin (field n spec fs) params name value
  Origin-absent name value absent o = elim (Bool-cases (text_eq n name)) [
    | inl same ↦ absurd (ground (arith, text_eq_iff n name, o.given))
    | inr ne ↦ Origin-later name value ne o
  ]

  Origin-here :
      (name : Text) (raw value : Value) (path : Option Text)
      → text_eq n name ≡ true
      → get params n ≡ some raw
      → check_param spec raw ≡ ok (value, path)
      → Origin (field n spec fs) params name value
  unfolding get
  Origin-here name raw value path same given checked = record {
    spec = spec;
    raw = raw;
    path = path;
    declared = rw same;
    given = rw ((text_eq_iff n name).0 same) at given;
    checked = checked;
  }

validate_fields-Origin :
    (fields params : Fields) (result : Validated) (name : Text) (value : Value)
    → validate_fields fields params ≡ ok result
    → get result.0 name ≡ some value
    → Origin fields params name value
validate_fields-Origin end params result name value h g =
    absurd (unfold validate_fields get in ground arith)
validate_fields-Origin (field n spec fs) params result name value h g =
    elim (Option-cases (get params n)) [
      | inl absent ↦ Origin-absent n spec fs params name value absent (
          validate_fields-Origin fs params result name value
            (sym (skip_absent n spec fs params absent) ∙ h) g)
      | inr (raw, given) ↦
          let (checked, others, good, rest, same) =
            given_parts n spec fs params raw result given h in
          elim (Bool-cases (text_eq n name)) [
            | inl here ↦
                Origin-here n spec fs params name raw value checked.1 here given
                  (unfold get in ground arith)
            | inr later ↦ Origin-later n spec fs params name value later (
                validate_fields-Origin fs params others name value rest
                  (unfold get in ground arith))
          ]
    ]

-- The field's spec names one of the types, and the value is of it.
pub record IsTyped (spec value : Value) : Type 0 where
  pub expected : Text
  pub test : Value → Bool
  pub named : spec_type spec ≡ ok (some expected)
  pub known : type_test expected ≡ some test
  pub passed : test value ≡ true

path_test : type_test (codes "path") ≡ some is_str
unfolding type_test
path_test = refl

canonical_value_str :
    (raw value : Value) (path : Option Text)
    → is_str raw ≡ true
    → canonical_value raw ≡ ok (value, path)
    → is_str value ≡ true
unfolding canonical_value is_str
canonical_value_str (str s) value path h e = elim (Result-cases (canonicalize_path s)) [
  | inl (p, good) ↦ ground arith
  | inr (e', bad) ↦ absurd (ground arith)
]
canonical_value_str null value path h e = cc
canonical_value_str (bool b) value path h e = cc
canonical_value_str (int n) value path h e = cc
canonical_value_str (float r) value path h e = cc
canonical_value_str (arr xs) value path h e = cc
canonical_value_str (obj fs) value path h e = cc

check_type_passed :
    (expected : Text) (test : Value → Bool) (raw value : Value) (path : Option Text)
    → type_test expected ≡ some test
    → check_type expected (some test) raw ≡ ok (value, path)
    → test value ≡ true
unfolding check_type
check_type_passed expected test raw value path known h = elim (Bool-cases (test raw)) [
  | inr bad ↦ absurd (ground arith)
  | inl good ↦ elim (Bool-cases (text_eq expected (codes "path"))) [
    | inr other ↦ ground arith
    | inl is_path ↦
        let same : expected ≡ codes "path" = (text_eq_iff expected (codes "path")).0 is_path in
        let str_test : test ≡ is_str = ground (arith, path_test) in
        rw str_test (canonical_value_str raw value path (ground arith) (ground arith))
  ]
]

check_param-IsTyped :
    (spec raw value : Value) (path : Option Text)
    → check_param spec raw ≡ ok (value, path)
    → IsTyped spec value
unfolding check_param check_expected
check_param-IsTyped spec raw value path h = elim (Result-cases (spec_type spec)) [
  | inr (e, bad) ↦ absurd (ground arith)
  | inl (none, named) ↦ absurd (ground arith)
  | inl (some expected, named) ↦ elim (Option-cases (type_test expected)) [
    | inl unknown ↦ absurd (unfold check_type in ground arith)
    | inr (test, known) ↦ record {
      expected = expected;
      test = test;
      named = named;
      known = known;
      passed = check_type_passed expected test raw value path known (ground arith);
    }
  ]
]

-- What the caller learns from a successful validation.
pub record Accepted (schema params : Value) (result : Validated) : Type 0 where
  pub fields : Fields
  pub required : List Text
  pub given : Fields
  pub fields_read : fields_of (or_empty schema) ≡ ok fields
  pub required_read : required_of (or_empty schema) ≡ ok required
  pub is_given : or_empty params ≡ obj given
  pub no_unknown : all_keys (keys given) fields ≡ true
  pub no_missing : all_keys required given ≡ true
  pub origin :
      (name : Text) (value : Value)
      → get result.0 name ≡ some value
      → Origin fields given name value
  pub typed :
      (name : Text) (value : Value)
      → get result.0 name ≡ some value
      → (spec : Value) × (get fields name ≡ some spec) × IsTyped spec value

validate_object-Accepted :
    (fields : Fields) (required : List Text) (given : Fields) (result : Validated)
    → validate_object fields required (obj given) ≡ ok result
    → (all_keys (keys given) fields ≡ true)
      × (all_keys required given ≡ true)
      × (validate_fields fields given ≡ ok result)
unfolding validate_object
validate_object-Accepted fields required given result h = (ground arith, ground arith, ground arith)

-- Validation that succeeds has read the schema, and has validated an object.
validate_params_parts :
    (schema params : Value) (result : Validated)
    → validate_params schema params ≡ ok result
    → (fields : Fields) × (required : List Text) × (fields_of (or_empty schema) ≡ ok fields)
      × (required_of (or_empty schema) ≡ ok required)
      × (validate_object fields required (or_empty params) ≡ ok result)
unfolding validate_params
validate_params_parts schema params result h = elim (Result-cases (fields_of (or_empty schema))) [
  | inr (e, bad) ↦ absurd (ground arith)
  | inl (fields, fields_read) ↦ elim (Result-cases (required_of (or_empty schema))) [
    | inr (e, bad) ↦ absurd (ground arith)
    | inl (required, required_read) ↦ (fields, required, fields_read, required_read, ground arith)
  ]
]

object_given :
    (fields : Fields) (required : List Text) (params : Value) (result : Validated)
    → validate_object fields required params ≡ ok result
    → (given : Fields) × (params ≡ obj given)
unfolding validate_object
object_given fields required (obj given) result h = (given, refl)
object_given fields required null result h = absurd (ground arith)
object_given fields required (bool b) result h = absurd (ground arith)
object_given fields required (int n) result h = absurd (ground arith)
object_given fields required (float r) result h = absurd (ground arith)
object_given fields required (str s) result h = absurd (ground arith)
object_given fields required (arr xs) result h = absurd (ground arith)

-- A successful `validate_params` had an object for its parameters, with no key that the schema does
-- not declare and with every required key; and each value that it keeps comes from the caller's value
-- of that name, has passed the check of the schema's field of that name, and is of that field's type.
pub validate_params-Accepted :
    (schema params : Value) (result : Validated)
    → validate_params schema params ≡ ok result
    → Accepted schema params result
validate_params-Accepted schema params result h =
    let (fields, required, fields_read, required_read, e) =
      validate_params_parts schema params result h in
    let (given, is_given) = object_given fields required (or_empty params) result e in
    let (no_unknown, no_missing, checked) =
      validate_object-Accepted fields required given result (rw is_given at e) in
    record {
      fields = fields;
      required = required;
      given = given;
      fields_read = fields_read;
      required_read = required_read;
      is_given = is_given;
      no_unknown = no_unknown;
      no_missing = no_missing;
      origin = λ name value g. validate_fields-Origin fields given result name value checked g;
      typed = λ name value g.
          let o = validate_fields-Origin fields given result name value checked g in
          (o.spec, o.declared, check_param-IsTyped o.spec o.raw value o.path o.checked);
    }
