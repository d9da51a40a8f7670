-- ===== src/Params/Tests.antt =====
-- A run of the validation, and its theorem at that input.
use matrix_scanner_saas.Prelude.{◌≡◌, refl, [], ◌∷◌}
use matrix_scanner_saas.Prelude.Results.{ok, err}
use matrix_scanner_saas.Text.{Text, codes}
use matrix_scanner_saas.Json.{
  Value, pos, int, str, arr, obj, nil, cons, end, field, get, or_empty, truthy,
}
use matrix_scanner_saas.Paths.{canonicalize_path}
use matrix_scanner_saas.Params.{
  Validated, unknown_params, missing_params, validate_params, validate_object, validate_fields,
  fields_of, required_of, all_keys, check_param, check_expected, check_type, type_test, spec_type,
  is_str,
}
use matrix_scanner_saas.Params.Laws.{Accepted, validate_params-Accepted}

abbrev typed_as : Text → Value
typed_as name = obj (field (codes "type") (str name) end)

abbrev schema : Value
schema = obj (
    field (codes "fields")
      (obj (
        field (codes "path") (typed_as (codes "path"))
          (field (codes "lines") (typed_as (codes "integer")) end)))
      (field (codes "required") (arr (cons (str (codes "path")) nil)) end))

abbrev params : Value
params = obj (field (codes "path") (str (codes "/var/log/../log/a")) end)

abbrev kept : Validated
kept =
    (field (codes "path") (str (codes "/var/log/a")) end, (codes "path", codes "/var/log/a") ∷ [])

params_valid : validate_params schema params ≡ ok kept
unfolding validate_params validate_object validate_fields fields_of required_of all_keys check_param
    check_expected check_type type_test spec_type or_empty truthy get canonicalize_path is_str
params_valid = refl

unknown_refused :
    validate_params schema (obj (field (codes "mode") (int (pos 1)) end)) ≡ err unknown_params
unfolding validate_params validate_object fields_of required_of all_keys or_empty truthy get
unknown_refused = refl

missing_refused : validate_params schema (obj end) ≡ err missing_params
unfolding validate_params validate_object fields_of required_of all_keys or_empty truthy get
missing_refused = refl

validate_params-Accepted_example : Accepted schema params kept
validate_params-Accepted_example = validate_params-Accepted schema params kept params_valid
