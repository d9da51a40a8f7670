-- ===== src/Command.antt =====
-- Command templates: apps/tools/services.py, `_render_command_arg` and `build_execution_payload`.
-- A refusal is a value here; `deny`, which writes it to the audit log and raises, is in Gate.
pub mod Laws
mod Tests
use matrix_scanner_saas.Prelude.{
  ℕ, Bool, true, false, not, ◌&&◌, ◌||◌, Option, none, some, List, [], ◌∷◌, ◌++◌, if◌then◌else◌,
  all, any, ◌≡◌,
}
use matrix_scanner_saas.Prelude.Results.{Result, ok, err, guard, ◌>>=◌, ◌>>◌}
use matrix_scanner_saas.Text.{Text, codes, text_eq, one_of, contains, replace, after_last}
use matrix_scanner_saas.Json.{
  Value, Items, Fields, null, bool, int, float, str, arr, obj, nil, cons, end, field, show_int,
  truthy,
}
use matrix_scanner_saas.Redaction.{Python, redact_secrets}
use matrix_scanner_saas.Params.{
  ParamError, not_scalar, unresolved_placeholders, blocked_token, secret_like_value,
}

pub data ExecutionType : Type 0 where
  runtime_handler command_template script_template : ExecutionType

-- ToolTemplate, as far as a run reads it.
pub record ToolTemplate : Type 0 where
  pub runtime_handler_key : Text
  pub command_argv_template : Value
  pub allowed_binaries : List Text
  pub blocked_tokens : List Text
  pub is_active : Bool

-- What a tool definition says of its command. An execution type that is no choice of the model is
-- `none`; an empty one stands for the default, so it is `some runtime_handler`.
pub record CommandSpec : Type 0 where
  pub execution_type : Option ExecutionType
  pub command_argv_template : Value
  pub allowed_binaries : List Text
  pub blocked_tokens : List Text
  pub timeout_seconds : ℕ
  pub max_output_bytes : ℕ

pub data Payload : Type 0 where
  handler : Text → Payload
  command : List Text → ℕ → ℕ → Payload

-- Why `build_execution_payload` denies.
pub data CommandDenial : Type 0 where
  script_deferred : CommandDenial
  unsupported_type : CommandDenial
  not_an_argv : CommandDenial
  bad_argument : ParamError → CommandDenial
  binary_not_allowlisted : CommandDenial

abbrev pub default_command_blocked_tokens : List Text
default_command_blocked_tokens =
    codes ";"
    ∷ codes "&&"
    ∷ codes "||"
    ∷ codes "|"
    ∷ codes ">"
    ∷ codes "<"
    ∷ codes "`"
    ∷ codes "$"
    ∷ (10 ∷ [])
    ∷ (13 ∷ [])
    ∷ []

abbrev pub lbrace_mark : Text
lbrace_mark = codes "__LBRACE__"

abbrev pub rbrace_mark : Text
rbrace_mark = codes "__RBRACE__"

-- The text that is put in for a parameter.
unfoldable pub safe_value : Value → Result ParamError Text
unfolding show_int
safe_value (bool b) = ok (if b then codes "true" else codes "false")
safe_value (str s) = ok s
safe_value (int n) = ok (show_int n)
safe_value (float r) = ok r
safe_value null = ok []
safe_value (arr xs) = err not_scalar
safe_value (obj fs) = err not_scalar

-- for key, value in params.items(): rendered = rendered.replace("{" + key + "}", safe_value)
unfoldable pub substitute : Fields → Text → Result ParamError Text
unfolding safe_value replace
substitute end rendered = ok rendered
substitute (field key value params) rendered =
    safe_value value >>= λ s. substitute params (replace rendered (b'{' ∷ (key ++ (b'}' ∷ []))) s)

unfoldable pub render_command_arg : Text → Fields → Result ParamError Text
render_command_arg arg params = do
  rendered ←
      substitute params (replace (replace arg (codes "{{") lbrace_mark) (codes "}}") rbrace_mark)
  guard (not (contains rendered (codes "{") || contains rendered (codes "}")))
      unresolved_placeholders
  ok (replace (replace rendered lbrace_mark (codes "{")) rbrace_mark (codes "}"))

-- token and token in rendered
unfoldable pub hits_token : Text → Text → Bool
unfolding contains
hits_token rendered [] = false
hits_token rendered (c ∷ token) = contains rendered (c ∷ token)

-- isinstance(template, list) and template and all(isinstance(part, str) and part for part in template)
unfoldable pub argv_parts : Items → Option (List Text)
argv_parts nil = some []
argv_parts (cons (str (c ∷ s)) xs) = elim (argv_parts xs) [
  | none ↦ none
  | some parts ↦ some ((c ∷ s) ∷ parts)
]
argv_parts (cons _ xs) = none

unfoldable pub argv_template : Value → Option (List Text)
unfolding argv_parts
argv_template (arr (cons v xs)) = argv_parts (cons v xs)
argv_template _ = none

-- xs or ys, on lists
abbrev pub or_else {ℓ} : {A : Type ℓ} → List A → List A → List A
or_else [] ys = ys
or_else (x ∷ xs) ys = x ∷ xs

-- The name of the binary without its directories, of either kind of slash.
unfoldable pub binary_name : Text → Text
unfolding after_last
binary_name binary = after_last b'\\' (after_last b'/' binary)

abbrev pub is_listed : List Text → Text → Bool
is_listed [] binary = true
is_listed (b ∷ bs) binary = one_of binary (b ∷ bs) || one_of (binary_name binary) (b ∷ bs)

module _ (py : Python) where
  -- The body of the loop over the template's parts.
  unfoldable pub check_arg : List Text → Text → Result ParamError (Unit {0})
  check_arg tokens rendered = do
    guard (not (any (hits_token rendered) tokens)) blocked_token
    guard (text_eq (redact_secrets py rendered) rendered) secret_like_value

  unfoldable pub render_argv : List Text → Fields → List Text → Result ParamError (List Text)
  render_argv tokens params [] = ok []
  render_argv tokens params (part ∷ parts) =
      let rest = render_argv tokens params parts in
      render_command_arg part params >>= λ rendered.
      check_arg tokens rendered >>= λ _. rest >>= λ argv. ok (rendered ∷ argv)

  -- What follows once the template is known to be an argv.
  unfoldable pub command_payload :
      CommandSpec → List Text → List Text → List Text → Fields → Result CommandDenial Payload
  command_payload spec tokens binaries parts params = elim (render_argv tokens params parts) [
    | err e ↦ err (bad_argument e)
    | ok [] ↦ err not_an_argv
    | ok (binary ∷ rest) ↦
        if is_listed binaries binary
        then ok (command (binary ∷ rest) spec.timeout_seconds spec.max_output_bytes)
        else err binary_not_allowlisted
  ]

  unfoldable pub template_payload :
      ToolTemplate → CommandSpec → Fields → Result CommandDenial Payload
  unfolding argv_template truthy
  template_payload template spec params =
      let tokens =
        or_else spec.blocked_tokens
          (or_else template.blocked_tokens default_command_blocked_tokens) in
      let binaries = or_else spec.allowed_binaries template.allowed_binaries in
      let chosen =
        if truthy spec.command_argv_template
        then spec.command_argv_template
        else template.command_argv_template in
      elim (argv_template chosen) [
        | none ↦ err not_an_argv
        | some parts ↦ command_payload spec tokens binaries parts params
      ]

  abbrev payload_of_type :
      Option ExecutionType → ToolTemplate → CommandSpec → Fields → Result CommandDenial Payload
  payload_of_type (some runtime_handler) template spec params =
      ok (handler template.runtime_handler_key)
  payload_of_type (some script_template) template spec params = err script_deferred
  payload_of_type (some command_template) template spec params =
      template_payload template spec params
  payload_of_type none template spec params = err unsupported_type

  unfoldable pub build_execution_payload :
      ToolTemplate → CommandSpec → Fields → Result CommandDenial Payload
  build_execution_payload template spec params =
      payload_of_type spec.execution_type template spec params
