-- ===== src/Command/Tests.antt =====
-- A run of the payload builder, and the theorems at that input.
use matrix_scanner_saas.Prelude.{◌≡◌, refl, some, List, [], ◌∷◌, true}
use matrix_scanner_saas.Prelude.Results.{ok, err}
use matrix_scanner_saas.Text.{Text, codes, contains, replace, text_eq, one_of}
use matrix_scanner_saas.Json.{Fields, str, arr, nil, cons, end, field}
use matrix_scanner_saas.Redaction.{redact_secrets, apply_pattern, apply_patterns}
use matrix_scanner_saas.Redaction.Sample.{sample}
use matrix_scanner_saas.Params.{blocked_token}
use matrix_scanner_saas.Command.{
  command_template, ToolTemplate, CommandSpec, command, bad_argument, build_execution_payload,
  template_payload, command_payload, render_argv, check_arg, render_command_arg, substitute,
  safe_value, hits_token, binary_name,
}
use matrix_scanner_saas.Command.Laws.{IsSafeCommand, build_execution_payload-IsSafeCommand}

abbrev template : ToolTemplate
template = record {
  runtime_handler_key = [];
  command_argv_template = arr (
      cons (str (codes "/bin/systemctl"))
        (cons (str (codes "status")) (cons (str (codes "{unit}")) nil)));
  allowed_binaries = codes "systemctl" ∷ [];
  blocked_tokens = [];
  is_active = true;
}

abbrev spec : CommandSpec
spec = record {
  execution_type = some command_template;
  command_argv_template = arr nil;
  allowed_binaries = [];
  blocked_tokens = [];
  timeout_seconds = 30;
  max_output_bytes = 65536;
}

abbrev unit : Text → Fields
unit name = field (codes "unit") (str name) end

abbrev built : List Text
built = codes "/bin/systemctl" ∷ codes "status" ∷ codes "nginx" ∷ []

status_built :
    build_execution_payload sample template spec (unit (codes "nginx"))
    ≡ ok (command built 30 65536)
unfolding build_execution_payload template_payload command_payload render_argv check_arg
    render_command_arg substitute safe_value hits_token binary_name contains replace text_eq one_of
    redact_secrets apply_pattern apply_patterns
status_built = refl

semicolon_denied :
    build_execution_payload sample template spec (unit (codes "nginx; id"))
    ≡ err (bad_argument blocked_token)
unfolding build_execution_payload template_payload command_payload render_argv check_arg
    render_command_arg substitute safe_value hits_token contains replace text_eq redact_secrets
    apply_pattern apply_patterns
semicolon_denied = refl

build_execution_payload-IsSafeCommand_example : IsSafeCommand sample template spec built 30 65536
build_execution_payload-IsSafeCommand_example =
    build_execution_payload-IsSafeCommand sample template spec (unit (codes "nginx")) built 30 65536
      status_built
