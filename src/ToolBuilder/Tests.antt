-- ===== src/ToolBuilder/Tests.antt =====
-- Runs of the tool builder, and its theorems at them.
use matrix_scanner_saas.Prelude.{ℕ, false, none, [], ◌∷◌, ◌≡◌, refl}
use matrix_scanner_saas.Prelude.Results.{ok, err}
use matrix_scanner_saas.Text.{Text, codes, text_eq, one_of, contains, starts_with}
use matrix_scanner_saas.Json.{
  Value, Fields, pos, bool, int, str, obj, arr, nil, cons, end, field, get, truthy,
}
use matrix_scanner_saas.Redaction.{is_sensitive_key}
use matrix_scanner_saas.Redaction.Sample.{sample}
use matrix_scanner_saas.Models.{ToolDefinition, ToolStatus, CustomerRole, ServerStatus}
use matrix_scanner_saas.Gate.{Denial, Request, create_tool_run_job}
use matrix_scanner_saas.Gate.Sample.{office, asked_by}
use matrix_scanner_saas.ToolBuilder.{
  sanitize_fields, contains_forbidden_builder_key, has_forbidden_word, key_words,
}
use matrix_scanner_saas.ToolBuilder.Validation.{
  bad_target, no_timeout, section, has, either, in_set, field_errors, validate_builder_schema,
  execution_errors, proposal_errors, not_approved,
}
use matrix_scanner_saas.ToolBuilder.Review.{
  Builder, Columns, ProposalStatus, convert_tool_build_proposal, validate_tool_build_proposal,
  record_validation, finish_conversion, insert_tool, insert_definition, new_definition,
  new_template, new_policy, get_or_create_template,
}
use matrix_scanner_saas.ToolBuilder.Converted.{IsConverted, convert_tool_build_proposal-IsConverted}
use matrix_scanner_saas.ToolBuilder.Refused.{convert_tool_build_proposal-create_tool_run_job}
use matrix_scanner_saas.ToolBuilder.Safe.{ExecutesSafely, proposal_errors-IsSafeCommand}

abbrev text_of : Value → Text
text_of (str s) = s
text_of _ = codes "value"

abbrev number_of : Value → ℕ
number_of (int (pos n)) = n
number_of _ = 0

abbrev columns : Columns
columns = record {
  name = λ v. "disk_report";
  text = text_of;
  number = number_of;
  flag = truthy;
  texts = λ v. [];
  fields = λ v. end;
  roles = λ v. CustomerRole.owner ∷ [];
  statuses = λ v. ServerStatus.active ∷ [];
}

abbrev definition : Fields
definition =
    field (codes "template")
      (obj (
        field (codes "key") (str (codes "system_identity"))
          (field (codes "runtime_handler_key") (str (codes "system_identity")) end)))
      (field (codes "definition")
        (obj (
          field (codes "key") (str (codes "disk_report")) (
            field (codes "status") (str (codes "draft")) (
              field (codes "risk_level") (str (codes "read_only")) (
                field (codes "timeout_seconds") (int (pos 30)) (
                  field (codes "max_output_bytes") (int (pos 65536)) (
                    field (codes "blocked_path_prefixes") (arr nil) (
                      field (codes "redaction_rules") (arr (cons (str (codes "x")) nil)) end))))))))
        end)

abbrev policy : Fields
policy = field (codes "is_active") (bool false) end

abbrev approved_proposal : Builder
approved_proposal = record {
  proposal = record {
    status = ProposalStatus.approved;
    definition = definition;
    policy = policy;
    errors = [];
    converted_to = none;
  };
  reviews = [];
  tests = [];
  audits = [];
  db = office;
}

abbrev faulty_proposal : Builder
faulty_proposal = record approved_proposal {
  proposal = record approved_proposal.proposal {
    status = ProposalStatus.validation_failed;
    errors = no_timeout ∷ [];
  };
}

no_errors_found : proposal_errors sample text_of definition policy ≡ ok []
unfolding proposal_errors section truthy get text_eq has either in_set one_of
    validate_builder_schema field_errors execution_errors contains_forbidden_builder_key
    has_forbidden_word key_words
no_errors_found = refl

enabled_refused :
    (convert_tool_build_proposal columns sample text_of ToolStatus.enabled approved_proposal).0
    ≡ err bad_target
unfolding convert_tool_build_proposal
enabled_refused = refl

faulty_refused :
    (convert_tool_build_proposal columns sample text_of ToolStatus.draft faulty_proposal).0
    ≡ err not_approved
unfolding convert_tool_build_proposal
faulty_refused = refl

-- What the run below makes.
disk_report :
    (tool : ToolDefinition) × ((convert_tool_build_proposal columns sample text_of ToolStatus.draft
        approved_proposal).0
      ≡ ok tool)
unfolding convert_tool_build_proposal validate_tool_build_proposal record_validation
    finish_conversion insert_tool insert_definition new_definition new_policy get_or_create_template
    new_template sanitize_fields proposal_errors section truthy get text_eq has either in_set one_of
    validate_builder_schema field_errors execution_errors contains_forbidden_builder_key
    has_forbidden_word key_words is_sensitive_key contains starts_with
disk_report = (_, refl)

proposal_errors-IsSafeCommand_example :
    (template : Fields) × (parts : Fields) × (section definition (codes "template") ≡ ok template)
    × (section definition (codes "definition") ≡ ok parts)
    × ExecutesSafely sample text_of template parts
proposal_errors-IsSafeCommand_example =
    proposal_errors-IsSafeCommand sample text_of definition policy no_errors_found

convert_tool_build_proposal-IsConverted_example :
    IsConverted sample text_of ToolStatus.draft approved_proposal disk_report.0
      (convert_tool_build_proposal columns sample text_of ToolStatus.draft approved_proposal).1
convert_tool_build_proposal-IsConverted_example =
    convert_tool_build_proposal-IsConverted columns sample text_of ToolStatus.draft
      approved_proposal disk_report.0 disk_report.1

abbrev request : Request
request = record (asked_by CustomerRole.owner) { tool_key = "disk_report" }

disk_report_key : request.tool_key ≡ disk_report.0.key
unfolding disk_report
disk_report_key = refl

convert_tool_build_proposal-create_tool_run_job_example :
    (denial : Denial) × ((create_tool_run_job sample 20 request
        (convert_tool_build_proposal columns sample text_of ToolStatus.draft
          approved_proposal).1.db).0
      ≡ err denial)
convert_tool_build_proposal-create_tool_run_job_example =
    convert_tool_build_proposal-create_tool_run_job columns sample text_of ToolStatus.draft
      approved_proposal disk_report.0 20 request disk_report.1 disk_report_key
