-- ===== src/ToolBuilder/Review.antt =====
-- The life of a proposal in apps/tools/services.py: `validate_tool_build_proposal`,
-- `review_tool_build_proposal` and `convert_tool_build_proposal`, and the tables of apps/tools/models.py
-- that they write.
--
-- The proposal's two JSON columns are objects, as the builder makes them. What Django's columns and the
-- gate make of a JSON value is the parameter Columns. A definition's key is unique, so a second one
-- raises, and the transaction leaves the tables as they were.
use matrix_scanner_saas.Prelude.{
  ℕ, String, Bool, true, false, not, ◌||◌, Option, none, some, List, [], ◌∷◌, ◌++◌, if◌then◌else◌,
  any, first,
}
use text.Mathlib.Text.{◌==◌ as str_eq}
use matrix_scanner_saas.Prelude.Results.{Result, ok, err, ◌>>=◌}
use matrix_scanner_saas.Text.{Text, codes, text_eq}
use matrix_scanner_saas.Json.{Value, Fields, bool, str, arr, obj, nil, cons, end, field, get}
use matrix_scanner_saas.Redaction.{Python}
use matrix_scanner_saas.Audit.{AuditResult}
use matrix_scanner_saas.Command.{
  ToolTemplate, ExecutionType, runtime_handler, command_template, script_template,
}
use matrix_scanner_saas.Models.{
  Db, ToolDefinition, ToolPolicy, ToolStatus, RiskLevel, CustomerRole, ServerStatus,
}
use matrix_scanner_saas.ToolBuilder.{sanitize_fields, sanitize_builder_text}
use matrix_scanner_saas.ToolBuilder.Validation.{
  ProposalError, BuildError, has_errors, not_approved, bad_target, missing_key, duplicate_key,
  proposal_errors,
}

pub data ProposalStatus : Type 0 where
  draft validation_failed pending_review approved rejected converted : ProposalStatus

pub data Decision : Type 0 where
  approved rejected needs_changes : Decision

pub record Proposal : Type 0 where
  pub status : ProposalStatus
  pub definition : Fields
  pub policy : Fields
  pub errors : List ProposalError
  -- the key of the definition that it became
  pub converted_to : Option String

-- One proposal with what is written about it, and the tables of the tools.
pub record Builder : Type 0 where
  pub proposal : Proposal
  -- the reviews with their notes, the newest first
  pub reviews : List (Decision × Text)
  -- whether each validation passed
  pub tests : List Bool
  pub audits : List (String × AuditResult)
  pub db : Db

-- What the columns of the tables make of a JSON value.
pub record Columns : Type 0 where
  pub name : Value → String
  pub text : Value → Text
  pub number : Value → ℕ
  pub flag : Value → Bool
  pub texts : Value → List Text
  pub fields : Value → Fields
  pub roles : Value → List CustomerRole
  pub statuses : Value → List ServerStatus

abbrev pub is_approved : ProposalStatus → Bool
is_approved ProposalStatus.approved = true
is_approved _ = false

abbrev pub no_errors : List ProposalError → Bool
no_errors [] = true
no_errors (e ∷ es) = false

-- audit_tool_builder
abbrev pub audit_tool_builder : String → AuditResult → Builder → Builder
audit_tool_builder action result b = record b { audits = (action, result) ∷ b.audits }

abbrev with_status : ProposalStatus → Builder → Builder
with_status status b = record b { proposal = record b.proposal { status = status } }

module _ (py : Python) (text_of : Value → Text) where
  -- The end of `validate_tool_build_proposal`, where the proposal is saved.
  unfoldable pub record_validation : List ProposalError → Builder → Builder
  record_validation errors b =
      let passed = no_errors errors in
      audit_tool_builder
        (if passed then "tool_builder.validation_passed" else "tool_builder.validation_failed")
        (if passed then AuditResult.success else AuditResult.failure)
        (record b {
          proposal = record b.proposal {
            definition = sanitize_fields py b.proposal.definition;
            policy = sanitize_fields py b.proposal.policy;
            errors = errors;
            status =
                if passed then ProposalStatus.pending_review else ProposalStatus.validation_failed;
          };
          tests = passed ∷ b.tests;
        })

  unfoldable pub validate_tool_build_proposal : Builder → Result BuildError Bool × Builder
  unfolding record_validation
  validate_tool_build_proposal b =
      elim (proposal_errors py text_of b.proposal.definition b.proposal.policy) [
        | err e ↦ (err e, b)
        | ok errors ↦ (ok (no_errors errors), record_validation errors b)
      ]

  abbrev reviewed : Decision → Builder → Result BuildError (Unit {0}) × Builder
  reviewed Decision.approved b =
      if no_errors b.proposal.errors
      then (
        ok tt,
        audit_tool_builder "tool_builder.proposal_approved" AuditResult.success
            (with_status ProposalStatus.approved b),
      )
      else (err has_errors, b)
  reviewed Decision.rejected b = (
    ok tt,
    audit_tool_builder "tool_builder.proposal_rejected" AuditResult.denied
        (with_status ProposalStatus.rejected b),
  )
  reviewed Decision.needs_changes b = (
    ok tt,
    audit_tool_builder "tool_builder.proposal_needs_changes" AuditResult.info
        (with_status ProposalStatus.pending_review b),
  )

  -- The review is written first.
  unfoldable pub review_tool_build_proposal :
      Decision → Text → Builder → Result BuildError (Unit {0}) × Builder
  review_tool_build_proposal decision notes b =
      reviewed decision
        (record b { reviews = (decision, sanitize_builder_text py 4000 notes) ∷ b.reviews })

-- d.get(key, default)
abbrev get_or : Fields → Text → Value → Value
get_or content key fallback = elim (get content key) [ none ↦ fallback | some v ↦ v ]

-- d[key]
abbrev pub required : Fields → Text → Result BuildError Value
required content key = elim (get content key) [ none ↦ err missing_key | some v ↦ ok v ]

-- data["template"] or data["definition"], of which an item is then read
abbrev pub required_section : Fields → Text → Result BuildError Fields
required_section content key = elim (get content key) [
  | some (obj fs) ↦ ok fs
  | none ↦ err missing_key
  | some _ ↦ err missing_key
]

abbrev execution_of : Text → Option ExecutionType
execution_of t =
    if text_eq t (codes "runtime_handler") || text_eq t []
    then some runtime_handler
    else if text_eq t (codes "command_template")
    then some command_template
    else if text_eq t (codes "script_template")
    then some script_template
    else none

-- default_builder_policy
abbrev default_builder_policy : Fields
default_builder_policy = field (codes "allow_customer_run") (bool false) (
    field (codes "allow_admin_run") (bool false) (
      field (codes "allow_agent_run") (bool false) (
        field (codes "requires_approved_application") (bool false) (
          field (codes "allowed_roles")
            (arr (cons (str (codes "owner")) (cons (str (codes "operator")) nil)))
            (field (codes "allowed_server_statuses") (arr (cons (str (codes "active")) nil))
              (field (codes "is_active") (bool false) end))))))

-- proposal.proposed_policy or default_builder_policy()
abbrev pub policy_or_default : Fields → Fields
policy_or_default end = default_builder_policy
policy_or_default (field k v fs) = field k v fs

-- The statuses that a conversion may give.
abbrev pub is_target : ToolStatus → Bool
is_target ToolStatus.draft = true
is_target ToolStatus.pending_review = true
is_target _ = false

abbrev empty_list : Value
empty_list = arr nil

module _ (columns : Columns) where
  -- The row that `get_or_create` makes where there is none.
  unfoldable pub new_template : Fields → ToolTemplate
  new_template template = record {
    runtime_handler_key = columns.text (get_or template (codes "runtime_handler_key") (str []));
    command_argv_template = get_or template (codes "command_argv_template") empty_list;
    allowed_binaries = columns.texts (get_or template (codes "allowed_binaries") empty_list);
    blocked_tokens = columns.texts (get_or template (codes "blocked_tokens") empty_list);
    is_active = columns.flag (get_or template (codes "is_active") (bool true));
  }

  -- get_or_create: the template of that key, and the table with it
  unfoldable pub get_or_create_template :
      String → Fields → List (String × ToolTemplate) → ToolTemplate × List (String × ToolTemplate)
  unfolding new_template
  get_or_create_template key template templates =
      elim (first (λ (t : String × ToolTemplate). str_eq t.0 key) templates) [
        | some (name, found) ↦ (found, templates)
        | none ↦ (new_template template, templates ++ ((key, new_template template) ∷ []))
      ]

  unfoldable pub new_policy : Fields → ToolPolicy
  new_policy policy = record {
    allow_customer_run = false;
    allow_admin_run = false;
    allow_agent_run = false;
    allowed_roles = columns.roles (get_or policy (codes "allowed_roles") empty_list);
    allowed_server_statuses =
        columns.statuses (get_or policy (codes "allowed_server_statuses") empty_list);
    is_active = false;
  }

  unfoldable pub new_definition :
      String → ToolTemplate → ToolStatus → Value → Value → Fields → Fields → ToolDefinition
  unfolding new_policy
  new_definition key template status timeout cap definition policy = record {
    key = key;
    template = template;
    status = status;
    risk_level = RiskLevel.read_only;
    command = record {
      execution_type = execution_of (
          columns.text
            (get_or definition (codes "execution_type") (str (codes "runtime_handler"))));
      command_argv_template = get_or definition (codes "command_argv_template") empty_list;
      allowed_binaries = columns.texts (get_or definition (codes "allowed_binaries") empty_list);
      blocked_tokens = columns.texts (get_or definition (codes "blocked_tokens") empty_list);
      timeout_seconds = columns.number timeout;
      max_output_bytes = columns.number cap;
    };
    input_schema = get_or definition (codes "input_schema") (obj end);
    default_params = columns.fields (get_or definition (codes "default_params") (obj end));
    path_policy = record {
      requires_path_policy =
          columns.flag (get_or definition (codes "requires_path_policy") (bool false));
      allowed_path_prefixes =
          columns.texts (get_or definition (codes "allowed_path_prefixes") empty_list);
      blocked_path_prefixes =
          columns.texts (get_or definition (codes "blocked_path_prefixes") empty_list);
    };
    policy = some (new_policy policy);
  }

  -- The definition's row, unless its key is taken.
  unfoldable pub insert_definition :
      ToolDefinition → List (String × ToolTemplate) → Db → Result BuildError (ToolDefinition × Db)
  insert_definition tool templates db =
      if any (λ (t : ToolDefinition). str_eq t.key tool.key) db.tools
      then err duplicate_key
      else ok (tool, record db { templates = templates; tools = db.tools ++ (tool ∷ []) })

  -- The transaction of a conversion.
  unfoldable pub insert_tool :
      ToolStatus → Fields → Fields → Fields → Db → Result BuildError (ToolDefinition × Db)
  unfolding get_or_create_template new_definition insert_definition
  insert_tool status template definition policy db = do
    template_key ← required template (codes "key")
    key ← required definition (codes "key")
    timeout ← required definition (codes "timeout_seconds")
    cap ← required definition (codes "max_output_bytes")
    let row = get_or_create_template (columns.name template_key) template db.templates
    insert_definition (new_definition (columns.name key) row.0 status timeout cap definition policy)
        row.1 db

  abbrev pub inserted_tool : ToolStatus → Proposal → Db → Result BuildError (ToolDefinition × Db)
  inserted_tool status proposal db =
      required_section proposal.definition (codes "template") >>= λ template.
      required_section proposal.definition (codes "definition") >>= λ definition.
      insert_tool status template definition (policy_or_default proposal.policy) db

  unfoldable pub finish_conversion :
      Result BuildError (ToolDefinition × Db) → Builder → Result BuildError ToolDefinition × Builder
  finish_conversion (err e) b = (err e, b)
  finish_conversion (ok (tool, db)) b = (
    ok tool,
    audit_tool_builder "tool_builder.proposal_converted" AuditResult.success (record b {
      db = db;
      proposal = record b.proposal {
        converted_to = some tool.key;
        status = ProposalStatus.converted;
      };
    }),
  )

  module _ (py : Python) (text_of : Value → Text) where
    abbrev convert_validated :
        ToolStatus → Result BuildError Bool → Builder → Result BuildError ToolDefinition × Builder
    convert_validated target (err e) b = (err e, b)
    convert_validated target (ok false) b = (err BuildError.validation_failed, b)
    convert_validated target (ok true) b =
        finish_conversion (inserted_tool target b.proposal b.db) b

    unfoldable pub convert_tool_build_proposal :
        ToolStatus → Builder → Result BuildError ToolDefinition × Builder
    unfolding validate_tool_build_proposal finish_conversion
    convert_tool_build_proposal target b =
        if not (is_approved b.proposal.status)
        then (err not_approved, b)
        else if not (is_target target)
        then (err bad_target, b)
        else (let validated = validate_tool_build_proposal py text_of b in
            convert_validated target validated.0 validated.1)
