-- ===== src/Baseline/Setup.antt =====
-- The rows of the baseline tools: `ensure_tool` and `ensure_baseline_tools` of apps/tools/setup.py, called
-- as the baseline scan calls them, which connects no plan and resets no row.
use matrix_scanner_saas.Prelude.{
  ℕ, String, true, false, Option, none, some, List, [], ◌∷◌, ◌++◌, if◌then◌else◌, first, map,
}
use text.Mathlib.Text.{◌==◌ as str_eq}
use matrix_scanner_saas.Text.{codes}
use matrix_scanner_saas.Json.{obj, arr, nil, end, field}
use matrix_scanner_saas.Command.{ToolTemplate, runtime_handler}
use matrix_scanner_saas.Models.{
  Db, ToolDefinition, ToolPolicy, ToolStatus, RiskLevel, CustomerRole, ServerStatus,
}
use matrix_scanner_saas.Gate.{find_tool}

-- What a row of BASELINE_TOOL_SPECS says of the size of a run.
pub record ToolSpec : Type 0 where
  pub key : String
  pub timeout_seconds : ℕ
  pub max_output_bytes : ℕ

abbrev spec : String → ℕ → ℕ → ToolSpec
spec key timeout cap = record { key = key; timeout_seconds = timeout; max_output_bytes = cap }

abbrev pub baseline_tool_specs : List ToolSpec
baseline_tool_specs =
    spec "system_identity" 30 65536
    ∷ spec "services_status" 30 65536
    ∷ spec "panel_detector" 30 65536
    ∷ spec "cpanel_domain_scanner" 45 262144
    ∷ spec "application_discovery" 45 65536
    ∷ spec "laravel_discovery" 45 65536
    ∷ spec "log_sources_discovery" 30 65536
    ∷ spec "webroot_risk_checker" 30 65536
    ∷ []

abbrev template_of : ToolSpec → ToolTemplate
template_of s = record {
  runtime_handler_key = codes s.key;
  command_argv_template = arr nil;
  allowed_binaries = [];
  blocked_tokens = [];
  is_active = true;
}

abbrev default_policy : ToolPolicy
default_policy = record {
  allow_customer_run = true;
  allow_admin_run = true;
  allow_agent_run = true;
  allowed_roles = CustomerRole.owner ∷ CustomerRole.operator ∷ [];
  allowed_server_statuses = ServerStatus.active ∷ [];
  is_active = true;
}

abbrev definition_of : ToolSpec → ToolTemplate → ToolDefinition
definition_of s template = record {
  key = s.key;
  template = template;
  status = ToolStatus.enabled;
  risk_level = RiskLevel.read_only;
  command = record {
    execution_type = some runtime_handler;
    command_argv_template = arr nil;
    allowed_binaries = [];
    blocked_tokens = [];
    timeout_seconds = s.timeout_seconds;
    max_output_bytes = s.max_output_bytes;
  };
  input_schema = obj (field (codes "fields") (obj end) end);
  default_params = end;
  path_policy = record {
    requires_path_policy = false;
    allowed_path_prefixes = [];
    blocked_path_prefixes = codes "/etc/shadow" ∷ codes "/root" ∷ codes "/home/*/.ssh" ∷ [];
  };
  policy = some default_policy;
}

-- ToolPolicy.objects.get_or_create, for the definition of this key
abbrev with_policy : String → ToolDefinition → ToolDefinition
with_policy key tool =
    if str_eq tool.key key
    then elim tool.policy [
      | none ↦ record tool { policy = some default_policy }
      | some policy ↦ tool
    ]
    else tool

abbrev find_template : Db → String → Option (String × ToolTemplate)
find_template db key = first (λ (t : String × ToolTemplate). str_eq t.0 key) db.templates

abbrev chosen_template : ToolSpec → Db → ToolTemplate
chosen_template s db = elim (find_template db s.key) [ none ↦ template_of s | some (key, t) ↦ t ]

unfoldable pub ensure_tool : ToolSpec → Db → Db
ensure_tool s db =
    let template = chosen_template s db in
    record db {
      templates = elim (find_template db s.key) [
        | none ↦ db.templates ++ ((s.key, template_of s) ∷ [])
        | some row ↦ db.templates
      ];
      tools = elim (find_tool db s.key) [
        | none ↦ db.tools ++ (definition_of s template ∷ [])
        | some tool ↦ map (with_policy s.key) db.tools
      ];
    }

unfoldable pub ensure_tools : List ToolSpec → Db → Db
unfolding ensure_tool
ensure_tools [] db = db
ensure_tools (s ∷ specs) db = ensure_tools specs (ensure_tool s db)

unfoldable pub ensure_baseline_tools : Db → Db
ensure_baseline_tools db = ensure_tools baseline_tool_specs db
