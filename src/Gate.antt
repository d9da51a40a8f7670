-- ===== src/Gate.antt =====
-- The tool policy gate: apps/tools/services.py, `create_tool_run_job`, `active_subscription_for` and
-- `deny`, and `ensure_system_identity_tool` of apps/tools/setup.py, which it calls.
--
-- Every refusal goes through `deny`, which writes one audit row and raises, so the checks are a
-- function `authorize` that names the refusal, and `create_tool_run_job` writes the row.
pub mod Accounted
pub mod Authorized
pub mod Effects
pub mod Sample
mod Tests
use matrix_scanner_saas.Prelude.{
  ℕ, zero, suc, ◌+◌, String, Bool, true, false, not, ◌&&◌, ◌||◌, Option, none, some, List, [], ◌∷◌,
  ◌++◌, ◌==◌, ltb, leb, if◌then◌else◌, first, any, take, map,
}
use text.Mathlib.Text.{◌==◌ as str_eq}
use matrix_scanner_saas.Prelude.Results.{Result, ok, err, guard, ◌>>=◌, ◌>>◌}
use matrix_scanner_saas.Text.{Text, codes}
use matrix_scanner_saas.Json.{Value, Fields, null, arr, nil, obj, end, field, merge}
use matrix_scanner_saas.Redaction.{Python, redact_json}
use matrix_scanner_saas.Audit.{AuditResult}
use matrix_scanner_saas.Paths.{PathPolicy, validate_path_policy}
use matrix_scanner_saas.Params.{ParamError, Validated, validate_params, bad_path, on_path}
use matrix_scanner_saas.Command.{
  ToolTemplate, CommandSpec, CommandDenial, Payload, runtime_handler, build_execution_payload,
}
use matrix_scanner_saas.Models.{
  Db, Server, ScannerAgent, Subscription, PlanTool, ToolPolicy, ToolDefinition, AgentJob, ToolRun,
  AuditEvent, ServerStatus, ToolStatus, RiskLevel, JobStatus, RunStatus, CustomerRole,
  RequestedByType, tool_is_enabled, is_read_only, subscription_is_active, add_audit,
}
use matrix_scanner_saas.Agents.{is_active_for_api}

-- The user on whose behalf a run is made, with the customer role if there is one.
pub record Requester : Type 0 where
  pub id : ℕ
  pub role : Option CustomerRole

pub data Denial : Type 0 where
  foreign_server not_registered template_inactive not_enabled not_read_only policy_missing : Denial
  policy_inactive admin_refused system_refused customer_refused role_refused status_refused : Denial
  no_subscription not_in_plan no_agent agent_inactive : Denial
  bad_params : ParamError → Denial
  bad_command : CommandDenial → Denial

abbrev pub role_eq : CustomerRole → CustomerRole → Bool
role_eq CustomerRole.owner CustomerRole.owner = true
role_eq CustomerRole.operator CustomerRole.operator = true
role_eq CustomerRole.viewer CustomerRole.viewer = true
role_eq _ _ = false

abbrev pub server_status_eq : ServerStatus → ServerStatus → Bool
server_status_eq ServerStatus.pending ServerStatus.pending = true
server_status_eq ServerStatus.active ServerStatus.active = true
server_status_eq ServerStatus.offline ServerStatus.offline = true
server_status_eq ServerStatus.archived ServerStatus.archived = true
server_status_eq _ _ = false

-- .order_by("-created_at").first(): the last row that passes the test
unfoldable pub newest {ℓ} : {A : Type ℓ} → (A → Bool) → List A → Option A
newest p [] = none
newest p (x ∷ xs) = elim (newest p xs) [ some y ↦ some y | none ↦ if p x then some x else none ]

-- The filter that both queries of `active_subscription_for` share.
abbrev pub is_running_for : Db → ℕ → Subscription → Bool
is_running_for db account subscription =
    (subscription.account_id == account)
    && subscription_is_active subscription.status
    && db.plan_active subscription.plan_id

abbrev pub open_ended : Subscription → Bool
open_ended subscription = elim subscription.current_period_end [ none ↦ true | some t ↦ false ]

abbrev pub ends_after : ℕ → Subscription → Bool
ends_after now subscription = elim subscription.current_period_end [
  | none ↦ false
  | some t ↦ ltb now t
]

unfoldable pub active_subscription_for : ℕ → Db → ℕ → Option Subscription
unfolding newest
active_subscription_for now db account =
    elim (newest (λ s. is_running_for db account s && open_ended s) db.subscriptions) [
      | some subscription ↦ some subscription
      | none ↦ newest (λ s. is_running_for db account s && ends_after now s) db.subscriptions
    ]

unfoldable pub in_plan : Db → ℕ → String → Bool
in_plan db plan tool_key =
    any
      (λ (row : PlanTool). (row.plan_id == plan) && str_eq row.tool_key tool_key && row.is_enabled)
      db.plan_tools

abbrev pub has_role : List CustomerRole → Option Requester → Bool
has_role roles none = false
has_role roles (some requester) = elim requester.role [
  | none ↦ false
  | some role ↦ any (role_eq role) roles
]

-- if policy.allowed_roles and (not requested_by or requested_by.role not in policy.allowed_roles)
unfoldable pub role_allowed : List CustomerRole → Option Requester → Bool
role_allowed [] requested_by = true
role_allowed (role ∷ roles) requested_by = has_role (role ∷ roles) requested_by

unfoldable pub status_allowed : List ServerStatus → ServerStatus → Bool
status_allowed [] status = true
status_allowed (s ∷ statuses) status = any (server_status_eq status) (s ∷ statuses)

-- The three checks of the kind of requester.
unfoldable pub requester_allowed :
    ToolPolicy → RequestedByType → Option Requester → Result Denial (Unit {0})
requester_allowed policy RequestedByType.admin requested_by =
    guard policy.allow_admin_run admin_refused
requester_allowed policy RequestedByType.system requested_by =
    guard policy.allow_agent_run system_refused
requester_allowed policy RequestedByType.user requested_by = do
  guard policy.allow_customer_run customer_refused
  guard (role_allowed policy.allowed_roles requested_by) role_refused

abbrev pub present {ℓ κ} : {A : Type ℓ} {E : Type κ} → E → Option A → Result E A
present e none = err e
present e (some a) = ok a

abbrev pub as_params {ℓ} : {A : Type ℓ} → Result ParamError A → Result Denial A
as_params (ok a) = ok a
as_params (err e) = err (bad_params e)

abbrev pub as_command {ℓ} : {A : Type ℓ} → Result CommandDenial A → Result Denial A
as_command (ok a) = ok a
as_command (err e) = err (bad_command e)

abbrev paths_of : List (Text × Text) → List Text
paths_of [] = []
paths_of ((name, path) ∷ rest) = path ∷ paths_of rest

-- validate_params and then validate_path_policy
unfoldable pub checked_params : ToolDefinition → Fields → Result ParamError Validated
checked_params tool params = do
  validated ← validate_params tool.input_schema (obj (merge tool.default_params params))
  on_path (validate_path_policy tool.path_policy (paths_of validated.1))
  ok validated

-- What a run needs, once it is authorised.
pub record Grant : Type 0 where
  pub tool : ToolDefinition
  pub validated : Fields
  pub agent : ScannerAgent
  pub payload : Payload

-- The arguments of `create_tool_run_job`.
pub record Request : Type 0 where
  pub account : ℕ
  pub server : ℕ
  pub tool_key : String
  pub params : Fields
  pub requested_by : Option Requester
  pub requested_by_type : RequestedByType

abbrev pub find_tool : Db → String → Option ToolDefinition
find_tool db tool_key = first (λ (tool : ToolDefinition). str_eq tool.key tool_key) db.tools

abbrev pub find_agent : Db → ℕ → ℕ → Option ScannerAgent
find_agent db server account =
    first (λ (agent : ScannerAgent). (agent.server_id == server) && (agent.account_id == account))
      db.agents

-- The checks on the definition and its policy.
unfoldable pub check_tool : Db → Request → ToolDefinition → ToolPolicy → Result Denial (Unit {0})
check_tool db request tool policy = do
  guard policy.is_active policy_inactive
  requester_allowed policy request.requested_by_type request.requested_by
  guard (status_allowed policy.allowed_server_statuses (db.servers request.server).status)
      status_refused

unfoldable pub new_job : Request → Grant → ℕ → AgentJob
new_job request granted id = record {
  id = id;
  account_id = request.account;
  server_id = request.server;
  agent_id = granted.agent.id;
  tool_key = granted.tool.key;
  params = granted.validated;
  status = JobStatus.pending;
  claimed_at = none;
  claim_expires_at = none;
  finished_at = none;
  result = none;
  error_message = [];
  max_output_bytes = granted.tool.command.max_output_bytes;
  execution_payload = granted.payload;
}

module _ (py : Python) where
  -- The checks that follow the policy's.
  unfoldable pub grant : ℕ → Db → Request → ToolDefinition → Result Denial Grant
  grant now db request tool = do
    subscription ← present no_subscription (active_subscription_for now db request.account)
    guard (in_plan db subscription.plan_id tool.key) not_in_plan
    validated ← as_params (checked_params tool request.params)
    agent ← present no_agent (find_agent db request.server request.account)
    guard (is_active_for_api db agent) agent_inactive
    payload ← as_command (build_execution_payload py tool.template tool.command validated.0)
    ok (record { tool = tool; validated = validated.0; agent = agent; payload = payload })

  unfoldable pub authorize : ℕ → Db → Request → Result Denial Grant
  authorize now db request = do
    guard ((db.servers request.server).account_id == request.account) foreign_server
    tool ← present not_registered (find_tool db request.tool_key)
    guard tool.template.is_active template_inactive
    guard (tool_is_enabled tool.status) not_enabled
    guard (is_read_only tool.risk_level) not_read_only
    policy ← present policy_missing tool.policy
    check_tool db request tool policy
    grant now db request tool

  -- The run as the transaction leaves it: created as pending, and then linked to its job and queued.
  unfoldable pub new_run : Request → Grant → ℕ → ℕ → ToolRun
  new_run request granted id job_id = record {
    id = id;
    account_id = request.account;
    server_id = request.server;
    agent_id = granted.agent.id;
    tool_key = granted.tool.key;
    agent_job = some job_id;
    requested_by = elim request.requested_by [ none ↦ none | some requester ↦ some requester.id ];
    requested_by_type = request.requested_by_type;
    status = RunStatus.queued;
    params = granted.validated;
    params_redacted = redact_json py (obj granted.validated);
    result_redacted = none;
    error_message = [];
    timeout_seconds = granted.tool.command.timeout_seconds;
    max_output_bytes = granted.tool.command.max_output_bytes;
    started_at = none;
    finished_at = none;
  }

  unfoldable pub enqueue : Request → Grant → Db → (ToolRun × AgentJob) × Db
  unfolding new_job new_run
  enqueue request granted db =
      let job = new_job request granted db.next_job in
      let run = new_run request granted db.next_run db.next_job in
      (
        (run, job),
        record db {
          jobs = db.jobs ++ (job ∷ []);
          runs = db.runs ++ (run ∷ []);
          next_job = suc db.next_job;
          next_run = suc db.next_run;
        },
      )

-- audit_policy_denied
abbrev pub denial_event : Request → AuditEvent
denial_event request = record {
  action = "tool_policy.denied";
  result = AuditResult.denied;
  account = some request.account;
  target = none;
  tool_key = request.tool_key;
}

abbrev system_identity : String
system_identity = "system_identity"

abbrev identity_template : ToolTemplate
identity_template = record {
  runtime_handler_key = codes "system_identity";
  command_argv_template = arr nil;
  allowed_binaries = [];
  blocked_tokens = [];
  is_active = true;
}

-- The rows that `ensure_tool` creates for the system identity.
abbrev identity_tool : ToolTemplate → ToolDefinition
identity_tool template = record {
  key = system_identity;
  template = template;
  status = ToolStatus.enabled;
  risk_level = RiskLevel.read_only;
  command = record {
    execution_type = some runtime_handler;
    command_argv_template = arr nil;
    allowed_binaries = [];
    blocked_tokens = [];
    timeout_seconds = 30;
    max_output_bytes = 65536;
  };
  input_schema = obj (field (codes "fields") (obj end) end);
  default_params = end;
  path_policy = record {
    requires_path_policy = false;
    allowed_path_prefixes = [];
    blocked_path_prefixes = codes "/etc/shadow" ∷ codes "/root" ∷ codes "/home/*/.ssh" ∷ [];
  };
  policy = some (record {
    allow_customer_run = true;
    allow_admin_run = true;
    allow_agent_run = true;
    allowed_roles = CustomerRole.owner ∷ CustomerRole.operator ∷ [];
    allowed_server_statuses = ServerStatus.active ∷ [];
    is_active = true;
  });
}

-- One row of PlanTool for each active plan.
unfoldable pub connect_plans : (ℕ → Bool) → List ℕ → String → List PlanTool
connect_plans active [] tool_key = []
connect_plans active (plan ∷ plans) tool_key =
    let rest = connect_plans active plans tool_key in
    if active plan
    then record { plan_id = plan; tool_key = tool_key; is_enabled = true } ∷ rest
    else rest

-- ensure_system_identity_tool, which is called where no definition has that key: an existing template
-- of that key is taken, and there can be no policy or plan row of the definition yet.
unfoldable pub ensure_system_identity_tool : Db → Db
unfolding connect_plans
ensure_system_identity_tool db =
    elim (first (λ (t : String × ToolTemplate). str_eq t.0 system_identity) db.templates) [
      | some (key, template) ↦ record db {
        tools = db.tools ++ (identity_tool template ∷ []);
        plan_tools = db.plan_tools ++ connect_plans db.plan_active db.plans system_identity;
      }
      | none ↦ record db {
        templates = db.templates ++ ((system_identity, identity_template) ∷ []);
        tools = db.tools ++ (identity_tool identity_template ∷ []);
        plan_tools = db.plan_tools ++ connect_plans db.plan_active db.plans system_identity;
      }
    ]

abbrev is_missing {ℓ} : {A : Type ℓ} → Option A → Bool
is_missing none = true
is_missing (some a) = false

-- The database that the checks read.
unfoldable pub seeded : Request → Db → Db
seeded request db =
    if str_eq request.tool_key system_identity && is_missing (find_tool db system_identity)
    then ensure_system_identity_tool db
    else db

module _ (py : Python) where
  abbrev decide_run : Result Denial Grant → Request → Db → Result Denial (ToolRun × AgentJob) × Db
  decide_run (err denial) request db = (err denial, add_audit (denial_event request) db)
  decide_run (ok granted) request db =
      let (made, after) = enqueue py request granted db in (ok made, after)

  unfoldable pub create_tool_run_job : ℕ → Request → Db → Result Denial (ToolRun × AgentJob) × Db
  create_tool_run_job now request db =
      decide_run (authorize py now (seeded request db) request) request (seeded request db)
