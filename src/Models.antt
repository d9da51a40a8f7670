-- ===== src/Models.antt =====
-- The rows that the agent API, the tool policy and the job queue read and write: apps/accounts,
-- apps/servers, apps/subscriptions, apps/plans and apps/tools, their models.py.
--
-- A row that another refers to by a protected foreign key is always there, so accounts, servers and
-- plans are functions of their key. Tables that are searched are lists, the oldest row first. Times
-- are seconds on one clock. A text field that only ever holds one of the choices is an enumeration.
mod Status
pub mod Rows
pub use Status.*
use matrix_scanner_saas.Prelude.{
  ℕ, ◌+◌, String, Bool, true, false, Option, none, some, List, [], ◌∷◌, ◌++◌, ◌==◌, if◌then◌else◌,
}
use matrix_scanner_saas.Text.{Text}
use matrix_scanner_saas.Json.{Value, Fields}
use matrix_scanner_saas.Paths.{PathPolicy}
use matrix_scanner_saas.Command.{ToolTemplate, CommandSpec, Payload}
use matrix_scanner_saas.Audit.{AuditResult}

pub record Server : Type 0 where
  pub account_id : ℕ
  pub status : ServerStatus
  pub hostname : Text
  pub agent_status : Option AgentStatus
  pub last_seen_at : Option ℕ

pub record ScannerAgent : Type 0 where
  pub id : ℕ
  pub account_id : ℕ
  pub server_id : ℕ
  pub token_hash : Text
  pub status : AgentStatus
  pub agent_version : Text
  pub registered_at : Option ℕ
  pub last_seen_at : Option ℕ
  pub revoked_at : Option ℕ

pub record AgentRegistrationToken : Type 0 where
  pub account_id : ℕ
  pub server_id : ℕ
  pub token_hash : Text
  pub expires_at : ℕ
  pub used_at : Option ℕ
  pub revoked_at : Option ℕ

pub record Subscription : Type 0 where
  pub account_id : ℕ
  pub plan_id : ℕ
  pub status : SubscriptionStatus
  pub current_period_end : Option ℕ

pub record PlanTool : Type 0 where
  pub plan_id : ℕ
  pub tool_key : String
  pub is_enabled : Bool

-- An empty list of roles or of server statuses allows all of them.
pub record ToolPolicy : Type 0 where
  pub allow_customer_run : Bool
  pub allow_admin_run : Bool
  pub allow_agent_run : Bool
  pub allowed_roles : List CustomerRole
  pub allowed_server_statuses : List ServerStatus
  pub is_active : Bool

pub record ToolDefinition : Type 0 where
  pub key : String
  pub template : ToolTemplate
  pub status : ToolStatus
  pub risk_level : RiskLevel
  pub command : CommandSpec
  pub input_schema : Value
  pub default_params : Fields
  pub path_policy : PathPolicy
  pub policy : Option ToolPolicy

pub record AgentJob : Type 0 where
  pub id : ℕ
  pub account_id : ℕ
  pub server_id : ℕ
  pub agent_id : ℕ
  pub tool_key : String
  pub params : Fields
  pub status : JobStatus
  pub claimed_at : Option ℕ
  pub claim_expires_at : Option ℕ
  pub finished_at : Option ℕ
  pub result : Option Value
  pub error_message : Text
  pub max_output_bytes : ℕ
  pub execution_payload : Payload

pub record ToolRun : Type 0 where
  pub id : ℕ
  pub account_id : ℕ
  pub server_id : ℕ
  pub agent_id : ℕ
  pub tool_key : String
  pub agent_job : Option ℕ
  pub requested_by : Option ℕ
  pub requested_by_type : RequestedByType
  pub status : RunStatus
  pub params : Fields
  pub params_redacted : Value
  pub result_redacted : Option Value
  pub error_message : Text
  pub timeout_seconds : ℕ
  pub max_output_bytes : ℕ
  pub started_at : Option ℕ
  pub finished_at : Option ℕ

-- One audit row of these components, without the metadata, whose treatment is in Audit.
pub record AuditEvent : Type 0 where
  pub action : String
  pub result : AuditResult
  pub account : Option ℕ
  pub target : Option ℕ
  pub tool_key : String

pub record Db : Type 0 where
  pub accounts : ℕ → AccountStatus
  pub servers : ℕ → Server
  pub plan_active : ℕ → Bool
  -- the keys of the plans
  pub plans : List ℕ
  -- templates by their key
  pub templates : List (String × ToolTemplate)
  pub agents : List ScannerAgent
  pub registration_tokens : List AgentRegistrationToken
  pub subscriptions : List Subscription
  pub plan_tools : List PlanTool
  pub tools : List ToolDefinition
  pub jobs : List AgentJob
  pub runs : List ToolRun
  pub audits : List AuditEvent
  -- the next values of the key sequences
  pub next_agent : ℕ
  pub next_job : ℕ
  pub next_run : ℕ

-- The row of a table of functions, replaced at one key.
abbrev pub set_row {ℓ} : {A : Type ℓ} → ℕ → A → (ℕ → A) → ℕ → A
set_row key row table k = if k == key then row else table k

-- job.save(), for the row with the job's key
unfoldable pub save_job : AgentJob → List AgentJob → List AgentJob
save_job job [] = []
save_job job (j ∷ js) = (if j.id == job.id then job else j) ∷ save_job job js

unfoldable pub save_run : ToolRun → List ToolRun → List ToolRun
save_run run [] = []
save_run run (r ∷ rs) = (if r.id == run.id then run else r) ∷ save_run run rs

unfoldable pub save_agent : ScannerAgent → List ScannerAgent → List ScannerAgent
save_agent agent [] = []
save_agent agent (a ∷ rest) = (if a.id == agent.id then agent else a) ∷ save_agent agent rest

abbrev pub add_audit : AuditEvent → Db → Db
add_audit event db = record db { audits = db.audits ++ (event ∷ []) }
