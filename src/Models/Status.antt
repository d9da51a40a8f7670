-- ===== src/Models/Status.antt =====
-- The choices of the status fields, with the sets of statuses that the code tests for.
use matrix_scanner_saas.Prelude.{Bool, true, false}

pub data AccountStatus : Type 0 where
  active suspended archived : AccountStatus

pub data ServerStatus : Type 0 where
  pending active offline archived : ServerStatus

pub data AgentStatus : Type 0 where
  pending active offline revoked : AgentStatus

pub data JobStatus : Type 0 where
  pending claimed running succeeded failed rejected timeout cancelled : JobStatus

pub data RunStatus : Type 0 where
  pending queued running succeeded failed rejected timeout cancelled : RunStatus

pub data ToolStatus : Type 0 where
  draft pending_review approved enabled disabled deprecated rejected : ToolStatus

pub data RiskLevel : Type 0 where
  read_only sensitive_read bootstrap_action write_action destructive_action : RiskLevel

pub data SubscriptionStatus : Type 0 where
  trial active past_due suspended cancelled expired : SubscriptionStatus

pub data CustomerRole : Type 0 where
  owner operator viewer : CustomerRole

pub data RequestedByType : Type 0 where
  user admin system : RequestedByType

abbrev pub account_is_active : AccountStatus → Bool
account_is_active AccountStatus.active = true
account_is_active _ = false

abbrev pub server_is_archived : ServerStatus → Bool
server_is_archived ServerStatus.archived = true
server_is_archived _ = false

abbrev pub agent_is_active : AgentStatus → Bool
agent_is_active AgentStatus.active = true
agent_is_active _ = false

abbrev pub agent_is_offline : AgentStatus → Bool
agent_is_offline AgentStatus.offline = true
agent_is_offline _ = false

abbrev pub tool_is_enabled : ToolStatus → Bool
tool_is_enabled ToolStatus.enabled = true
tool_is_enabled _ = false

abbrev pub is_read_only : RiskLevel → Bool
is_read_only RiskLevel.read_only = true
is_read_only _ = false

-- ACTIVE_SUBSCRIPTION_STATUSES
abbrev pub subscription_is_active : SubscriptionStatus → Bool
subscription_is_active SubscriptionStatus.trial = true
subscription_is_active SubscriptionStatus.active = true
subscription_is_active _ = false

-- AgentJob.TERMINAL_STATUSES
abbrev pub is_terminal : JobStatus → Bool
is_terminal JobStatus.succeeded = true
is_terminal JobStatus.failed = true
is_terminal JobStatus.rejected = true
is_terminal JobStatus.timeout = true
is_terminal JobStatus.cancelled = true
is_terminal _ = false

abbrev pub is_pending : JobStatus → Bool
is_pending JobStatus.pending = true
is_pending _ = false

abbrev pub is_claimed : JobStatus → Bool
is_claimed JobStatus.claimed = true
is_claimed _ = false

-- The statuses in which a result may be submitted.
abbrev pub is_in_progress : JobStatus → Bool
is_in_progress JobStatus.claimed = true
is_in_progress JobStatus.running = true
is_in_progress _ = false

-- The statuses that an agent may report.
abbrev pub is_reportable : JobStatus → Bool
is_reportable JobStatus.succeeded = true
is_reportable JobStatus.failed = true
is_reportable JobStatus.rejected = true
is_reportable JobStatus.timeout = true
is_reportable _ = false

abbrev pub is_running : RunStatus → Bool
is_running RunStatus.running = true
is_running _ = false

-- A tool run that will not change any more.
abbrev pub run_is_terminal : RunStatus → Bool
run_is_terminal RunStatus.succeeded = true
run_is_terminal RunStatus.failed = true
run_is_terminal RunStatus.rejected = true
run_is_terminal RunStatus.timeout = true
run_is_terminal RunStatus.cancelled = true
run_is_terminal _ = false

-- The map of `update_tool_run_from_job`.
abbrev pub status_map : JobStatus → RunStatus
status_map JobStatus.succeeded = RunStatus.succeeded
status_map JobStatus.failed = RunStatus.failed
status_map JobStatus.rejected = RunStatus.rejected
status_map JobStatus.timeout = RunStatus.timeout
status_map JobStatus.cancelled = RunStatus.cancelled
status_map JobStatus.running = RunStatus.running
status_map JobStatus.claimed = RunStatus.queued
status_map JobStatus.pending = RunStatus.queued
