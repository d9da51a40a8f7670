-- ===== src/Jobs/Sample.antt =====
-- A small queue for the runs: the office of the gate's sample with one pending job of the system
-- identity, its run, and no tool definition.
use matrix_scanner_saas.Prelude.{none, some, [], ◌∷◌}
use matrix_scanner_saas.Text.{codes}
use matrix_scanner_saas.Json.{obj, end}
use matrix_scanner_saas.Command.{handler}
use matrix_scanner_saas.Models.{Db, AgentJob, ToolRun, JobStatus, RunStatus, RequestedByType}
use matrix_scanner_saas.Gate.Sample.{office}

abbrev pub job : AgentJob
job = record {
  id = 1;
  account_id = 1;
  server_id = 1;
  agent_id = 1;
  tool_key = "system_identity";
  params = end;
  status = JobStatus.pending;
  claimed_at = none;
  claim_expires_at = none;
  finished_at = none;
  result = none;
  error_message = [];
  max_output_bytes = 16;
  execution_payload = handler (codes "system_identity");
}

abbrev pub run : ToolRun
run = record {
  id = 1;
  account_id = 1;
  server_id = 1;
  agent_id = 1;
  tool_key = "system_identity";
  agent_job = some 1;
  requested_by = none;
  requested_by_type = RequestedByType.system;
  status = RunStatus.queued;
  params = end;
  params_redacted = obj end;
  result_redacted = none;
  error_message = [];
  timeout_seconds = 30;
  max_output_bytes = 16;
  started_at = none;
  finished_at = none;
}

abbrev pub queue : Db
queue = record office { jobs = job ∷ []; runs = run ∷ []; next_job = 2; next_run = 2 }

-- The same job for a tool that no definition names.
abbrev pub stale : AgentJob
stale = record job { tool_key = "disk_usage" }

abbrev pub stale_queue : Db
stale_queue = record queue { jobs = stale ∷ [] }
