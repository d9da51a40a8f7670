-- ===== src/Jobs.antt =====
-- The queue of agent jobs: apps/servers/services.py, `claim_next_job` and `submit_job_result`, with
-- `is_allowed_tool` of apps/servers/tool_allowlist.py and `update_tool_run_from_job` of
-- apps/tools/services.py.
--
-- Each function takes the time of its one call of `timezone.now` and returns the database that it
-- leaves. A transaction that raises leaves the database as it was. What `update_tool_run_from_job`
-- passes on to the chat requests of the run is not modelled.
pub mod Size
pub mod Claim
pub mod Submit
pub mod Lifecycle
pub mod Sample
mod Tests
use Size.{serialized_size}
use matrix_scanner_saas.Prelude.{
  ℕ, zero, suc, ◌+◌, String, Bool, true, false, not, ◌&&◌, ◌||◌, Option, none, some, List, [], ◌∷◌,
  ◌++◌, ◌==◌, ltb, leb, if◌then◌else◌, first, any, take,
}
use text.Mathlib.Text.{◌==◌ as str_eq}
use matrix_scanner_saas.Prelude.Results.{Result, ok, err}
use matrix_scanner_saas.Text.{Text, codes}
use matrix_scanner_saas.Json.{Value, or_empty}
use matrix_scanner_saas.Redaction.{Python, redact_json, redact_secrets}
use matrix_scanner_saas.Audit.{AuditResult}
use matrix_scanner_saas.Models.{
  Db, AgentJob, ToolRun, ScannerAgent, ToolDefinition, ToolPolicy, AuditEvent, JobStatus, RunStatus,
  save_job, save_run, add_audit, is_terminal, is_pending, is_claimed, is_in_progress, is_reportable,
  is_running, status_map, tool_is_enabled, is_read_only,
}

-- DEFAULT_CLAIM_EXPIRY, five minutes
abbrev pub default_claim_expiry : ℕ
default_claim_expiry = 300

-- The query of `is_allowed_tool` for one definition. The template and the policy are joined.
unfoldable pub may_be_claimed : String → ToolDefinition → Bool
may_be_claimed tool_key tool =
    str_eq tool.key tool_key
    && tool_is_enabled tool.status
    && is_read_only tool.risk_level
    && tool.template.is_active
    && (elim tool.policy [
      | none ↦ false
      | some policy ↦ policy.is_active && policy.allow_agent_run
    ])

unfoldable pub is_allowed_tool : Db → String → Bool
unfolding may_be_claimed
is_allowed_tool db tool_key =
    any (may_be_claimed tool_key) db.tools || str_eq tool_key "system_identity"

-- account=agent.account, server=agent.server, agent=agent
unfoldable pub belongs_to : ScannerAgent → AgentJob → Bool
belongs_to agent job =
    job.account_id == agent.account_id
    && job.server_id == agent.server_id
    && job.agent_id == agent.id

-- claim_expires_at__lt=now, which no row without an expiry satisfies
abbrev pub expires_before : ℕ → Option ℕ → Bool
expires_before now none = false
expires_before now (some t) = ltb t now

unfoldable pub is_claimable : ℕ → AgentJob → Bool
is_claimable now job =
    is_pending job.status || (is_claimed job.status && expires_before now job.claim_expires_at)

-- The row that the query of `claim_next_job` gives. `locked` holds of the rows that another
-- transaction has locked, which `skip_locked` passes over.
unfoldable pub next_claimable :
    (AgentJob → Bool) → ℕ → ScannerAgent → List AgentJob → Option AgentJob
unfolding belongs_to is_claimable
next_claimable locked now agent jobs =
    first (λ job. not (locked job) && belongs_to agent job && is_claimable now job) jobs

abbrev agent_event : ScannerAgent → String → AuditResult → AgentJob → AuditEvent
agent_event agent action result job = record {
  action = action;
  result = result;
  account = some agent.account_id;
  target = some job.id;
  tool_key = job.tool_key;
}

unfoldable pub rejected_job : ℕ → AgentJob → AgentJob
rejected_job now job = record job {
  status = JobStatus.rejected;
  finished_at = some now;
  error_message = codes "Tool is not allowlisted for Sprint 2.";
}

unfoldable pub claimed_job : ℕ → AgentJob → AgentJob
claimed_job now job = record job {
  status = JobStatus.claimed;
  claimed_at = some now;
  claim_expires_at = some (now + default_claim_expiry);
}

-- What `claim_next_job` does with the row that it found.
unfoldable pub take_job : ℕ → ScannerAgent → AgentJob → Db → Option AgentJob × Db
unfolding rejected_job claimed_job
take_job now agent job db =
    if not (is_allowed_tool db job.tool_key)
    then (
      none,
      add_audit (agent_event agent "agent_job.rejected_by_policy" AuditResult.denied job)
          (record db { jobs = save_job (rejected_job now job) db.jobs }),
    )
    else (
      some (claimed_job now job),
      add_audit (agent_event agent "agent_job.claimed" AuditResult.success job)
          (record db { jobs = save_job (claimed_job now job) db.jobs }),
    )

unfoldable pub claim_next_job : (AgentJob → Bool) → ℕ → ScannerAgent → Db → Option AgentJob × Db
claim_next_job locked now agent db = elim (next_claimable locked now agent db.jobs) [
  | none ↦ (none, db)
  | some job ↦ take_job now agent job db
]

pub data JobError : Type 0 where
  unknown_job already_terminal not_claimed claim_expired invalid_status output_too_large : JobError

abbrev pub or_else {ℓ} : {A : Type ℓ} → Option A → Option A → Option A
or_else (some a) b = some a
or_else none b = b

abbrev pub runs_job : AgentJob → ToolRun → Bool
runs_job job run = elim run.agent_job [ none ↦ false | some id ↦ id == job.id ]

unfoldable pub timed_out_job : ℕ → AgentJob → AgentJob
timed_out_job now job = record job {
  status = JobStatus.timeout;
  finished_at = some now;
  error_message = codes "Job claim expired before result submission.";
}

unfoldable pub finished_job : ℕ → JobStatus → Value → Text → AgentJob → AgentJob
finished_job now status output error job = record job {
  status = status;
  result = some output;
  error_message = take 4000 error;
  finished_at = some now;
}

-- job.claim_expires_at and job.claim_expires_at <= now
abbrev pub claim_has_expired : ℕ → Option ℕ → Bool
claim_has_expired now none = false
claim_has_expired now (some t) = leb t now

abbrev is_success : JobStatus → AuditResult
is_success JobStatus.succeeded = AuditResult.success
is_success _ = AuditResult.failure

module _ (py : Python) where
  -- The run as `update_tool_run_from_job` leaves it.
  unfoldable pub synced_run : ℕ → AgentJob → ToolRun → ToolRun
  synced_run now job run =
      let status = status_map job.status in
      record run {
        status = status;
        result_redacted =
            some (redact_json py (or_empty (elim job.result [ none ↦ Value.null | some v ↦ v ])));
        error_message = take 4000 (redact_secrets py job.error_message);
        finished_at = job.finished_at;
        started_at =
            if is_running status then or_else run.started_at (some now) else run.started_at;
      }

  unfoldable pub update_tool_run_from_job : ℕ → AgentJob → Db → Db
  unfolding synced_run
  update_tool_run_from_job now job db = elim (first (runs_job job) db.runs) [
    | none ↦ db
    | some run ↦ record db { runs = save_run (synced_run now job run) db.runs }
  ]

  abbrev save_and_sync : ℕ → AgentJob → AuditEvent → Db → Db
  save_and_sync now job event db =
      add_audit event (update_tool_run_from_job now job (record db { jobs = save_job job db.jobs }))

  -- The branch in which the claim still holds. A reported status is `none` if it is no job status.
  unfoldable pub accept_result :
      ℕ
      → ScannerAgent
      → AgentJob
      → Option JobStatus
      → Value
      → Text
      → Db
      → Result JobError AgentJob × Db
  unfolding finished_job
  accept_result now agent job none output error db = (err invalid_status, db)
  accept_result now agent job (some status) output error db =
      if not (is_reportable status)
      then (err invalid_status, db)
      else if ltb job.max_output_bytes (serialized_size (or_empty output))
      then (err output_too_large, db)
      else (let done = finished_job now status (or_empty output) error job in
          (
            ok done,
            save_and_sync now done
                (agent_event agent "agent_job.result_received" (is_success status) job) db,
          ))

  -- What `submit_job_result` does with the row that it found.
  unfoldable pub submit_for :
      ℕ
      → ScannerAgent
      → AgentJob
      → Option JobStatus
      → Value
      → Text
      → Db
      → Result JobError AgentJob × Db
  unfolding timed_out_job
  submit_for now agent job status output error db =
      if is_terminal job.status
      then (err already_terminal, db)
      else if not (is_in_progress job.status)
      then (err not_claimed, db)
      else if claim_has_expired now job.claim_expires_at
      then (
        err claim_expired,
        save_and_sync now (timed_out_job now job)
            (agent_event agent "agent_job.claim_expired" AuditResult.failure job) db,
      )
      else accept_result now agent job status output error db

  unfoldable pub submit_job_result :
      ℕ → ScannerAgent → ℕ → Option JobStatus → Value → Text → Db → Result JobError AgentJob × Db
  unfolding belongs_to
  submit_job_result now agent job_id status output error db =
      elim (first (λ job. (job.id == job_id) && belongs_to agent job) db.jobs) [
        | none ↦ (err unknown_job, db)
        | some job ↦ submit_for now agent job status output error db
      ]
