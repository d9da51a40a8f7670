-- ===== src/Jobs/Lifecycle.antt =====
-- Sequences of calls of the agent API and of the policy gate, in any order.
pub mod Settled
pub mod Abandoned
pub mod Present
pub mod Untold
use matrix_scanner_saas.Prelude.{
  ℕ, suc, ◌+◌, ◌≤◌, ◌<◌, ◌≡◌, ◌≢◌, refl, sym, ◌∙◌, ap, inl, inr, Bool, true, false, not, ◌&&◌, ◌||◌,
  List, [], ◌∷◌, ◌++◌, ◌==◌, ltb, if◌then◌else◌, ==_iff, Bool-cases, Option-cases, All, All-append,
  first, any, Option, some, none, arith, String,
}
use matrix_scanner_saas.Prelude.First.{first-All, first_passes}
use matrix_scanner_saas.Prelude.Results.{Result, ok, err, Result-cases}
use matrix_scanner_saas.Text.{Text}
use matrix_scanner_saas.Json.{Value, or_empty}
use matrix_scanner_saas.Redaction.{Python}
use matrix_scanner_saas.Models.{
  Db, AgentJob, ToolRun, ScannerAgent, JobStatus, AuditEvent, add_audit, save_job, is_terminal,
  is_pending, is_claimed, is_in_progress, is_reportable,
}
use matrix_scanner_saas.Models.Rows.{save_job-All}
use matrix_scanner_saas.Agents.{register_agent, register_with, write_registration, record_heartbeat}
use matrix_scanner_saas.Gate.{
  Request, Grant, denial_event, create_tool_run_job, authorize, enqueue, new_job, seeded,
  ensure_system_identity_tool,
}
use matrix_scanner_saas.Jobs.{
  is_allowed_tool, next_claimable, take_job, rejected_job, claimed_job, claim_next_job, belongs_to,
  is_claimable, claim_has_expired, timed_out_job, finished_job, runs_job, update_tool_run_from_job,
  accept_result, submit_for, submit_job_result,
}
use matrix_scanner_saas.Jobs.Size.{serialized_size}
use matrix_scanner_saas.Jobs.Claim.{offered}

-- One call, with the time at which it is made.
pub data Event : Type 0 where
  claim : (AgentJob → Bool) → ℕ → ScannerAgent → Event
  submit : ℕ → ScannerAgent → ℕ → Option JobStatus → Value → Text → Event
  request_run : ℕ → Request → Event
  heartbeat : ℕ → ScannerAgent → Text → Event
  register : ℕ → Text → Text → Text → Text → Event

-- Every row with the key of the job is the job, which has ended; and new keys are larger.
pub record IsSettled (job : AgentJob) (db : Db) : Type 0 where
  pub ended : is_terminal job.status ≡ true
  pub only : All (λ j. j.id ≡ job.id → j ≡ job) db.jobs
  pub allotted : job.id < db.next_job

module _ (py : Python) (hash_token : Text → Text) where
  unfoldable pub step : Event → Db → Db
  step (claim locked now agent) db = (claim_next_job locked now agent db).1
  step (submit now agent job_id status output error) db =
      (submit_job_result py now agent job_id status output error db).1
  step (request_run now request) db = (create_tool_run_job py now request db).1
  step (heartbeat now agent version) db = record_heartbeat now agent version db
  step (register now raw hostname version fresh) db =
      (register_agent hash_token now raw hostname version fresh db).1

  unfoldable pub run_events : List Event → Db → Db
  run_events [] db = db
  run_events (event ∷ events) db = run_events events (step event db)
