-- ===== src/Jobs/Lifecycle/Abandoned.antt =====
-- The job that `claim_next_job` refuses, and its run, under the calls that follow.
use matrix_scanner_saas.Prelude.{
  ℕ, ◌<◌, ◌≡◌, refl, Bool, true, false, List, [], ◌∷◌, All, All-map, some,
}
use matrix_scanner_saas.Text.{Text, codes}
use matrix_scanner_saas.Redaction.{Python}
use matrix_scanner_saas.Models.{Db, AgentJob, ToolRun, ScannerAgent, JobStatus}
use matrix_scanner_saas.Models.Rows.{save_job_same}
use matrix_scanner_saas.Jobs.{
  is_allowed_tool, next_claimable, take_job, rejected_job, claim_next_job,
}
use matrix_scanner_saas.Jobs.Lifecycle.{
  Event, claim, submit, request_run, heartbeat, register, step, run_events,
}
use matrix_scanner_saas.Jobs.Lifecycle.Settled.{step-IsSettled}
use matrix_scanner_saas.Models.Rows.{has_job, has_run, first-has_job}
use matrix_scanner_saas.Jobs.Claim.{offered}
use matrix_scanner_saas.Jobs.Lifecycle.Present.{IsPresent, claim-IsPresent, run_events-IsPresent}
use matrix_scanner_saas.Jobs.Lifecycle.Untold.{
  IsAbandoned, KeepsRun, kept, claim-KeepsRun, submit-KeepsRun, request-KeepsRun,
  heartbeat-KeepsRun, runs-register_agent,
}

-- What holds of a pending job and its run before the claim that refuses the job.
pub record IsWaiting (job : AgentJob) (run : ToolRun) (db : Db) : Type 0 where
  pub job_allotted : job.id < db.next_job
  pub linked : run.agent_job ≡ some job.id
  pub only : All (λ r. r.id ≡ run.id → r ≡ run) db.runs
  pub allotted : run.id < db.next_run
  pub there : has_run run.id db.runs ≡ true

refused-IsAbandoned :
    (locked : AgentJob → Bool) (now : ℕ) (agent : ScannerAgent) (job : AgentJob) (run : ToolRun)
    (db : Db)
    → IsWaiting job run db
    → next_claimable locked now agent db.jobs ≡ some job
    → is_allowed_tool db job.tool_key ≡ false
    → IsAbandoned (rejected_job now job) run (claim_next_job locked now agent db).1
unfolding claim_next_job take_job
refused-IsAbandoned locked now agent job run db w found refused =
    rw (found, claim_next_job)
      (rw refused (record {
        settled = record {
          ended = unfold rejected_job in refl;
          only = save_job_same (rejected_job now job) db.jobs;
          allotted = unfold rejected_job in w.job_allotted;
        };
        linked = unfold rejected_job in w.linked;
        only = w.only;
        allotted = w.allotted;
      }))

module _ (py : Python) (hash_token : Text → Text) (job : AgentJob) (run : ToolRun) where
  step-KeepsRun :
      (event : Event) (db : Db)
      → IsAbandoned job run db
      → KeepsRun run (step py hash_token event db)
  unfolding step
  step-KeepsRun (claim locked now agent) db h = claim-KeepsRun job run db h locked now agent
  step-KeepsRun (submit now agent job_id status output error) db h =
      submit-KeepsRun job run db h py now agent job_id status output error
  step-KeepsRun (request_run now request) db h =
      request-KeepsRun py run now request db (kept job run db h)
  step-KeepsRun (heartbeat now agent version) db h =
      heartbeat-KeepsRun run now agent version db (kept job run db h)
  step-KeepsRun (register now raw hostname version fresh) db h =
      let (runs, next) = runs-register_agent hash_token now raw hostname version fresh db in
      (rw runs h.only, rw next h.allotted)

  step-IsAbandoned :
      (event : Event) (db : Db)
      → IsAbandoned job run db
      → IsAbandoned job run (step py hash_token event db)
  step-IsAbandoned event db h =
      let (only, allotted) = step-KeepsRun event db h in
      record {
        settled = step-IsSettled py hash_token job event db h.settled;
        linked = h.linked;
        only = only;
        allotted = allotted;
      }

  -- The run of a job that has ended is never changed again: if every row with the key of the job is
  -- the job, which is in a terminal status, every row with the key of the run is the run, the run is
  -- linked to the job, and the next keys are larger than both keys, then all of that still holds after
  -- any sequence of claims, submissions, run requests, heartbeats and registrations.
  pub run_events-IsAbandoned :
      (events : List Event) (db : Db)
      → IsAbandoned job run db
      → IsAbandoned job run (run_events py hash_token events db)
  unfolding run_events
  run_events-IsAbandoned [] db h = h
  run_events-IsAbandoned (event ∷ events) db h =
      run_events-IsAbandoned events (step py hash_token event db) (step-IsAbandoned event db h)

-- The row as the refusal leaves it: rejected at that time, and all else as in `job`.
pub record IsRejected (now : ℕ) (job ended : AgentJob) : Type 0 where
  pub rejects : ended.status ≡ JobStatus.rejected
  pub ends : ended.finished_at ≡ some now
  pub keeps_error : ended.error_message ≡ codes "Tool is not allowlisted for Sprint 2."
  pub others : ended ≡ record job {
    status = ended.status;
    finished_at = ended.finished_at;
    error_message = ended.error_message;
  }

-- In `db` the job is there and rejected, and the run is there and as before.
pub record IsForgotten (now : ℕ) (job : AgentJob) (run : ToolRun) (db : Db) : Type 0 where
  pub rejected : All (λ j. j.id ≡ job.id → IsRejected now job j) db.jobs
  pub untold : All (λ r. r.id ≡ run.id → r ≡ run) db.runs
  pub present : IsPresent job.id run.id db

rejected_job-IsRejected : (now : ℕ) (job : AgentJob) → IsRejected now job (rejected_job now job)
unfolding rejected_job
rejected_job-IsRejected now job = record {
  rejects = refl;
  ends = refl;
  keeps_error = refl;
  others = refl;
}

IsAbandoned-IsForgotten :
    (now : ℕ) (job : AgentJob) (run : ToolRun) (db : Db)
    → IsAbandoned (rejected_job now job) run db
    → IsPresent job.id run.id db
    → IsForgotten now job run db
IsAbandoned-IsForgotten now job run db h there = record {
  rejected =
      All-map (λ j. j.id ≡ job.id → j ≡ rejected_job now job)
        (λ j. j.id ≡ job.id → IsRejected now job j) db.jobs
        (λ j is_job e. rw (is_job e) (rejected_job-IsRejected now job))
        (unfold rejected_job in h.settled.only);
  untold = h.only;
  present = there;
}

-- A job that `claim_next_job` finds for a tool that is no longer allowed ends as rejected, with the time
-- of the refusal and its text, and its run stays in every field as it was, so queued if it was queued,
-- whatever calls follow: both are still in their tables, every row with the key of the job is the job
-- with its status, time and error replaced, and every row with the key of the run is the run. Before,
-- the run is in its table and linked to the job, every row with the key of the run is the run, and the
-- next keys are larger than both keys.
pub claim_next_job-run_events :
    (py : Python) (hash_token : Text → Text) (job : AgentJob) (run : ToolRun)
    (locked : AgentJob → Bool) (now : ℕ) (agent : ScannerAgent) (db : Db) (events : List Event)
    → IsWaiting job run db
    → next_claimable locked now agent db.jobs ≡ some job
    → is_allowed_tool db job.tool_key ≡ false
    → IsForgotten now job run
        (run_events py hash_token events (claim_next_job locked now agent db).1)
claim_next_job-run_events py hash_token job run locked now agent db events w found refused =
    let in_table : has_job job.id db.jobs ≡ true =
      first-has_job (offered locked now agent) job db.jobs (unfold next_claimable in found) in
    let claimed : Db = (claim_next_job locked now agent db).1 in
    IsAbandoned-IsForgotten now job run (run_events py hash_token events claimed)
      (run_events-IsAbandoned py hash_token (rejected_job now job) run events claimed
        (refused-IsAbandoned locked now agent job run db w found refused))
      (run_events-IsPresent py hash_token job.id run.id events claimed (
        claim-IsPresent job.id run.id db (record { job_there = in_table; run_there = w.there })
          locked now agent))
