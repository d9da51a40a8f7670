-- ===== src/Gate/Effects.antt =====
-- The job and the run that `create_tool_run_job` writes.
use matrix_scanner_saas.Prelude.{
  ℕ, ◌≡◌, refl, sym, ap, inl, inr, Option, none, some, [], ◌∷◌, ◌++◌, arith,
}
use matrix_scanner_saas.Prelude.Results.{ok, err, Result-cases}
use matrix_scanner_saas.Json.{obj}
use matrix_scanner_saas.Redaction.{Python, redact_json}
use matrix_scanner_saas.Models.{Db, AgentJob, ToolRun, JobStatus, RunStatus}
use matrix_scanner_saas.Gate.{
  Denial, Requester, Request, Grant, authorize, new_job, new_run, enqueue, seeded,
  ensure_system_identity_tool, create_tool_run_job,
}
use matrix_scanner_saas.Gate.Authorized.{IsPermitted, IsGranted, authorize-IsGranted}

-- Seeding a tool makes no run.
pub runs-seeded :
    (request : Request) (db : Db)
    → ((seeded request db).runs ≡ db.runs) × ((seeded request db).next_run ≡ db.next_run)
unfolding seeded ensure_system_identity_tool
runs-seeded request db = ground arith

-- The job of a granted request, field by field, all but its key: pending and not yet claimed, with the
-- checked parameters, the payload and the cap of the tool.
pub record IsPending (request : Request) (granted : Grant) (job : AgentJob) : Type 0 where
  pub waits : job.status ≡ JobStatus.pending
  pub of_account : job.account_id ≡ request.account
  pub of_server : job.server_id ≡ request.server
  pub for_agent : job.agent_id ≡ granted.agent.id
  pub of_tool : job.tool_key ≡ granted.tool.key
  pub with_params : job.params ≡ granted.validated
  pub with_payload : job.execution_payload ≡ granted.payload
  pub capped : job.max_output_bytes ≡ granted.tool.command.max_output_bytes
  pub unclaimed : job.claimed_at ≡ none
  pub unlimited : job.claim_expires_at ≡ none
  pub unfinished : job.finished_at ≡ none
  pub no_result : job.result ≡ none
  pub no_error : job.error_message ≡ []

abbrev id_of : Option Requester → Option ℕ
id_of none = none
id_of (some requester) = some requester.id

-- The run of a granted request, field by field, all but its key: queued and linked to its job, with the
-- checked parameters, what the redaction leaves of them, and the caps of the tool.
pub record IsQueued (py : Python) (request : Request) (granted : Grant) (job : AgentJob)
    (run : ToolRun) : Type 0 where
  pub waits : run.status ≡ RunStatus.queued
  pub of_account : run.account_id ≡ request.account
  pub of_server : run.server_id ≡ request.server
  pub for_agent : run.agent_id ≡ granted.agent.id
  pub of_tool : run.tool_key ≡ granted.tool.key
  pub of_job : run.agent_job ≡ some job.id
  pub asked_by_user : run.requested_by ≡ id_of request.requested_by
  pub asked_as : run.requested_by_type ≡ request.requested_by_type
  pub with_params : run.params ≡ granted.validated
  pub shown_params : run.params_redacted ≡ redact_json py (obj granted.validated)
  pub limited : run.timeout_seconds ≡ granted.tool.command.timeout_seconds
  pub capped : run.max_output_bytes ≡ granted.tool.command.max_output_bytes
  pub unstarted : run.started_at ≡ none
  pub unfinished : run.finished_at ≡ none
  pub no_result : run.result_redacted ≡ none
  pub no_error : run.error_message ≡ []

new_job-IsPending :
    (request : Request) (granted : Grant) (id : ℕ)
    → IsPending request granted (new_job request granted id)
unfolding new_job
new_job-IsPending request granted id = record {
  waits = refl;
  of_account = refl;
  of_server = refl;
  for_agent = refl;
  of_tool = refl;
  with_params = refl;
  with_payload = refl;
  capped = refl;
  unclaimed = refl;
  unlimited = refl;
  unfinished = refl;
  no_result = refl;
  no_error = refl;
}

new_run-IsQueued :
    (py : Python) (request : Request) (granted : Grant) (id : ℕ) (job : AgentJob)
    → IsQueued py request granted job (new_run py request granted id job.id)
unfolding new_run
new_run-IsQueued py request granted id job = record {
  waits = refl;
  of_account = refl;
  of_server = refl;
  for_agent = refl;
  of_tool = refl;
  of_job = refl;
  asked_by_user = ground arith;
  asked_as = refl;
  with_params = refl;
  shown_params = refl;
  limited = refl;
  capped = refl;
  unstarted = refl;
  unfinished = refl;
  no_result = refl;
  no_error = refl;
}

module _ (py : Python) (now : ℕ) (request : Request) (db : Db) where
  -- A run and a job that were made.
  pub record IsCreated (run : ToolRun) (job : AgentJob) (after : Db) : Type 0 where
    pub granted : Grant
    pub permitted : IsPermitted (seeded request db) request granted.tool
    pub checked : IsGranted py now (seeded request db) request granted
    pub job_made : IsPending request granted job
    pub job_key : job.id ≡ (seeded request db).next_job
    pub run_made : IsQueued py request granted job run
    pub run_key : run.id ≡ (seeded request db).next_run
    pub job_added : after.jobs ≡ (seeded request db).jobs ++ (job ∷ [])
    pub run_added : after.runs ≡ (seeded request db).runs ++ (run ∷ [])
    pub audits_kept : after.audits ≡ (seeded request db).audits

  created_parts :
      (granted : Grant) (run : ToolRun) (job : AgentJob) (after : Db)
      → enqueue py request granted (seeded request db) ≡ ((run, job), after)
      → (job ≡ new_job request granted (seeded request db).next_job)
        × (run ≡ new_run py request granted (seeded request db).next_run job.id)
        × (after.jobs ≡ (seeded request db).jobs ++ (job ∷ []))
        × (after.runs ≡ (seeded request db).runs ++ (run ∷ []))
        × (after.audits ≡ (seeded request db).audits)
  unfolding enqueue
  created_parts granted run job after h =
      let job_made : job ≡ new_job request granted (seeded request db).next_job =
        sym (ap (λ (r : (ToolRun × AgentJob) × Db). r.0.1) h) in
      let run_made : run
          ≡ new_run py request granted (seeded request db).next_run (seeded request db).next_job =
        sym (ap (λ (r : (ToolRun × AgentJob) × Db). r.0.0) h) in
      let linked : job.id ≡ (seeded request db).next_job =
        unfold new_job in ap (λ (j : AgentJob). j.id) job_made in
      (
        job_made,
        rw linked run_made,
        rw job_made (sym (ap (λ (r : (ToolRun × AgentJob) × Db). r.1.jobs) h)),
        rw run_made (sym (ap (λ (r : (ToolRun × AgentJob) × Db). r.1.runs) h)),
        sym (ap (λ (r : (ToolRun × AgentJob) × Db). r.1.audits) h),
      )

  -- A run that `create_tool_run_job` makes passed every check of the gate. The call adds one job under the
  -- next key, which is pending, unclaimed and without a result, and has the account, server, agent and
  -- tool that were granted, the checked parameters, the payload and the output cap of the tool. It adds
  -- one run under the next key, which is queued, linked to the job and without a result, and has the
  -- same account, server, agent and tool, who asked for it, the checked parameters and what the
  -- redaction leaves of them, and the timeout and the output cap of the tool. It adds no audit row.
  pub create_tool_run_job-IsCreated :
      (run : ToolRun) (job : AgentJob) (after : Db)
      → create_tool_run_job py now request db ≡ (ok (run, job), after)
      → IsCreated run job after
  unfolding create_tool_run_job
  create_tool_run_job-IsCreated run job after h =
      elim (Result-cases (authorize py now (seeded request db) request)) [
        | inr (e, bad) ↦ absurd (ground arith)
        | inl (granted, good) ↦
            let (permitted, checked) =
              authorize-IsGranted py now (seeded request db) request granted good in
            let made : enqueue py request granted (seeded request db) ≡ ((run, job), after) =
              ground arith in
            let (job_made, run_made, job_added, run_added, audits_kept) =
              created_parts granted run job after made in
            record {
              granted = granted;
              permitted = permitted;
              checked = checked;
              job_made = rw job_made (new_job-IsPending request granted _);
              job_key = rw job_made (unfold new_job in refl);
              run_made = rw run_made (new_run-IsQueued py request granted _ job);
              run_key = rw run_made (unfold new_run in refl);
              job_added = job_added;
              run_added = run_added;
              audits_kept = audits_kept;
            }
      ]

  -- A denied request makes no run.
  pub runs-create_tool_run_job :
      (denial : Denial)
      → (create_tool_run_job py now request db).0 ≡ err denial
      → (create_tool_run_job py now request db).1.runs ≡ db.runs
  unfolding create_tool_run_job
  runs-create_tool_run_job denial h =
      elim (Result-cases (authorize py now (seeded request db) request)) [
        | inr (e, bad) ↦ rw (bad, create_tool_run_job) ((runs-seeded request db).0)
        | inl (granted, good) ↦ absurd (ground arith)
      ]
