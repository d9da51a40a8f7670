-- ===== src/Jobs/Submit.antt =====
-- What `submit_job_result` accepts, what it stores, and what a refusal leaves alone.
use matrix_scanner_saas.Prelude.{
  ℕ, ◌≤◌, ◌≡◌, ◌≢◌, refl, sym, ◌∙◌, ap, inl, inr, true, false, ◌&&◌, ◌==◌, Bool-cases, Option-cases,
  first, take, Option, some, none, arith, ltb,
}
use matrix_scanner_saas.Prelude.First.{FirstAt, first-FirstAt, first_passes}
use matrix_scanner_saas.Prelude.Results.{Result, ok, err}
use matrix_scanner_saas.Text.{Text}
use matrix_scanner_saas.Json.{Value, or_empty}
use matrix_scanner_saas.Redaction.{Python, redact_json, redact_secrets}
use matrix_scanner_saas.Models.{
  Db, AgentJob, ToolRun, ScannerAgent, JobStatus, RunStatus, save_job, is_terminal, is_in_progress,
  is_reportable, is_running, status_map,
}
use matrix_scanner_saas.Models.Rows.{IsSaved, first-save_run, save_job-IsSaved}
use matrix_scanner_saas.Jobs.Size.{serialized_size}
use matrix_scanner_saas.Jobs.{
  JobError, claim_expired, belongs_to, runs_job, synced_run, update_tool_run_from_job, finished_job,
  claim_has_expired, accept_result, submit_for, submit_job_result,
}

-- The row as an accepted result leaves it: these four fields are new, and all others as in `job`.
pub record IsFinished (now : ℕ) (reported : JobStatus) (output : Value) (error : Text)
    (job done : AgentJob) : Type 0 where
  pub reports : done.status ≡ reported
  pub keeps_output : done.result ≡ some output
  pub keeps_error : done.error_message ≡ take 4000 error
  pub ends : done.finished_at ≡ some now
  pub others : done ≡ record job {
    status = done.status;
    result = done.result;
    error_message = done.error_message;
    finished_at = done.finished_at;
  }

finished_job-IsFinished :
    (now : ℕ) (reported : JobStatus) (output : Value) (error : Text) (job : AgentJob)
    → IsFinished now reported output error job (finished_job now reported output error job)
unfolding finished_job
finished_job-IsFinished now reported output error job = record {
  reports = refl;
  keeps_output = refl;
  keeps_error = refl;
  ends = refl;
  others = refl;
}

-- The run as an accepted result leaves it: these four fields are new, and all others as in `run`.
pub record IsTold (py : Python) (now : ℕ) (reported : JobStatus) (output : Value) (error : Text)
    (run told : ToolRun) : Type 0 where
  pub succeeds : reported ≡ JobStatus.succeeded → told.status ≡ RunStatus.succeeded
  pub fails : reported ≡ JobStatus.failed → told.status ≡ RunStatus.failed
  pub rejects : reported ≡ JobStatus.rejected → told.status ≡ RunStatus.rejected
  pub times_out : reported ≡ JobStatus.timeout → told.status ≡ RunStatus.timeout
  pub keeps_result : told.result_redacted ≡ some (redact_json py output)
  pub keeps_error : told.error_message ≡ take 4000 (redact_secrets py (take 4000 error))
  pub ends : told.finished_at ≡ some now
  pub others : told ≡ record run {
    status = told.status;
    result_redacted = told.result_redacted;
    error_message = told.error_message;
    finished_at = told.finished_at;
  }

module _ (py : Python) (now : ℕ) (agent : ScannerAgent) where
  -- `job` is the row that a submission was accepted for, `done` the row that was stored.
  pub record IsAccepted (job_id : ℕ) (status : Option JobStatus) (output : Value) (error : Text)
      (db after : Db) (done : AgentJob) : Type 0 where
    pub job : AgentJob
    pub reported : JobStatus
    pub row : FirstAt (λ j. (j.id == job_id) && belongs_to agent j) job db.jobs
    pub names_status : status ≡ some reported
    pub in_progress : is_in_progress job.status ≡ true
    pub claim_holds : claim_has_expired now job.claim_expires_at ≡ false
    pub may_report : is_reportable reported ≡ true
    pub fits : serialized_size (or_empty output) ≤ job.max_output_bytes
    pub result : IsFinished now reported (or_empty output) error job done
    pub saved : IsSaved done db.jobs after.jobs

  jobs-update_tool_run_from_job :
      (job : AgentJob) (db : Db) → (update_tool_run_from_job py now job db).jobs ≡ db.jobs
  unfolding update_tool_run_from_job
  jobs-update_tool_run_from_job job db = ground arith

  synced_found :
      (job : AgentJob) (db : Db) (run : ToolRun)
      → first (runs_job job) db.runs ≡ some run
      → first (runs_job job) (update_tool_run_from_job py now job db).runs
        ≡ some (synced_run py now job run)
  unfolding update_tool_run_from_job
  synced_found job db run found =
      rw (found, update_tool_run_from_job)
        (first-save_run (runs_job job) run (synced_run py now job run) db.runs
          (unfold synced_run in refl)
          (unfold synced_run in first_passes (runs_job job) db.runs run found) found)

  accepted_parts :
      (job done : AgentJob) (status : Option JobStatus) (output : Value) (error : Text) (db : Db)
      → (accept_result py now agent job status output error db).0 ≡ ok done
      → (reported : JobStatus) × (status ≡ some reported)
        × (is_reportable reported ≡ true)
        × (serialized_size (or_empty output) ≤ job.max_output_bytes)
        × (done ≡ finished_job now reported (or_empty output) error job)
        × ((accept_result py now agent job status output error db).1.jobs ≡ save_job done db.jobs)
        × ((accept_result py now agent job status output error db).1.runs
            ≡ (update_tool_run_from_job py now done
                (record db { jobs = save_job done db.jobs })).runs)
  unfolding accept_result
  accepted_parts job done none output error db h = absurd (ground arith)
  accepted_parts job done (some reported) output error db h =
      elim (Bool-cases (is_reportable reported)) [
        | inr bad ↦ absurd (ground arith)
        | inl good ↦
            elim (Bool-cases (ltb job.max_output_bytes (serialized_size (or_empty output)))) [
              | inl large ↦ absurd (ground arith)
              | inr small ↦
                  let made : done ≡ finished_job now reported (or_empty output) error job =
                    ground arith in
                  (
                    reported,
                    refl,
                    good,
                    ground arith,
                    made,
                    rw (made, good, small) (jobs-update_tool_run_from_job _ _),
                    rw (made, good, small),
                  )
            ]
      ]

  submit_for_open :
      (job done : AgentJob) (status : Option JobStatus) (output : Value) (error : Text) (db : Db)
      → (submit_for py now agent job status output error db).0 ≡ ok done
      → (is_in_progress job.status ≡ true)
        × (claim_has_expired now job.claim_expires_at ≡ false)
        × (submit_for py now agent job status output error db
            ≡ accept_result py now agent job status output error db)
  unfolding submit_for
  submit_for_open job done status output error db h = elim (Bool-cases (is_terminal job.status)) [
    | inl over ↦ absurd (ground arith)
    | inr open_still ↦ elim (Bool-cases (is_in_progress job.status)) [
      | inr idle ↦ absurd (ground arith)
      | inl busy ↦ elim (Bool-cases (claim_has_expired now job.claim_expires_at)) [
        | inl late ↦ absurd (ground arith)
        | inr holds ↦ (busy, holds, rw (open_still, busy, holds))
      ]
    ]
  ]

  submit_found :
      (job_id : ℕ) (done : AgentJob) (status : Option JobStatus) (output : Value) (error : Text)
      (db : Db)
      → (submit_job_result py now agent job_id status output error db).0 ≡ ok done
      → (job : AgentJob) × (first (λ (j : AgentJob). (j.id == job_id) && belongs_to agent j) db.jobs
          ≡ some job)
        × (submit_job_result py now agent job_id status output error db
            ≡ submit_for py now agent job status output error db)
  unfolding submit_job_result
  submit_found job_id done status output error db h =
      elim (Option-cases
        (first (λ (j : AgentJob). (j.id == job_id) && belongs_to agent j) db.jobs)) [
          | inl absent ↦ absurd (ground arith)
          | inr (job, found) ↦ (job, found, rw (found, submit_job_result))
        ]

  -- A result that `submit_job_result` accepts is for a row with the given key that belongs to the
  -- agent, its server and its account, that is claimed or running under a claim that has not expired.
  -- Its status is one of the four that an agent may report, and its output fits the row's cap. The row
  -- is stored with that status, the output, the first 4000 characters of the error and the time, and is
  -- otherwise as it was: under its key the table of jobs has then that row, and under any other key
  -- what it had before.
  pub submit_job_result-IsAccepted :
      (job_id : ℕ) (done : AgentJob) (status : Option JobStatus) (output : Value) (error : Text)
      (db : Db)
      → (submit_job_result py now agent job_id status output error db).0 ≡ ok done
      → IsAccepted job_id status output error db
          (submit_job_result py now agent job_id status output error db).1
          done
  submit_job_result-IsAccepted job_id done status output error db h =
      let (job, found, opened) = submit_found job_id done status output error db h in
      let h1 = ap (λ (r : Result JobError AgentJob × Db). r.0) (sym opened) ∙ h in
      let (busy, holds, accepted) = submit_for_open job done status output error db h1 in
      let h2 = ap (λ (r : Result JobError AgentJob × Db). r.0) (sym accepted) ∙ h1 in
      let (reported, names, may, fits, made, stored, synced) =
        accepted_parts job done status output error db h2 in
      record {
        job = job;
        reported = reported;
        row =
            first-FirstAt (λ (j : AgentJob). (j.id == job_id) && belongs_to agent j) db.jobs job
              found;
        names_status = names;
        in_progress = busy;
        claim_holds = holds;
        may_report = may;
        fits = fits;
        result = rw made (finished_job-IsFinished now reported (or_empty output) error job);
        saved =
            rw (opened, accepted, stored)
              (save_job-IsSaved (λ (j : AgentJob). (j.id == job_id) && belongs_to agent j) job done
                db.jobs found (rw made (unfold finished_job in refl)));
      }

  accept_result_error :
      (job : AgentJob) (status : Option JobStatus) (output : Value) (error : Text) (db : Db)
      (e : JobError)
      → (accept_result py now agent job status output error db).0 ≡ err e
      → (accept_result py now agent job status output error db).1 ≡ db
  unfolding accept_result
  accept_result_error job none output error db e h = refl
  accept_result_error job (some reported) output error db e h =
      elim (Bool-cases (is_reportable reported)) [
        | inr bad ↦ rw bad
        | inl good ↦
            elim (Bool-cases (ltb job.max_output_bytes (serialized_size (or_empty output)))) [
              | inl large ↦ rw (good, large)
              | inr small ↦ absurd (ground arith)
            ]
      ]

  -- A submission that is refused for any reason but an expired claim leaves the database as it was.
  pub submit_job_result_error :
      (job_id : ℕ) (status : Option JobStatus) (output : Value) (error : Text) (db : Db)
      (e : JobError)
      → (submit_job_result py now agent job_id status output error db).0 ≡ err e
      → e ≢ claim_expired
      → (submit_job_result py now agent job_id status output error db).1 ≡ db
  unfolding submit_job_result submit_for
  submit_job_result_error job_id status output error db e h ne =
      elim (Option-cases
        (first (λ (j : AgentJob). (j.id == job_id) && belongs_to agent j) db.jobs)) [
          | inl absent ↦ rw (absent, submit_job_result)
          | inr (job, found) ↦ elim (Bool-cases (is_terminal job.status)) [
            | inl over ↦ rw (found, submit_job_result) (rw over)
            | inr open_still ↦ elim (Bool-cases (is_in_progress job.status)) [
              | inr idle ↦ rw (found, submit_job_result) (rw (open_still, idle))
              | inl busy ↦ elim (Bool-cases (claim_has_expired now job.claim_expires_at)) [
                | inl late ↦ absurd (ne (ground arith))
                | inr holds ↦
                    rw (found, submit_job_result)
                      (rw (open_still, busy, holds)
                        (accept_result_error job status output error db e (ground arith)))
              ]
            ]
          ]
        ]

  or_empty_twice : (output : Value) → or_empty (or_empty output) ≡ or_empty output
  unfolding or_empty
  or_empty_twice output = ground arith

  idle_after :
      (reported : JobStatus)
      → is_reportable reported ≡ true
      → is_running (status_map reported) ≡ false
  idle_after reported may = ground (arith, may)

  synced_run-IsTold :
      (reported : JobStatus) (output : Value) (error : Text) (job : AgentJob) (run : ToolRun)
      → is_reportable reported ≡ true
      → IsTold py now reported
          (or_empty output)
          error
          run
          (synced_run py now (finished_job now reported (or_empty output) error job) run)
  unfolding synced_run finished_job
  synced_run-IsTold reported output error job run may = record {
    succeeds = λ e. ground arith;
    fails = λ e. ground arith;
    rejects = λ e. ground arith;
    times_out = λ e. ground arith;
    keeps_result = rw or_empty_twice refl;
    keeps_error = refl;
    ends = refl;
    others = rw (idle_after reported may) refl;
  }

  -- An accepted result reaches the tool run of the job. The reported status is one that an agent may
  -- report, and the run that is found by the job is the run that was found before with four new fields:
  -- the status of the same name, the redacted output, the time, and as the error the first 4000
  -- characters of what the redaction makes of the first 4000 characters of the reported error.
  pub submit_job_result-synced_run :
      (job_id : ℕ) (done : AgentJob) (status : Option JobStatus) (output : Value) (error : Text)
      (db : Db) (run : ToolRun)
      → (submit_job_result py now agent job_id status output error db).0 ≡ ok done
      → first (runs_job done) db.runs ≡ some run
      → (reported : JobStatus) × (told : ToolRun) × (status ≡ some reported)
        × (is_reportable reported ≡ true)
        × (first
              (runs_job done)
              (submit_job_result py now agent job_id status output error db).1.runs
            ≡ some told)
        × IsTold py now reported (or_empty output) error run told
  submit_job_result-synced_run job_id done status output error db run h has_run =
      let (job, found, opened) = submit_found job_id done status output error db h in
      let h1 = ap (λ (r : Result JobError AgentJob × Db). r.0) (sym opened) ∙ h in
      let (busy, holds, accepted) = submit_for_open job done status output error db h1 in
      let h2 = ap (λ (r : Result JobError AgentJob × Db). r.0) (sym accepted) ∙ h1 in
      let (reported, names, may, fits, made, stored, synced) =
        accepted_parts job done status output error db h2 in
      (
        reported,
        synced_run py now done run,
        names,
        may,
        rw (opened, accepted, synced)
            (synced_found done (record db { jobs = save_job done db.jobs }) run has_run),
        rw made (synced_run-IsTold reported output error job run may),
      )
