-- ===== src/Jobs/Lifecycle/Present.antt =====
-- The keys of the tables of jobs and runs, under each call of the agent API and of the gate.
use matrix_scanner_saas.Prelude.{
  ℕ, ◌≡◌, inl, inr, Bool, true, ◌&&◌, List, [], ◌∷◌, ◌==◌, ltb, Bool-cases, Option-cases, first,
  Option, some, none, arith,
}
use matrix_scanner_saas.Text.{Text}
use matrix_scanner_saas.Json.{Value, or_empty}
use matrix_scanner_saas.Redaction.{Python}
use matrix_scanner_saas.Models.{
  Db, AgentJob, ScannerAgent, JobStatus, save_job, is_terminal, is_in_progress, is_reportable,
}
use matrix_scanner_saas.Models.Rows.{
  has_job, has_run, has_job-save_job, has_run-save_run, has_job-append, has_run-append,
}
use matrix_scanner_saas.Agents.{register_agent, register_with, write_registration, record_heartbeat}
use matrix_scanner_saas.Gate.{Request, create_tool_run_job}
use matrix_scanner_saas.Gate.Accounted.{call-IsAccounted}
use matrix_scanner_saas.Jobs.{
  is_allowed_tool, next_claimable, take_job, rejected_job, claimed_job, claim_next_job, belongs_to,
  claim_has_expired, timed_out_job, finished_job, runs_job, synced_run, update_tool_run_from_job,
  accept_result, submit_for, submit_job_result,
}
use matrix_scanner_saas.Jobs.Size.{serialized_size}
use matrix_scanner_saas.Jobs.Lifecycle.{
  Event, claim, submit, request_run, heartbeat, register, step, run_events,
}

-- The tables have a job and a run with these keys.
pub record IsPresent (job_id run_id : ℕ) (db : Db) : Type 0 where
  pub job_there : has_job job_id db.jobs ≡ true
  pub run_there : has_run run_id db.runs ≡ true

module _ (job_id run_id : ℕ) (db : Db) (h : IsPresent job_id run_id db) where
  saved-IsPresent :
      (job : AgentJob) → IsPresent job_id run_id (record db { jobs = save_job job db.jobs })
  saved-IsPresent job = record {
    job_there = has_job-save_job job_id job db.jobs h.job_there;
    run_there = h.run_there;
  }

  pub claim-IsPresent :
      (locked : AgentJob → Bool) (now : ℕ) (agent : ScannerAgent)
      → IsPresent job_id run_id (claim_next_job locked now agent db).1
  unfolding claim_next_job take_job
  claim-IsPresent locked now agent = elim (Option-cases (next_claimable locked now agent db.jobs)) [
    | inl nothing ↦ rw (nothing, claim_next_job) h
    | inr (row, found) ↦ elim (Bool-cases (is_allowed_tool db row.tool_key)) [
      | inl allowed ↦
          let p = saved-IsPresent (claimed_job now row) in
          rw (found, claim_next_job)
            (rw allowed (record { job_there = p.job_there; run_there = p.run_there }))
      | inr refused ↦
          let p = saved-IsPresent (rejected_job now row) in
          rw (found, claim_next_job)
            (rw refused (record { job_there = p.job_there; run_there = p.run_there }))
    ]
  ]

  module _ (py : Python) (now : ℕ) where
    synced-IsPresent :
        (saved : AgentJob)
        → let after =
            update_tool_run_from_job py now saved (record db { jobs = save_job saved db.jobs }) in
          (has_job job_id after.jobs ≡ true) × (has_run run_id after.runs ≡ true)
    unfolding update_tool_run_from_job
    synced-IsPresent saved =
        let there = has_job-save_job job_id saved db.jobs h.job_there in
        elim (Option-cases (first (runs_job saved) db.runs)) [
          | inl runless ↦ rw (runless, update_tool_run_from_job) (there, h.run_there)
          | inr (run, found) ↦
              rw (found, update_tool_run_from_job)
                (there, has_run-save_run run_id (synced_run py now saved run) db.runs h.run_there)
        ]

    accept-IsPresent :
        (agent : ScannerAgent) (row : AgentJob) (status : Option JobStatus) (output : Value)
        (error : Text)
        → IsPresent job_id run_id (accept_result py now agent row status output error db).1
    unfolding accept_result
    accept-IsPresent agent row none output error = h
    accept-IsPresent agent row (some status) output error =
        elim (Bool-cases (is_reportable status)) [
          | inr bad ↦ rw bad h
          | inl good ↦
              elim (Bool-cases (ltb row.max_output_bytes (serialized_size (or_empty output)))) [
                | inl large ↦ rw (good, large) h
                | inr small ↦
                    let p =
                      synced-IsPresent (finished_job now status (or_empty output) error row) in
                    rw (good, small) (record { job_there = p.0; run_there = p.1 })
              ]
        ]

    submit-IsPresent :
        (agent : ScannerAgent) (id : ℕ) (status : Option JobStatus) (output : Value) (error : Text)
        → IsPresent job_id run_id (submit_job_result py now agent id status output error db).1
    unfolding submit_job_result submit_for
    submit-IsPresent agent id status output error =
        elim (Option-cases (first (λ (j : AgentJob). (j.id == id) && belongs_to agent j) db.jobs)) [
          | inl absent ↦ rw (absent, submit_job_result) h
          | inr (row, found) ↦ elim (Bool-cases (is_terminal row.status)) [
            | inl over ↦ rw (found, submit_job_result) (rw over h)
            | inr going ↦ elim (Bool-cases (is_in_progress row.status)) [
              | inr idle ↦ rw (found, submit_job_result) (rw (going, idle) h)
              | inl busy ↦ elim (Bool-cases (claim_has_expired now row.claim_expires_at)) [
                | inr holds ↦
                    rw (found, submit_job_result)
                      (rw (going, busy, holds) (accept-IsPresent agent row status output error))
                | inl late ↦
                    let p = synced-IsPresent (timed_out_job now row) in
                    rw (found, submit_job_result)
                      (rw (going, busy, late) (record { job_there = p.0; run_there = p.1 }))
              ]
            ]
          ]
        ]

    request-IsPresent :
        (request : Request) → IsPresent job_id run_id (create_tool_run_job py now request db).1
    request-IsPresent request =
        let a = call-IsAccounted py now request db in
        record {
          job_there = rw a.jobs_added (has_job-append job_id db.jobs a.new_jobs h.job_there);
          run_there = rw a.runs_added (has_run-append run_id db.runs a.new_runs h.run_there);
        }

  heartbeat-IsPresent :
      (now : ℕ) (agent : ScannerAgent) (version : Text)
      → IsPresent job_id run_id (record_heartbeat now agent version db)
  unfolding record_heartbeat
  heartbeat-IsPresent now agent version = record {
    job_there = h.job_there;
    run_there = h.run_there;
  }

  rows-register_agent :
      (hash_token : Text → Text) (now : ℕ) (raw hostname version fresh : Text)
      → let after = (register_agent hash_token now raw hostname version fresh db).1 in
        (after.jobs ≡ db.jobs) × (after.runs ≡ db.runs)
  unfolding register_agent register_with write_registration
  rows-register_agent hash_token now raw hostname version fresh = ground arith

module _ (py : Python) (hash_token : Text → Text) (job_id run_id : ℕ) where
  step-IsPresent :
      (event : Event) (db : Db)
      → IsPresent job_id run_id db
      → IsPresent job_id run_id (step py hash_token event db)
  unfolding step
  step-IsPresent (claim locked now agent) db h = claim-IsPresent job_id run_id db h locked now agent
  step-IsPresent (submit now agent id status output error) db h =
      submit-IsPresent job_id run_id db h py now agent id status output error
  step-IsPresent (request_run now request) db h =
      request-IsPresent job_id run_id db h py now request
  step-IsPresent (heartbeat now agent version) db h =
      heartbeat-IsPresent job_id run_id db h now agent version
  step-IsPresent (register now raw hostname version fresh) db h =
      let (jobs, runs) =
        rows-register_agent job_id run_id db h hash_token now raw hostname version fresh in
      record { job_there = rw jobs h.job_there; run_there = rw runs h.run_there }

  pub run_events-IsPresent :
      (events : List Event) (db : Db)
      → IsPresent job_id run_id db
      → IsPresent job_id run_id (run_events py hash_token events db)
  unfolding run_events
  run_events-IsPresent [] db h = h
  run_events-IsPresent (event ∷ events) db h =
      run_events-IsPresent events (step py hash_token event db) (step-IsPresent event db h)
