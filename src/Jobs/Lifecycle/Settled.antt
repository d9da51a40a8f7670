-- ===== src/Jobs/Lifecycle/Settled.antt =====
-- A job that has ended never changes again.
use matrix_scanner_saas.Prelude.{
  ℕ, ◌≡◌, refl, sym, ◌∙◌, inl, inr, Bool, true, false, ◌&&◌, List, [], ◌∷◌, ◌==◌, ltb, Bool-cases,
  Option-cases, All, All-append, first, Option, some, none, arith,
}
use matrix_scanner_saas.Prelude.First.{first-All, first_passes}
use matrix_scanner_saas.Prelude.Results.{Result-cases}
use matrix_scanner_saas.Text.{Text}
use matrix_scanner_saas.Json.{Value, or_empty}
use matrix_scanner_saas.Redaction.{Python}
use matrix_scanner_saas.Models.{
  Db, AgentJob, ScannerAgent, JobStatus, AuditEvent, add_audit, save_job, is_terminal,
  is_in_progress, is_reportable,
}
use matrix_scanner_saas.Models.Rows.{save_job-All}
use matrix_scanner_saas.Agents.{register_agent, register_with, write_registration, record_heartbeat}
use matrix_scanner_saas.Gate.{
  Request, Grant, denial_event, create_tool_run_job, authorize, enqueue, new_job, seeded,
  ensure_system_identity_tool,
}
use matrix_scanner_saas.Jobs.{
  is_allowed_tool, next_claimable, take_job, rejected_job, claimed_job, claim_next_job, belongs_to,
  is_claimable, claim_has_expired, timed_out_job, finished_job, runs_job, update_tool_run_from_job,
  accept_result, submit_for, submit_job_result,
}
use matrix_scanner_saas.Jobs.Size.{serialized_size}
use matrix_scanner_saas.Jobs.Claim.{offered}
use matrix_scanner_saas.Jobs.Lifecycle.{
  Event, claim, submit, request_run, heartbeat, register, IsSettled, step, run_events,
}

-- A row that is saved from one that has not ended has another key than a settled job, which so stays.
saved_apart :
    (job row saved : AgentJob) (jobs : List AgentJob)
    → All (λ j. j.id ≡ job.id → j ≡ job) jobs
    → (row.id ≡ job.id → row ≡ job)
    → is_terminal job.status ≡ true
    → is_terminal row.status ≡ false
    → saved.id ≡ row.id
    → All (λ j. j.id ≡ job.id → j ≡ job) (save_job saved jobs)
saved_apart job row saved jobs all at_row ended going same =
    save_job-All (λ j. j.id ≡ job.id → j ≡ job) saved jobs all
      (λ e. let is_job : row ≡ job = at_row (sym same ∙ e) in absurd (ground arith))

audited :
    (event : AuditEvent) (job : AgentJob) (db : Db)
    → IsSettled job db
    → IsSettled job (add_audit event db)
audited event job db s = record { ended = s.ended; only = s.only; allotted = s.allotted }

module _ (job : AgentJob) (db : Db) (settled : IsSettled job db) where
  offered_going :
      (locked : AgentJob → Bool) (now : ℕ) (agent : ScannerAgent) (row : AgentJob)
      → offered locked now agent row ≡ true
      → is_terminal row.status ≡ false
  unfolding is_claimable
  offered_going locked now agent row h = ground arith

  take_job-IsSettled :
      (now : ℕ) (agent : ScannerAgent) (row : AgentJob)
      → (row.id ≡ job.id → row ≡ job)
      → is_terminal row.status ≡ false
      → IsSettled job (take_job now agent row db).1
  unfolding take_job
  take_job-IsSettled now agent row at_row going =
      elim (Bool-cases (is_allowed_tool db row.tool_key)) [
        | inl allowed ↦ rw allowed (record {
          ended = settled.ended;
          only =
              saved_apart job row (claimed_job now row) db.jobs settled.only at_row settled.ended
                going (unfold claimed_job in refl);
          allotted = settled.allotted;
        })
        | inr refused ↦ rw refused (record {
          ended = settled.ended;
          only =
              saved_apart job row (rejected_job now row) db.jobs settled.only at_row settled.ended
                going (unfold rejected_job in refl);
          allotted = settled.allotted;
        })
      ]

  claim-IsSettled :
      (locked : AgentJob → Bool) (now : ℕ) (agent : ScannerAgent)
      → IsSettled job (claim_next_job locked now agent db).1
  unfolding claim_next_job
  claim-IsSettled locked now agent = elim (Option-cases (next_claimable locked now agent db.jobs)) [
    | inl nothing ↦ rw (nothing, claim_next_job) settled
    | inr (row, found) ↦
        rw (found, claim_next_job)
          (take_job-IsSettled now agent row
            (first-All (offered locked now agent) (λ j. j.id ≡ job.id → j ≡ job) db.jobs row
              settled.only (unfold next_claimable in found))
            (offered_going locked now agent row (
              first_passes (offered locked now agent) db.jobs row
                (unfold next_claimable in found))))
  ]

  module _ (py : Python) where
    synced-IsSettled :
        (now : ℕ) (row saved : AgentJob)
        → (row.id ≡ job.id → row ≡ job)
        → is_terminal row.status ≡ false
        → saved.id ≡ row.id
        → IsSettled job
            (update_tool_run_from_job py now saved (record db { jobs = save_job saved db.jobs }))
    unfolding update_tool_run_from_job
    synced-IsSettled now row saved at_row going same =
        let only = saved_apart job row saved db.jobs settled.only at_row settled.ended going same in
        elim (Option-cases (first (runs_job saved) db.runs)) [
          | inl runless ↦
              rw (runless, update_tool_run_from_job)
                (record { ended = settled.ended; only = only; allotted = settled.allotted })
          | inr (run, found) ↦
              rw (found, update_tool_run_from_job)
                (record { ended = settled.ended; only = only; allotted = settled.allotted })
        ]

    accept-IsSettled :
        (now : ℕ) (agent : ScannerAgent) (row : AgentJob) (status : Option JobStatus)
        (output : Value) (error : Text)
        → (row.id ≡ job.id → row ≡ job)
        → is_terminal row.status ≡ false
        → IsSettled job (accept_result py now agent row status output error db).1
    unfolding accept_result
    accept-IsSettled now agent row none output error at_row going = settled
    accept-IsSettled now agent row (some status) output error at_row going =
        elim (Bool-cases (is_reportable status)) [
          | inr bad ↦ rw bad settled
          | inl good ↦
              elim (Bool-cases (ltb row.max_output_bytes (serialized_size (or_empty output)))) [
                | inl large ↦ rw (good, large) settled
                | inr small ↦
                    rw (good, small)
                      (audited _ job _ (
                        synced-IsSettled now row
                          (finished_job now status (or_empty output) error row) at_row going
                          (unfold finished_job in refl)))
              ]
        ]

    submit_for-IsSettled :
        (now : ℕ) (agent : ScannerAgent) (row : AgentJob) (status : Option JobStatus)
        (output : Value) (error : Text)
        → (row.id ≡ job.id → row ≡ job)
        → IsSettled job (submit_for py now agent row status output error db).1
    unfolding submit_for
    submit_for-IsSettled now agent row status output error at_row =
        elim (Bool-cases (is_terminal row.status)) [
          | inl over ↦ rw over settled
          | inr going ↦ elim (Bool-cases (is_in_progress row.status)) [
            | inr idle ↦ rw (going, idle) settled
            | inl busy ↦ elim (Bool-cases (claim_has_expired now row.claim_expires_at)) [
              | inr holds ↦
                  rw (going, busy, holds)
                    (accept-IsSettled now agent row status output error at_row going)
              | inl late ↦
                  rw (going, busy, late)
                    (audited _ job _ (
                      synced-IsSettled now row (timed_out_job now row) at_row going
                        (unfold timed_out_job in refl)))
            ]
          ]
        ]

    submit-IsSettled :
        (now : ℕ) (agent : ScannerAgent) (job_id : ℕ) (status : Option JobStatus) (output : Value)
        (error : Text)
        → IsSettled job (submit_job_result py now agent job_id status output error db).1
    unfolding submit_job_result
    submit-IsSettled now agent job_id status output error =
        elim (Option-cases
          (first (λ (j : AgentJob). (j.id == job_id) && belongs_to agent j) db.jobs)) [
            | inl absent ↦ rw (absent, submit_job_result) settled
            | inr (row, found) ↦
                rw (found, submit_job_result)
                  (submit_for-IsSettled now agent row status output error (
                    first-All (λ (j : AgentJob). (j.id == job_id) && belongs_to agent j)
                      (λ j. j.id ≡ job.id → j ≡ job) db.jobs row settled.only found))
          ]

jobs-seeded :
    (request : Request) (db : Db)
    → ((seeded request db).jobs ≡ db.jobs) × ((seeded request db).next_job ≡ db.next_job)
unfolding seeded ensure_system_identity_tool
jobs-seeded request db = ground arith

seeded-IsSettled :
    (job : AgentJob) (request : Request) (db : Db)
    → IsSettled job db
    → IsSettled job (seeded request db)
seeded-IsSettled job request db s =
    let (jobs, next) = jobs-seeded request db in
    record { ended = s.ended; only = rw jobs s.only; allotted = rw next s.allotted }

enqueue-IsSettled :
    (py : Python) (job : AgentJob) (request : Request) (granted : Grant) (db : Db)
    → IsSettled job db
    → IsSettled job (enqueue py request granted db).1
unfolding enqueue
enqueue-IsSettled py job request granted db s = record {
  ended = s.ended;
  only =
      All-append (λ j. j.id ≡ job.id → j ≡ job) db.jobs (new_job request granted db.next_job ∷ [])
        s.only ((λ e. absurd (fresh e)), tt);
  allotted = omega (arith, s.allotted);
}
  where
    fresh : (new_job request granted db.next_job).id ≡ job.id → ⊥
    fresh e = unfold new_job in omega (arith, s.allotted)

request-IsSettled :
    (py : Python) (job : AgentJob) (now : ℕ) (request : Request) (db : Db)
    → IsSettled job db
    → IsSettled job (create_tool_run_job py now request db).1
unfolding create_tool_run_job
request-IsSettled py job now request db s =
    let ready = seeded-IsSettled job request db s in
    elim (Result-cases (authorize py now (seeded request db) request)) [
      | inr (e, refused) ↦
          rw (refused, create_tool_run_job)
            (audited (denial_event request) job (seeded request db) ready)
      | inl (granted, good) ↦
          rw (good, create_tool_run_job)
            (enqueue-IsSettled py job request granted (seeded request db) ready)
    ]

heartbeat-IsSettled :
    (job : AgentJob) (now : ℕ) (agent : ScannerAgent) (version : Text) (db : Db)
    → IsSettled job db
    → IsSettled job (record_heartbeat now agent version db)
unfolding record_heartbeat
heartbeat-IsSettled job now agent version db s = record {
  ended = s.ended;
  only = s.only;
  allotted = s.allotted;
}

jobs-register_agent :
    (hash_token : Text → Text) (now : ℕ) (raw hostname version fresh : Text) (db : Db)
    → let after = (register_agent hash_token now raw hostname version fresh db).1 in
      (after.jobs ≡ db.jobs) × (after.next_job ≡ db.next_job)
unfolding register_agent register_with write_registration
jobs-register_agent hash_token now raw hostname version fresh db = ground arith

register-IsSettled :
    (hash_token : Text → Text) (job : AgentJob) (now : ℕ) (raw hostname version fresh : Text)
    (db : Db)
    → IsSettled job db
    → IsSettled job (register_agent hash_token now raw hostname version fresh db).1
register-IsSettled hash_token job now raw hostname version fresh db s =
    let (jobs, next) = jobs-register_agent hash_token now raw hostname version fresh db in
    record { ended = s.ended; only = rw jobs s.only; allotted = rw next s.allotted }

module _ (py : Python) (hash_token : Text → Text) (job : AgentJob) where
  pub step-IsSettled :
      (event : Event) (db : Db) → IsSettled job db → IsSettled job (step py hash_token event db)
  unfolding step
  step-IsSettled (claim locked now agent) db s = claim-IsSettled job db s locked now agent
  step-IsSettled (submit now agent job_id status output error) db s =
      submit-IsSettled job db s py now agent job_id status output error
  step-IsSettled (request_run now request) db s = request-IsSettled py job now request db s
  step-IsSettled (heartbeat now agent version) db s = heartbeat-IsSettled job now agent version db s
  step-IsSettled (register now raw hostname version fresh) db s =
      register-IsSettled hash_token job now raw hostname version fresh db s

  -- A job that has ended never changes again: if every row with its key is the job, in a status that is
  -- terminal, and the next key is larger, then that is so after any sequence of claims, submissions,
  -- run requests, heartbeats and registrations.
  pub run_events-IsSettled :
      (events : List Event) (db : Db)
      → IsSettled job db
      → IsSettled job (run_events py hash_token events db)
  unfolding run_events
  run_events-IsSettled [] db s = s
  run_events-IsSettled (event ∷ events) db s =
      run_events-IsSettled events (step py hash_token event db) (step-IsSettled event db s)
