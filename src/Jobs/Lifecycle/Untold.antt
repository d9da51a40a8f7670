-- ===== src/Jobs/Lifecycle/Untold.antt =====
-- What each call of the agent API and of the gate does to the run of a job that has ended.
use matrix_scanner_saas.Prelude.{
  ℕ, ◌<◌, ◌≡◌, ◌≢◌, inl, inr, Bool, true, ◌&&◌, List, [], ◌∷◌, ◌==◌, ltb, ==_iff, Bool-cases,
  Option-cases, All, All-append, first, Option, some, none, arith,
}
use matrix_scanner_saas.Prelude.First.{first-All, first_passes}
use matrix_scanner_saas.Prelude.Results.{Result-cases}
use matrix_scanner_saas.Text.{Text}
use matrix_scanner_saas.Json.{Value, or_empty}
use matrix_scanner_saas.Redaction.{Python}
use matrix_scanner_saas.Models.{
  Db, AgentJob, ToolRun, ScannerAgent, JobStatus, save_job, is_terminal, is_in_progress,
  is_reportable,
}
use matrix_scanner_saas.Models.Rows.{save_run-All}
use matrix_scanner_saas.Agents.{register_agent, register_with, write_registration, record_heartbeat}
use matrix_scanner_saas.Gate.{
  Request, Grant, create_tool_run_job, authorize, enqueue, new_run, seeded,
}
use matrix_scanner_saas.Gate.Effects.{runs-seeded}
use matrix_scanner_saas.Jobs.{
  is_allowed_tool, next_claimable, take_job, claim_next_job, belongs_to, claim_has_expired,
  timed_out_job, finished_job, runs_job, synced_run, update_tool_run_from_job, accept_result,
  submit_for, submit_job_result,
}
use matrix_scanner_saas.Jobs.Size.{serialized_size}
use matrix_scanner_saas.Jobs.Lifecycle.{IsSettled}

-- The job is settled, and every row with the key of the run is the run, which is linked to the job.
pub record IsAbandoned (job : AgentJob) (run : ToolRun) (db : Db) : Type 0 where
  pub settled : IsSettled job db
  pub linked : run.agent_job ≡ some job.id
  pub only : All (λ r. r.id ≡ run.id → r ≡ run) db.runs
  pub allotted : run.id < db.next_run

-- What the preservation of the run needs of a new database.
abbrev pub KeepsRun : ToolRun → Db → Type 0
KeepsRun run db = All (λ (r : ToolRun). r.id ≡ run.id → r ≡ run) db.runs × (run.id < db.next_run)

module _ (job : AgentJob) (run : ToolRun) (db : Db) (h : IsAbandoned job run db) where
  pub kept : KeepsRun run db
  kept = (h.only, h.allotted)

  pub claim-KeepsRun :
      (locked : AgentJob → Bool) (now : ℕ) (agent : ScannerAgent)
      → KeepsRun run (claim_next_job locked now agent db).1
  unfolding claim_next_job take_job
  claim-KeepsRun locked now agent = elim (Option-cases (next_claimable locked now agent db.jobs)) [
    | inl nothing ↦ rw (nothing, claim_next_job) kept
    | inr (row, found) ↦ elim (Bool-cases (is_allowed_tool db row.tool_key)) [
      | inl allowed ↦ rw (found, claim_next_job) (rw allowed kept)
      | inr refused ↦ rw (found, claim_next_job) (rw refused kept)
    ]
  ]

  module _ (py : Python) where
    -- A run that is told of another job is another run.
    synced-KeepsRun :
        (now : ℕ) (saved : AgentJob) (jobs : List AgentJob)
        → saved.id ≢ job.id
        → KeepsRun run (update_tool_run_from_job py now saved (record db { jobs = jobs }))
    unfolding update_tool_run_from_job
    synced-KeepsRun now saved jobs other = elim (Option-cases (first (runs_job saved) db.runs)) [
      | inl runless ↦ rw (runless, update_tool_run_from_job) kept
      | inr (r, found) ↦
          rw (found, update_tool_run_from_job)
            (
              save_run-All (λ x. x.id ≡ run.id → x ≡ run) (synced_run py now saved r) db.runs h.only
                  (λ e. absurd (apart r found e)),
              h.allotted,
            )
    ]
      where
        apart :
            (r : ToolRun)
            → first (runs_job saved) db.runs ≡ some r
            → (synced_run py now saved r).id ≡ run.id
            → ⊥
        apart r found e =
            let is_run : r ≡ run =
              first-All (runs_job saved) (λ x. x.id ≡ run.id → x ≡ run) db.runs r h.only found
                (unfold synced_run in e) in
            let told : runs_job saved r ≡ true = first_passes (runs_job saved) db.runs r found in
            other (ground (arith, h.linked, ==_iff job.id saved.id))

    accept-KeepsRun :
        (now : ℕ) (agent : ScannerAgent) (row : AgentJob) (status : Option JobStatus)
        (output : Value) (error : Text)
        → row.id ≢ job.id
        → KeepsRun run (accept_result py now agent row status output error db).1
    unfolding accept_result
    accept-KeepsRun now agent row none output error other = kept
    accept-KeepsRun now agent row (some status) output error other =
        elim (Bool-cases (is_reportable status)) [
          | inr bad ↦ rw bad kept
          | inl good ↦
              elim (Bool-cases (ltb row.max_output_bytes (serialized_size (or_empty output)))) [
                | inl large ↦ rw (good, large) kept
                | inr small ↦
                    let done = finished_job now status (or_empty output) error row in
                    rw (good, small)
                      (synced-KeepsRun now done (save_job done db.jobs)
                        (unfold finished_job in other))
              ]
        ]

    submit_for-KeepsRun :
        (now : ℕ) (agent : ScannerAgent) (row : AgentJob) (status : Option JobStatus)
        (output : Value) (error : Text)
        → (row.id ≡ job.id → row ≡ job)
        → KeepsRun run (submit_for py now agent row status output error db).1
    unfolding submit_for
    submit_for-KeepsRun now agent row status output error at_row =
        elim (Bool-cases (is_terminal row.status)) [
          | inl over ↦ rw over kept
          | inr going ↦
              let other : row.id ≢ job.id =
                λ e. let same = at_row e in absurd (ground (arith, h.settled.ended)) in
              elim (Bool-cases (is_in_progress row.status)) [
                | inr idle ↦ rw (going, idle) kept
                | inl busy ↦ elim (Bool-cases (claim_has_expired now row.claim_expires_at)) [
                  | inr holds ↦
                      rw (going, busy, holds)
                        (accept-KeepsRun now agent row status output error other)
                  | inl late ↦
                      let done = timed_out_job now row in
                      rw (going, busy, late)
                        (synced-KeepsRun now done (save_job done db.jobs)
                          (unfold timed_out_job in other))
                ]
              ]
        ]

    pub submit-KeepsRun :
        (now : ℕ) (agent : ScannerAgent) (job_id : ℕ) (status : Option JobStatus) (output : Value)
        (error : Text)
        → KeepsRun run (submit_job_result py now agent job_id status output error db).1
    unfolding submit_job_result
    submit-KeepsRun now agent job_id status output error =
        elim (Option-cases
          (first (λ (j : AgentJob). (j.id == job_id) && belongs_to agent j) db.jobs)) [
            | inl absent ↦ rw (absent, submit_job_result) kept
            | inr (row, found) ↦
                rw (found, submit_job_result)
                  (submit_for-KeepsRun now agent row status output error (
                    first-All (λ (j : AgentJob). (j.id == job_id) && belongs_to agent j)
                      (λ j. j.id ≡ job.id → j ≡ job) db.jobs row h.settled.only found))
          ]

enqueue-KeepsRun :
    (py : Python) (run : ToolRun) (request : Request) (granted : Grant) (db : Db)
    → KeepsRun run db
    → KeepsRun run (enqueue py request granted db).1
unfolding enqueue
enqueue-KeepsRun py run request granted db (only, allotted) = (
  All-append (λ r. r.id ≡ run.id → r ≡ run) db.runs
      (new_run py request granted db.next_run db.next_job ∷ []) only ((λ e. absurd (fresh e)), tt),
  omega (arith, allotted),
)
  where
    fresh : (new_run py request granted db.next_run db.next_job).id ≡ run.id → ⊥
    fresh e = unfold new_run in omega (arith, allotted)

pub request-KeepsRun :
    (py : Python) (run : ToolRun) (now : ℕ) (request : Request) (db : Db)
    → KeepsRun run db
    → KeepsRun run (create_tool_run_job py now request db).1
unfolding create_tool_run_job
request-KeepsRun py run now request db (only, allotted) =
    let (runs, next) = runs-seeded request db in
    let ready : KeepsRun run (seeded request db) = (rw runs only, rw next allotted) in
    elim (Result-cases (authorize py now (seeded request db) request)) [
      | inr (e, refused) ↦ rw (refused, create_tool_run_job) ready
      | inl (granted, good) ↦
          rw (good, create_tool_run_job)
            (enqueue-KeepsRun py run request granted (seeded request db) ready)
    ]

pub heartbeat-KeepsRun :
    (run : ToolRun) (now : ℕ) (agent : ScannerAgent) (version : Text) (db : Db)
    → KeepsRun run db
    → KeepsRun run (record_heartbeat now agent version db)
unfolding record_heartbeat
heartbeat-KeepsRun run now agent version db k = k

pub runs-register_agent :
    (hash_token : Text → Text) (now : ℕ) (raw hostname version fresh : Text) (db : Db)
    → let after = (register_agent hash_token now raw hostname version fresh db).1 in
      (after.runs ≡ db.runs) × (after.next_run ≡ db.next_run)
unfolding register_agent register_with write_registration
runs-register_agent hash_token now raw hostname version fresh db = ground arith
