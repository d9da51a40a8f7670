-- ===== src/Runtime/Agreement.antt =====
-- What the server and its agent make of each other's data: the payload that apps/tools/services.py,
-- `build_execution_payload`, returns, and the reports that apps/servers/services.py, `submit_job_result`,
-- takes.
use matrix_scanner_saas.Prelude.{
  ℕ, ◌+◌, ◌≤◌, ◌<◌, ◌≡◌, ap, refl, inl, inr, Bool, true, ◌&&◌, Option, some, none, List, [], ◌∷◌,
  ◌==◌, first, arith, Bool-cases,
}
use matrix_scanner_saas.Prelude.Results.{ok, err}
use matrix_scanner_saas.Text.{Text, codes}
use matrix_scanner_saas.Json.{
  ℤ, pos, Value, Items, Fields, int, str, arr, nil, cons, end, field, truthy, or_empty, float,
}
use matrix_scanner_saas.Json.Size.{escaped_size, chars_size, dumps_size}
use matrix_scanner_saas.Redaction.{Python, redact_secrets}
use matrix_scanner_saas.Command.{Payload, handler, command}
use matrix_scanner_saas.Models.{
  Db, ScannerAgent, AgentJob, JobStatus, is_reportable, is_terminal, is_in_progress,
}
use matrix_scanner_saas.Jobs.{
  JobError, invalid_status, already_terminal, not_claimed, claim_expired, output_too_large,
  belongs_to, claim_has_expired, accept_result, submit_for, submit_job_result,
}
use matrix_scanner_saas.Jobs.Size.{serialized_size}
use matrix_scanner_saas.Runtime.{
  Machine, SafeExecResult, utf8_size, encoded_size, run_fixed_command, report_of, command_output,
}
use matrix_scanner_saas.Runtime.Output.{run_fixed_command-IsKept}

abbrev items_of : List Text → Items
items_of [] = nil
items_of (part ∷ parts) = cons (str part) (items_of parts)

-- The dict that the server puts on the job.
abbrev pub payload_fields : Payload → Fields
payload_fields (handler key) =
    field (codes "execution_type") (str (codes "runtime_handler"))
      (field (codes "runtime_handler_key") (str key) end)
payload_fields (command argv timeout_seconds max_output_bytes) =
    field (codes "execution_type") (str (codes "command_template")) (
      field (codes "argv") (arr (items_of argv)) (
        field (codes "timeout_seconds") (int (pos timeout_seconds))
          (field (codes "max_output_bytes") (int (pos max_output_bytes)) end)))

escaped_size-utf8_size : (c : ℕ) → utf8_size c ≤ escaped_size c
unfolding utf8_size escaped_size
escaped_size-utf8_size c = ground arith

-- JSON writes no character with fewer bytes than UTF-8.
chars_size-encoded_size : (s : Text) → encoded_size s ≤ chars_size s
unfolding encoded_size chars_size
chars_size-encoded_size [] = omega arith
chars_size-encoded_size (c ∷ s) = omega (arith, escaped_size-utf8_size c, chars_size-encoded_size s)

serialized_size-command_output :
    (exit_code seconds : Value) (stdout stderr : Text) (truncated : Bool)
    → encoded_size stdout + encoded_size stderr
      < serialized_size (or_empty (command_output exit_code stdout stderr seconds truncated))
unfolding serialized_size or_empty truthy dumps_size
serialized_size-command_output exit_code seconds stdout stderr truncated =
    omega (arith, chars_size-encoded_size stdout, chars_size-encoded_size stderr)

-- A job whose cap is below the size of the output is not completed by it.
module _ (py : Python) (now : ℕ) (agent : ScannerAgent) (output : Value) (error : Text) where
  accept_result_large :
      (job : AgentJob) (status : Option JobStatus) (db : Db)
      → job.max_output_bytes < serialized_size (or_empty output)
      → (e : JobError) × ((accept_result py now agent job status output error db).0 ≡ err e)
  unfolding accept_result
  accept_result_large job none db h = (invalid_status, refl)
  accept_result_large job (some status) db h = elim (Bool-cases (is_reportable status)) [
    | inr other ↦ (invalid_status, ground (arith, other))
    | inl good ↦ (output_too_large, ground (arith, good, h))
  ]

  submit_for_large :
      (job : AgentJob) (status : Option JobStatus) (db : Db)
      → job.max_output_bytes < serialized_size (or_empty output)
      → (e : JobError) × ((submit_for py now agent job status output error db).0 ≡ err e)
  unfolding submit_for
  submit_for_large job status db h =
      let (e, refused) = accept_result_large job status db h in
      elim (Bool-cases (is_terminal job.status)) [
        | inl over ↦ (already_terminal, ground (arith, over))
        | inr open_job ↦ elim (Bool-cases (is_in_progress job.status)) [
          | inr idle ↦ (not_claimed, ground (arith, open_job, idle))
          | inl busy ↦ elim (Bool-cases (claim_has_expired now job.claim_expires_at)) [
            | inl late ↦ (claim_expired, ground (arith, open_job, busy, late))
            | inr early ↦ (e, ground (arith, open_job, busy, early, refused))
          ]
        ]
      ]

  submit_job_result_large :
      (job_id : ℕ) (job : AgentJob) (status : Option JobStatus) (db : Db)
      → first (λ (j : AgentJob). (j.id == job_id) && belongs_to agent j) db.jobs ≡ some job
      → job.max_output_bytes < serialized_size (or_empty output)
      → (e : JobError) × ((submit_job_result py now agent job_id status output error db).0 ≡ err e)
  unfolding submit_job_result
  submit_job_result_large job_id job status db found h =
      let (e, refused) = submit_for_large job status db h in
      (e, rw (found, submit_job_result) refused)

-- The report of a command of which the agent cut off output is never accepted by the server, at whatever
-- time and with whatever status it is sent, where the job has the cap that the agent was given and the
-- redaction changes neither text: what is left fills the cap, and the JSON around it comes on top.
pub report_of-submit_job_result :
    (py : Python) (machine : Machine) (argv : List Text) (seconds : ℤ) (max : ℕ)
    (result : SafeExecResult) (now : ℕ) (agent : ScannerAgent) (job_id : ℕ) (job : AgentJob)
    (status : Option JobStatus) (error : Text) (db : Db)
    → run_fixed_command py machine argv seconds (pos max) true ≡ ok result
    → result.truncated ≡ true
    → redact_secrets py result.stdout ≡ result.stdout
    → redact_secrets py result.stderr ≡ result.stderr
    → first (λ (j : AgentJob). (j.id == job_id) && belongs_to agent j) db.jobs ≡ some job
    → job.max_output_bytes ≡ max
    → (e : JobError) × ((submit_job_result py now agent job_id status
          (report_of py machine seconds (ok result)).output
          error
          db).0
        ≡ err e)
unfolding report_of
report_of-submit_job_result py machine argv seconds max result now agent job_id job status error db
      ran cut same_out same_err found cap =
    let whole = run_fixed_command-IsKept py machine argv seconds max true result ran in
    let output =
      command_output (int result.returncode) (redact_secrets py result.stdout)
        (redact_secrets py result.stderr) (float result.execution_time_seconds) result.truncated in
    let large =
      serialized_size-command_output (int result.returncode) (float result.execution_time_seconds)
        (redact_secrets py result.stdout) (redact_secrets py result.stderr) result.truncated in
    let full = whole.kept.filled cut in
    submit_job_result_large py now agent output error job_id job status db found
      (omega (arith, large, full, cap, ap encoded_size same_out, ap encoded_size same_err))
