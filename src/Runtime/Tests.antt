-- ===== src/Runtime/Tests.antt =====
-- Runs of the agent's commands, and the theorems at them.
use matrix_scanner_saas.Prelude.{
  ℕ, true, none, some, Option, List, [], ◌∷◌, ◌≡◌, refl, first, ◌&&◌, ◌==◌,
}
use matrix_scanner_saas.Prelude.Results.{ok, err}
use matrix_scanner_saas.Text.{Text, codes, contains, starts_with, text_eq}
use matrix_scanner_saas.Json.{ℤ, pos, Value, int}
use matrix_scanner_saas.Redaction.{redact_secrets, apply_pattern, apply_patterns}
use matrix_scanner_saas.Redaction.Sample.{sample}
use matrix_scanner_saas.Models.{AgentJob, JobStatus}
use matrix_scanner_saas.Jobs.{JobError, belongs_to, submit_job_result}
use matrix_scanner_saas.Jobs.Sample.{job, queue}
use matrix_scanner_saas.Gate.Sample.{owner_agent}
use matrix_scanner_saas.Runtime.{
  Machine, Outcome, finished, SafeExecResult, report_of, run_fixed_command, capped_result,
  truncate_output, truncate_bytes, encoded_size, utf8_size,
}
use matrix_scanner_saas.Runtime.Output.{IsOutput, run_fixed_command-IsKept}
use matrix_scanner_saas.Runtime.Agreement.{report_of-submit_job_result}

-- A machine on which every command writes twenty letters, the last of them outside ASCII.
abbrev printed : List Text → ℕ → Outcome
printed argv seconds = finished (pos 0) (codes "aaaaaaaaaaaaaaaéaaaa") [] (codes "0.01")

abbrev whole_number : Value → Option ℤ
whole_number (int n) = some n
whole_number _ = none

abbrev machine : Machine
machine = record { spawn = printed; to_int = whole_number }

abbrev argv : List Text
argv = codes "df" ∷ codes "-h" ∷ []

-- The cut falls into the letter of two bytes, which becomes one of three.
abbrev cut_result : SafeExecResult
cut_result = record {
  returncode = pos 0;
  stdout = codes "aaaaaaaaaaaaaaa�";
  stderr = [];
  execution_time_seconds = codes "0.01";
  truncated = true;
}

cuts : run_fixed_command sample machine argv (pos 10) (pos 16) true ≡ ok cut_result
unfolding run_fixed_command capped_result truncate_output truncate_bytes encoded_size utf8_size
    text_eq redact_secrets apply_pattern apply_patterns contains starts_with
cuts = refl

over_the_cap : encoded_size cut_result.stdout ≡ 18
unfolding encoded_size utf8_size
over_the_cap = refl

run_fixed_command-IsKept_example : IsOutput sample machine argv (pos 10) 16 cut_result
run_fixed_command-IsKept_example =
    run_fixed_command-IsKept sample machine argv (pos 10) 16 true cut_result cuts

same_stdout : redact_secrets sample cut_result.stdout ≡ cut_result.stdout
unfolding redact_secrets apply_pattern apply_patterns contains starts_with
same_stdout = refl

same_stderr : redact_secrets sample [] ≡ []
unfolding redact_secrets apply_pattern apply_patterns contains starts_with
same_stderr = refl

is_there : first (λ (j : AgentJob). (j.id == 1) && belongs_to owner_agent j) queue.jobs ≡ some job
unfolding belongs_to
is_there = refl

report_of-submit_job_result_example :
    (e : JobError) × ((submit_job_result sample 60 owner_agent 1
        (some JobStatus.succeeded)
        (report_of sample machine (pos 10) (ok cut_result)).output
        []
        queue).0
      ≡ err e)
report_of-submit_job_result_example =
    report_of-submit_job_result sample machine argv (pos 10) 16 cut_result 60 owner_agent 1 job
      (some JobStatus.succeeded) [] queue cuts refl same_stdout same_stderr is_there refl
