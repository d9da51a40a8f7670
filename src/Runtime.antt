-- ===== src/Runtime.antt =====
-- The agent's side of a command: scanner_runtime/command_templates.py and scanner_runtime/safe_exec.py.
--
-- The operating system is the record Machine: what a process started with these arguments and this
-- timeout gives, and `int` of a JSON value. Reading back the first bytes of a text as UTF-8, where a
-- character that is cut is replaced by U+FFFD, is written on the text itself.
pub mod Output
pub mod Agreement
mod Tests
use matrix_scanner_saas.Prelude.{
  ℕ, zero, suc, ◌+◌, ◌-◌, Bool, true, false, not, ◌&&◌, ◌||◌, Option, none, some, List, [], ◌∷◌,
  ◌++◌, ◌==◌, ltb, leb, if◌then◌else◌, all,
}
use matrix_scanner_saas.Prelude.Results.{Result, ok, err}
use matrix_scanner_saas.Text.{Text, codes, text_eq, strip}
use matrix_scanner_saas.Json.{
  ℤ, pos, negsuc, Value, Items, Fields, null, bool, int, float, str, arr, obj, nil, cons, end,
  field, get, truthy,
}
use matrix_scanner_saas.Redaction.{Python, redact_secrets}

-- What subprocess.run gives: an exit code, two texts and the duration as it is reported, or an exception
-- with its text.
pub data Outcome : Type 0 where
  finished : ℤ → Text → Text → Text → Outcome
  timed_out : Text → Outcome
  os_error : Text → Outcome

pub record Machine : Type 0 where
  pub spawn : List Text → ℕ → Outcome
  -- int(value), none where it raises
  pub to_int : Value → Option ℤ

pub record SafeExecResult : Type 0 where
  pub returncode : ℤ
  pub stdout : Text
  pub stderr : Text
  pub execution_time_seconds : Text
  pub truncated : Bool

-- SafeExecError and its two subclasses, with the text of the exception.
pub data ExecError : Type 0 where
  error : Text → ExecError
  timeout : Text → ExecError
  too_large : ExecError

-- The number of bytes of a character in UTF-8.
unfoldable pub utf8_size : ℕ → ℕ
utf8_size c = if ltb c 128 then 1 else if ltb c 2048 then 2 else if ltb c 65536 then 3 else 4

-- len(s.encode("utf-8"))
unfoldable pub encoded_size : Text → ℕ
unfolding utf8_size
encoded_size [] = 0
encoded_size (c ∷ s) = utf8_size c + encoded_size s

-- s.encode("utf-8")[:n].decode("utf-8", errors="replace")
unfoldable pub truncate_bytes : ℕ → Text → Text
unfolding utf8_size
truncate_bytes n [] = []
truncate_bytes n (c ∷ s) =
    let rest = truncate_bytes (n - utf8_size c) s in
    if leb (utf8_size c) n then c ∷ rest else if n == 0 then [] else 65533 ∷ []

-- _truncate_output
unfoldable pub truncate_output : Text → Text → ℕ → Text × Text
unfolding truncate_bytes encoded_size
truncate_output stdout stderr max =
    if leb max (encoded_size stdout)
    then (truncate_bytes max stdout, [])
    else (stdout, truncate_bytes (max - encoded_size stdout) stderr)

-- A number of seconds or of bytes that is positive.
abbrev pub positive : ℤ → Option ℕ
positive (pos zero) = none
positive (pos (suc n)) = some (suc n)
positive (negsuc n) = none

abbrev pub is_argv : List Text → Bool
is_argv [] = false
is_argv (part ∷ parts) = all (λ (s : Text). not (text_eq s [])) (part ∷ parts)

abbrev pub part_of_argv : Items → Option (List Text)
part_of_argv nil = some []
part_of_argv (cons (str []) xs) = none
part_of_argv (cons (str (c ∷ s)) xs) = elim (part_of_argv xs) [
  | none ↦ none
  | some rest ↦ some ((c ∷ s) ∷ rest)
]
part_of_argv (cons _ xs) = none

module _ (py : Python) (machine : Machine) where
  -- What is made of a process that has ended.
  unfoldable pub capped_result : ℕ → Bool → ℤ → Text → Text → Text → Result ExecError SafeExecResult
  capped_result max truncating returncode stdout stderr seconds =
      let cut = truncate_output stdout stderr max in
      if leb (encoded_size stdout + encoded_size stderr) max
      then ok (record {
        returncode = returncode;
        stdout = stdout;
        stderr = stderr;
        execution_time_seconds = seconds;
        truncated = false;
      })
      else if not truncating
      then err too_large
      else ok (record {
        returncode = returncode;
        stdout = cut.0;
        stderr = cut.1;
        execution_time_seconds = seconds;
        truncated = true;
      })

  abbrev pub ran : ℕ → Bool → Outcome → Result ExecError SafeExecResult
  ran max truncating (finished returncode stdout stderr seconds) =
      capped_result max truncating returncode stdout (redact_secrets py stderr) seconds
  ran max truncating (timed_out stderr) =
      err (timeout (strip (codes "Runtime command timed out. " ++ redact_secrets py stderr)))
  ran max truncating (os_error text) = err (error (redact_secrets py text))

  unfoldable pub run_fixed_command : List Text → ℤ → ℤ → Bool → Result ExecError SafeExecResult
  unfolding capped_result
  run_fixed_command argv timeout_seconds max_output_bytes truncating =
      if not (is_argv argv)
      then err (error (codes "Runtime commands must be fixed argv lists."))
      else elim (positive timeout_seconds) [
        | none ↦ err (error (codes "Runtime command timeout must be positive."))
        | some seconds ↦ elim (positive max_output_bytes) [
          | none ↦ err (error (codes "Runtime command output cap must be positive."))
          | some max ↦ ran max truncating (machine.spawn argv seconds)
        ]
      ]

-- What the agent reports of a job.
pub record Report : Type 0 where
  pub status : Text
  pub output : Value
  pub error : Text

abbrev pub command_output : Value → Text → Text → Value → Bool → Value
command_output exit_code stdout stderr seconds truncated = obj (
    field (codes "command")
      (obj (
        field (codes "exit_code") exit_code (
          field (codes "stdout_redacted") (str stdout) (
            field (codes "stderr_redacted") (str stderr) (
              field (codes "execution_time_seconds") seconds
                (field (codes "truncated") (bool truncated) end))))))
      end)

abbrev is_zero : ℤ → Bool
is_zero (pos zero) = true
is_zero _ = false

-- str(exc)
abbrev message_of : ExecError → Text
message_of (error text) = text
message_of (timeout text) = text
message_of too_large = codes "Runtime command output exceeded the configured cap."

-- The payload is refused before anything is run: CommandTemplateRuntimeError, or what `int` raises.
pub data PayloadError : Type 0 where
  unsupported_payload not_fixed_argv not_a_number : PayloadError

module _ (py : Python) (machine : Machine) where
  -- The report of a command that has ended, or has not been run to its end.
  unfoldable pub report_of : ℤ → Result ExecError SafeExecResult → Report
  report_of timeout_seconds (ok result) =
      let good = is_zero result.returncode in
      record {
        status = if good then codes "succeeded" else codes "failed";
        output =
            command_output (int result.returncode) (redact_secrets py result.stdout)
              (redact_secrets py result.stderr) (float result.execution_time_seconds)
              result.truncated;
        error = if good then [] else codes "Command exited with a non-zero status.";
      }
  report_of timeout_seconds (err (timeout text)) =
      let message = redact_secrets py text in
      record {
        status = codes "timeout";
        output = command_output null [] message (int timeout_seconds) false;
        error = message;
      }
  report_of timeout_seconds (err e) =
      let message = redact_secrets py (message_of e) in
      record {
        status = codes "failed";
        output = command_output null [] message (int (pos 0)) false;
        error = message;
      }

  -- int(payload.get(key) or default)
  unfoldable pub number_of : Fields → Text → ℕ → Option ℤ
  number_of payload key fallback = elim (get payload key) [
    | none ↦ some (pos fallback)
    | some v ↦ if truthy v then machine.to_int v else some (pos fallback)
  ]

  abbrev argv_of : Option Value → Option (List Text)
  argv_of (some (arr (cons v xs))) = part_of_argv (cons v xs)
  argv_of _ = none

  abbrev is_command_template : Option Value → Bool
  is_command_template (some (str s)) = text_eq s (codes "command_template")
  is_command_template _ = false

  unfoldable pub execute_command_template_payload : Fields → Result PayloadError Report
  unfolding number_of report_of
  execute_command_template_payload payload =
      if not (is_command_template (get payload (codes "execution_type")))
      then err unsupported_payload
      else elim (argv_of (get payload (codes "argv"))) [
        | none ↦ err not_fixed_argv
        | some argv ↦ elim (number_of payload (codes "timeout_seconds") 10) [
          | none ↦ err not_a_number
          | some seconds ↦ elim (number_of payload (codes "max_output_bytes") 65536) [
            | none ↦ err not_a_number
            | some max ↦ ok (report_of seconds (run_fixed_command py machine argv seconds max true))
          ]
        ]
      ]
