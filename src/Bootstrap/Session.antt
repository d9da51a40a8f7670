-- ===== src/Bootstrap/Session.antt =====
-- One bootstrap session: apps/bootstrap/models.py, and of apps/bootstrap/services.py the creation of a
-- session, its credentials and `_run_step`.
--
-- What runs on the server is the record Remote: whether it lets itself be reached, what it answers to
-- each command in turn, and whether the agent's heartbeat is seen. An answer that does not come, since
-- the connection is lost or times out, is an exception. A call takes the time at which it is made, and
-- a function that may raise is an action on the rows of the session, which an exception leaves as they
-- are at that point.
use matrix_scanner_saas.Prelude.{
  ℕ, zero, suc, ◌+◌, String, Bool, true, false, not, ◌&&◌, ◌||◌, Option, none, some, List, [], ◌∷◌,
  ltb, leb, if◌then◌else◌, take, any, map,
}
use matrix_scanner_saas.Prelude.Results.{Result, ok, err}
use matrix_scanner_saas.Text.{Text, codes, ends_with, splitlines}
use matrix_scanner_saas.Json.{ℤ, pos}
use matrix_scanner_saas.Redaction.{Python, redact_secrets}
use matrix_scanner_saas.Audit.{AuditResult}
use matrix_scanner_saas.Agents.{is_none}
use matrix_scanner_saas.Bootstrap.{BootstrapPolicyError, render_command, reject_raw_command}

pub data SessionStatus : Type 0 where
  pending connecting probing awaiting_package_confirmation installing deploying : SessionStatus
  configuring starting verifying_heartbeat completed failed cancelled expired : SessionStatus

pub data StepStatus : Type 0 where
  pending running succeeded failed skipped cancelled : StepStatus

pub data AuthMethod : Type 0 where
  password private_key : AuthMethod

pub data InstallationStatus : Type 0 where
  pending installed failed archived : InstallationStatus

pub data Failure : Type 0 where
  not_admin no_host no_secret is_over unconfirmed : Failure
  no_credential credential_spent undecryptable unreachable connection_lost : Failure
  no_package_manager no_python upload_failed no_heartbeat : Failure
  step_failed : String → Failure
  bad_template : BootstrapPolicyError → Failure

pub record BootstrapCredential : Type 0 where
  -- encrypted_payload is not empty
  pub has_payload : Bool
  pub expires_at : ℕ
  pub destroyed_at : Option ℕ

pub record BootstrapStep : Type 0 where
  pub step_key : String
  pub status : StepStatus
  pub template_key : String
  pub requires_confirmation : Bool
  pub confirmed_at : Option ℕ
  pub exit_code : Option ℤ
  pub stdout_redacted : Text
  pub stderr_redacted : Text
  pub started_at : Option ℕ
  pub finished_at : Option ℕ

-- The registration token that the run makes for the agent, as the run holds it.
pub record RegistrationToken : Type 0 where
  pub expires_at : ℕ
  pub revoked_at : Option ℕ

pub record BootstrapSession : Type 0 where
  pub status : SessionStatus
  -- the creator is a Matrix admin
  pub by_admin : Bool
  pub confirm_package_install : Bool
  pub started_at : Option ℕ
  pub finished_at : Option ℕ
  pub failure_reason : Option Failure

-- The rows of one session, the newest first, and what the server was asked to run, the last first.
pub record Rows : Type 0 where
  pub session : BootstrapSession
  pub credentials : List BootstrapCredential
  pub steps : List BootstrapStep
  pub token : Option RegistrationToken
  pub installations : List InstallationStatus
  pub audits : List (String × AuditResult)
  pub commands : List String
  pub answers_read : ℕ

pub record SshResult : Type 0 where
  pub exit_code : ℤ
  pub stdout : Text
  pub stderr : Text

pub record Remote : Type 0 where
  pub decrypts : Bool
  pub connects : Bool
  pub uploads : Bool
  -- the answer to the command of this number
  pub answer : ℕ → String → Option SshResult
  pub heartbeat : Option ℕ

-- BootstrapSession.is_terminal
abbrev pub is_terminal : SessionStatus → Bool
is_terminal SessionStatus.completed = true
is_terminal SessionStatus.failed = true
is_terminal SessionStatus.cancelled = true
is_terminal SessionStatus.expired = true
is_terminal _ = false

abbrev pub is_expired : SessionStatus → Bool
is_expired SessionStatus.expired = true
is_expired _ = false

abbrev pub is_pending : SessionStatus → Bool
is_pending SessionStatus.pending = true
is_pending _ = false

abbrev is_connecting : SessionStatus → Bool
is_connecting SessionStatus.connecting = true
is_connecting _ = false

-- BootstrapCredential.is_usable
unfoldable pub is_usable : ℕ → BootstrapCredential → Bool
is_usable now credential =
    credential.has_payload && is_none credential.destroyed_at && ltb now credential.expires_at

-- BootstrapCredential.cleanup, where `cleanup_session_credentials` calls it
unfoldable pub cleanup : ℕ → BootstrapCredential → BootstrapCredential
cleanup now credential =
    if credential.has_payload || is_none credential.destroyed_at
    then record credential { has_payload = false; destroyed_at = some now }
    else credential

unfoldable pub cleanup_session_credentials : ℕ → List BootstrapCredential → List BootstrapCredential
unfolding cleanup
cleanup_session_credentials now credentials = map (cleanup now) credentials

abbrev pub audited : String → AuditResult → Rows → Rows
audited action result rows = record rows { audits = (action, result) ∷ rows.audits }

-- DEFAULT_CREDENTIAL_TTL_MINUTES, in seconds
abbrev pub default_credential_ttl : ℕ
default_credential_ttl = 1800

-- `has_host` and `has_secret` say that the resolved host and the secret are not empty; the two ways to
-- authenticate are the only values of the argument that pass its test.
unfoldable pub create_bootstrap_session : ℕ → Bool → Bool → Bool → Bool → Result Failure Rows
create_bootstrap_session now by_admin has_host has_secret confirm =
    if not by_admin
    then err not_admin
    else if not has_host
    then err no_host
    else if not has_secret
    then err no_secret
    else ok (record {
      session = record {
        status = SessionStatus.pending;
        by_admin = true;
        confirm_package_install = confirm;
        started_at = none;
        finished_at = none;
        failure_reason = none;
      };
      credentials =
          record {
            has_payload = true;
            expires_at = now + default_credential_ttl;
            destroyed_at = none;
          }
          ∷ [];
      steps = [];
      token = none;
      installations = [];
      audits = ("bootstrap.session_created", AuditResult.success) ∷ [];
      commands = [];
      answers_read = 0;
    })

-- A credential that `expire_stale_credentials` finds.
abbrev pub is_stale : ℕ → BootstrapCredential → Bool
is_stale now credential = is_none credential.destroyed_at && leb credential.expires_at now

abbrev clean_stale : ℕ → BootstrapCredential → BootstrapCredential
clean_stale now credential =
    if is_stale now credential
    then record credential { has_payload = false; destroyed_at = some now }
    else credential

-- What `expire_stale_credentials` does to one session.
unfoldable pub expire_stale_credentials : ℕ → Rows → Rows
expire_stale_credentials now rows = record rows {
  credentials = map (clean_stale now) rows.credentials;
  session =
      if any (is_stale now) rows.credentials && is_pending rows.session.status
      then record rows.session {
        status = SessionStatus.expired;
        finished_at = some now;
        failure_reason = some credential_spent;
      }
      else rows.session;
}

-- An action that may raise.
abbrev pub Act : Type 0 → Type 0
Act A = Rows → Result Failure A × Rows

abbrev after_result :
    {A B : Type 0} → Result Failure A → Rows → (A → Act B) → Result Failure B × Rows
after_result (ok a) rows f = f a rows
after_result (err e) rows f = (err e, rows)

infixl 5 ◌>>=◌ ◌>>◌
abbrev pub ◌>>=◌ : {A B : Type 0} → Act A → (A → Act B) → Act B
◌>>=◌ m f rows = after_result (m rows).0 (m rows).1 f

abbrev pub ◌>>◌ : {A B : Type 0} → Act A → Act B → Act B
m >> next = m >>= λ _. next

abbrev pub return : {A : Type 0} → A → Act A
return a rows = (ok a, rows)

abbrev pub raise : {A : Type 0} → Failure → Act A
raise e rows = (err e, rows)

abbrev pub modify : (Rows → Rows) → Act (Unit {0})
modify f rows = (ok tt, f rows)

abbrev pub require : Bool → Failure → Act (Unit {0})
require b e rows = if b then (ok tt, rows) else (err e, rows)

abbrev pub by_policy : {A : Type 0} → Result BootstrapPolicyError A → Act A
by_policy (ok a) rows = (ok a, rows)
by_policy (err e) rows = (err (bad_template e), rows)

-- _set_session_status
unfoldable pub with_status : ℕ → SessionStatus → BootstrapSession → BootstrapSession
with_status now status session = record session {
  status = status;
  started_at =
      if is_connecting status && is_none session.started_at then some now else session.started_at;
}

abbrev pub set_session_status : ℕ → SessionStatus → Act (Unit {0})
set_session_status now status =
    modify (λ rows. record rows { session = with_status now status rows.session })

-- _finish_session
unfoldable pub finish_session :
    ℕ → SessionStatus → Option Failure → BootstrapSession → BootstrapSession
finish_session now status reason session = record session {
  status = status;
  finished_at = some now;
  failure_reason = reason;
}

abbrev pub is_zero : ℤ → Bool
is_zero (pos zero) = true
is_zero _ = false

unfoldable pub new_step : ℕ → String → String → Bool → BootstrapStep
new_step now step_key template_key confirmed =
    let requires = ends_with (codes template_key) (codes "_package_install") in
    record {
      step_key = step_key;
      status = StepStatus.running;
      template_key = template_key;
      requires_confirmation = requires;
      confirmed_at = if requires && confirmed then some now else none;
      exit_code = none;
      stdout_redacted = [];
      stderr_redacted = [];
      started_at = some now;
      finished_at = none;
    }

module _ (py : Python) (remote : Remote) (now : ℕ) where
  unfoldable pub finished_step : BootstrapStep → SshResult → BootstrapStep
  finished_step step result = record step {
    exit_code = some result.exit_code;
    stdout_redacted = take 8000 (redact_secrets py result.stdout);
    stderr_redacted = take 8000 (redact_secrets py result.stderr);
    finished_at = some now;
    status = if is_zero result.exit_code then StepStatus.succeeded else StepStatus.failed;
  }

  -- The step after ssh.run: the step is saved, and a failed one raises.
  unfoldable pub record_result : BootstrapStep → List BootstrapStep → SshResult → Act SshResult
  record_result step earlier result rows =
      let saved = record rows { steps = finished_step step result ∷ earlier } in
      if is_zero result.exit_code
      then (ok result, audited "bootstrap.step_completed" AuditResult.success saved)
      else (
        err (step_failed step.step_key),
        audited "bootstrap.step_failed" AuditResult.failure saved,
      )

  -- The command is sent, and its answer read.
  unfoldable pub run_command : BootstrapStep → String → Act SshResult
  run_command step command rows =
      let sent = record rows {
        steps = step ∷ rows.steps;
        commands = command ∷ rows.commands;
        answers_read = suc rows.answers_read;
      } in
      elim (remote.answer rows.answers_read command) [
        | none ↦ (err connection_lost, sent)
        | some result ↦ record_result step rows.steps result sent
      ]

  unfoldable pub run_step : String → String → Bool → Act SshResult
  run_step step_key template_key confirmed = do
    command ← by_policy (render_command template_key confirmed)
    by_policy (reject_raw_command command)
    run_command (new_step now step_key template_key confirmed) command

abbrev package_manager_of : List Text → Option String
package_manager_of [] = none
package_manager_of (line ∷ lines) =
    let rest = package_manager_of lines in
    if ends_with line (codes "apt-get")
    then some "apt"
    else if ends_with line (codes "dnf")
    then some "dnf"
    else if ends_with line (codes "yum")
    then some "yum"
    else rest

-- _detect_package_manager
unfoldable pub detect_package_manager : Text → Act String
detect_package_manager stdout rows = elim (package_manager_of (splitlines stdout)) [
  | none ↦ (err no_package_manager, rows)
  | some manager ↦ (ok manager, rows)
]
