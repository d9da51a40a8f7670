-- ===== src/Bootstrap/Run.antt =====
-- A run of a bootstrap session: apps/bootstrap/services.py, `run_bootstrap_session`, `_usable_credential`
-- and `_verify_heartbeat`.
--
-- The body of the try block is a chain of actions, one function for each stage of the session. One time
-- stands for all the calls of `timezone.now`. The configuration that is uploaded, the path of the Python
-- runtime and the texts of summaries are written and never read, and are left out.
pub mod Over
pub mod Stages
pub mod Script
pub mod Sent
use matrix_scanner_saas.Prelude.{
  ℕ, suc, ◌+◌, String, Bool, true, false, not, ◌&&◌, ◌||◌, Option, none, some, List, [], ◌∷◌,
  if◌then◌else◌,
}
use matrix_scanner_saas.Prelude.Results.{Result, ok, err}
use matrix_scanner_saas.Text.{Text, text_eq, strip}
use matrix_scanner_saas.Redaction.{Python}
use matrix_scanner_saas.Audit.{AuditResult}
use matrix_scanner_saas.Bootstrap.{package_install_template}
use matrix_scanner_saas.Bootstrap.Session.{
  SessionStatus, StepStatus, InstallationStatus, Failure, not_admin, is_over, unconfirmed,
  no_credential, credential_spent, undecryptable, unreachable, no_python, upload_failed,
  no_heartbeat, BootstrapCredential, BootstrapStep, RegistrationToken, BootstrapSession, Rows,
  Remote, SshResult, is_terminal, is_expired, is_usable, cleanup_session_credentials, audited, Act,
  ◌>>=◌, ◌>>◌, return, raise, modify, require, by_policy, set_session_status, finish_session,
  run_step, detect_package_manager,
}

-- The rows after a credential was found spent.
unfoldable pub expire_session : ℕ → Rows → Rows
unfolding finish_session cleanup_session_credentials
expire_session now rows = record rows {
  session = finish_session now SessionStatus.expired (some credential_spent) rows.session;
  credentials = cleanup_session_credentials now rows.credentials;
}

unfoldable pub usable_credential : ℕ → Act (Unit {0})
unfolding is_usable expire_session
usable_credential now rows = elim rows.credentials [
  | [] ↦ (err no_credential, rows)
  | credential ∷ older ↦
      if is_usable now credential
      then (ok tt, rows)
      else (err credential_spent, expire_session now rows)
]

-- AgentRegistrationToken.create_for_server, which is given an hour
unfoldable pub create_token : ℕ → Rows → Rows
create_token now rows = record rows {
  token = some (record { expires_at = now + 3600; revoked_at = none });
}

abbrev heartbeat_step : ℕ → StepStatus → BootstrapStep
heartbeat_step now status = record {
  step_key = "agent_heartbeat_verify";
  status = status;
  template_key = "";
  requires_confirmation = false;
  confirmed_at = none;
  exit_code = none;
  stdout_redacted = [];
  stderr_redacted = [];
  started_at = some now;
  finished_at = some now;
}

abbrev with_step : BootstrapStep → Rows → Rows
with_step step rows = record rows { steps = step ∷ rows.steps }

module _ (py : Python) (remote : Remote) (now : ℕ) where
  -- Up to the first command.
  unfoldable pub connect : Act (Unit {0})
  connect = do
    usable_credential now
    require remote.decrypts undecryptable
    set_session_status now SessionStatus.connecting
    modify (audited "bootstrap.started" AuditResult.success)
    require remote.connects unreachable

  unfoldable pub probe : Act String
  probe = do
    run_step py remote now "ssh_connectivity_check" "remote_os_probe" false
    set_session_status now SessionStatus.probing
    run_step py remote now "systemd_detector" "systemd_detector" false
    run_step py remote now "privilege_check" "privilege_check" false
    found ← run_step py remote now "package_manager_detector" "package_manager_detector" false
    detect_package_manager found.stdout

  unfoldable pub install_packages : String → Act (Unit {0})
  install_packages template_key = do
    set_session_status now SessionStatus.installing
    run_step py remote now "scanner_dependencies_install" template_key true
    found ← run_step py remote now "python_runtime_detector" "python_runtime_detector" false
    require (not (text_eq (strip found.stdout) [])) no_python

  unfoldable pub install : String → Act (Unit {0})
  install manager = do
    template_key ← by_policy (package_install_template manager)
    install_packages template_key

  unfoldable pub deploy : Act (Unit {0})
  deploy = do
    set_session_status now SessionStatus.deploying
    run_step py remote now "bootstrap_directory_prepare" "bootstrap_directory_prepare" false
    modify (create_token now)
    require remote.uploads upload_failed
    run_step py remote now "scanner_code_deploy" "scanner_archive_extract" false
    set_session_status now SessionStatus.configuring
    run_step py remote now "scanner_config_write" "scanner_config_install" false
    return tt

  unfoldable pub start : Act (Unit {0})
  start = do
    run_step py remote now "systemd_service_install" "systemd_service_install" false
    set_session_status now SessionStatus.starting
    run_step py remote now "systemd_service_start" "systemd_service_start" false
    return tt

  -- The agent whose heartbeat was seen.
  unfoldable pub verify_heartbeat : Act ℕ
  verify_heartbeat rows = elim remote.heartbeat [
    | none ↦ (err no_heartbeat, with_step (heartbeat_step now StepStatus.failed) rows)
    | some agent ↦ (
      ok agent,
      audited "bootstrap.heartbeat_verified" AuditResult.success
          (with_step (heartbeat_step now StepStatus.succeeded) rows),
    )
  ]

  unfoldable pub attempt : Act ℕ
  attempt = do
    connect
    manager ← probe
    install manager
    deploy
    start
    set_session_status now SessionStatus.verifying_heartbeat
    verify_heartbeat

-- The end of the try block.
unfoldable pub complete : ℕ → Rows → Rows
unfolding finish_session cleanup_session_credentials
complete now rows = audited "bootstrap.completed" AuditResult.success (record rows {
  installations = InstallationStatus.installed ∷ rows.installations;
  session = finish_session now SessionStatus.completed none rows.session;
  credentials = cleanup_session_credentials now rows.credentials;
})

abbrev revoked : ℕ → Option RegistrationToken → Option RegistrationToken
revoked now none = none
revoked now (some token) = some (record token { revoked_at = some now })

abbrev failed_session : ℕ → Failure → BootstrapSession → BootstrapSession
failed_session now reason session =
    if is_expired session.status
    then record session { failure_reason = some reason }
    else finish_session now SessionStatus.failed (some reason) session

-- get_or_create: an installation of the session that is there is left as it is
abbrev failed_installation : List InstallationStatus → List InstallationStatus
failed_installation [] = InstallationStatus.failed ∷ []
failed_installation (installation ∷ others) = installation ∷ others

-- The except block. The token as the run holds it has never been used.
unfoldable pub abandon : ℕ → Failure → Rows → Rows
unfolding finish_session cleanup_session_credentials
abandon now reason rows = audited "bootstrap.failed" AuditResult.failure (record rows {
  token = revoked now rows.token;
  session = failed_session now reason rows.session;
  credentials = cleanup_session_credentials now rows.credentials;
  installations = failed_installation rows.installations;
})

abbrev conclude : ℕ → Result Failure ℕ → Rows → Result Failure (Unit {0}) × Rows
conclude now (ok agent) rows = (ok tt, complete now rows)
conclude now (err reason) rows = (err reason, abandon now reason rows)

unfoldable pub run_bootstrap_session : Python → Remote → ℕ → Rows → Result Failure (Unit {0}) × Rows
unfolding complete abandon
run_bootstrap_session py remote now rows =
    if not rows.session.by_admin
    then (err not_admin, rows)
    else if is_terminal rows.session.status
    then (err is_over, rows)
    else if not rows.session.confirm_package_install
    then (
      err unconfirmed,
      record rows {
        session = record rows.session { status = SessionStatus.awaiting_package_confirmation };
      },
    )
    else (let tried = attempt py remote now rows in conclude now tried.0 tried.1)
