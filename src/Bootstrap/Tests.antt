-- ===== src/Bootstrap/Tests.antt =====
-- Runs of the bootstrap policy and of sessions, and the theorems at them.
use matrix_scanner_saas.Prelude.{
  ℕ, String, true, false, none, some, [], ◌∷◌, ◌++◌, ◌≡◌, refl, Option,
}
use matrix_scanner_saas.Prelude.Results.{ok, err}
use matrix_scanner_saas.Bootstrap.{
  unknown_template, unsupported_package_manager, require_template, render_command,
  reject_raw_command, package_install_template,
}
use matrix_scanner_saas.Text.{codes, splitlines, ends_with, strip}
use matrix_scanner_saas.Json.{pos}
use matrix_scanner_saas.Redaction.Sample.{sample}
use matrix_scanner_saas.Audit.{success}
use matrix_scanner_saas.Bootstrap.Session.{
  SessionStatus, Rows, Remote, SshResult, step_failed, create_bootstrap_session, run_step,
  run_command, record_result, finished_step, new_step, detect_package_manager, with_status,
  is_usable, finish_session, cleanup, cleanup_session_credentials,
}
use matrix_scanner_saas.Bootstrap.Run.{
  run_bootstrap_session, attempt, connect, probe, install, install_packages, deploy, start,
  verify_heartbeat, usable_credential, expire_session, create_token, complete, abandon,
}
use matrix_scanner_saas.Bootstrap.Run.Over.{IsOver, run_bootstrap_session-IsOver}
use matrix_scanner_saas.Bootstrap.Run.Sent.{AllAllowed, run_bootstrap_session-AllAllowed}
use matrix_scanner_saas.Bootstrap.Run.Stages.{Manager, session_commands}
use matrix_scanner_saas.Bootstrap.Run.Script.{run_bootstrap_session-session_commands}

unknown_refused : render_command "rm_everything" true ≡ err unknown_template
unfolding render_command require_template
unknown_refused = refl

brew_refused : package_install_template "brew" ≡ err unsupported_package_manager
unfolding package_install_template
brew_refused = refl

rendered : render_command "python_runtime_detector" false ≡ ok "command -v python3"
unfolding render_command require_template
rendered = refl

-- A server that answers every command with success and one path.
abbrev answered : ℕ → String → Option SshResult
answered n command =
    some (record { exit_code = pos 0; stdout = codes "/usr/bin/apt-get"; stderr = [] })

abbrev willing : Remote
willing = record {
  decrypts = true;
  connects = true;
  uploads = true;
  answer = answered;
  heartbeat = some 7;
}

-- A server on which every command fails.
abbrev refused : ℕ → String → Option SshResult
refused n command = some (record { exit_code = pos 1; stdout = []; stderr = [] })

abbrev broken : Remote
broken = record {
  decrypts = true;
  connects = true;
  uploads = true;
  answer = refused;
  heartbeat = none;
}

-- The rows that `create_bootstrap_session` makes for an admin at time 10.
abbrev created : Rows
created = record {
  session = record {
    status = SessionStatus.pending;
    by_admin = true;
    confirm_package_install = true;
    started_at = none;
    finished_at = none;
    failure_reason = none;
  };
  credentials = record { has_payload = true; expires_at = 1810; destroyed_at = none } ∷ [];
  steps = [];
  token = none;
  installations = [];
  audits = ("bootstrap.session_created", success) ∷ [];
  commands = [];
  answers_read = 0;
}

created_lem : create_bootstrap_session 10 true true true true ≡ ok created
unfolding create_bootstrap_session
created_lem = refl

succeeds : (run_bootstrap_session sample willing 20 created).0 ≡ ok tt
unfolding run_bootstrap_session attempt connect probe install install_packages deploy start
    verify_heartbeat usable_credential expire_session create_token complete abandon run_step
    run_command record_result finished_step new_step detect_package_manager is_usable with_status
    finish_session cleanup cleanup_session_credentials require_template render_command
    reject_raw_command package_install_template splitlines ends_with strip
succeeds = refl

fails :
    (run_bootstrap_session sample broken 20 created).0 ≡ err (step_failed "ssh_connectivity_check")
unfolding run_bootstrap_session attempt connect probe install install_packages deploy start
    verify_heartbeat usable_credential expire_session create_token complete abandon run_step
    run_command record_result finished_step new_step detect_package_manager is_usable with_status
    finish_session cleanup cleanup_session_credentials require_template render_command
    reject_raw_command package_install_template splitlines ends_with strip
fails = refl

run_bootstrap_session-IsOver_example : IsOver (run_bootstrap_session sample broken 20 created)
run_bootstrap_session-IsOver_example =
    run_bootstrap_session-IsOver sample broken 20 created refl refl refl

run_bootstrap_session-AllAllowed_example :
    AllAllowed (run_bootstrap_session sample broken 20 created).1.commands
run_bootstrap_session-AllAllowed_example =
    run_bootstrap_session-AllAllowed sample broken 20 created tt

run_bootstrap_session-session_commands_example :
    (m : Manager) × ((run_bootstrap_session sample willing 20 created).1.commands
      ≡ session_commands m ++ [])
run_bootstrap_session-session_commands_example =
    run_bootstrap_session-session_commands sample willing 20 created tt succeeds
