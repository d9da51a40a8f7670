-- ===== src/Bootstrap/Run/Sent.antt =====
-- What a run of a bootstrap session may send to the server.
use matrix_scanner_saas.Prelude.{
  ℕ, ◌≡◌, refl, inl, inr, ◌⊎◌, String, Bool, true, false, not, List, [], ◌∷◌, arith, Bool-cases,
  Option-cases, All,
}
use matrix_scanner_saas.Prelude.Results.{Result, ok, err, Result-cases}
use matrix_scanner_saas.Text.{Text, text_eq, strip}
use matrix_scanner_saas.Redaction.{Python}
use matrix_scanner_saas.Bootstrap.{package_install_template, render_command, reject_raw_command}
use matrix_scanner_saas.Bootstrap.Session.{
  is_terminal, SessionStatus, Failure, no_python, upload_failed, BootstrapStep, Rows, Remote, Act,
  ◌>>=◌, return, modify, require, by_policy, set_session_status, new_step, record_result,
  run_command, run_step, detect_package_manager,
}
use matrix_scanner_saas.Bootstrap.Run.{
  usable_credential, expire_session, create_token, connect, probe, install_packages, install,
  deploy, start, verify_heartbeat, attempt, complete, abandon, conclude, run_bootstrap_session,
}

-- Every command that was sent is one of the table of templates.
abbrev pub AllAllowed : List String → Type 0
AllAllowed commands = All (λ (command : String). reject_raw_command command ≡ ok tt) commands

-- What the action does keeps the commands that were sent within the table.
unfoldable Keeps : {A : Type 0} → Act A → Type 0
Keeps m = (rows : Rows) → AllAllowed rows.commands → AllAllowed (m rows).1.commands

Keeps-bind :
    {A B : Type 0} (m : Act A) (f : A → Act B) → Keeps m → ((a : A) → Keeps (f a)) → Keeps (m >>= f)
unfolding Keeps
Keeps-bind m f hm hf rows h = elim (Result-cases (m rows).0) [
  | inl (a, good) ↦ rw good (hf a (m rows).1 (hm rows h))
  | inr (e, bad) ↦ rw bad (hm rows h)
]

-- An action that sends nothing.
Keeps-same :
    {A : Type 0} (m : Act A) → ((rows : Rows) → (m rows).1.commands ≡ rows.commands) → Keeps m
unfolding Keeps
Keeps-same m same rows h = rw (same rows) h

module _ (py : Python) (remote : Remote) (now : ℕ) where
  run_command-commands :
      (step : BootstrapStep) (command : String) (rows : Rows)
      → (run_command py remote now step command rows).1.commands ≡ command ∷ rows.commands
  unfolding run_command record_result
  run_command-commands step command rows =
      elim (Option-cases (remote.answer rows.answers_read command)) [
        | inl lost ↦ rw (lost, run_command) refl
        | inr (result, read) ↦ ground arith
      ]

  Keeps-run_step :
      (step_key template_key : String) (confirmed : Bool)
      → Keeps (run_step py remote now step_key template_key confirmed)
  unfolding Keeps run_step
  Keeps-run_step step_key template_key confirmed rows h =
      elim (Result-cases (render_command template_key confirmed)) [
        | inr (e, bad) ↦ rw bad h
        | inl (command, rendered) ↦ elim (Result-cases (reject_raw_command command)) [
          | inr (e, raw) ↦ rw (rendered, raw) h
          | inl (u, fine) ↦
              rw
                (
                  rendered,
                  fine,
                  run_command-commands (new_step now step_key template_key confirmed) command rows,
                )
                (fine, h)
        ]
      ]

  Keeps-detect : (stdout : Text) → Keeps (detect_package_manager stdout)
  unfolding detect_package_manager
  Keeps-detect stdout = Keeps-same (detect_package_manager stdout) λ rows. ground arith

  Keeps-require : (b : Bool) (e : Failure) → Keeps (require b e)
  Keeps-require b e = Keeps-same (require b e) λ rows. ground arith

  Keeps-status : (status : SessionStatus) → Keeps (set_session_status now status)
  Keeps-status status = Keeps-same (set_session_status now status) λ rows. refl

  Keeps-connect : Keeps (connect py remote now)
  unfolding connect usable_credential expire_session
  Keeps-connect = Keeps-same (connect py remote now) λ rows. ground arith

  Keeps-probe : Keeps (probe py remote now)
  unfolding probe
  Keeps-probe =
      Keeps-bind _ _ (Keeps-run_step "ssh_connectivity_check" "remote_os_probe" false) λ _.
        Keeps-bind _ _ (Keeps-status SessionStatus.probing) λ _.
          Keeps-bind _ _ (Keeps-run_step "systemd_detector" "systemd_detector" false) λ _.
            Keeps-bind _ _ (Keeps-run_step "privilege_check" "privilege_check" false) λ _.
              Keeps-bind _ _
                (Keeps-run_step "package_manager_detector" "package_manager_detector" false)
                λ found. Keeps-detect found.stdout

  Keeps-install : (manager : String) → Keeps (install py remote now manager)
  unfolding install install_packages
  Keeps-install manager =
      Keeps-bind _ _
        (Keeps-same (by_policy (package_install_template manager)) λ rows. ground arith)
        λ template_key. Keeps-bind _ _ (Keeps-status SessionStatus.installing) λ _.
          Keeps-bind _ _ (Keeps-run_step "scanner_dependencies_install" template_key true) λ _.
            Keeps-bind _ _
              (Keeps-run_step "python_runtime_detector" "python_runtime_detector" false)
              λ found. Keeps-require (not (text_eq (strip found.stdout) [])) no_python

  Keeps-deploy : Keeps (deploy py remote now)
  unfolding deploy create_token
  Keeps-deploy = Keeps-bind _ _ (Keeps-status SessionStatus.deploying) λ _.
      Keeps-bind _ _
        (Keeps-run_step "bootstrap_directory_prepare" "bootstrap_directory_prepare" false)
        λ _. Keeps-bind _ _ (Keeps-same (modify (create_token now)) λ rows. refl) λ _.
          Keeps-bind _ _ (Keeps-require remote.uploads upload_failed) λ _.
            Keeps-bind _ _ (Keeps-run_step "scanner_code_deploy" "scanner_archive_extract" false)
              λ _. Keeps-bind _ _ (Keeps-status SessionStatus.configuring) λ _.
                Keeps-bind _ _
                  (Keeps-run_step "scanner_config_write" "scanner_config_install" false)
                  λ _. Keeps-same (return tt) λ rows. refl

  Keeps-start : Keeps (start py remote now)
  unfolding start
  Keeps-start =
      Keeps-bind _ _ (Keeps-run_step "systemd_service_install" "systemd_service_install" false) λ _.
        Keeps-bind _ _ (Keeps-status SessionStatus.starting) λ _.
          Keeps-bind _ _ (Keeps-run_step "systemd_service_start" "systemd_service_start" false)
            λ _. Keeps-same (return tt) λ rows. refl

  Keeps-verify_heartbeat : Keeps (verify_heartbeat py remote now)
  unfolding verify_heartbeat
  Keeps-verify_heartbeat = Keeps-same (verify_heartbeat py remote now) λ rows. ground arith

  Keeps-attempt : Keeps (attempt py remote now)
  unfolding attempt
  Keeps-attempt = Keeps-bind _ _ Keeps-connect λ _. Keeps-bind _ _ Keeps-probe λ manager.
      Keeps-bind _ _ (Keeps-install manager) λ _. Keeps-bind _ _ Keeps-deploy λ _.
        Keeps-bind _ _ Keeps-start λ _.
          Keeps-bind _ _ (Keeps-status SessionStatus.verifying_heartbeat)
            λ _. Keeps-verify_heartbeat

conclude-commands :
    (now : ℕ) (outcome : Result Failure ℕ) (rows : Rows)
    → (conclude now outcome rows).1.commands ≡ rows.commands
unfolding complete abandon
conclude-commands now (ok agent) rows = refl
conclude-commands now (err e) rows = refl

run_bootstrap_session-commands :
    (py : Python) (remote : Remote) (now : ℕ) (rows : Rows)
    → ((run_bootstrap_session py remote now rows).1.commands ≡ rows.commands)
      ⊎ ((run_bootstrap_session py remote now rows).1.commands
          ≡ (attempt py remote now rows).1.commands)
unfolding run_bootstrap_session
run_bootstrap_session-commands py remote now rows =
    let tried = attempt py remote now rows in
    let same = conclude-commands now tried.0 tried.1 in
    elim (Bool-cases rows.session.by_admin) [
      | inr outsider ↦ inl (ground arith)
      | inl admin ↦ elim (Bool-cases (is_terminal rows.session.status)) [
        | inl over ↦ inl (ground arith)
        | inr ongoing ↦ elim (Bool-cases rows.session.confirm_package_install) [
          | inr unsure ↦ inl (ground arith)
          | inl confirmed ↦ inr (ground arith)
        ]
      ]
    ]

-- However a run of a session ends, and whatever the server answers, every command that was sent to the
-- server by then is the command of one of the fixed templates, where this held before the run.
pub run_bootstrap_session-AllAllowed :
    (py : Python) (remote : Remote) (now : ℕ) (rows : Rows)
    → AllAllowed rows.commands
    → AllAllowed (run_bootstrap_session py remote now rows).1.commands
unfolding Keeps
run_bootstrap_session-AllAllowed py remote now rows h =
    elim (run_bootstrap_session-commands py remote now rows) [
      | inl unsent ↦ rw unsent h
      | inr sent ↦ rw sent (Keeps-attempt py remote now rows h)
    ]
