-- ===== src/Bootstrap/Run/Stages.antt =====
-- What the stages of a bootstrap session send to the server where they succeed.
use mathlib.Core.List.{append_assoc}
use matrix_scanner_saas.Prelude.{
  ℕ, ◌≡◌, refl, sym, ◌∙◌, ap, inl, inr, String, Bool, true, false, not, List, [], ◌∷◌, ◌++◌, arith,
  Bool-cases, Option-cases,
}
use matrix_scanner_saas.Prelude.Results.{ok, Result-cases}
use text.Mathlib.Text.{◌==◌ as str_eq}
use matrix_scanner_saas.Text.{text_eq, strip}
use matrix_scanner_saas.Redaction.{Python}
use matrix_scanner_saas.Bootstrap.{
  require_template, render_command, reject_raw_command, package_install_template,
}
use matrix_scanner_saas.Bootstrap.Session.{
  SessionStatus, Failure, upload_failed, no_python, Rows, Remote, BootstrapStep, Act, ◌>>=◌, ◌>>◌,
  return, modify, require, set_session_status, run_step, run_command, record_result,
  detect_package_manager,
}
use matrix_scanner_saas.Bootstrap.Run.{
  usable_credential, expire_session, create_token, connect, probe, install, install_packages,
  deploy, start, verify_heartbeat,
}

-- The commands of the fixed stages, the last first.
abbrev pub probe_commands : List String
probe_commands =
    "command -v apt-get || command -v dnf || command -v yum"
    ∷ "test \"$(id -u)\" = \"0\" || sudo -n true"
    ∷ "test -d /run/systemd/system && command -v systemctl" ∷ "cat /etc/os-release" ∷ []

abbrev pub deploy_commands : List String
deploy_commands =
    "sudo -n mv /tmp/matrix_scanner_config.json /opt/matrix_scanner/config.json && sudo -n chmod 600 /opt/matrix_scanner/config.json"
    ∷ "sudo -n tar -xzf /tmp/matrix_scanner_runtime.tar.gz -C /opt/matrix_scanner"
    ∷ "sudo -n mkdir -p /opt/matrix_scanner/logs /opt/matrix_scanner/data && sudo -n chown -R root:root /opt/matrix_scanner && sudo -n chmod 755 /opt/matrix_scanner"
    ∷ []

abbrev pub start_commands : List String
start_commands =
    "sudo -n systemctl enable --now matrix-scanner-agent.service"
    ∷ "sudo -n mv /tmp/matrix-scanner-agent.service /etc/systemd/system/matrix-scanner-agent.service && sudo -n systemctl daemon-reload"
    ∷ []

-- The package managers, and what each is asked to install.
pub data Manager : Type 0 where
  apt dnf yum : Manager

abbrev install_key : Manager → String
install_key apt = "apt_package_install"
install_key dnf = "dnf_package_install"
install_key yum = "yum_package_install"

abbrev pub install_command : Manager → String
install_command apt =
    "sudo -n apt-get update && sudo -n apt-get install -y python3 python3-venv python3-pip"
install_command dnf = "sudo -n dnf install -y python3 python3-pip"
install_command yum = "sudo -n yum install -y python3 python3-pip"

package_install_template-Manager :
    (manager template_key : String)
    → package_install_template manager ≡ ok template_key
    → (m : Manager) × (template_key ≡ install_key m)
unfolding package_install_template
package_install_template-Manager manager template_key h = elim (Bool-cases (str_eq "apt" manager)) [
  | inl is_apt ↦ (apt, ground arith)
  | inr not_apt ↦ elim (Bool-cases (str_eq "dnf" manager)) [
    | inl is_dnf ↦ (dnf, ground arith)
    | inr not_dnf ↦ elim (Bool-cases (str_eq "yum" manager)) [
      | inl is_yum ↦ (yum, ground arith)
      | inr not_yum ↦ absurd (ground arith)
    ]
  ]
]

rendered : (m : Manager) → render_command (install_key m) true ≡ ok (install_command m)
unfolding render_command require_template
rendered apt = refl
rendered dnf = refl
rendered yum = refl

-- The commands of a whole session, the last first.
abbrev pub session_commands : Manager → List String
session_commands m =
    start_commands
    ++ deploy_commands
    ++ ("command -v python3" ∷ install_command m ∷ [])
    ++ probe_commands

-- Where the action succeeds, it has sent these commands, the last first.
unfoldable pub Adds : {A : Type 0} → Act A → List String → Type 0
Adds {A} m cs =
    (rows : Rows) (a : A) → (m rows).0 ≡ ok a → (m rows).1.commands ≡ cs ++ rows.commands

pub bind_ok :
    {A B : Type 0} (m : Act A) (f : A → Act B) (rows : Rows) (b : B)
    → ((m >>= f) rows).0 ≡ ok b
    → (a : A) × ((m rows).0 ≡ ok a) × ((m >>= f) rows ≡ f a (m rows).1)
bind_ok m f rows b h = elim (Result-cases (m rows).0) [
  | inl (a, good) ↦ (a, good, rw good)
  | inr (e, bad) ↦ absurd (ground arith)
]

pub Adds-bind :
    {A B : Type 0} (m : Act A) (f : A → Act B) (cs ds : List String)
    → Adds m cs
    → ((a : A) → Adds (f a) ds)
    → Adds (m >>= f) (ds ++ cs)
unfolding Adds
Adds-bind m f cs ds hm hf rows b h =
    let (a, good, does) = bind_ok m f rows b h in
    let later = hf a (m rows).1 b (ap (λ r. r.0) (sym does) ∙ h) in
    ap (λ r. r.1.commands) does
    ∙ later
    ∙ ap (λ (l : List String). ds ++ l) (hm rows a good)
    ∙ sym (append_assoc ds cs rows.commands)

Adds-modify :
    (f : Rows → Rows) → ((rows : Rows) → (f rows).commands ≡ rows.commands) → Adds (modify f) []
unfolding Adds
Adds-modify f same rows a h = same rows

Adds-require : (b : Bool) (e : Failure) → Adds (require b e) []
unfolding Adds
Adds-require b e rows a h = elim (Bool-cases b) [
  | inl good ↦ rw good
  | inr bad ↦ absurd (ground arith)
]

Adds-return : {A : Type 0} (a : A) → Adds (return a) []
unfolding Adds
Adds-return a rows b h = refl

Adds-detect : (stdout : _) → Adds (detect_package_manager stdout) []
unfolding Adds detect_package_manager
Adds-detect stdout rows a h = ground arith

module _ (py : Python) (remote : Remote) (now : ℕ) where
  Adds-run_command :
      (step : BootstrapStep) (command : String)
      → Adds (run_command py remote now step command) (command ∷ [])
  unfolding Adds run_command record_result
  Adds-run_command step command rows a h =
      elim (Option-cases (remote.answer rows.answers_read command)) [
        | inl lost ↦ absurd (ground arith)
        | inr (result, read) ↦ rw (read, run_command) (ground arith)
      ]

  -- A step whose template renders to this command.
  Adds-run_step :
      (step_key template_key : String) (confirmed : Bool) (command : String)
      → render_command template_key confirmed ≡ ok command
      → Adds (run_step py remote now step_key template_key confirmed) (command ∷ [])
  unfolding Adds run_step
  Adds-run_step step_key template_key confirmed command rendered rows a h =
      elim (Result-cases (reject_raw_command command)) [
        | inr (e, bad) ↦ absurd (ground arith)
        | inl (u, fine) ↦ rw (rendered, fine) (Adds-run_command _ command rows a (ground arith))
      ]

  Adds-usable_credential : Adds (usable_credential now) []
  unfolding Adds usable_credential expire_session
  Adds-usable_credential rows a h = ground arith

  pub Adds-connect : Adds (connect py remote now) []
  unfolding Adds connect usable_credential expire_session
  Adds-connect rows a h = ground arith

  Adds-status : (status : SessionStatus) → Adds (set_session_status now status) []
  unfolding Adds
  Adds-status status rows a h = refl

  pub Adds-probe : Adds (probe py remote now) probe_commands
  unfolding probe require_template render_command
  Adds-probe =
      Adds-bind (run_step py remote now "ssh_connectivity_check" "remote_os_probe" false) _ _ _
        (Adds-run_step _ _ _ _ refl)
        λ _.
          Adds-bind (set_session_status now SessionStatus.probing) _ [] _
            (Adds-status SessionStatus.probing)
            λ _.
              Adds-bind (run_step py remote now "systemd_detector" "systemd_detector" false) _ _ _
                (Adds-run_step _ _ _ _ refl)
                λ _.
                  Adds-bind (run_step py remote now "privilege_check" "privilege_check" false) _ _ _
                    (Adds-run_step _ _ _ _ refl)
                    λ _.
                      Adds-bind
                        (run_step py remote now "package_manager_detector"
                          "package_manager_detector" false)
                        _ _ [] (Adds-run_step _ _ _ _ refl) λ found. Adds-detect found.stdout

  Adds-install_packages :
      (m : Manager)
      → Adds
          (install_packages py remote now (install_key m))
          ("command -v python3" ∷ install_command m ∷ [])
  unfolding install_packages require_template render_command
  Adds-install_packages m =
      Adds-bind (set_session_status now SessionStatus.installing) _ [] _
        (Adds-status SessionStatus.installing)
        λ _.
          Adds-bind (run_step py remote now "scanner_dependencies_install" (install_key m) true) _ _
            _ (Adds-run_step _ _ _ _ (rendered m))
            λ _.
              Adds-bind
                (run_step py remote now "python_runtime_detector" "python_runtime_detector" false) _
                _ [] (Adds-run_step _ _ _ _ refl)
                λ found. Adds-require (not (text_eq (strip found.stdout) [])) no_python

  pub Adds-install :
      (manager : String)
      → (m : Manager) × Adds
          (install py remote now manager)
          ("command -v python3" ∷ install_command m ∷ [])
  unfolding Adds install
  Adds-install manager = elim (Result-cases (package_install_template manager)) [
    | inr (e, bad) ↦ (apt, λ rows a h. absurd (ground arith))
    | inl (template_key, good) ↦
        let (m, same) = package_install_template-Manager manager template_key good in
        (m, λ rows a h. rw (good, same) (Adds-install_packages m rows a (ground arith)))
  ]

  Adds-deploy : Adds (deploy py remote now) (deploy_commands)
  unfolding deploy create_token require_template render_command
  Adds-deploy =
      Adds-bind (set_session_status now SessionStatus.deploying) _ [] _
        (Adds-status SessionStatus.deploying)
        λ _.
          Adds-bind
            (run_step py remote now "bootstrap_directory_prepare" "bootstrap_directory_prepare"
              false)
            _ _ _ (Adds-run_step _ _ _ _ refl)
            λ _. Adds-bind (modify (create_token now)) _ [] _ (Adds-modify _ λ rows. refl) λ _.
              Adds-bind (require remote.uploads upload_failed) _ [] _ (Adds-require _ _) λ _.
                Adds-bind
                  (run_step py remote now "scanner_code_deploy" "scanner_archive_extract" false) _ _
                  _ (Adds-run_step _ _ _ _ refl)
                  λ _.
                    Adds-bind (set_session_status now SessionStatus.configuring) _ [] _
                      (Adds-status SessionStatus.configuring)
                      λ _.
                        Adds-bind
                          (run_step py remote now "scanner_config_write" "scanner_config_install"
                            false)
                          _ _ [] (Adds-run_step _ _ _ _ refl) λ _. Adds-return tt

  Adds-start : Adds (start py remote now) start_commands
  unfolding start require_template render_command
  Adds-start =
      Adds-bind (run_step py remote now "systemd_service_install" "systemd_service_install" false) _
        _ _ (Adds-run_step _ _ _ _ refl)
        λ _.
          Adds-bind (set_session_status now SessionStatus.starting) _ [] _
            (Adds-status SessionStatus.starting)
            λ _.
              Adds-bind
                (run_step py remote now "systemd_service_start" "systemd_service_start" false) _ _
                [] (Adds-run_step _ _ _ _ refl) λ _. Adds-return tt

  Adds-verify_heartbeat : Adds (verify_heartbeat py remote now) []
  unfolding Adds verify_heartbeat
  Adds-verify_heartbeat rows a h = ground arith

  -- What the run does after the packages are installed, and after the package manager is known.
  abbrev pub after_install : Act ℕ
  after_install = do
    deploy py remote now
    start py remote now
    set_session_status now SessionStatus.verifying_heartbeat
    verify_heartbeat py remote now

  abbrev pub after_probe : String → Act ℕ
  after_probe manager = do install py remote now manager; after_install

  pub Adds-after_install : Adds after_install (start_commands ++ deploy_commands)
  Adds-after_install =
      Adds-bind (deploy py remote now) _ deploy_commands start_commands Adds-deploy λ _.
        Adds-bind (start py remote now) _ start_commands [] Adds-start λ _.
          Adds-bind (set_session_status now SessionStatus.verifying_heartbeat) _ [] []
            (Adds-status SessionStatus.verifying_heartbeat) λ _. Adds-verify_heartbeat
