-- ===== src/Bootstrap.antt =====
-- The commands that a bootstrap may run on a server: apps/bootstrap/policy.py.
pub mod Commands
pub mod Session
pub mod Run
mod Tests
use matrix_scanner_saas.Prelude.{
  Bool, true, false, not, ◌&&◌, Option, none, some, List, [], ◌∷◌, if◌then◌else◌, first, any,
  String,
}
use text.Mathlib.Text.{◌==◌ as str_eq}
use matrix_scanner_saas.Prelude.Results.{Result, ok, err}

pub data BootstrapPolicyError : Type 0 where
  unknown_template unconfirmed unsupported_package_manager raw_command : BootstrapPolicyError

pub record CommandTemplate : Type 0 where
  pub key : String
  pub command : String
  pub requires_confirmation : Bool

abbrev plain : String → String → CommandTemplate
plain key command = record { key = key; command = command; requires_confirmation = false }

abbrev confirmed_only : String → String → CommandTemplate
confirmed_only key command = record { key = key; command = command; requires_confirmation = true }

-- COMMAND_TEMPLATES, whose keys are those of its templates
abbrev pub command_templates : List CommandTemplate
command_templates =
    plain "remote_os_probe" "cat /etc/os-release"
    ∷ plain "systemd_detector" "test -d /run/systemd/system && command -v systemctl"
    ∷ plain "privilege_check" "test \"$(id -u)\" = \"0\" || sudo -n true"
    ∷ plain "package_manager_detector" "command -v apt-get || command -v dnf || command -v yum"
    ∷ plain "python_runtime_detector" "command -v python3"
    ∷ confirmed_only "apt_package_install"
        "sudo -n apt-get update && sudo -n apt-get install -y python3 python3-venv python3-pip"
    ∷ confirmed_only "dnf_package_install" "sudo -n dnf install -y python3 python3-pip"
    ∷ confirmed_only "yum_package_install" "sudo -n yum install -y python3 python3-pip"
    ∷ plain "bootstrap_directory_prepare"
        "sudo -n mkdir -p /opt/matrix_scanner/logs /opt/matrix_scanner/data && sudo -n chown -R root:root /opt/matrix_scanner && sudo -n chmod 755 /opt/matrix_scanner"
    ∷ plain "scanner_archive_extract"
        "sudo -n tar -xzf /tmp/matrix_scanner_runtime.tar.gz -C /opt/matrix_scanner"
    ∷ plain "scanner_config_install"
        "sudo -n mv /tmp/matrix_scanner_config.json /opt/matrix_scanner/config.json && sudo -n chmod 600 /opt/matrix_scanner/config.json"
    ∷ plain "systemd_service_install"
        "sudo -n mv /tmp/matrix-scanner-agent.service /etc/systemd/system/matrix-scanner-agent.service && sudo -n systemctl daemon-reload"
    ∷ plain "systemd_service_start" "sudo -n systemctl enable --now matrix-scanner-agent.service"
    ∷ []

-- PACKAGE_MANAGER_TEMPLATE
abbrev pub package_manager_template : List (String × String)
package_manager_template =
    ("apt", "apt_package_install")
    ∷ ("dnf", "dnf_package_install")
    ∷ ("yum", "yum_package_install")
    ∷ []

unfoldable pub require_template : String → Result BootstrapPolicyError CommandTemplate
require_template template_key =
    elim (first (λ (t : CommandTemplate). str_eq t.key template_key) command_templates) [
      | none ↦ err unknown_template
      | some template ↦ ok template
    ]

unfoldable pub render_command : String → Bool → Result BootstrapPolicyError String
unfolding require_template
render_command template_key confirmed = elim (require_template template_key) [
  | err e ↦ err e
  | ok template ↦
      if template.requires_confirmation && not confirmed
      then err unconfirmed
      else ok template.command
]

unfoldable pub package_install_template : String → Result BootstrapPolicyError String
package_install_template package_manager =
    elim (first (λ (row : String × String). str_eq row.0 package_manager)
      package_manager_template) [
        | none ↦ err unsupported_package_manager
        | some (name, template_key) ↦ ok template_key
      ]

unfoldable pub reject_raw_command : String → Result BootstrapPolicyError (Unit {0})
reject_raw_command command =
    if any (λ (t : CommandTemplate). str_eq command t.command) command_templates
    then ok tt
    else err raw_command
