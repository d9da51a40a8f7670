-- ===== src/Bootstrap/Commands.antt =====
-- Which commands a bootstrap renders.
use matrix_scanner_saas.Prelude.{
  Bool, true, false, not, ◌||◌, ◌≡◌, refl, inl, inr, first, String, All, Option-cases, arith,
}
use text.Mathlib.Text.{◌==◌ as str_eq}
use matrix_scanner_saas.Prelude.First.{first-All, first_passes}
use matrix_scanner_saas.Prelude.Results.{ok, err}
use matrix_scanner_saas.Bootstrap.{
  unconfirmed, CommandTemplate, command_templates, package_manager_template, require_template,
  render_command, package_install_template, reject_raw_command,
}

-- The rendered text is the command of a template that needs no confirmation, or got one.
pub record IsRendered (key : String) (confirmed : Bool) (command : String) : Type 0 where
  pub template : CommandTemplate
  pub has_key : str_eq template.key key ≡ true
  pub consented : (not template.requires_confirmation || confirmed) ≡ true
  pub is_command : command ≡ template.command
  pub not_raw : reject_raw_command command ≡ ok tt

-- Every command of the table passes the check against raw commands.
table_not_raw :
    All (λ (t : CommandTemplate). reject_raw_command t.command ≡ ok tt) command_templates
unfolding reject_raw_command
table_not_raw = ground arith

-- A command that `render_command` gives is that of a template with the given key, which needs no
-- confirmation unless it was given, and `reject_raw_command` lets it pass.
pub render_command-IsRendered :
    (key : String) (confirmed : Bool) (command : String)
    → render_command key confirmed ≡ ok command
    → IsRendered key confirmed command
unfolding render_command require_template
render_command-IsRendered key confirmed command h =
    elim (Option-cases (first (λ (t : CommandTemplate). str_eq t.key key) command_templates)) [
      | inl absent ↦ absurd (ground arith)
      | inr (template, found) ↦
          let same : command ≡ template.command = ground arith in
          record {
            template = template;
            has_key =
                first_passes (λ (t : CommandTemplate). str_eq t.key key) command_templates template
                  found;
            consented = ground arith;
            is_command = same;
            not_raw = rw same (
                first-All (λ (t : CommandTemplate). str_eq t.key key)
                  (λ t. reject_raw_command t.command ≡ ok tt) command_templates template
                  table_not_raw found);
          }
    ]

-- The command of this key is refused without a confirmation and rendered with one.
abbrev pub NeedsConsent : String → Type 0
NeedsConsent key =
    (render_command key false ≡ err unconfirmed)
    × ((command : String) × (render_command key true ≡ ok command))

managers_need_consent : All (λ (row : String × String). NeedsConsent row.1) package_manager_template
unfolding render_command require_template
managers_need_consent = ((refl, (_, refl)), ((refl, (_, refl)), ((refl, (_, refl)), tt)))

-- Whatever package manager `package_install_template` knows, installing packages with its template is
-- refused without a confirmation, and renders a command with one.
pub package_install_template-NeedsConsent :
    (package_manager key : String)
    → package_install_template package_manager ≡ ok key
    → NeedsConsent key
unfolding package_install_template
package_install_template-NeedsConsent package_manager key h =
    elim (Option-cases
      (first (λ (row : String × String). str_eq row.0 package_manager) package_manager_template)) [
        | inl absent ↦ absurd (ground arith)
        | inr (row, found) ↦
            let same : row.1 ≡ key = ground arith in
            rw (← same) (
              first-All (λ (r : String × String). str_eq r.0 package_manager)
                (λ r. NeedsConsent r.1) package_manager_template row managers_need_consent found)
      ]
