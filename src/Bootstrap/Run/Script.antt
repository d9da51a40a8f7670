-- ===== src/Bootstrap/Run/Script.antt =====
-- What a completed session has run on the server.
use matrix_scanner_saas.Prelude.{ℕ, ◌≡◌, sym, ◌∙◌, ap, inl, inr, String, List, [], ◌∷◌, ◌++◌, arith}
use matrix_scanner_saas.Prelude.Results.{ok, Result-cases}
use matrix_scanner_saas.Redaction.{Python}
use matrix_scanner_saas.Bootstrap.Session.{Rows, Remote, ◌>>=◌}
use matrix_scanner_saas.Bootstrap.Run.{
  connect, probe, install, attempt, complete, run_bootstrap_session,
}
use matrix_scanner_saas.Bootstrap.Run.Stages.{
  Manager, install_command, session_commands, start_commands, deploy_commands, probe_commands,
  bind_ok, Adds, Adds-bind, Adds-connect, Adds-probe, Adds-install, Adds-after_install,
  after_install, after_probe,
}

module _ (py : Python) (remote : Remote) (now : ℕ) where
  attempt-commands :
      (rows : Rows) (agent : ℕ)
      → (attempt py remote now rows).0 ≡ ok agent
      → (m : Manager) × ((attempt py remote now rows).1.commands
          ≡ session_commands m ++ rows.commands)
  unfolding Adds attempt
  attempt-commands rows agent h =
      let (u, connected, does) =
        bind_ok (connect py remote now) (λ _. probe py remote now >>= after_probe py remote now)
          rows agent h in
      let rows1 = (connect py remote now rows).1 in
      let h1 = ap (λ r. r.0) (sym does) ∙ h in
      let (manager, probed, does1) =
        bind_ok (probe py remote now) (after_probe py remote now) rows1 agent h1 in
      let rows2 = (probe py remote now rows1).1 in
      let (m, installs) = Adds-install py remote now manager in
      let last_half : List String =
        start_commands ++ deploy_commands ++ ("command -v python3" ∷ install_command m ∷ []) in
      (
        m,
        ap (λ r. r.1.commands) (does ∙ does1)
            ∙ Adds-bind (install py remote now manager) (λ _. after_install py remote now)
                ("command -v python3" ∷ install_command m ∷ []) (start_commands ++ deploy_commands)
                installs (λ _. Adds-after_install py remote now) rows2 agent
                (ap (λ r. r.0) (sym does1) ∙ h1)
            ∙ ap (λ (l : List String). last_half ++ l)
                (Adds-probe py remote now rows1 manager probed
                  ∙ ap (λ (l : List String). probe_commands ++ l)
                      (Adds-connect py remote now rows u connected)),
      )

-- A run that returns, and does not raise, has sent to the server exactly the fixed commands of a bootstrap
-- session, each once and in their order, with the package installation of one supported package manager,
-- whatever the rows before it and whatever the server answers.
pub run_bootstrap_session-session_commands :
    (py : Python) (remote : Remote) (now : ℕ) (rows : Rows) (u : Unit {0})
    → (run_bootstrap_session py remote now rows).0 ≡ ok u
    → (m : Manager) × ((run_bootstrap_session py remote now rows).1.commands
        ≡ session_commands m ++ rows.commands)
unfolding run_bootstrap_session complete
run_bootstrap_session-session_commands py remote now rows u h =
    elim (Result-cases (attempt py remote now rows).0) [
      | inr (e, bad) ↦ absurd (ground arith)
      | inl (agent, good) ↦
          let (m, sent) = attempt-commands py remote now rows agent good in (m, ground arith)
    ]
