-- ===== src/Bootstrap/Run/Over.antt =====
-- How a run of a bootstrap session ends, and what it may send.
use matrix_scanner_saas.Prelude.{
  ℕ, ◌≡◌, ◌≢◌, refl, inl, inr, Bool, true, false, Option, none, some, List, [], ◌∷◌, arith,
  Bool-cases, Option-cases, All,
}
use matrix_scanner_saas.Prelude.Results.{Result, ok, err}
use matrix_scanner_saas.Redaction.{Python}
use matrix_scanner_saas.Bootstrap.Session.{
  SessionStatus, Failure, InstallationStatus, BootstrapCredential, RegistrationToken, Rows, Remote,
  is_terminal, cleanup, cleanup_session_credentials, finish_session, is_expired, BootstrapSession,
}
use matrix_scanner_saas.Bootstrap.Run.{
  conclude, revoked, failed_session, failed_installation, attempt, complete, abandon,
  run_bootstrap_session,
}

-- The secret is gone.
abbrev pub IsDestroyed : BootstrapCredential → Type 0
IsDestroyed credential = (credential.has_payload ≡ false) × (credential.destroyed_at ≢ none)

abbrev IsRevoked : Option RegistrationToken → Type 0
IsRevoked none = Unit {0}
IsRevoked (some token) = token.revoked_at ≢ none

-- A session that ended without completing.
abbrev is_failure : SessionStatus → Bool
is_failure SessionStatus.failed = true
is_failure SessionStatus.expired = true
is_failure _ = false

-- A run that returned left the session completed with its agent installed; one that raised left it failed
-- or expired, with the token it made revoked and an installation on record.
abbrev IsReported : Result Failure (Unit {0}) → Rows → Type 0
IsReported (ok u) rows =
    (rows.session.status ≡ SessionStatus.completed)
    × ((others : List InstallationStatus) × (rows.installations
          ≡ InstallationStatus.installed ∷ others))
IsReported (err reason) rows =
    (is_failure rows.session.status ≡ true)
    × (rows.session.failure_reason ≡ some reason)
    × (IsRevoked rows.token)
    × (rows.installations ≢ [])

pub record IsOver (ended : Result Failure (Unit {0}) × Rows) : Type 0 where
  pub terminal : is_terminal ended.1.session.status ≡ true
  pub destroyed : All IsDestroyed ended.1.credentials
  pub reported : IsReported ended.0 ended.1

cleanup-IsDestroyed :
    (now : ℕ) (credential : BootstrapCredential) → IsDestroyed (cleanup now credential)
unfolding cleanup
cleanup-IsDestroyed now credential = elim (Bool-cases credential.has_payload) [
  | inl held ↦ ground arith
  | inr gone ↦ elim (Option-cases credential.destroyed_at) [
    | inl never ↦ ground arith
    | inr (at, done) ↦ ground arith
  ]
]

cleanup_session_credentials-IsDestroyed :
    (now : ℕ) (credentials : List BootstrapCredential)
    → All IsDestroyed (cleanup_session_credentials now credentials)
unfolding cleanup_session_credentials
cleanup_session_credentials-IsDestroyed now [] = tt
cleanup_session_credentials-IsDestroyed now (credential ∷ others) =
    (cleanup-IsDestroyed now credential, cleanup_session_credentials-IsDestroyed now others)

complete-IsOver : (now : ℕ) (rows : Rows) → IsOver (ok tt, complete now rows)
unfolding complete finish_session
complete-IsOver now rows = record {
  terminal = refl;
  destroyed = cleanup_session_credentials-IsDestroyed now rows.credentials;
  reported = (refl, (rows.installations, refl));
}

failed_session-is_over :
    (now : ℕ) (reason : Failure) (session : BootstrapSession)
    → (is_terminal (failed_session now reason session).status ≡ true)
      × (is_failure (failed_session now reason session).status ≡ true)
      × ((failed_session now reason session).failure_reason ≡ some reason)
unfolding finish_session
failed_session-is_over now reason session = elim (Bool-cases (is_expired session.status)) [
  | inl expired_then ↦ ground arith
  | inr not_expired ↦ ground arith
]

revoked-IsRevoked : (now : ℕ) (token : Option RegistrationToken) → IsRevoked (revoked now token)
revoked-IsRevoked now none = tt
revoked-IsRevoked now (some token) = λ h. ground arith

failed_installation-some : (found : List InstallationStatus) → failed_installation found ≢ []
failed_installation-some [] = λ h. ground arith
failed_installation-some (installation ∷ others) = λ h. ground arith

abandon-IsOver :
    (now : ℕ) (reason : Failure) (rows : Rows) → IsOver (err reason, abandon now reason rows)
unfolding abandon finish_session
abandon-IsOver now reason rows =
    let (over, failed_then, given) = failed_session-is_over now reason rows.session in
    record {
      terminal = over;
      destroyed = cleanup_session_credentials-IsDestroyed now rows.credentials;
      reported = (
        failed_then,
        given,
        revoked-IsRevoked now rows.token,
        failed_installation-some rows.installations,
      );
    }

run_bootstrap_session-conclude :
    (py : Python) (remote : Remote) (now : ℕ) (rows : Rows)
    → rows.session.by_admin ≡ true
    → is_terminal rows.session.status ≡ false
    → rows.session.confirm_package_install ≡ true
    → run_bootstrap_session py remote now rows
      ≡ conclude now (attempt py remote now rows).0 (attempt py remote now rows).1
unfolding run_bootstrap_session
run_bootstrap_session-conclude py remote now rows admin ongoing confirmed = ground arith

conclude-IsOver :
    (now : ℕ) (outcome : Result Failure ℕ) (rows : Rows) → IsOver (conclude now outcome rows)
conclude-IsOver now (ok agent) rows = complete-IsOver now rows
conclude-IsOver now (err e) rows = abandon-IsOver now e rows

-- The run of an admin's session that is confirmed and not over ends, whatever the server does: the session
-- is then over, no credential of it keeps its secret, and the result is that of the rows: completed and
-- installed when the run returns, and else failed or expired for the reason that is raised, with the
-- registration token revoked and an installation on record.
pub run_bootstrap_session-IsOver :
    (py : Python) (remote : Remote) (now : ℕ) (rows : Rows)
    → rows.session.by_admin ≡ true
    → is_terminal rows.session.status ≡ false
    → rows.session.confirm_package_install ≡ true
    → IsOver (run_bootstrap_session py remote now rows)
run_bootstrap_session-IsOver py remote now rows admin ongoing confirmed =
    rw (run_bootstrap_session-conclude py remote now rows admin ongoing confirmed)
      (conclude-IsOver now (attempt py remote now rows).0 (attempt py remote now rows).1)
