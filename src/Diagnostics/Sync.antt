-- ===== src/Diagnostics/Sync.antt =====
-- How a session ends when its first run has succeeded.
use matrix_scanner_saas.Prelude.{ℕ, ◌≡◌, false, some, [], ◌∷◌, arith}
use matrix_scanner_saas.Models.{ToolRun, RunStatus}
use matrix_scanner_saas.Diagnostics.{
  SessionStatus, DiagnosticStep, State, is_succeeded, find_run, finalize_session, plan_next_step,
  sync_step, sync_steps, is_changed, sync_completed_tool_runs,
}

ends :
    (now : ℕ) (step : DiagnosticStep) (state : State) (run : ToolRun)
    → state.steps ≡ step ∷ []
    → find_run state.db step.tool_run ≡ some run
    → run.status ≡ RunStatus.succeeded
    → is_succeeded step.status ≡ false
    → (sync_completed_tool_runs now state).session.status ≡ SessionStatus.succeeded
unfolding sync_completed_tool_runs sync_steps sync_step is_changed finalize_session
ends now step state run alone found good fresh = ground arith

over :
    (now : ℕ) (state : State)
    → state.session.status ≡ SessionStatus.succeeded
    → plan_next_step now state ≡ state
unfolding plan_next_step
over now state h = rw h

-- As soon as the run of the only step of a session has succeeded, `sync_completed_tool_runs` ends the
-- session as succeeded, whatever tools its plan has besides, and planning adds no step any more.
pub sync_completed_tool_runs-plan_next_step :
    (now later : ℕ) (step : DiagnosticStep) (state : State) (run : ToolRun)
    → state.steps ≡ step ∷ []
    → find_run state.db step.tool_run ≡ some run
    → run.status ≡ RunStatus.succeeded
    → is_succeeded step.status ≡ false
    → ((sync_completed_tool_runs now state).session.status ≡ SessionStatus.succeeded)
      × (plan_next_step later (sync_completed_tool_runs now state)
          ≡ sync_completed_tool_runs now state)
sync_completed_tool_runs-plan_next_step now later step state run alone found good fresh =
    let ended = ends now step state run alone found good fresh in
    (ended, over later (sync_completed_tool_runs now state) ended)
