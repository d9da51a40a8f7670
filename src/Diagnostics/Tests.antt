-- ===== src/Diagnostics/Tests.antt =====
-- Runs of a diagnostic session, and its theorems at them.
use matrix_scanner_saas.Prelude.{
  ◌≡◌, ◌≤◌, ◌+◌, length, refl, true, none, some, List, [], ◌∷◌, arith,
}
use matrix_scanner_saas.Prelude.Results.{ok, err}
use matrix_scanner_saas.Redaction.Sample.{sample}
use matrix_scanner_saas.Models.{ToolRun, RunStatus, CustomerRole}
use matrix_scanner_saas.Gate.Sample.{office}
use matrix_scanner_saas.Jobs.Sample.{run}
use matrix_scanner_saas.Diagnostics.{
  SessionStatus, ProblemType, StepStatus, DiagnosticSession, DiagnosticStep, State, DiagnosticUser,
  not_permitted, user_can_start_or_approve, next_awaiting, release_step, approve_diagnostic_step,
  plan_next_step, sync_completed_tool_runs,
}
use matrix_scanner_saas.Diagnostics.Approval.{
  Action, plan, approve, sync, act_all, IsBounded, act_all-IsBounded,
  approve_diagnostic_step_permitted,
}
use matrix_scanner_saas.Diagnostics.Sync.{sync_completed_tool_runs-plan_next_step}

abbrev user_of : CustomerRole → DiagnosticUser
user_of role = record { account = 1; requester = record { id = 7; role = some role } }

abbrev session : DiagnosticSession
session = record {
  account = 1;
  server = 1;
  problem_type = ProblemType.http_500;
  status = SessionStatus.waiting_for_approval;
  tool_run_count = 10;
  max_tool_runs = 10;
  error_message = none;
  finished_at = none;
}

abbrev first_step : DiagnosticStep
first_step = record {
  id = 1;
  status = StepStatus.awaiting_approval;
  tool_key = "system_identity";
  tool_run = none;
  requires_approval = true;
  approved_by = none;
}

-- A session that has used up its runs.
abbrev full : State
full = record { session = session; steps = first_step ∷ []; db = office; next_step = 2 }

viewer_refused :
    (approve_diagnostic_step sample 50 (user_of CustomerRole.viewer) first_step full).0
    ≡ err not_permitted
unfolding approve_diagnostic_step
viewer_refused = refl

owner_answered :
    (approve_diagnostic_step sample 50 (user_of CustomerRole.owner) first_step full).0 ≡ ok tt
unfolding approve_diagnostic_step release_step
owner_answered = refl

approve_diagnostic_step_permitted_example :
    (user_can_start_or_approve (user_of CustomerRole.owner) ≡ true)
    × (full.session.account ≡ (user_of CustomerRole.owner).account)
    × ((next : DiagnosticStep) × (next_awaiting full.steps ≡ some next) × (next.id ≡ first_step.id))
approve_diagnostic_step_permitted_example =
    approve_diagnostic_step_permitted sample 50 (user_of CustomerRole.owner) first_step full
      owner_answered

abbrev actions : List Action
actions = plan 40 ∷ approve 50 (user_of CustomerRole.owner) first_step ∷ sync 60 ∷ []

-- The same session with room for one run.
abbrev roomy : State
roomy = record full { session = record session { tool_run_count = 9 } }

act_all-IsBounded_example :
    IsBounded roomy (act_all sample actions roomy)
    × (length (act_all sample actions roomy).db.runs + 9 ≤ length office.runs + 10)
act_all-IsBounded_example = act_all-IsBounded sample actions roomy (omega arith)

abbrev queued_step : DiagnosticStep
queued_step = record first_step { status = StepStatus.queued; tool_run = some 1 }

abbrev done : ToolRun
done = record run { status = RunStatus.succeeded }

abbrev reported : State
reported = record {
  session = record session { status = SessionStatus.running; tool_run_count = 1 };
  steps = queued_step ∷ [];
  db = record office { runs = done ∷ [] };
  next_step = 2;
}

sync_completed_tool_runs-plan_next_step_example :
    ((sync_completed_tool_runs 60 reported).session.status ≡ SessionStatus.succeeded)
    × (plan_next_step 70 (sync_completed_tool_runs 60 reported)
        ≡ sync_completed_tool_runs 60 reported)
sync_completed_tool_runs-plan_next_step_example =
    sync_completed_tool_runs-plan_next_step 60 70 queued_step reported done refl refl refl refl
