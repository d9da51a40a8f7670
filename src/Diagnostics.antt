-- ===== src/Diagnostics.antt =====
-- Diagnostic sessions: apps/diagnostics/services.py, `plan_next_step`, `approve_diagnostic_step` and
-- `sync_completed_tool_runs`, with `finalize_session`.
--
-- The state is one session with its steps in the order of creation, and the database of the other parts.
-- The texts of summaries and of the report, the rows of DiagnosticDecision and the findings that the
-- report counts are read by nothing here, and are not modelled; nor is the start of a session, which
-- creates its row and plans the first step. An error message is the error itself.
pub mod Approval
pub mod Sync
mod Tests
use matrix_scanner_saas.Prelude.{
  ℕ, suc, ◌+◌, String, Bool, true, false, not, ◌&&◌, ◌||◌, Option, none, some, List, [], ◌∷◌, ◌++◌,
  ◌==◌, leb, if◌then◌else◌, first, any, all,
}
use text.Mathlib.Text.{◌==◌ as str_eq}
use matrix_scanner_saas.Prelude.Results.{Result, ok, err}
use matrix_scanner_saas.Json.{end}
use matrix_scanner_saas.Redaction.{Python}
use matrix_scanner_saas.Audit.{AuditResult}
use matrix_scanner_saas.Models.{
  Db, ToolRun, AgentJob, AuditEvent, add_audit, RunStatus, CustomerRole, RequestedByType,
}
use matrix_scanner_saas.Gate.{Requester, Denial, Request, create_tool_run_job}
use matrix_scanner_saas.Baseline.Profiles.{legacy_cpanel_tool_keys}

pub data SessionStatus : Type 0 where
  draft running waiting_for_approval succeeded failed cancelled : SessionStatus

pub data ProblemType : Type 0 where
  slowness http_500 security_scan laravel_production_audit custom : ProblemType

pub data StepStatus : Type 0 where
  planned awaiting_approval queued running succeeded failed skipped cancelled : StepStatus

pub data SessionError : Type 0 where
  run_limit tool_step_failed : SessionError
  refused : Denial → SessionError

pub data DiagnosticError : Type 0 where
  not_permitted foreign_step not_next tool_not_allowed : DiagnosticError

pub record DiagnosticSession : Type 0 where
  pub account : ℕ
  pub server : ℕ
  pub problem_type : ProblemType
  pub status : SessionStatus
  pub tool_run_count : ℕ
  pub max_tool_runs : ℕ
  pub error_message : Option SessionError
  pub finished_at : Option ℕ

-- A final report is a step without a tool key.
pub record DiagnosticStep : Type 0 where
  pub id : ℕ
  pub status : StepStatus
  pub tool_key : String
  pub tool_run : Option ℕ
  pub requires_approval : Bool
  pub approved_by : Option ℕ

pub record State : Type 0 where
  pub session : DiagnosticSession
  pub steps : List DiagnosticStep
  pub db : Db
  pub next_step : ℕ

-- A user with the account.
pub record DiagnosticUser : Type 0 where
  pub account : ℕ
  pub requester : Requester

abbrev is_diagnostic_role : CustomerRole → Bool
is_diagnostic_role CustomerRole.owner = true
is_diagnostic_role CustomerRole.operator = true
is_diagnostic_role CustomerRole.viewer = false

abbrev pub user_can_start_or_approve : DiagnosticUser → Bool
user_can_start_or_approve user = elim user.requester.role [
  | none ↦ false
  | some role ↦ is_diagnostic_role role
]

-- PROBLEM_TOOL_PLAN
abbrev pub planned_tool_keys : ProblemType → List String
planned_tool_keys slowness = "system_identity" ∷ "services_status" ∷ []
planned_tool_keys http_500 = "system_identity" ∷ "panel_detector" ∷ "log_sources_discovery" ∷ []
planned_tool_keys security_scan = "system_identity" ∷ "webroot_risk_checker" ∷ []
planned_tool_keys laravel_production_audit =
    "system_identity" ∷ "laravel_discovery" ∷ "webroot_risk_checker" ∷ []
planned_tool_keys custom = "system_identity" ∷ []

-- ALLOWED_DIAGNOSTIC_TOOLS, the keys of the baseline tools
abbrev pub is_allowed_diagnostic_tool : String → Bool
is_allowed_diagnostic_tool tool_key = any (str_eq tool_key) legacy_cpanel_tool_keys

abbrev pub session_is_over : SessionStatus → Bool
session_is_over SessionStatus.succeeded = true
session_is_over SessionStatus.failed = true
session_is_over SessionStatus.cancelled = true
session_is_over _ = false

abbrev pub is_awaiting : StepStatus → Bool
is_awaiting StepStatus.awaiting_approval = true
is_awaiting _ = false

abbrev pub is_open : StepStatus → Bool
is_open StepStatus.awaiting_approval = true
is_open StepStatus.queued = true
is_open StepStatus.running = true
is_open _ = false

abbrev pub is_succeeded : StepStatus → Bool
is_succeeded StepStatus.succeeded = true
is_succeeded _ = false

abbrev pub is_failed : StepStatus → Bool
is_failed StepStatus.failed = true
is_failed _ = false

abbrev pub status_eq : StepStatus → StepStatus → Bool
status_eq StepStatus.planned StepStatus.planned = true
status_eq StepStatus.awaiting_approval StepStatus.awaiting_approval = true
status_eq StepStatus.queued StepStatus.queued = true
status_eq StepStatus.running StepStatus.running = true
status_eq StepStatus.succeeded StepStatus.succeeded = true
status_eq StepStatus.failed StepStatus.failed = true
status_eq StepStatus.skipped StepStatus.skipped = true
status_eq StepStatus.cancelled StepStatus.cancelled = true
status_eq _ _ = false

abbrev final_report : ℕ → DiagnosticStep
final_report id = record {
  id = id;
  status = StepStatus.succeeded;
  tool_key = "";
  tool_run = none;
  requires_approval = false;
  approved_by = none;
}

unfoldable pub finalize_session : ℕ → State → State
finalize_session now state = record state {
  session = record state.session { status = SessionStatus.succeeded; finished_at = some now };
  steps = state.steps ++ (final_report state.next_step ∷ []);
  next_step = suc state.next_step;
}

abbrev pub uses_tool : String → List DiagnosticStep → Bool
uses_tool tool_key steps = any (λ (s : DiagnosticStep). str_eq s.tool_key tool_key) steps

abbrev pub next_tool : ProblemType → List DiagnosticStep → Option String
next_tool problem_type steps =
    first (λ tool_key. is_allowed_diagnostic_tool tool_key && not (uses_tool tool_key steps))
      (planned_tool_keys problem_type)

abbrev planned_step : ℕ → String → DiagnosticStep
planned_step id tool_key = record {
  id = id;
  status = StepStatus.awaiting_approval;
  tool_key = tool_key;
  tool_run = none;
  requires_approval = true;
  approved_by = none;
}

unfoldable pub plan_next_step : ℕ → State → State
unfolding finalize_session
plan_next_step now state =
    if session_is_over state.session.status
    then state
    else if any (λ (s : DiagnosticStep). is_open s.status) state.steps
    then state
    else if leb state.session.max_tool_runs state.session.tool_run_count
    then finalize_session now state
    else elim (next_tool state.session.problem_type state.steps) [
      | none ↦ finalize_session now state
      | some tool_key ↦ record state {
        session = record state.session { status = SessionStatus.waiting_for_approval };
        steps = state.steps ++ (planned_step state.next_step tool_key ∷ []);
        next_step = suc state.next_step;
      }
    ]

unfoldable pub save_step : DiagnosticStep → List DiagnosticStep → List DiagnosticStep
save_step step [] = []
save_step step (s ∷ steps) = (if s.id == step.id then step else s) ∷ save_step step steps

abbrev pub failed_session : ℕ → SessionError → DiagnosticSession → DiagnosticSession
failed_session now error session = record session {
  status = SessionStatus.failed;
  error_message = some error;
  finished_at = some now;
}

abbrev pub request_of : DiagnosticUser → DiagnosticSession → String → Request
request_of user session tool_key = record {
  account = session.account;
  server = session.server;
  tool_key = tool_key;
  params = end;
  requested_by = some user.requester;
  requested_by_type = RequestedByType.user;
}

-- The step that waits for approval, the oldest first.
abbrev pub next_awaiting : List DiagnosticStep → Option DiagnosticStep
next_awaiting steps =
    first (λ (s : DiagnosticStep). is_awaiting s.status && s.requires_approval) steps

-- audit_diagnostic_action
abbrev diagnostic_event : String → AuditResult → DiagnosticSession → String → AuditEvent
diagnostic_event action result session tool_key = record {
  action = action;
  result = result;
  account = some session.account;
  target = none;
  tool_key = tool_key;
}

module _ (py : Python) (now : ℕ) (user : DiagnosticUser) where
  -- The state after the gate has answered. `step` is a step of the session.
  unfoldable pub answer_step :
      Result Denial (ToolRun × AgentJob) → Db → DiagnosticStep → State → State
  answer_step (err denial) after step state = record state {
    session = failed_session now (refused denial) state.session;
    steps =
        save_step (record step { status = StepStatus.failed; approved_by = some user.requester.id })
          state.steps;
    db =
        add_audit
          (diagnostic_event "portal.diagnostic.step_denied" AuditResult.denied state.session
            step.tool_key)
          after;
  }
  answer_step (ok (run, job)) after step state = record state {
    session = record state.session {
      status = SessionStatus.running;
      tool_run_count = suc state.session.tool_run_count;
    };
    steps =
        save_step
          (record step {
            tool_run = some run.id;
            status = StepStatus.queued;
            approved_by = some user.requester.id;
          })
          state.steps;
    db =
        add_audit
          (diagnostic_event "portal.diagnostic.step_approved" AuditResult.success state.session
            step.tool_key)
          after;
  }

  -- What follows the checks on the user and on the order of the steps.
  unfoldable pub release_step : DiagnosticStep → State → Result DiagnosticError (Unit {0}) × State
  release_step step state =
      if leb state.session.max_tool_runs state.session.tool_run_count
      then (
        ok tt,
        record state {
          session = failed_session now run_limit state.session;
          steps = save_step (record step { status = StepStatus.failed }) state.steps;
        },
      )
      else if not (is_allowed_diagnostic_tool step.tool_key)
      then (err tool_not_allowed, state)
      else (let made =
            create_tool_run_job py now (request_of user state.session step.tool_key) state.db in
          (ok tt, answer_step made.0 made.1 step state))

  -- A step of another session fails at the comparison with the next step of this one: the separate test
  -- of the step's session, with an error of its own, is left out.
  unfoldable pub approve_diagnostic_step :
      DiagnosticStep → State → Result DiagnosticError (Unit {0}) × State
  approve_diagnostic_step step state =
      if not (user_can_start_or_approve user)
      then (err not_permitted, state)
      else if not (state.session.account == user.account)
      then (err foreign_step, state)
      else elim (next_awaiting state.steps) [
        | none ↦ (err not_next, state)
        | some next ↦ if next.id == step.id then release_step step state else (err not_next, state)
      ]

-- terminal_status_map and active_status_map
abbrev pub step_status_of : RunStatus → StepStatus
step_status_of RunStatus.succeeded = StepStatus.succeeded
step_status_of RunStatus.failed = StepStatus.failed
step_status_of RunStatus.rejected = StepStatus.failed
step_status_of RunStatus.timeout = StepStatus.failed
step_status_of RunStatus.cancelled = StepStatus.cancelled
step_status_of RunStatus.queued = StepStatus.queued
step_status_of RunStatus.running = StepStatus.running
step_status_of RunStatus.pending = StepStatus.queued

abbrev pub find_run : Db → Option ℕ → Option ToolRun
find_run db none = none
find_run db (some id) = first (λ (run : ToolRun). run.id == id) db.runs

unfoldable pub sync_step : Db → DiagnosticStep → DiagnosticStep
sync_step db step = elim (find_run db step.tool_run) [
  | none ↦ step
  | some run ↦ record step { status = step_status_of run.status }
]

-- The step is among those that the loop saves.
unfoldable pub is_changed : Db → DiagnosticStep → Bool
is_changed db step = elim (find_run db step.tool_run) [
  | none ↦ false
  | some run ↦ not (status_eq step.status (step_status_of run.status))
]

unfoldable pub sync_steps : Db → List DiagnosticStep → List DiagnosticStep
unfolding sync_step
sync_steps db [] = []
sync_steps db (step ∷ steps) = sync_step db step ∷ sync_steps db steps

unfoldable pub sync_completed_tool_runs : ℕ → State → State
unfolding finalize_session sync_steps is_changed
sync_completed_tool_runs now state =
    let steps = sync_steps state.db state.steps in
    let synced = record state { steps = steps } in
    if not (any (is_changed state.db) state.steps)
    then synced
    else if all (λ (s : DiagnosticStep). is_succeeded s.status) steps
    then finalize_session now synced
    else if any (λ (s : DiagnosticStep). is_failed s.status) steps
    then record synced { session = failed_session now tool_step_failed state.session }
    else synced
