-- ===== src/Baseline.antt =====
-- The baseline scan of a server: apps/servers/baseline.py, `start_baseline_scan`,
-- `enqueue_next_baseline_tools` and `ingest_completed_tool_runs`, with the profiles of
-- apps/servers/baseline_profiles.py and the seeding of apps/tools/setup.py.
--
-- The state is one scan, its steps in the order of creation, and the database of the other parts. What
-- `ingest_tool_result` and `summarize_scan` write goes to tables that nothing here reads, and is not
-- modelled. The error message of a scan is the error that it is the text of.
pub mod Profiles
pub mod Setup
pub mod Enqueue
pub mod Ingest
mod Tests
use Profiles.{tool_keys_for_profile}
use Setup.{ensure_baseline_tools}
use matrix_scanner_saas.Prelude.{
  ℕ, suc, ◌+◌, String, Bool, true, false, not, ◌&&◌, ◌||◌, Option, none, some, List, [], ◌∷◌, ◌++◌,
  ◌==◌, if◌then◌else◌, first, any, all, take, map,
}
use text.Mathlib.Text.{◌==◌ as str_eq}
use matrix_scanner_saas.Prelude.Results.{Result, ok, err, guard, ◌>>=◌, ◌>>◌}
use matrix_scanner_saas.Text.{Text, codes}
use matrix_scanner_saas.Json.{Value, Fields, obj, end}
use matrix_scanner_saas.Redaction.{Python, redact_json, redact_secrets}
use matrix_scanner_saas.Audit.{AuditResult}
use matrix_scanner_saas.Models.{
  Db, ToolRun, AgentJob, ToolDefinition, AuditEvent, RunStatus, RequestedByType, run_is_terminal,
  tool_is_enabled, is_read_only, add_audit,
}
use matrix_scanner_saas.Agents.{is_active_for_api}
use matrix_scanner_saas.Gate.{
  Requester, Denial, Request, active_subscription_for, in_plan, find_tool, find_agent,
  create_tool_run_job,
}

pub data ScanStatus : Type 0 where
  pending running succeeded failed cancelled : ScanStatus

pub data StepStatus : Type 0 where
  pending queued running succeeded failed skipped cancelled : StepStatus

pub data ScanError : Type 0 where
  foreign_server no_subscription no_agent agent_inactive not_startable not_running steps_failed :
      ScanError
  missing_tools : List String → ScanError
  denied : Denial → ScanError

pub record BaselineScan : Type 0 where
  pub account : ℕ
  pub server : ℕ
  pub requested_by : Option Requester
  pub profile_key : String
  pub status : ScanStatus
  pub current_step : String
  pub error_message : Option ScanError
  pub started_at : Option ℕ
  pub finished_at : Option ℕ

pub record BaselineScanStep : Type 0 where
  pub tool_run : Option ℕ
  pub step_key : String
  pub status : StepStatus
  pub finished_at : Option ℕ
  pub error_message : Text
  pub structured_output : Value

pub record State : Type 0 where
  pub scan : BaselineScan
  pub steps : List BaselineScanStep
  pub db : Db

abbrev pub may_start : ScanStatus → Bool
may_start ScanStatus.pending = true
may_start ScanStatus.failed = true
may_start _ = false

abbrev pub scan_is_running : ScanStatus → Bool
scan_is_running ScanStatus.running = true
scan_is_running _ = false

abbrev pub run_succeeded : RunStatus → Bool
run_succeeded RunStatus.succeeded = true
run_succeeded _ = false

abbrev pub step_succeeded : BaselineScanStep → Bool
step_succeeded step = elim step.status [
  | StepStatus.succeeded ↦ true
  | StepStatus.pending ↦ false
  | StepStatus.queued ↦ false
  | StepStatus.running ↦ false
  | StepStatus.failed ↦ false
  | StepStatus.skipped ↦ false
  | StepStatus.cancelled ↦ false
]

abbrev pub step_failed : BaselineScanStep → Bool
step_failed step = elim step.status [
  | StepStatus.failed ↦ true
  | StepStatus.pending ↦ false
  | StepStatus.queued ↦ false
  | StepStatus.running ↦ false
  | StepStatus.succeeded ↦ false
  | StepStatus.skipped ↦ false
  | StepStatus.cancelled ↦ false
]

abbrev scan_event : String → AuditResult → BaselineScan → AuditEvent
scan_event action result scan = record {
  action = action;
  result = result;
  account = some scan.account;
  target = none;
  tool_key = "";
}

unfoldable pub fail_scan : ℕ → ScanError → State → State
fail_scan now error state =
    let scan = record state.scan {
      status = ScanStatus.failed;
      error_message = some error;
      finished_at = some now;
    } in
    record state {
      scan = scan;
      db = add_audit (scan_event "baseline_scan.failed" AuditResult.failure scan) state.db;
    }

-- What the loop of the preflight asks of one tool.
unfoldable pub is_required_ready : Db → ℕ → String → Bool
is_required_ready db plan tool_key = elim (find_tool db tool_key) [
  | none ↦ false
  | some tool ↦
      tool.template.is_active
      && tool_is_enabled tool.status
      && is_read_only tool.risk_level
      && (elim tool.policy [
        | none ↦ false
        | some policy ↦ policy.is_active && policy.allow_agent_run
      ])
      && in_plan db plan tool_key
]

unfoldable pub missing_of : Db → ℕ → List String → List String
unfolding is_required_ready
missing_of db plan [] = []
missing_of db plan (tool_key ∷ tool_keys) =
    let rest = missing_of db plan tool_keys in
    if is_required_ready db plan tool_key then rest else tool_key ∷ rest

abbrev none_missing : List String → Result ScanError (Unit {0})
none_missing [] = ok tt
none_missing (tool_key ∷ tool_keys) = err (missing_tools (tool_key ∷ tool_keys))

abbrev present {ℓ} : {A : Type ℓ} → ScanError → Option A → Result ScanError A
present e none = err e
present e (some a) = ok a

unfoldable pub preflight_required_baseline_tools :
    ℕ → BaselineScan → Db → Result ScanError (Unit {0})
unfolding missing_of
preflight_required_baseline_tools now scan db = do
  guard ((db.servers scan.server).account_id == scan.account) foreign_server
  subscription ← present no_subscription (active_subscription_for now db scan.account)
  agent ← present no_agent (find_agent db scan.server scan.account)
  guard (is_active_for_api db agent) agent_inactive
  none_missing (missing_of db subscription.plan_id (tool_keys_for_profile scan.profile_key))

abbrev pub has_step : String → List BaselineScanStep → Bool
has_step tool_key steps = any (λ (s : BaselineScanStep). str_eq s.step_key tool_key) steps

abbrev pub new_step : String → ToolRun → BaselineScanStep
new_step tool_key run = record {
  tool_run = some run.id;
  step_key = tool_key;
  status = StepStatus.queued;
  finished_at = none;
  error_message = [];
  structured_output = obj end;
}

abbrev pub request_of : BaselineScan → String → Request
request_of scan tool_key = record {
  account = scan.account;
  server = scan.server;
  tool_key = tool_key;
  params = end;
  requested_by = scan.requested_by;
  requested_by_type = RequestedByType.admin;
}

abbrev pub find_run : Db → Option ℕ → Option ToolRun
find_run db none = none
find_run db (some id) = first (λ (run : ToolRun). run.id == id) db.runs

module _ (py : Python) where
  -- The loop of `enqueue_next_baseline_tools`. An error leaves no state: the transaction is undone,
  -- what `create_tool_run_job` wrote included.
  unfoldable pub enqueue_steps :
      ℕ
      → BaselineScan
      → List String
      → List BaselineScanStep
      → Db
      → Result ScanError (List BaselineScanStep × Db)
  enqueue_steps now scan [] steps db = ok (steps, db)
  enqueue_steps now scan (tool_key ∷ tool_keys) steps db = elim (has_step tool_key steps) [
    | true ↦ enqueue_steps now scan tool_keys steps db
    | false ↦
        let made = create_tool_run_job py now (request_of scan tool_key) db in
        elim made.0 [
          | err denial ↦ err (denied denial)
          | ok (run, job) ↦
              enqueue_steps now scan tool_keys (steps ++ (new_step tool_key run ∷ [])) made.1
        ]
  ]

  -- The body of the try block.
  abbrev pub enqueue_all : ℕ → State → Result ScanError (List BaselineScanStep × Db)
  enqueue_all now state = preflight_required_baseline_tools now state.scan state.db >>= λ _.
      enqueue_steps now state.scan (tool_keys_for_profile state.scan.profile_key) state.steps
        state.db

  unfoldable pub enqueue_next_baseline_tools : ℕ → State → Result ScanError (Unit {0}) × State
  unfolding fail_scan
  enqueue_next_baseline_tools now state =
      if not (scan_is_running state.scan.status)
      then (err not_running, state)
      else elim (enqueue_all now state) [
        | err e ↦ (err e, fail_scan now e state)
        | ok (steps, db) ↦ (
          ok tt,
          record {
            scan = record state.scan { current_step = "waiting_for_agent_results" };
            steps = steps;
            db = db;
          },
        )
      ]

  -- The scan as it is saved before its tools are enqueued.
  unfoldable pub started : ℕ → State → State
  started now state =
      let scan = record state.scan {
        status = ScanStatus.running;
        started_at = some now;
        finished_at = none;
        error_message = none;
        current_step = "enqueue_baseline_tools";
      } in
      record state {
        scan = scan;
        db = add_audit (scan_event "baseline_scan.started" AuditResult.success scan) state.db;
      }

  unfoldable pub start_baseline_scan : ℕ → State → Result ScanError (Unit {0}) × State
  unfolding fail_scan
  start_baseline_scan now state =
      if not (may_start state.scan.status)
      then (err not_startable, state)
      else (let ready = record state { db = ensure_baseline_tools state.db } in
          elim (preflight_required_baseline_tools now ready.scan ready.db) [
            | err e ↦ (err e, fail_scan now e ready)
            | ok _ ↦ enqueue_next_baseline_tools now (started now ready)
          ])

  -- result_for_tool_run
  unfoldable pub result_for_tool_run : ToolRun → Value
  result_for_tool_run run = elim run.result_redacted [ some (obj fs) ↦ obj fs | _ ↦ obj end ]

  abbrev or_now : Option ℕ → ℕ → Option ℕ
  or_now (some t) now = some t
  or_now none now = some now

  -- A step whose run has ended.
  unfoldable pub ended_step : ℕ → BaselineScanStep → ToolRun → BaselineScanStep
  unfolding result_for_tool_run
  ended_step now step run =
      let output = redact_json py (result_for_tool_run run) in
      if run_succeeded run.status
      then record step {
        structured_output = output;
        finished_at = or_now run.finished_at now;
        status = StepStatus.succeeded;
      }
      else record step {
        structured_output = output;
        finished_at = or_now run.finished_at now;
        status = StepStatus.failed;
        error_message = take 4000 (redact_secrets py run.error_message);
      }

  -- The body of the loop of `ingest_completed_tool_runs`.
  unfoldable pub ingest_step : ℕ → Db → BaselineScanStep → BaselineScanStep
  unfolding ended_step
  ingest_step now db step = elim (find_run db step.tool_run) [
    | none ↦ step
    | some run ↦ if run_is_terminal run.status then ended_step now step run else step
  ]

  unfoldable pub ingest_steps : ℕ → Db → List BaselineScanStep → List BaselineScanStep
  unfolding ingest_step
  ingest_steps now db [] = []
  ingest_steps now db (step ∷ steps) = ingest_step now db step ∷ ingest_steps now db steps

  unfoldable pub completed : ℕ → State → State
  completed now state =
      let scan = record state.scan {
        status = ScanStatus.succeeded;
        current_step = "completed";
        finished_at = some now;
      } in
      record state {
        scan = scan;
        db = add_audit (scan_event "baseline_scan.completed" AuditResult.success scan) state.db;
      }

  -- What follows the loop.
  unfoldable pub conclude : ℕ → State → State
  unfolding completed fail_scan
  conclude now state =
      if all step_succeeded state.steps
      then completed now state
      else if any step_failed state.steps
      then fail_scan now steps_failed state
      else state

  unfoldable pub ingest_completed_tool_runs : ℕ → State → State
  unfolding conclude ingest_steps
  ingest_completed_tool_runs now state = elim state.steps [
    | [] ↦ state
    | step ∷ steps ↦ conclude now (record state { steps = ingest_steps now state.db state.steps })
  ]
