-- ===== src/Baseline/Tests.antt =====
-- Runs of a baseline scan, and its theorems at the small database of the gate's sample.
use matrix_scanner_saas.Prelude.{String, ◌≡◌, refl, true, none, some, [], ◌∷◌}
use matrix_scanner_saas.Prelude.Results.{ok, err}
use matrix_scanner_saas.Json.{obj, end, or_empty, truthy, get, merge}
use matrix_scanner_saas.Paths.{validate_path_policy}
use matrix_scanner_saas.Params.{
  validate_params, validate_object, validate_fields, fields_of, required_of, all_keys,
}
use matrix_scanner_saas.Command.{build_execution_payload}
use matrix_scanner_saas.Redaction.Sample.{sample}
use matrix_scanner_saas.Models.{Db, RunStatus, PlanTool}
use matrix_scanner_saas.Agents.{is_active_for_api}
use matrix_scanner_saas.Gate.{
  authorize, grant, check_tool, requester_allowed, role_allowed, status_allowed, checked_params,
  active_subscription_for, newest, in_plan, seeded, enqueue, create_tool_run_job,
}
use matrix_scanner_saas.Gate.Sample.{office}
use matrix_scanner_saas.Jobs.Sample.{run}
use matrix_scanner_saas.Baseline.{
  ScanStatus, StepStatus, ScanError, missing_tools, State, BaselineScan, BaselineScanStep,
  preflight_required_baseline_tools, is_required_ready, missing_of, enqueue_steps,
  enqueue_next_baseline_tools, start_baseline_scan, ingest_completed_tool_runs,
}
use matrix_scanner_saas.Baseline.Profiles.{tool_keys_for_profile}
use matrix_scanner_saas.Baseline.Setup.{ensure_baseline_tools, ensure_tools, ensure_tool}
use matrix_scanner_saas.Baseline.Enqueue.{
  IsEnqueued, enqueue_next_baseline_tools-IsEnqueued, enqueue_next_baseline_tools_twice,
}
use matrix_scanner_saas.Baseline.Ingest.{start_baseline_scan-ingest}

abbrev scan : BaselineScan
scan = record {
  account = 1;
  server = 1;
  requested_by = none;
  profile_key = "legacy_cpanel";
  status = ScanStatus.running;
  current_step = "";
  error_message = none;
  started_at = none;
  finished_at = none;
}

abbrev in_plan_of : String → PlanTool
in_plan_of key = record { plan_id = 1; tool_key = key; is_enabled = true }

-- All the tools of the profile, seeded and in the plan.
abbrev shop : Db
shop = ensure_baseline_tools (record office {
  plan_tools =
      in_plan_of "system_identity"
      ∷ in_plan_of "services_status"
      ∷ in_plan_of "panel_detector"
      ∷ in_plan_of "cpanel_domain_scanner"
      ∷ in_plan_of "application_discovery"
      ∷ in_plan_of "laravel_discovery"
      ∷ in_plan_of "log_sources_discovery"
      ∷ in_plan_of "webroot_risk_checker"
      ∷ [];
})

abbrev running : State
running = record { scan = scan; steps = []; db = shop }

-- Nothing is seeded.
abbrev bare : State
bare = record { scan = scan; steps = []; db = office }

enqueues : (enqueue_next_baseline_tools sample 50 running).0 ≡ ok tt
unfolding enqueue_next_baseline_tools enqueue_steps preflight_required_baseline_tools missing_of
    is_required_ready tool_keys_for_profile ensure_baseline_tools ensure_tools ensure_tool
    create_tool_run_job enqueue authorize grant check_tool requester_allowed role_allowed
    status_allowed checked_params active_subscription_for newest in_plan seeded is_active_for_api
    build_execution_payload validate_params validate_object validate_fields fields_of required_of
    all_keys validate_path_policy or_empty truthy get merge
enqueues = refl

enqueue_next_baseline_tools-IsEnqueued_example :
    IsEnqueued running (enqueue_next_baseline_tools sample 50 running).1
enqueue_next_baseline_tools-IsEnqueued_example =
    enqueue_next_baseline_tools-IsEnqueued sample 50 running enqueues

abbrev all_missing : ScanError
all_missing = missing_tools (tool_keys_for_profile "legacy_cpanel")

bare_fails : (enqueue_next_baseline_tools sample 50 bare).0 ≡ err all_missing
unfolding enqueue_next_baseline_tools preflight_required_baseline_tools missing_of is_required_ready
    tool_keys_for_profile active_subscription_for newest is_active_for_api
bare_fails = refl

enqueue_next_baseline_tools_twice_example :
    let once = (enqueue_next_baseline_tools sample 50 running).1 in
    let twice = (enqueue_next_baseline_tools sample 60 once).1 in
    (twice.steps ≡ once.steps) × (twice.db.jobs ≡ once.db.jobs) × (twice.db.runs ≡ once.db.runs)
enqueue_next_baseline_tools_twice_example =
    enqueue_next_baseline_tools_twice sample 50 60 running enqueues

abbrev step : BaselineScanStep
step = record {
  tool_run = some 1;
  step_key = "system_identity";
  status = StepStatus.queued;
  finished_at = none;
  error_message = [];
  structured_output = obj end;
}

abbrev with_run : RunStatus → Db
with_run status = record office { runs = record run { status = status } ∷ [] }

abbrev broken : State
broken = record {
  scan = record scan { status = ScanStatus.failed };
  steps = step ∷ [];
  db = with_run RunStatus.timeout;
}

start_baseline_scan-ingest_example :
    (ingest_completed_tool_runs sample 90 (start_baseline_scan sample 80 broken).1).scan.status
    ≡ ScanStatus.failed
start_baseline_scan-ingest_example = start_baseline_scan-ingest sample 80 90 broken refl
