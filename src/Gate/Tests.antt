-- ===== src/Gate/Tests.antt =====
-- Runs of the policy gate, and its theorems at a small database.
use matrix_scanner_saas.Prelude.{ℕ, ◌≡◌, refl, some, List, [], ◌∷◌}
use matrix_scanner_saas.Prelude.Results.{ok, err}
use matrix_scanner_saas.Text.{codes}
use matrix_scanner_saas.Json.{or_empty, truthy, get, merge, end}
use matrix_scanner_saas.Paths.{validate_path_policy}
use matrix_scanner_saas.Params.{
  validate_params, validate_object, validate_fields, fields_of, required_of, all_keys,
}
use matrix_scanner_saas.Command.{build_execution_payload, handler}
use matrix_scanner_saas.Redaction.Sample.{sample}
use matrix_scanner_saas.Models.{
  Db, AgentJob, ToolRun, CustomerRole, Subscription, SubscriptionStatus,
}
use matrix_scanner_saas.Agents.{is_active_for_api}
use matrix_scanner_saas.Gate.{
  Request, Grant, role_refused, authorize, grant, check_tool, requester_allowed, role_allowed,
  status_allowed, checked_params, active_subscription_for, newest, in_plan, seeded,
  ensure_system_identity_tool, connect_plans, enqueue, new_job, new_run, identity_tool,
  identity_template, create_tool_run_job,
}
use matrix_scanner_saas.Gate.Authorized.{IsPermitted, IsGranted, authorize-IsGranted}
use matrix_scanner_saas.Gate.Effects.{IsCreated, create_tool_run_job-IsCreated}
use matrix_scanner_saas.Gate.Sample.{owner_agent, office, asked_by}

abbrev ready : Db
ready = seeded (asked_by CustomerRole.owner) office

abbrev granted : Grant
granted = record {
  tool = identity_tool identity_template;
  validated = end;
  agent = owner_agent;
  payload = handler (codes "system_identity");
}

authorized : authorize sample 50 ready (asked_by CustomerRole.owner) ≡ ok granted
unfolding authorize grant check_tool requester_allowed role_allowed status_allowed checked_params
    active_subscription_for newest in_plan seeded ensure_system_identity_tool connect_plans
    is_active_for_api build_execution_payload validate_params validate_object validate_fields
    fields_of required_of all_keys validate_path_policy or_empty truthy get merge
authorized = refl

authorize-IsGranted_example :
    IsPermitted ready (asked_by CustomerRole.owner) granted.tool
    × IsGranted sample 50 ready (asked_by CustomerRole.owner) granted
authorize-IsGranted_example =
    authorize-IsGranted sample 50 ready (asked_by CustomerRole.owner) granted authorized

abbrev run : ToolRun
run = new_run sample (asked_by CustomerRole.owner) granted 1 1

abbrev job : AgentJob
job = new_job (asked_by CustomerRole.owner) granted 1

abbrev after : Db
after = (create_tool_run_job sample 50 (asked_by CustomerRole.owner) office).1

created :
    create_tool_run_job sample 50 (asked_by CustomerRole.owner) office ≡ (ok (run, job), after)
unfolding create_tool_run_job enqueue authorize grant check_tool requester_allowed role_allowed
    status_allowed checked_params active_subscription_for newest in_plan seeded
    ensure_system_identity_tool connect_plans is_active_for_api build_execution_payload
    validate_params validate_object validate_fields fields_of required_of all_keys
    validate_path_policy or_empty truthy get merge
created = refl

create_tool_run_job-IsCreated_example :
    IsCreated sample 50 (asked_by CustomerRole.owner) office run job after
create_tool_run_job-IsCreated_example =
    create_tool_run_job-IsCreated sample 50 (asked_by CustomerRole.owner) office run job after
      created

-- A viewer is not among the roles of the tool.
refused : (create_tool_run_job sample 50 (asked_by CustomerRole.viewer) office).0 ≡ err role_refused
unfolding create_tool_run_job authorize check_tool requester_allowed role_allowed seeded
    ensure_system_identity_tool
refused = refl

-- One request that is granted and one that is denied.
abbrev requests : List (ℕ × Request)
requests = (50, asked_by CustomerRole.owner) ∷ (51, asked_by CustomerRole.viewer) ∷ []

abbrev trial : Subscription
trial = record {
  account_id = 1;
  plan_id = 1;
  status = SubscriptionStatus.trial;
  current_period_end = some 99;
}

subscribed : active_subscription_for 50 office 1 ≡ some trial
unfolding active_subscription_for newest
subscribed = refl
