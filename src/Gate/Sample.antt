-- ===== src/Gate/Sample.antt =====
-- A small database for the runs: one active server of one account, with its agent, a plan that has
-- been running since the start, and no tool yet.
use matrix_scanner_saas.Prelude.{true, none, some, [], ◌∷◌}
use matrix_scanner_saas.Text.{codes}
use matrix_scanner_saas.Json.{end}
use matrix_scanner_saas.Models.{
  Db, ScannerAgent, AccountStatus, ServerStatus, AgentStatus, SubscriptionStatus, CustomerRole,
  RequestedByType,
}
use matrix_scanner_saas.Gate.{Request}

abbrev pub owner_agent : ScannerAgent
owner_agent = record {
  id = 1;
  account_id = 1;
  server_id = 1;
  token_hash = codes "key";
  status = AgentStatus.active;
  agent_version = [];
  registered_at = some 10;
  last_seen_at = some 10;
  revoked_at = none;
}

abbrev pub office : Db
office = record {
  accounts = λ _. AccountStatus.active;
  servers = λ _. record {
    account_id = 1;
    status = ServerStatus.active;
    hostname = [];
    agent_status = some AgentStatus.active;
    last_seen_at = none;
  };
  plan_active = λ _. true;
  plans = 1 ∷ [];
  templates = [];
  agents = owner_agent ∷ [];
  registration_tokens = [];
  subscriptions =
      record {
        account_id = 1;
        plan_id = 1;
        status = SubscriptionStatus.trial;
        current_period_end = some 99;
      }
      ∷ [];
  plan_tools = [];
  tools = [];
  jobs = [];
  runs = [];
  audits = [];
  next_agent = 2;
  next_job = 1;
  next_run = 1;
}

-- What an owner, and what a viewer, asks for.
abbrev pub asked_by : CustomerRole → Request
asked_by role = record {
  account = 1;
  server = 1;
  tool_key = "system_identity";
  params = end;
  requested_by = some (record { id = 7; role = some role });
  requested_by_type = RequestedByType.user;
}
