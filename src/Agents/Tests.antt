-- ===== src/Agents/Tests.antt =====
-- Runs of the agent API, and its theorems at a small database. The hash of a token is the token
-- itself with a mark before it.
use matrix_scanner_saas.Prelude.{◌≡◌, refl, true, none, some, [], ◌∷◌}
use matrix_scanner_saas.Prelude.Results.{ok, err}
use matrix_scanner_saas.Text.{Text, codes, text_eq}
use matrix_scanner_saas.Models.{
  Db, Server, ScannerAgent, AgentRegistrationToken, AccountStatus, ServerStatus, AgentStatus,
}
use matrix_scanner_saas.Agents.{
  register_agent, register_with, write_registration, is_usable, not_usable,
  authenticate_agent_token, is_active_for_api, record_heartbeat, seen_agent,
}
use matrix_scanner_saas.Agents.Registration.{register_agent_once}
use matrix_scanner_saas.Agents.Heartbeat.{
  IsAuthentic, authenticate_agent_token-IsAuthentic, authenticate-record_heartbeat,
}

abbrev hash : Text → Text
hash raw = 35 ∷ raw

abbrev server : Server
server = record {
  account_id = 1;
  status = ServerStatus.pending;
  hostname = [];
  agent_status = none;
  last_seen_at = none;
}

abbrev invitation : AgentRegistrationToken
invitation = record {
  account_id = 1;
  server_id = 1;
  token_hash = hash (codes "join");
  expires_at = 100;
  used_at = none;
  revoked_at = none;
}

abbrev start : Db
start = record {
  accounts = λ _. AccountStatus.active;
  servers = λ _. server;
  plan_active = λ _. true;
  plans = 1 ∷ [];
  templates = [];
  agents = [];
  registration_tokens = invitation ∷ [];
  subscriptions = [];
  plan_tools = [];
  tools = [];
  jobs = [];
  runs = [];
  audits = [];
  next_agent = 1;
  next_job = 1;
  next_run = 1;
}

abbrev joined : ScannerAgent
joined = record {
  id = 1;
  account_id = 1;
  server_id = 1;
  token_hash = hash (codes "key");
  status = AgentStatus.active;
  agent_version = codes "0.1";
  registered_at = some 10;
  last_seen_at = some 10;
  revoked_at = none;
}

abbrev with_agent : Db
with_agent =
    (register_agent hash 10 (codes "join") (codes "web1") (codes "0.1") (codes "key") start).1

registered :
    register_agent hash 10 (codes "join") (codes "web1") (codes "0.1") (codes "key") start
    ≡ (ok joined, with_agent)
unfolding register_agent register_with write_registration is_usable text_eq
registered = refl

register_agent_once_example :
    register_agent hash 20 (codes "join") [] [] (codes "other") with_agent
    ≡ (err not_usable, with_agent)
register_agent_once_example =
    register_agent_once hash 10 20 (codes "join") (codes "web1") (codes "0.1") (codes "key") [] []
      (codes "other") start with_agent joined registered

authenticated : authenticate_agent_token hash with_agent (codes "key") ≡ ok joined
unfolding authenticate_agent_token is_active_for_api register_agent register_with write_registration
    is_usable text_eq
authenticated = refl

authenticate_agent_token-IsAuthentic_example : IsAuthentic with_agent (hash (codes "key")) joined
authenticate_agent_token-IsAuthentic_example =
    authenticate_agent_token-IsAuthentic hash with_agent (codes "key") joined authenticated

authenticate-record_heartbeat_example :
    authenticate_agent_token hash (record_heartbeat 40 joined [] with_agent) (codes "key")
    ≡ ok (seen_agent 40 [] joined)
authenticate-record_heartbeat_example =
    authenticate-record_heartbeat hash with_agent (codes "key") joined 40 [] authenticated
