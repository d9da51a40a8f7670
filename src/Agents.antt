-- ===== src/Agents.antt =====
-- Agents and their tokens: apps/servers/services.py, `authenticate_agent_token`, `register_agent` and
-- `record_heartbeat`, with the properties of apps/servers/models.py that they test.
--
-- The salted hash of apps/core/tokens.py is Django's and a parameter, and so is a fresh raw token,
-- which the `secrets` module gives. Each function takes one time for all its calls of `timezone.now`.
pub mod Registration
pub mod Heartbeat
mod Tests
use matrix_scanner_saas.Prelude.{
  ℕ, zero, suc, ◌+◌, String, Bool, true, false, not, ◌&&◌, ◌||◌, Option, none, some, List, [], ◌∷◌,
  ◌++◌, ◌==◌, ltb, leb, if◌then◌else◌, first, any, take,
}
use matrix_scanner_saas.Prelude.Results.{Result, ok, err}
use matrix_scanner_saas.Text.{Text, text_eq}
use matrix_scanner_saas.Audit.{AuditResult}
use matrix_scanner_saas.Models.{
  Db, Server, ScannerAgent, AgentRegistrationToken, AuditEvent, AgentStatus, ServerStatus,
  account_is_active, server_is_archived, agent_is_active, agent_is_offline, save_agent, set_row,
  add_audit,
}

abbrev pub is_none {ℓ} : {A : Type ℓ} → Option A → Bool
is_none none = true
is_none (some a) = false

-- ScannerAgent.is_active_for_api
unfoldable pub is_active_for_api : Db → ScannerAgent → Bool
is_active_for_api db agent =
    agent_is_active agent.status
    && is_none agent.revoked_at
    && account_is_active (db.accounts agent.account_id)
    && not (server_is_archived (db.servers agent.server_id).status)

-- AgentRegistrationToken.is_usable
unfoldable pub is_usable : ℕ → AgentRegistrationToken → Bool
is_usable now token = is_none token.used_at && is_none token.revoked_at && ltb now token.expires_at

pub data AuthError : Type 0 where
  missing_token invalid_token agent_not_active : AuthError

pub data RegistrationError : Type 0 where
  invalid_registration not_usable not_eligible : RegistrationError

abbrev pub has_hash : Text → ScannerAgent → Bool
has_hash hash agent = text_eq agent.token_hash hash

abbrev pub token_has_hash : Text → AgentRegistrationToken → Bool
token_has_hash hash token = text_eq token.token_hash hash

-- The `mark_used` of the token with this hash; hashes are unique.
unfoldable pub mark_used : ℕ → Text → List AgentRegistrationToken → List AgentRegistrationToken
mark_used now hash [] = []
mark_used now hash (token ∷ tokens) =
    (if token_has_hash hash token then record token { used_at = some now } else token)
    ∷ mark_used now hash tokens

abbrev agent_event : ScannerAgent → String → AuditEvent
agent_event agent action = record {
  action = action;
  result = AuditResult.success;
  account = some agent.account_id;
  target = some agent.id;
  tool_key = "";
}

-- The agent of a server as registration leaves it, from the row that is there or from a new one.
unfoldable pub registered_agent :
    ℕ → AgentRegistrationToken → Text → Text → Option ScannerAgent → ℕ → ScannerAgent
registered_agent now token version hash old fresh_id = record {
  id = elim old [ none ↦ fresh_id | some agent ↦ agent.id ];
  account_id = token.account_id;
  server_id = token.server_id;
  token_hash = hash;
  status = AgentStatus.active;
  agent_version = take 50 version;
  registered_at = some now;
  last_seen_at = some now;
  revoked_at = none;
}

abbrev put_agent : Option ScannerAgent → ScannerAgent → List ScannerAgent → List ScannerAgent
put_agent none agent agents = agents ++ (agent ∷ [])
put_agent (some old) agent agents = save_agent agent agents

unfoldable pub registered_server : ℕ → Text → Server → Server
registered_server now hostname server = record server {
  hostname = elim server.hostname [ [] ↦ take 255 hostname | c ∷ rest ↦ c ∷ rest ];
  status = ServerStatus.active;
  agent_status = some AgentStatus.active;
  last_seen_at = some now;
}

-- What registration writes once the token is accepted.
unfoldable pub write_registration :
    ℕ → AgentRegistrationToken → Text → Text → Text → Db → ScannerAgent × Db
unfolding registered_agent registered_server mark_used
write_registration now token hostname version hash db =
    let old = first (λ (agent : ScannerAgent). agent.server_id == token.server_id) db.agents in
    let agent = registered_agent now token version hash old db.next_agent in
    (
      agent,
      add_audit (agent_event agent "agent.registered") (record db {
        agents = put_agent old agent db.agents;
        next_agent = elim old [ none ↦ suc db.next_agent | some a ↦ db.next_agent ];
        servers =
            set_row token.server_id (registered_server now hostname (db.servers token.server_id))
              db.servers;
        registration_tokens = mark_used now token.token_hash db.registration_tokens;
      }),
    )

module _ (hash_token : Text → Text) where
  unfoldable pub authenticate_agent_token : Db → Text → Result AuthError ScannerAgent
  authenticate_agent_token db [] = err missing_token
  authenticate_agent_token db (c ∷ raw) = elim (first (has_hash (hash_token (c ∷ raw))) db.agents) [
    | none ↦ err invalid_token
    | some agent ↦ if is_active_for_api db agent then ok agent else err agent_not_active
  ]

  unfoldable pub register_with :
      ℕ
      → Text
      → Text
      → Text
      → AgentRegistrationToken
      → Db
      → Result RegistrationError ScannerAgent × Db
  register_with now hostname version raw_agent_token token db =
      if not (is_usable now token)
      then (err not_usable, db)
      else if not (account_is_active (db.accounts token.account_id))
          || server_is_archived (db.servers token.server_id).status
      then (err not_eligible, db)
      else (let (agent, after) =
            write_registration now token hostname version (hash_token raw_agent_token) db in
          (ok agent, after))

  -- `raw_agent_token` is the fresh token that `issue_token` draws and that the caller is given.
  unfoldable pub register_agent :
      ℕ → Text → Text → Text → Text → Db → Result RegistrationError ScannerAgent × Db
  register_agent now raw_registration_token hostname version raw_agent_token db =
      elim (first (token_has_hash (hash_token raw_registration_token)) db.registration_tokens) [
        | none ↦ (err invalid_registration, db)
        | some token ↦ register_with now hostname version raw_agent_token token db
      ]

-- The agent as a heartbeat leaves it.
unfoldable pub seen_agent : ℕ → Text → ScannerAgent → ScannerAgent
seen_agent now version agent = record agent {
  last_seen_at = some now;
  status = if agent_is_offline agent.status then AgentStatus.active else agent.status;
  agent_version = elim version [ [] ↦ agent.agent_version | c ∷ rest ↦ take 50 (c ∷ rest) ];
}

-- The source saves the columns that it changes; here the row is saved whole.
unfoldable pub record_heartbeat : ℕ → ScannerAgent → Text → Db → Db
unfolding seen_agent
record_heartbeat now agent version db =
    let seen = seen_agent now version agent in
    add_audit (agent_event seen "agent.heartbeat_received") (record db {
      agents = save_agent seen db.agents;
      servers =
          set_row seen.server_id
            (record (db.servers seen.server_id) {
              agent_status = some seen.status;
              last_seen_at = some now;
            })
            db.servers;
    })
