-- ===== src/Agents/Heartbeat.antt =====
-- Who is authenticated, and what a heartbeat changes.
use matrix_scanner_saas.Prelude.{
  ℕ, ◌≡◌, inl, inr, true, false, none, some, List, [], ◌∷◌, first, arith, Bool-cases, Option-cases,
  ==_iff, ==_self,
}
use matrix_scanner_saas.Prelude.First.{first_passes}
use matrix_scanner_saas.Prelude.Results.{ok, err}
use matrix_scanner_saas.Text.{Text}
use matrix_scanner_saas.Models.{
  Db, ScannerAgent, AgentStatus, account_is_active, server_is_archived, save_agent,
}
use matrix_scanner_saas.Agents.{
  agent_not_active, is_active_for_api, has_hash, authenticate_agent_token, seen_agent,
  record_heartbeat,
}

-- An agent that may use the API.
pub record IsAuthentic (db : Db) (hash : Text) (agent : ScannerAgent) : Type 0 where
  pub found : first (has_hash hash) db.agents ≡ some agent
  pub agent_active : agent.status ≡ AgentStatus.active
  pub not_revoked : agent.revoked_at ≡ none
  pub account_active : account_is_active (db.accounts agent.account_id) ≡ true
  pub server_kept : server_is_archived (db.servers agent.server_id).status ≡ false

module _ (hash_token : Text → Text) where
  -- A token authenticates exactly the agent whose row has its hash, and only while that agent is
  -- active and not revoked, its account is active and its server is not archived.
  pub authenticate_agent_token-IsAuthentic :
      (db : Db) (raw : Text) (agent : ScannerAgent)
      → authenticate_agent_token hash_token db raw ≡ ok agent
      → IsAuthentic db (hash_token raw) agent
  unfolding authenticate_agent_token
  authenticate_agent_token-IsAuthentic db [] agent h = absurd (ground arith)
  authenticate_agent_token-IsAuthentic db (c ∷ raw) agent h =
      elim (Option-cases (first (has_hash (hash_token (c ∷ raw))) db.agents)) [
        | inl absent ↦ absurd (ground arith)
        | inr (row, found) ↦ elim (Bool-cases (is_active_for_api db row)) [
          | inr idle ↦ absurd (ground arith)
          | inl active ↦
              let same : row ≡ agent = ground arith in
              rw (← same) (record {
                found = found;
                agent_active = unfold is_active_for_api in ground arith;
                not_revoked = unfold is_active_for_api in ground arith;
                account_active = unfold is_active_for_api in ground arith;
                server_kept = unfold is_active_for_api in ground arith;
              })
        ]
      ]

  -- The agent that `heartbeat` reports for has been authenticated, so it is active already: the
  -- branch that brings an offline agent back is never taken, and the status stays.
  pub seen_agent-status :
      (db : Db) (raw : Text) (agent : ScannerAgent) (now : ℕ) (version : Text)
      → authenticate_agent_token hash_token db raw ≡ ok agent
      → (seen_agent now version agent).status ≡ agent.status
  unfolding seen_agent
  seen_agent-status db raw agent now version h =
      let a = authenticate_agent_token-IsAuthentic db raw agent h in rw a.agent_active

  -- An agent whose row says offline is refused, whatever else holds of it.
  pub offline_refused :
      (db : Db) (c : ℕ) (raw : Text) (agent : ScannerAgent)
      → first (has_hash (hash_token (c ∷ raw))) db.agents ≡ some agent
      → agent.status ≡ AgentStatus.offline
      → authenticate_agent_token hash_token db (c ∷ raw) ≡ err agent_not_active
  unfolding authenticate_agent_token is_active_for_api
  offline_refused db c raw agent found off = rw (found, authenticate_agent_token) (rw off)

  first-save_seen :
      (hash : Text) (now : ℕ) (version : Text) (agents : List ScannerAgent) (agent : ScannerAgent)
      → first (has_hash hash) agents ≡ some agent
      → first (has_hash hash) (save_agent (seen_agent now version agent) agents)
        ≡ some (seen_agent now version agent)
  unfolding save_agent seen_agent
  first-save_seen hash now version [] agent h = absurd (ground arith)
  first-save_seen hash now version (a ∷ agents) agent h = ground (
    arith,
    ==_iff a.id agent.id,
    first-save_seen hash now version agents agent,
    first_passes (has_hash hash) (a ∷ agents) agent h,
  )

  still_active :
      (db : Db) (hash : Text) (agent : ScannerAgent) (now : ℕ) (version : Text)
      → IsAuthentic db hash agent
      → is_active_for_api (record_heartbeat now agent version db) (seen_agent now version agent)
        ≡ true
  unfolding is_active_for_api record_heartbeat seen_agent
  still_active db hash agent now version a =
      rw (a.agent_active, a.not_revoked, a.account_active, ==_self agent.server_id)
        (rw a.server_kept)

  -- A heartbeat of an authenticated agent leaves its token good: the same raw token authenticates the
  -- agent as the heartbeat left it.
  pub authenticate-record_heartbeat :
      (db : Db) (raw : Text) (agent : ScannerAgent) (now : ℕ) (version : Text)
      → authenticate_agent_token hash_token db raw ≡ ok agent
      → authenticate_agent_token hash_token (record_heartbeat now agent version db) raw
        ≡ ok (seen_agent now version agent)
  unfolding authenticate_agent_token
  authenticate-record_heartbeat db [] agent now version h = absurd (ground arith)
  authenticate-record_heartbeat db (c ∷ raw) agent now version h =
      let a = authenticate_agent_token-IsAuthentic db (c ∷ raw) agent h in
      let hash : Text = hash_token (c ∷ raw) in
      let after : Db = record_heartbeat now agent version db in
      let seen : ScannerAgent = seen_agent now version agent in
      let found : first (has_hash hash) after.agents ≡ some seen =
        unfold record_heartbeat in first-save_seen hash now version db.agents agent a.found in
      rw (found, authenticate_agent_token) (rw (still_active db hash agent now version a))
