-- ===== src/Gate/Authorized.antt =====
-- What an authorised run has passed: every condition of the policy gate.
use matrix_scanner_saas.Prelude.{
  ℕ, ◌≡◌, refl, inl, inr, Bool, true, ◌&&◌, ◌||◌, Option, some, List, [], ◌∷◌, arith, Bool-cases,
  Option-cases, ==_iff,
}
use matrix_scanner_saas.Prelude.Results.{ok, Result-cases}
use matrix_scanner_saas.Redaction.{Python}
use matrix_scanner_saas.Params.{Validated}
use matrix_scanner_saas.Command.{build_execution_payload}
use matrix_scanner_saas.Models.{
  Db, Subscription, ToolPolicy, ToolDefinition, RequestedByType, tool_is_enabled, is_read_only,
}
use matrix_scanner_saas.Agents.{is_active_for_api}
use matrix_scanner_saas.Gate.{
  Request, Requester, Grant, newest, is_running_for, open_ended, ends_after,
  active_subscription_for, in_plan, role_allowed, status_allowed, requester_allowed, checked_params,
  find_tool, find_agent, check_tool, grant, authorize,
}

-- The policy's switch for the kind of requester, and for a user the role too.
abbrev pub permits : ToolPolicy → RequestedByType → Option Requester → Bool
permits policy RequestedByType.admin requested_by = policy.allow_admin_run
permits policy RequestedByType.system requested_by = policy.allow_agent_run
permits policy RequestedByType.user requested_by =
    policy.allow_customer_run && role_allowed policy.allowed_roles requested_by

-- The conditions on the tool, its policy and the server.
pub record IsPermitted (db : Db) (request : Request) (tool : ToolDefinition) : Type 0 where
  pub policy : ToolPolicy
  pub own_server : (db.servers request.server).account_id ≡ request.account
  pub registered : find_tool db request.tool_key ≡ some tool
  pub template_active : tool.template.is_active ≡ true
  pub enabled : tool_is_enabled tool.status ≡ true
  pub read_only : is_read_only tool.risk_level ≡ true
  pub has_policy : tool.policy ≡ some policy
  pub policy_active : policy.is_active ≡ true
  pub permitted : permits policy request.requested_by_type request.requested_by ≡ true
  pub server_status :
      status_allowed policy.allowed_server_statuses (db.servers request.server).status ≡ true

-- The conditions on the subscription, the parameters, the agent and the command.
pub record IsGranted (py : Python) (now : ℕ) (db : Db) (request : Request) (granted : Grant)
    : Type 0 where
  pub subscription : Subscription
  pub paths : Validated
  pub subscribed : active_subscription_for now db request.account ≡ some subscription
  pub planned : in_plan db subscription.plan_id granted.tool.key ≡ true
  pub checked : checked_params granted.tool request.params ≡ ok paths
  pub validated : granted.validated ≡ paths.0
  pub has_agent : find_agent db request.server request.account ≡ some granted.agent
  pub agent_active : is_active_for_api db granted.agent ≡ true
  pub built :
      build_execution_payload py granted.tool.template granted.tool.command granted.validated
      ≡ ok granted.payload

requester_permits :
    (policy : ToolPolicy) (kind : RequestedByType) (requested_by : Option Requester)
    → requester_allowed policy kind requested_by ≡ ok tt
    → permits policy kind requested_by ≡ true
unfolding requester_allowed
requester_permits policy RequestedByType.admin requested_by h = ground arith
requester_permits policy RequestedByType.system requested_by h = ground arith
requester_permits policy RequestedByType.user requested_by h = ground arith

check_tool_parts :
    (db : Db) (request : Request) (tool : ToolDefinition) (policy : ToolPolicy) (u : Unit {0})
    → check_tool db request tool policy ≡ ok u
    → (policy.is_active ≡ true)
      × (requester_allowed policy request.requested_by_type request.requested_by ≡ ok tt)
      × (status_allowed policy.allowed_server_statuses (db.servers request.server).status ≡ true)
unfolding check_tool
check_tool_parts db request tool policy u h =
    elim (Result-cases (requester_allowed policy request.requested_by_type request.requested_by)) [
      | inr (e, bad) ↦ absurd (ground arith)
      | inl (v, good) ↦ (ground arith, good, ground arith)
    ]

module _ (py : Python) (now : ℕ) (db : Db) (request : Request) where
  grant-IsGranted :
      (tool : ToolDefinition) (granted : Grant)
      → grant py now db request tool ≡ ok granted
      → (granted.tool ≡ tool) × IsGranted py now db request granted
  unfolding grant
  grant-IsGranted tool granted h =
      elim (Option-cases (active_subscription_for now db request.account)) [
        | inl unsubscribed ↦ absurd (ground arith)
        | inr (subscription, subscribed) ↦
            elim (Result-cases (checked_params tool request.params)) [
              | inr (e, bad) ↦ absurd (ground arith)
              | inl (paths, checked) ↦
                  elim (Option-cases (find_agent db request.server request.account)) [
                    | inl agentless ↦ absurd (ground arith)
                    | inr (agent, has_agent) ↦
                        elim (Result-cases
                          (build_execution_payload py tool.template tool.command paths.0)) [
                            | inr (e, bad) ↦ absurd (ground arith)
                            | inl (payload, built) ↦
                                let same : granted ≡ record {
                                  tool = tool;
                                  validated = paths.0;
                                  agent = agent;
                                  payload = payload;
                                } =
                                  ground arith in
                                rw same (
                                  refl,
                                  record {
                                    subscription = subscription;
                                    paths = paths;
                                    subscribed = subscribed;
                                    planned = ground arith;
                                    checked = checked;
                                    validated = refl;
                                    has_agent = has_agent;
                                    agent_active = ground arith;
                                    built = built;
                                  },
                                )
                          ]
                  ]
            ]
      ]

  -- An authorised run is of a server of the requesting account; of a registered, enabled and
  -- read-only tool with an active template and an active policy that permits this kind of requester,
  -- the user's role and the server's status; under an active subscription whose plan has the tool;
  -- with parameters that the schema and the path policy accept; on an active agent of the server; and
  -- with a payload that the command builder has made.
  pub authorize-IsGranted :
      (granted : Grant)
      → authorize py now db request ≡ ok granted
      → IsPermitted db request granted.tool × IsGranted py now db request granted
  unfolding authorize
  authorize-IsGranted granted h = elim (Option-cases (find_tool db request.tool_key)) [
    | inl unknown ↦ absurd (ground arith)
    | inr (tool, registered) ↦ elim (Option-cases tool.policy) [
      | inl lawless ↦ absurd (ground arith)
      | inr (policy, has_policy) ↦ elim (Result-cases (check_tool db request tool policy)) [
        | inr (e, bad) ↦ absurd (ground arith)
        | inl (u, good) ↦
            let made : grant py now db request tool ≡ ok granted = ground arith in
            let (same, is_granted) = grant-IsGranted tool granted made in
            let (policy_active, allowed, status) = check_tool_parts db request tool policy u good in
            (
              rw same (record {
                policy = policy;
                own_server =
                    ground (arith, ==_iff (db.servers request.server).account_id request.account);
                registered = registered;
                template_active = ground arith;
                enabled = ground arith;
                read_only = ground arith;
                has_policy = has_policy;
                policy_active = policy_active;
                permitted =
                    requester_permits policy request.requested_by_type request.requested_by allowed;
                server_status = status;
              }),
              is_granted,
            )
      ]
    ]
  ]

newest_passes {ℓ} :
    {A : Type ℓ} (p : A → Bool) (xs : List A) (x : A) → newest p xs ≡ some x → p x ≡ true
unfolding newest
newest_passes p [] x h = absurd (ground arith)
newest_passes p (y ∷ xs) x h = elim (Option-cases (newest p xs)) [
  | inr (z, later) ↦ newest_passes p xs x (ground arith)
  | inl last ↦ elim (Bool-cases (p y)) [
    | inl holds ↦ let same : y ≡ x = ground arith in rw (← same) holds
    | inr fails ↦ absurd (ground arith)
  ]
]

-- The subscription that the gate takes is of the account, active or in trial, on an active plan, and
-- its period has no end or ends later than now.
pub active_subscription_for-active :
    (now : ℕ) (db : Db) (account : ℕ) (subscription : Subscription)
    → active_subscription_for now db account ≡ some subscription
    → (is_running_for db account subscription ≡ true)
      × ((open_ended subscription || ends_after now subscription) ≡ true)
unfolding active_subscription_for
active_subscription_for-active now db account subscription h =
    elim (Option-cases (newest (open_test) db.subscriptions)) [
      | inr (found, e) ↦
          let same : found ≡ subscription = ground arith in
          let holds = newest_passes open_test db.subscriptions found e in rw (← same) (ground arith)
      | inl absent ↦
          let holds = newest_passes end_test db.subscriptions subscription (ground arith) in
          ground arith
    ]
  where
    open_test : Subscription → Bool
    open_test s = is_running_for db account s && open_ended s

    end_test : Subscription → Bool
    end_test s = is_running_for db account s && ends_after now s
