-- ===== src/Lib.antt =====
-- A verification library of the core of matrix-scanner-saas: the policy gate through which every run
-- of a tool goes, the queue from which the scanner agents take their jobs, and what these rest on.
--
-- The program. A customer, an admin or a scan asks for a run of a tool on a server. The gate
-- (apps/tools/services.py, `create_tool_run_job`) checks the tool, its policy, the subscription, the
-- parameters and the agent, builds the payload, and queues a job. The agent of the server, which has
-- registered with an invitation and sends its token with every call (apps/servers/services.py), claims
-- the oldest job of its own and reports a result, which reaches the tool run redacted. A baseline scan
-- (apps/servers/baseline.py) asks the gate for all the tools of a profile and follows their runs; a
-- diagnostic session (apps/diagnostics/services.py) asks for one at a time, each with an approval.
-- The agent runs the command of a payload (scanner_runtime). Around this core, a bootstrap session
-- (apps/bootstrap/services.py) installs the agent on a server, the tool builder (apps/tools/services.py)
-- turns reviewed proposals into tools of the gate, a Telegram chat is linked to an account by a code
-- (apps/telegram_integration/services.py), and what is told to the AI about an account is redacted and
-- cut to a size (apps/ai_context/services.py).
--
-- The parts, by file:
-- - Text: the string operations of Python that the code calls, on lists of code points; Text.Laws and
--   Text.Replace have their lemmas. Prelude has tests, lists, results and searches for all the parts.
-- - Json: JSON values as the program holds them. An object is its entries in order. Json.Size is the
--   length of a value that is written out.
-- - Paths: apps/tools/validation.py, `canonicalize_path`, `path_matches_prefix` and
--   `validate_path_policy`. Canonical, Prefix and Policy relate them to lists of components; Roots has
--   the paths that the policy does not see through.
-- - Params: the same file, `validate_params`.
-- - Redaction: apps/core/redaction.py. The engine of regular expressions and lower-casing are the
--   record Python, a parameter of every definition that uses them; of the engine it is assumed that a
--   substitution returns a text without a match as it is. Redaction.Sample instantiates it.
-- - Audit: apps/audit/models.py, `AuditLog.save` and `clean`.
-- - Command: apps/tools/services.py, `build_execution_payload` and `_render_command_arg`.
-- - Models: the rows and statuses of apps/accounts, apps/servers, apps/subscriptions and apps/tools,
--   and one record Db of all the tables. Models.Rows has the lemmas on saving a row.
-- - Agents: apps/servers/services.py, `register_agent`, `authenticate_agent_token` and
--   `record_heartbeat`. The hash of a token is a parameter, the fresh token an argument.
-- - Gate: apps/tools/services.py, `create_tool_run_job` and `active_subscription_for`, with
--   `ensure_system_identity_tool` of apps/tools/setup.py. Authorized has the checks of a granted request,
--   Effects the rows that it adds, Accounted sequences of requests.
-- - Jobs: apps/servers/services.py, `claim_next_job` and `submit_job_result`, `is_allowed_tool` of
--   apps/servers/tool_allowlist.py and `update_tool_run_from_job` of apps/tools/services.py. Jobs.Size
--   is the length of a result. Jobs.Lifecycle composes the calls to sequences of events: Settled follows a job that
--   has ended, Abandoned a job that was refused and its run, by the lemmas of Untold and Present.
-- - Baseline: apps/servers/baseline.py, the start, the enqueueing and the ingestion of a scan, with
--   apps/servers/baseline_profiles.py and apps/tools/setup.py.
-- - Bootstrap: apps/bootstrap/policy.py. Bootstrap.Session has the rows and the single steps of a session
--   (apps/bootstrap/models.py and services.py), and Bootstrap.Run `run_bootstrap_session`: an action that
--   may raise takes the rows of the session, and the server is the record Remote, which answers the
--   commands as it likes. Over, Sent and Script say how a run ends, what it may send, and what a run that
--   succeeds has sent, by the lemmas of Stages.
-- - AiContext: apps/ai_context/services.py, `apply_safe_context_hard_cap` and what it calls. Digits has
--   the number of digits of a size, Sized the sizes of objects, Cap and Kept the theorems.
-- - ToolBuilder: apps/tools/services.py, the cleaning of a proposal's JSON; Validation has the tests of
--   a proposal, Review the calls that validate, review and convert it, and Safe, Converted and Refused
--   the theorems.
-- - Diagnostics: apps/diagnostics/services.py, planning, approval and synchronisation of a session.
-- - Runtime: scanner_runtime/command_templates.py and scanner_runtime/safe_exec.py, what the agent does
--   with the payload of a command. The operating system is the record Machine. Output says how much of a
--   command's output is kept, Agreement what the agent and the server make of each other's data.
-- - Telegram: apps/telegram_integration/services.py, the codes that link a chat to an account, with the two
--   tables of apps/telegram_integration/models.py; Linking has the theorems.
-- Modules called Tests hold runs of the definitions and the theorems at concrete inputs; modules
-- called Sample hold the inputs.
--
-- How the code corresponds. A function that reads the clock takes the time in seconds; one that writes
-- takes the database and returns it beside its result, an exception being an error value. A transaction
-- that raises leaves the database as it was. Calls of the database are atomic, in sequences of whole
-- calls; rows that another transaction has locked are a test that `claim_next_job` takes. Recursion is
-- structural but for two functions. The digits of a number take the number's successor as fuel: the
-- division by ten gives no more digits than that. The loop that pops the items of a section of the AI
-- context takes their number, since each round pops one. The loop that writes the size of a context has
-- five rounds in the source too.
--
-- Not modelled: HTTP views, admin pages, settings and migrations, which are glue; the agent's
-- polling and its discovery tools, which are mostly I/O; the ingestion of scan results into the
-- discovery tables; the start and the texts of a diagnostic session; the SSH client and the bundle
-- of a bootstrap; the generation of a tool proposal from a request; the summaries that fill the AI
-- context; the portal, the AI chat, the commands and notifications of the Telegram integration, and
-- the reports. What a finished run passes on to chat requests is left out of
-- `update_tool_run_from_job`.
mod Prelude
pub mod Text
pub mod Paths
pub mod Json
pub mod Params
pub mod Command
pub mod Models
pub mod Agents
pub mod Gate
pub mod Jobs
pub mod Redaction
pub mod Audit
pub mod Baseline
pub mod Bootstrap
pub mod AiContext
pub mod ToolBuilder
pub mod Runtime
pub mod Telegram
pub mod Diagnostics
