-- ===== src/Audit/Tests.antt =====
-- Runs of the audit log over the sample engine, and its theorems at concrete entries.
use matrix_scanner_saas.Prelude.{◌≡◌, refl, some, none, [], ◌∷◌}
use matrix_scanner_saas.Prelude.Results.{ok, err}
use matrix_scanner_saas.Text.{codes, contains}
use matrix_scanner_saas.Json.{Value, str, obj, end, field, or_empty, truthy}
use matrix_scanner_saas.Redaction.{
  redact_json, redact_secrets, redacted, is_sensitive_key, apply_pattern, apply_patterns,
}
use matrix_scanner_saas.Redaction.Sample.{sample}
use matrix_scanner_saas.Audit.{
  AuditLog, ActorType, AuditResult, save, clean, secret_like_keys, metadata_contains_sensitive_key,
  is_metadata_key,
}
use matrix_scanner_saas.Audit.Laws.{IsClean, save-IsClean}

abbrev entry_with : Value → AuditLog
entry_with v = record {
  actor_user = none;
  actor_type = ActorType.agent;
  account = some 1;
  action = "agent_job.claimed";
  target_type = "AgentJob";
  target_id = codes "7";
  result = AuditResult.success;
  metadata = v;
}

abbrev plain_entry : AuditLog
plain_entry = entry_with (obj (field (codes "tool_key") (str (codes "sk-live-1")) end))

plain_saved :
    save sample plain_entry []
    ≡ ok (entry_with (obj (field (codes "tool_key") (str redacted) end)) ∷ [])
unfolding save clean redact_json redact_secrets is_sensitive_key apply_pattern apply_patterns
    contains or_empty truthy metadata_contains_sensitive_key is_metadata_key
plain_saved = refl

-- A key of the redaction's list that is not in the log's: the value is gone and the row is kept.
app_key_saved :
    save sample (entry_with (obj (field (codes "app_key") (str (codes "x")) end))) []
    ≡ ok (entry_with (obj (field (codes "app_key") (str redacted) end)) ∷ [])
unfolding save clean redact_json redact_secrets is_sensitive_key apply_pattern apply_patterns
    contains or_empty truthy metadata_contains_sensitive_key is_metadata_key
app_key_saved = refl

token_refused :
    save sample (entry_with (obj (field (codes "Token") (str (codes "x")) end))) []
    ≡ err secret_like_keys
unfolding save clean redact_json redact_secrets is_sensitive_key apply_pattern apply_patterns
    contains or_empty truthy metadata_contains_sensitive_key is_metadata_key
token_refused = refl

save-IsClean_example :
    IsClean sample (entry_with (obj (field (codes "tool_key") (str redacted) end)) ∷ [])
save-IsClean_example = save-IsClean sample plain_entry [] _ tt plain_saved
