-- ===== src/Redaction/Tests.antt =====
-- Runs of the redaction over the sample engine, and its theorems at concrete values.
use matrix_scanner_saas.Prelude.{◌≡◌, refl, false, All}
use matrix_scanner_saas.Text.{codes, contains}
use matrix_scanner_saas.Json.{Fields, str, obj, arr, nil, cons, end, field}
use matrix_scanner_saas.Redaction.{
  redact_json, redact_secrets, redacted, is_sensitive_key, apply_pattern, apply_patterns,
}
use matrix_scanner_saas.Redaction.Laws.{
  exposes, leaves, IsScrubbed, exposes-redact_json, leaves-redact_json,
}
use matrix_scanner_saas.Redaction.Sample.{sample}

abbrev login : Fields
login = field (codes "User") (str (codes "bob")) (
    field (codes "API_KEY") (obj (field (codes "id") (str (codes "1")) end))
      (field (codes "notes") (arr (cons (str (codes "sk-live-9")) nil)) end))

login_hidden :
    redact_json sample (obj login)
    ≡ obj (
        field (codes "User") (str (codes "bob")) (
          field
            (codes "API_KEY")
            (str redacted)
            (field (codes "notes") (arr (cons (str redacted) nil)) end)))
unfolding redact_json redact_secrets is_sensitive_key apply_pattern apply_patterns contains
login_hidden = refl

exposes-redact_json_example : exposes sample (redact_json sample (obj login)) ≡ false
exposes-redact_json_example = exposes-redact_json sample (obj login)

leaves-redact_json_example : All (IsScrubbed sample) (leaves (redact_json sample (obj login)))
leaves-redact_json_example = leaves-redact_json sample (obj login)
