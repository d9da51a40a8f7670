-- ===== src/AiContext/Tests.antt =====
-- Runs of the cap, and its theorems at them.
use matrix_scanner_saas.Prelude.{◌⊎◌, false, ◌≡◌, refl}
use matrix_scanner_saas.Prelude.Results.{ok, err}
use matrix_scanner_saas.Text.{Text, codes, text_eq, contains}
use matrix_scanner_saas.Json.{
  Value, Fields, str, obj, arr, nil, cons, end, field, get, put, merge, show_nat, show_int,
  digits_rev, bool,
}
use matrix_scanner_saas.Json.Size.{dumps_size, chars_size, escaped_size}
use matrix_scanner_saas.Redaction.{
  redact_fields, redact_secrets, apply_pattern, apply_patterns, is_sensitive_key,
}
use matrix_scanner_saas.Redaction.Sample.{sample}
use matrix_scanner_saas.AiContext.{
  cap_too_small, apply_safe_context_hard_cap, prepared_payload, metadata_of, with_metadata, remove,
  json_size_bytes, update_size_metadata, size_metadata, size_rounds, write_size, size_value,
  metadata_key,
}
use matrix_scanner_saas.AiContext.Kept.{IsWhole, IsTruncated, apply_safe_context_hard_cap-IsWhole}
use matrix_scanner_saas.AiContext.Cap.{IsCapped, apply_safe_context_hard_cap-IsCapped}

-- `str` of a value, which these runs call on texts only
abbrev text_of : Value → Text
text_of (str s) = s
text_of _ = codes "value"

abbrev context : Fields
context =
    field (codes "account_summary") (obj (field (codes "id") (str (codes "7")) end))
      (field (codes "knowledge_summary") (arr (cons (str (codes "note")) nil)) end)

abbrev capped : Fields
capped = field (codes "account_summary") (obj (field (codes "id") (str (codes "7")) end)) (
    field (codes "knowledge_summary") (arr (cons (str (codes "note")) nil)) (
      field metadata_key
        (obj (
          field (codes "truncated") (bool false) (
            field (codes "original_size_bytes") (size_value 97) (
              field (codes "final_size_bytes") (size_value 227) (
                field (codes "max_size_bytes") (size_value 2048) (
                  field (codes "context_size_bytes") (size_value 227)
                    (field (codes "max_context_bytes") (size_value 2048) end)))))))
        end))

runs : apply_safe_context_hard_cap sample text_of 2048 context ≡ ok capped
unfolding apply_safe_context_hard_cap prepared_payload metadata_of with_metadata remove
    json_size_bytes update_size_metadata size_metadata size_rounds write_size redact_fields
    is_sensitive_key redact_secrets apply_pattern apply_patterns contains text_eq get put merge
    dumps_size chars_size escaped_size show_nat show_int digits_rev
runs = refl

too_small : apply_safe_context_hard_cap sample text_of 2047 context ≡ err cap_too_small
unfolding apply_safe_context_hard_cap
too_small = refl

apply_safe_context_hard_cap-IsCapped_example : IsCapped 2048 capped
apply_safe_context_hard_cap-IsCapped_example =
    apply_safe_context_hard_cap-IsCapped sample text_of 2048 context capped runs

-- The context as the first call of `update_size_metadata` finds it.
abbrev prepared : Fields
prepared = field (codes "account_summary") (obj (field (codes "id") (str (codes "7")) end)) (
    field (codes "knowledge_summary") (arr (cons (str (codes "note")) nil))
      (field metadata_key (obj (field (codes "truncated") (bool false) end)) end))

sized : update_size_metadata 97 2048 false prepared ≡ ok capped
unfolding metadata_of with_metadata json_size_bytes update_size_metadata size_metadata size_rounds
    write_size text_eq get put merge dumps_size chars_size escaped_size show_nat show_int digits_rev
sized = refl

apply_safe_context_hard_cap-IsWhole_example : IsWhole sample context capped ⊎ IsTruncated capped
apply_safe_context_hard_cap-IsWhole_example =
    apply_safe_context_hard_cap-IsWhole sample text_of 2048 context capped runs
