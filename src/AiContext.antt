-- ===== src/AiContext.antt =====
-- The cap on the size of the context that is given to the AI: of apps/ai_context/services.py, the
-- functions from `_safe_text` to `apply_safe_context_hard_cap`.
--
-- A context is a JSON object, and the payload that the source changes in place is passed on. The size is
-- that of `json.dumps` with its default separators, which the order of the keys does not change. `str` of
-- a value that is not a text is a parameter. A part that is no dict where the source calls a method of a
-- dict raises AttributeError, here `malformed`.
pub mod Digits
pub mod Sized
pub mod Cap
pub mod Kept
mod Tests
use matrix_scanner_saas.Prelude.{
  ℕ, zero, suc, ◌+◌, Bool, true, false, not, ◌&&◌, ◌||◌, Option, none, some, List, [], ◌∷◌, ◌==◌,
  ltb, leb, if◌then◌else◌, take,
}
use matrix_scanner_saas.Prelude.Results.{Result, ok, err}
use matrix_scanner_saas.Text.{Text, codes, text_eq}
use matrix_scanner_saas.Json.{
  ℤ, pos, Value, Items, Fields, null, bool, int, float, str, arr, obj, nil, cons, end, field, get,
  put, merge, truthy,
}
use matrix_scanner_saas.Json.Size.{dumps_size}
use matrix_scanner_saas.Redaction.{Python, redact_secrets, redact_fields, redact_json}

pub data ContextError : Type 0 where
  cap_too_small cap_exceeded malformed : ContextError

-- MIN_CONTEXT_BYTES
abbrev pub min_context_bytes : ℕ
min_context_bytes = 2048

-- LOW_TO_HIGH_PRIORITY_SECTIONS
abbrev pub low_to_high_priority_sections : List Text
low_to_high_priority_sections =
    codes "knowledge_summary"
    ∷ codes "recommendations_summary"
    ∷ codes "recent_tool_runs"
    ∷ codes "log_sources_summary"
    ∷ codes "domains_summary"
    ∷ codes "services_summary"
    ∷ codes "available_tools"
    ∷ codes "reports_summary"
    ∷ codes "diagnostics_summary"
    ∷ codes "findings_summary"
    ∷ codes "applications_summary"
    ∷ codes "baseline_summary"
    ∷ codes "risk_summary"
    ∷ []

abbrev pub metadata_key : Text
metadata_key = codes "metadata"

abbrev pub final_key : Text
final_key = codes "final_size_bytes"

abbrev pub context_key : Text
context_key = codes "context_size_bytes"

-- _json_size_bytes
unfoldable pub json_size_bytes : Fields → ℕ
json_size_bytes payload = dumps_size 1 (obj payload)

-- d.pop(key, None)
unfoldable pub remove : Fields → Text → Fields
unfolding text_eq
remove end key = end
remove (field k v fs) key = if text_eq k key then fs else field k v (remove fs key)

-- payload.setdefault("metadata", {}), whose value has to be a dict
unfoldable pub metadata_of : Fields → Result ContextError Fields
metadata_of payload = elim (get payload metadata_key) [
  | none ↦ ok end
  | some (obj metadata) ↦ ok metadata
  | some _ ↦ err malformed
]

unfoldable pub with_metadata : Fields → Fields → Fields
with_metadata payload metadata = put payload metadata_key (obj metadata)

abbrev pub size_value : ℕ → Value
size_value n = int (pos n)

-- The metadata before the first round.
unfoldable pub size_metadata : ℕ → ℕ → Bool → Fields → Fields
size_metadata original max truncated metadata = merge metadata (
    field (codes "truncated") (bool truncated) (
      field (codes "original_size_bytes") (size_value original) (
        field final_key (size_value 0) (
          field (codes "max_size_bytes") (size_value max) (
            field context_key (size_value 0)
              (field (codes "max_context_bytes") (size_value max) end))))))

unfoldable pub write_size : ℕ → Fields → Fields
write_size size metadata =
    put (put metadata final_key (size_value size)) context_key (size_value size)

abbrev pub is_size : Option Value → ℕ → Bool
is_size (some (int (pos n))) size = n == size
is_size _ size = false

-- The rounds that are left of the loop.
unfoldable pub size_rounds : ℕ → Fields → Fields → Fields
unfolding with_metadata write_size
size_rounds zero payload metadata = with_metadata payload metadata
size_rounds (suc rounds) payload metadata =
    let final_size = json_size_bytes (with_metadata payload metadata) in
    let next = size_rounds rounds payload (write_size final_size metadata) in
    if is_size (get metadata final_key) final_size && is_size (get metadata context_key) final_size
    then with_metadata payload metadata
    else next

unfoldable pub update_size_metadata : ℕ → ℕ → Bool → Fields → Result ContextError Fields
update_size_metadata original max truncated payload = elim (metadata_of payload) [
  | err e ↦ err e
  | ok metadata ↦ ok (size_rounds 5 payload (size_metadata original max truncated metadata))
]

abbrev drop_last : Items → Items
drop_last nil = nil
drop_last (cons v nil) = nil
drop_last (cons v (cons w xs)) = cons v (drop_last (cons w xs))

abbrev count : Items → ℕ
count nil = 0
count (cons v xs) = suc (count xs)

-- The loop that pops the last item until the payload fits, with the number of items as its fuel.
unfoldable pub pop_items : ℕ → ℕ → Text → Items → Fields → Fields
pop_items zero max key items payload = payload
pop_items (suc fuel) max key items payload =
    let shorter = drop_last items in
    let rest = pop_items fuel max key shorter (put payload key (arr shorter)) in
    if ltb max (json_size_bytes payload) then rest else payload

-- value not in (None, {}, "")
abbrev is_blank : Value → Bool
is_blank null = true
is_blank (obj end) = true
is_blank (str []) = true
is_blank _ = false

abbrev blank_of : Value → Value
blank_of (obj fs) = obj end
blank_of _ = str []

unfoldable pub drop_section : ℕ → Text → Fields → Fields
unfolding pop_items
drop_section max key payload = elim (get payload key) [
  | none ↦ payload
  | some (arr items) ↦ pop_items (count items) max key items payload
  | some value ↦
      if not (is_blank value) && ltb max (json_size_bytes payload)
      then put payload key (blank_of value)
      else payload
]

-- The loop of `_drop_low_priority_content`.
unfoldable pub drop_sections : ℕ → List Text → Fields → Fields
unfolding drop_section
drop_sections max [] payload = payload
drop_sections max (key ∷ keys) payload =
    let dropped = drop_section max key payload in
    let rest = drop_sections max keys dropped in
    if leb (json_size_bytes dropped) max then dropped else rest

-- value or {}, of which a method is then called
unfoldable pub dict_or_empty : Option Value → Result ContextError Fields
dict_or_empty none = ok end
dict_or_empty (some (obj fs)) = ok fs
dict_or_empty (some v) = if truthy v then err malformed else ok end

abbrev value_or_empty : Option Value → Value
value_or_empty none = str []
value_or_empty (some v) = if truthy v then v else str []

abbrev without_sizes : Fields → Fields
without_sizes metadata =
    remove
      (remove
        (remove (remove (remove metadata (codes "original_size_bytes")) final_key)
          (codes "max_size_bytes"))
        context_key)
      (codes "max_context_bytes")

module _ (py : Python) (text_of : Value → Text) where
  -- _safe_text
  unfoldable pub safe_text : Option Value → ℕ → Text
  safe_text value limit = take limit (redact_secrets py (text_of (value_or_empty value)))

  abbrev version_text : Option Value → Text
  version_text none = codes "1.0"
  version_text (some v) = if truthy v then text_of v else codes "1.0"

  abbrev guidance_entry : Option Value → Fields
  guidance_entry none = end
  guidance_entry (some v) =
      if truthy v then field (codes "safety_guidance") (redact_json py v) end else end

  -- What is left of the payload when dropping sections is not enough.
  unfoldable pub minimal_payload : Fields → Fields → Fields → Fields
  minimal_payload payload account server =
      field (codes "context_version") (str (version_text (get payload (codes "context_version")))) (
        field metadata_key (obj end) (
          field (codes "account_summary")
            (obj (field (codes "id") (str (safe_text (get account (codes "id")) 120)) end))
            (field (codes "server_summary")
              (obj (field (codes "id") (str (safe_text (get server (codes "id")) 120)) end))
              (guidance_entry (get payload (codes "safety_guidance"))))))

  unfoldable pub drop_low_priority_content : ℕ → ℕ → Fields → Result ContextError Fields
  unfolding drop_sections dict_or_empty
  drop_low_priority_content max original payload =
      let dropped = drop_sections max low_to_high_priority_sections payload in
      if leb (json_size_bytes dropped) max
      then ok dropped
      else elim (dict_or_empty (get dropped (codes "account_summary"))) [
        | err e ↦ err e
        | ok account ↦ elim (dict_or_empty (get dropped (codes "server_summary"))) [
          | err e ↦ err e
          | ok server ↦
              update_size_metadata original max true (minimal_payload dropped account server)
        ]
      ]

  -- The redacted context with the fields of the sizes taken out.
  unfoldable pub prepared_payload : Fields → Result ContextError Fields
  prepared_payload context =
      let payload = redact_fields py context in
      elim (metadata_of payload) [
        | err e ↦ err e
        | ok metadata ↦
            ok (
              with_metadata payload (put (without_sizes metadata) (codes "truncated") (bool false)))
      ]

  -- What is done to a payload that does not fit.
  unfoldable pub truncate_payload : ℕ → ℕ → Fields → Result ContextError Fields
  truncate_payload max original payload = elim (metadata_of payload) [
    | err e ↦ err e
    | ok metadata ↦
        elim (drop_low_priority_content max original
          (with_metadata payload (put metadata (codes "truncated") (bool true)))) [
            | err e ↦ err e
            | ok dropped ↦ update_size_metadata original max true dropped
          ]
  ]

  unfoldable pub apply_safe_context_hard_cap : ℕ → Fields → Result ContextError Fields
  unfolding prepared_payload
  apply_safe_context_hard_cap max context =
      if ltb max min_context_bytes then err cap_too_small else elim (prepared_payload context) [
        | err e ↦ err e
        | ok payload ↦
            let original = json_size_bytes payload in
            elim (update_size_metadata original max false payload) [
              | err e ↦ err e
              | ok sized ↦
                  if leb (json_size_bytes sized) max
                  then ok sized
                  else elim (truncate_payload max original sized) [
                    | err e ↦ err e
                    | ok final ↦
                        if ltb max (json_size_bytes final) then err cap_exceeded else ok final
                  ]
            ]
      ]
