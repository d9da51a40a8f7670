-- ===== src/AiContext/Kept.antt =====
-- Nothing is taken out of a context without the flag that says so.
use matrix_scanner_saas.Prelude.{
  ℕ, zero, suc, ◌≡◌, ◌∙◌, sym, ap, refl, inl, inr, ◌⊎◌, Bool, true, false, ◌&&◌, some, arith,
  Bool-cases, ltb, leb,
}
use matrix_scanner_saas.Prelude.Results.{ok, Result-cases}
use matrix_scanner_saas.Text.{Text, codes, text_eq}
use matrix_scanner_saas.Json.{Value, Fields, obj, bool, get, put, merge}
use matrix_scanner_saas.Redaction.{Python, redact_fields}
use matrix_scanner_saas.AiContext.{
  min_context_bytes, json_size_bytes, metadata_key, final_key, context_key, with_metadata,
  size_value, size_metadata, write_size, size_rounds, is_size, metadata_of, without_sizes,
  update_size_metadata, prepared_payload, truncate_payload, drop_low_priority_content,
  apply_safe_context_hard_cap,
}
use matrix_scanner_saas.AiContext.Sized.{get-put, get-put_other}

abbrev truncated_key : Text
truncated_key = codes "truncated"

-- The payload with other metadata, in which the flag is what it was.
record IsResized (payload metadata resized : Fields) : Type 0 where
  written : Fields
  same : resized ≡ with_metadata payload written
  flag : get written truncated_key ≡ get metadata truncated_key

write_size-truncated :
    (size : ℕ) (metadata : Fields)
    → get (write_size size metadata) truncated_key ≡ get metadata truncated_key
unfolding write_size text_eq
write_size-truncated size metadata =
    get-put_other (put metadata final_key (size_value size)) context_key truncated_key
      (size_value size) refl
    ∙ get-put_other metadata final_key truncated_key (size_value size) refl

size_metadata-truncated :
    (original max : ℕ) (truncated : Bool) (metadata : Fields)
    → get (size_metadata original max truncated metadata) truncated_key ≡ some (bool truncated)
unfolding size_metadata merge text_eq
size_metadata-truncated original max truncated metadata =
    let m1 = put metadata truncated_key (bool truncated) in
    let m2 = put m1 (codes "original_size_bytes") (size_value original) in
    let m3 = put m2 final_key (size_value 0) in
    let m4 = put m3 (codes "max_size_bytes") (size_value max) in
    let m5 = put m4 context_key (size_value 0) in
    get-put_other m5 (codes "max_context_bytes") truncated_key (size_value max) refl
    ∙ get-put_other m4 context_key truncated_key (size_value 0) refl
    ∙ get-put_other m3 (codes "max_size_bytes") truncated_key (size_value max) refl
    ∙ get-put_other m2 final_key truncated_key (size_value 0) refl
    ∙ get-put_other m1 (codes "original_size_bytes") truncated_key (size_value original) refl
    ∙ get-put metadata truncated_key (bool truncated)

size_rounds-IsResized :
    (rounds : ℕ) (payload metadata : Fields)
    → IsResized payload metadata (size_rounds rounds payload metadata)
unfolding size_rounds
size_rounds-IsResized zero payload metadata = record {
  written = metadata;
  same = refl;
  flag = refl;
}
size_rounds-IsResized (suc rounds) payload metadata =
    let size = json_size_bytes (with_metadata payload metadata) in
    let next = size_rounds-IsResized rounds payload (write_size size metadata) in
    elim (Bool-cases
      (is_size (get metadata final_key) size && is_size (get metadata context_key) size)) [
        | inl done ↦ record { written = metadata; same = ground (arith, done); flag = refl }
        | inr going ↦ record {
          written = next.written;
          same = ground (arith, going, next.same);
          flag = next.flag ∙ write_size-truncated size metadata;
        }
      ]

-- Resizing writes the flag that it is given.
update_size_metadata-flag :
    (original max : ℕ) (truncated : Bool) (payload sized : Fields)
    → update_size_metadata original max truncated payload ≡ ok sized
    → (written : Fields) × (sized ≡ with_metadata payload written)
      × (get written truncated_key ≡ some (bool truncated))
unfolding update_size_metadata
update_size_metadata-flag original max truncated payload sized h =
    elim (Result-cases (metadata_of payload)) [
      | inr (e, bad) ↦ absurd (ground arith)
      | inl (metadata, good) ↦
          let full = size_metadata original max truncated metadata in
          let resized = size_rounds-IsResized 5 payload full in
          let same : size_rounds 5 payload full ≡ sized = ground (arith, good) in
          (
            resized.written,
            sym same ∙ resized.same,
            resized.flag ∙ size_metadata-truncated original max truncated metadata,
          )
    ]

with_metadata-other :
    (payload metadata : Fields) (key : Text)
    → text_eq metadata_key key ≡ false
    → get (with_metadata payload metadata) key ≡ get payload key
unfolding with_metadata
with_metadata-other payload metadata key other =
    get-put_other payload metadata_key key (obj metadata) other

-- The flag is set.
abbrev pub IsTruncated : Fields → Type 0
IsTruncated payload =
    (metadata : Fields) × (get payload metadata_key ≡ some (obj metadata))
    × (get metadata truncated_key ≡ some (bool true))

-- Every part of the context but the metadata is there, redacted.
abbrev pub IsWhole : Python → Fields → Fields → Type 0
IsWhole py context payload =
    (key : Text)
    → text_eq metadata_key key ≡ false
    → get payload key ≡ get (redact_fields py context) key

module _ (py : Python) (text_of : Value → Text) where
  prepared_payload-IsWhole :
      (context payload : Fields)
      → prepared_payload py text_of context ≡ ok payload
      → IsWhole py context payload
  unfolding prepared_payload
  prepared_payload-IsWhole context payload h key other =
      elim (Result-cases (metadata_of (redact_fields py context))) [
        | inr (e, bad) ↦ absurd (ground arith)
        | inl (metadata, good) ↦
            let made : with_metadata (redact_fields py context)
                  (put (without_sizes metadata) (codes "truncated") (bool false))
                ≡ payload =
              ground (arith, good) in
            ap (λ (p : Fields). get p key) (sym made)
            ∙ with_metadata-other (redact_fields py context)
                (put (without_sizes metadata) (codes "truncated") (bool false)) key other
      ]

  truncate_payload-IsTruncated :
      (max original : ℕ) (payload final : Fields)
      → truncate_payload py text_of max original payload ≡ ok final
      → IsTruncated final
  unfolding truncate_payload with_metadata
  truncate_payload-IsTruncated max original payload final h =
      elim (Result-cases (metadata_of payload)) [
        | inr (e, bad) ↦ absurd (ground arith)
        | inl (metadata, good) ↦
            let marked = with_metadata payload (put metadata (codes "truncated") (bool true)) in
            elim (Result-cases (drop_low_priority_content py text_of max original marked)) [
              | inr (e, bad) ↦ absurd (ground arith)
              | inl (dropped, done) ↦
                  let (written, same, flag) =
                    update_size_metadata-flag original max true dropped final
                      (ground (arith, good, done)) in
                  (
                    written,
                    ap (λ (p : Fields). get p metadata_key) same
                        ∙ get-put dropped metadata_key (obj written),
                    flag,
                  )
            ]
      ]

  -- A context that is given out has every part of the redacted context but the metadata unchanged, or the
  -- flag in its metadata says that it was truncated.
  pub apply_safe_context_hard_cap-IsWhole :
      (max : ℕ) (context payload : Fields)
      → apply_safe_context_hard_cap py text_of max context ≡ ok payload
      → IsWhole py context payload ⊎ IsTruncated payload
  unfolding apply_safe_context_hard_cap
  apply_safe_context_hard_cap-IsWhole max context payload h =
      elim (Bool-cases (ltb max min_context_bytes)) [
        | inl small ↦ absurd (ground arith)
        | inr enough ↦ elim (Result-cases (prepared_payload py text_of context)) [
          | inr (e, bad) ↦ absurd (ground arith)
          | inl (prepared, ready) ↦
              let original = json_size_bytes prepared in
              elim (Result-cases (update_size_metadata original max false prepared)) [
                | inr (e, bad) ↦ absurd (ground arith)
                | inl (sized, written) ↦ elim (Bool-cases (leb (json_size_bytes sized) max)) [
                  | inl fits ↦
                      let same : sized ≡ payload = ground arith in
                      let (metadata, kept, flag) =
                        update_size_metadata-flag original max false prepared sized written in
                      inl λ key other.
                        ap (λ (p : Fields). get p key) (sym same ∙ kept)
                        ∙ with_metadata-other prepared metadata key other
                        ∙ prepared_payload-IsWhole context prepared ready key other
                  | inr large ↦
                      elim (Result-cases (truncate_payload py text_of max original sized)) [
                        | inr (e, bad) ↦ absurd (ground arith)
                        | inl (final, cut) ↦
                            let same : final ≡ payload = ground arith in
                            inr (
                              rw⁻¹ same (truncate_payload-IsTruncated max original sized final cut))
                      ]
                ]
              ]
        ]
      ]
