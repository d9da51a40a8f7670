-- ===== src/AiContext/Cap.antt =====
-- The sizes in the metadata of a context are right, and the cap holds.
use matrix_scanner_saas.Prelude.{
  ℕ, suc, ◌+◌, ◌-◌, ◌≤◌, ◌≡◌, ◌∙◌, sym, ap, refl, inl, inr, Bool, true, false, some, ◌==◌, arith,
  Bool-cases, ltb, leb,
}
use matrix_scanner_saas.Prelude.Results.{ok, Result-cases}
use matrix_scanner_saas.Text.{Text, codes, text_eq}
use matrix_scanner_saas.Redaction.{Python}
use matrix_scanner_saas.Json.{
  Value, Fields, obj, bool, end, field, get, put, merge, show_int, show_nat, digits_rev,
}
use matrix_scanner_saas.Json.Size.{dumps_size}
use matrix_scanner_saas.AiContext.{
  min_context_bytes, drop_low_priority_content, json_size_bytes, metadata_key, final_key,
  context_key, with_metadata, size_value, size_metadata, write_size, size_rounds,
  update_size_metadata, metadata_of, apply_safe_context_hard_cap, truncate_payload,
  prepared_payload,
}
use matrix_scanner_saas.AiContext.Digits.{digits, size_with, size_with_settles}
use matrix_scanner_saas.AiContext.Sized.{get-put, get-put_other, put-put, dumps_size-put}

-- Both places hold this size, and with it the payload has the size of the formula.
record IsWritten (base size : ℕ) (payload metadata : Fields) : Type 0 where
  final_size : get metadata final_key ≡ some (size_value size)
  context_size : get metadata context_key ≡ some (size_value size)
  measured : json_size_bytes (with_metadata payload metadata) ≡ size_with base size

-- The metadata of the payload says its size.
pub record IsSized (payload : Fields) : Type 0 where
  pub metadata : Fields
  pub found : get payload metadata_key ≡ some (obj metadata)
  pub final_size : get metadata final_key ≡ some (size_value (json_size_bytes payload))
  pub context_size : get metadata context_key ≡ some (size_value (json_size_bytes payload))

dumps_size-size_value : (n : ℕ) → dumps_size 1 (size_value n) ≡ digits n
unfolding dumps_size show_int
dumps_size-size_value n = refl

with_metadata-size :
    (payload first second : Fields)
    → json_size_bytes (with_metadata payload second) + dumps_size 1 (obj first)
      ≡ json_size_bytes (with_metadata payload first) + dumps_size 1 (obj second)
unfolding json_size_bytes with_metadata
with_metadata-size payload first second =
    let changed =
      dumps_size-put 1 (put payload metadata_key (obj first)) metadata_key (obj first) (obj second)
        (get-put payload metadata_key (obj first)) in
    rw⁻¹ (put-put payload metadata_key (obj first) (obj second)) changed

write_size-IsWritten :
    (base s t : ℕ) (payload metadata : Fields)
    → IsWritten base s payload metadata
    → IsWritten base t payload (write_size t metadata)
unfolding write_size text_eq
write_size-IsWritten base s t payload metadata h =
    let first = put metadata final_key (size_value t) in
    let second = put first context_key (size_value t) in
    let kept : get first context_key ≡ some (size_value s) =
      get-put_other metadata final_key context_key (size_value t) refl ∙ h.context_size in
    let e1 = dumps_size-put 1 metadata final_key (size_value s) (size_value t) h.final_size in
    let e2 = dumps_size-put 1 first context_key (size_value s) (size_value t) kept in
    let e3 = with_metadata-size payload metadata second in
    record {
      final_size =
          get-put_other first context_key final_key (size_value t) refl
          ∙ get-put metadata final_key (size_value t);
      context_size = get-put first context_key (size_value t);
      measured =
          omega (arith, e1, e2, e3, h.measured, dumps_size-size_value s, dumps_size-size_value t);
    }

size_rounds-stop :
    (base s n : ℕ) (payload metadata : Fields)
    → IsWritten base s payload metadata
    → size_with base s ≡ s
    → size_rounds (suc n) payload metadata ≡ with_metadata payload metadata
unfolding size_rounds
size_rounds-stop base s n payload metadata h same =
    ground (arith, h.final_size, h.context_size, h.measured, same)

with_metadata-IsSized :
    (base s : ℕ) (payload metadata : Fields)
    → IsWritten base s payload metadata
    → size_with base s ≡ s
    → IsSized (with_metadata payload metadata)
unfolding with_metadata
with_metadata-IsSized base s payload metadata h same =
    let right : json_size_bytes (put payload metadata_key (obj metadata)) ≡ s = h.measured ∙ same in
    record {
      metadata = metadata;
      found = get-put payload metadata_key (obj metadata);
      final_size = h.final_size ∙ ap (λ (n : ℕ). some (size_value n)) (sym right);
      context_size = h.context_size ∙ ap (λ (n : ℕ). some (size_value n)) (sym right);
    }

size_rounds-go :
    (base s n : ℕ) (payload metadata : Fields)
    → IsWritten base s payload metadata
    → (s == size_with base s) ≡ false
    → size_rounds (suc n) payload metadata
      ≡ size_rounds n payload (write_size (size_with base s) metadata)
unfolding size_rounds
size_rounds-go base s n payload metadata h other =
    ground (arith, h.final_size, h.context_size, h.measured, other)

-- A round is the last one, or leads to the next.
size_rounds-next :
    (base s n : ℕ) (payload metadata : Fields)
    → IsWritten base s payload metadata
    → IsSized (size_rounds n payload (write_size (size_with base s) metadata))
    → IsSized (size_rounds (suc n) payload metadata)
size_rounds-next base s n payload metadata h next = elim (Bool-cases (s == size_with base s)) [
  | inl same ↦
      let right : size_with base s ≡ s = ground (arith, same) in
      rw (size_rounds-stop base s n payload metadata h right)
        (with_metadata-IsSized base s payload metadata h right)
  | inr other ↦ rw (size_rounds-go base s n payload metadata h other) next
]

size_rounds-IsSized :
    (base : ℕ) (payload metadata : Fields)
    → IsWritten base 0 payload metadata
    → IsSized (size_rounds 5 payload metadata)
size_rounds-IsSized base payload metadata h0 =
    let x1 = size_with base 0 in
    let x2 = size_with base x1 in
    let x3 = size_with base x2 in
    let m1 = write_size x1 metadata in
    let m2 = write_size x2 m1 in
    let m3 = write_size x3 m2 in
    let h1 = write_size-IsWritten base 0 x1 payload metadata h0 in
    let h2 = write_size-IsWritten base x1 x2 payload m1 h1 in
    let h3 = write_size-IsWritten base x2 x3 payload m2 h2 in
    size_rounds-next base 0 4 payload metadata h0 (
      size_rounds-next base x1 3 payload m1 h1 (
        size_rounds-next base x2 2 payload m2 h2 (
          rw (size_rounds-stop base x3 1 payload m3 h3 (size_with_settles base))
            (with_metadata-IsSized base x3 payload m3 h3 (size_with_settles base)))))

two_digits : (fs : Fields) → digits 0 + digits 0 ≤ json_size_bytes fs
unfolding json_size_bytes dumps_size show_nat digits_rev
two_digits end = omega arith
two_digits (field k v fs) = omega arith

size_metadata-IsWritten :
    (original max : ℕ) (truncated : Bool) (payload metadata : Fields)
    → (base : ℕ) × IsWritten base 0 payload (size_metadata original max truncated metadata)
unfolding size_metadata merge text_eq
size_metadata-IsWritten original max truncated payload metadata =
    let sized = size_metadata original max truncated metadata in
    let m1 = put metadata (codes "truncated") (bool truncated) in
    let m2 = put m1 (codes "original_size_bytes") (size_value original) in
    let m3 = put m2 final_key (size_value 0) in
    let m4 = put m3 (codes "max_size_bytes") (size_value max) in
    let m5 = put m4 context_key (size_value 0) in
    let whole = json_size_bytes (with_metadata payload sized) in
    (
      whole - (digits 0 + digits 0),
      record {
        final_size =
            get-put_other m5 (codes "max_context_bytes") final_key (size_value max) refl
            ∙ get-put_other m4 context_key final_key (size_value 0) refl
            ∙ get-put_other m3 (codes "max_size_bytes") final_key (size_value max) refl
            ∙ get-put m2 final_key (size_value 0);
        context_size =
            get-put_other m5 (codes "max_context_bytes") context_key (size_value max) refl
            ∙ get-put m4 context_key (size_value 0);
        measured = omega (arith, two_digits (with_metadata payload sized));
      },
    )

-- Whenever the sizes can be written at all, the five rounds are enough: the two sizes that the metadata
-- then holds are the size of the payload with these sizes in it.
pub update_size_metadata-IsSized :
    (original max : ℕ) (truncated : Bool) (payload sized : Fields)
    → update_size_metadata original max truncated payload ≡ ok sized
    → IsSized sized
unfolding update_size_metadata
update_size_metadata-IsSized original max truncated payload sized h =
    elim (Result-cases (metadata_of payload)) [
      | inr (e, bad) ↦ absurd (ground arith)
      | inl (metadata, good) ↦
          let (base, written) = size_metadata-IsWritten original max truncated payload metadata in
          let full = size_metadata original max truncated metadata in
          let same : size_rounds 5 payload full ≡ sized = ground arith in
          rw⁻¹ same (size_rounds-IsSized base payload full written)
    ]

-- What a context that is given out satisfies.
pub record IsCapped (max : ℕ) (payload : Fields) : Type 0 where
  pub bounded : json_size_bytes payload ≤ max
  pub sized : IsSized payload

module _ (py : Python) (text_of : Value → Text) where
  truncate_payload-IsSized :
      (max original : ℕ) (payload final : Fields)
      → truncate_payload py text_of max original payload ≡ ok final
      → IsSized final
  unfolding truncate_payload
  truncate_payload-IsSized max original payload final h =
      elim (Result-cases (metadata_of payload)) [
        | inr (e, bad) ↦ absurd (ground arith)
        | inl (metadata, good) ↦
            let marked = with_metadata payload (put metadata (codes "truncated") (bool true)) in
            elim (Result-cases (drop_low_priority_content py text_of max original marked)) [
              | inr (e, bad) ↦ absurd (ground arith)
              | inl (dropped, done) ↦
                  update_size_metadata-IsSized original max true dropped final (ground arith)
            ]
      ]

  -- A context that is given out is no larger than the cap, counting the metadata that was written into it,
  -- and the two sizes in its metadata are its true size.
  pub apply_safe_context_hard_cap-IsCapped :
      (max : ℕ) (context payload : Fields)
      → apply_safe_context_hard_cap py text_of max context ≡ ok payload
      → IsCapped max payload
  unfolding apply_safe_context_hard_cap
  apply_safe_context_hard_cap-IsCapped max context payload h =
      elim (Bool-cases (ltb max min_context_bytes)) [
        | inl small ↦ absurd (ground arith)
        | inr enough ↦ elim (Result-cases (prepared_payload py text_of context)) [
          | inr (e, bad) ↦ absurd (ground arith)
          | inl (prepared, ready) ↦
              let original = json_size_bytes prepared in
              elim (Result-cases (update_size_metadata original max false prepared)) [
                | inr (e, bad) ↦ absurd (ground arith)
                | inl (sized, written) ↦ elim (Bool-cases (leb (json_size_bytes sized) max)) [
                  | inl fits ↦
                      let same : sized ≡ payload = ground arith in
                      rw⁻¹ same (record {
                        bounded = ground arith;
                        sized =
                            update_size_metadata-IsSized original max false prepared sized written;
                      })
                  | inr large ↦
                      elim (Result-cases (truncate_payload py text_of max original sized)) [
                        | inr (e, bad) ↦ absurd (ground arith)
                        | inl (final, cut) ↦
                            let same : final ≡ payload = ground arith in
                            let small : json_size_bytes final ≤ max = ground arith in
                            rw⁻¹ same (record {
                              bounded = small;
                              sized = truncate_payload-IsSized max original sized final cut;
                            })
                      ]
                ]
              ]
        ]
      ]
