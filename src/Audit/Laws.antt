-- ===== src/Audit/Laws.antt =====
-- Which entries the audit log accepts, and what is stored.
use matrix_scanner_saas.Prelude.{
  ◌≡◌, refl, ◌∙◌, inl, inr, Bool, false, not, ◌&&◌, ◌||◌, List, [], ◌∷◌, ◌++◌, if◌then◌else◌, arith,
  Bool-cases,
}
use matrix_scanner_saas.Prelude.Results.{ok, err}
use matrix_scanner_saas.Json.{
  Value, Items, Fields, null, bool, int, float, str, arr, obj, nil, cons, end, field, or_empty,
}
use matrix_scanner_saas.Redaction.{
  Python, redact_json, redact_items, redact_fields, is_sensitive_key,
}
use matrix_scanner_saas.Redaction.Laws.{exposes, exposes-redact_json}
use matrix_scanner_saas.Audit.{
  AuditLog, is_metadata_key, metadata_contains_sensitive_key, items_contain_sensitive_key,
  fields_contain_sensitive_key, secret_like_keys, clean, save,
}

module _ (py : Python) where
  -- What the log refuses, read off the metadata as the caller gave it: a key with one of the nine
  -- parts, that does not stand below a key with one of the ten parts of the redaction.
  unfoldable mutual
    pub flagged : Value → Bool
    flagged null = false
    flagged (bool b) = false
    flagged (int n) = false
    flagged (float r) = false
    flagged (str s) = false
    flagged (arr xs) = flagged_items xs
    flagged (obj fs) = flagged_fields fs

    pub flagged_items : Items → Bool
    flagged_items nil = false
    flagged_items (cons v xs) = flagged v || flagged_items xs

    pub flagged_fields : Fields → Bool
    flagged_fields end = false
    flagged_fields (field k v fs) =
        is_metadata_key py k || (not (is_sensitive_key py k) && flagged v) || flagged_fields fs

  mutual
    unfolding redact_json flagged metadata_contains_sensitive_key

    contains-redacted :
        (v : Value) → metadata_contains_sensitive_key py (redact_json py v) ≡ flagged v
    contains-redacted null = refl
    contains-redacted (bool b) = refl
    contains-redacted (int n) = refl
    contains-redacted (float r) = refl
    contains-redacted (str s) = refl
    contains-redacted (arr xs) = items-redacted xs
    contains-redacted (obj fs) = fields-redacted fs

    items-redacted :
        (xs : Items) → items_contain_sensitive_key py (redact_items py xs) ≡ flagged_items xs
    items-redacted nil = refl
    items-redacted (cons v xs) = cc (contains-redacted v, items-redacted xs)

    fields-redacted :
        (fs : Fields) → fields_contain_sensitive_key py (redact_fields py fs) ≡ flagged_fields fs
    fields-redacted end = refl
    fields-redacted (field k v fs) = ground (arith, contains-redacted v, fields-redacted fs)

  -- Saving an entry fails exactly when its metadata is flagged, and else appends one row, the entry
  -- with its metadata redacted.
  pub save_lem :
      (entry : AuditLog) (rows : List AuditLog)
      → save py entry rows ≡ (
          if flagged (or_empty entry.metadata)
          then err secret_like_keys
          else ok
              (rows ++ (record entry { metadata = redact_json py (or_empty entry.metadata) } ∷ [])))
  unfolding save clean
  save_lem entry rows = rw (contains-redacted (or_empty entry.metadata)) (ground arith)

  -- The metadata of every row of the table neither exposes a value under a key that looks secret nor
  -- holds a key that the log refuses.
  abbrev pub IsClean : List AuditLog → Type 0
  IsClean [] = Unit
  IsClean (row ∷ rows) =
      ((exposes py row.metadata ≡ false)
        × (metadata_contains_sensitive_key py row.metadata ≡ false))
      × IsClean rows

  IsClean-append :
      (rows : List AuditLog) (row : AuditLog)
      → IsClean rows
      → IsClean (row ∷ [])
      → IsClean (rows ++ (row ∷ []))
  IsClean-append [] row h r = r
  IsClean-append (x ∷ rows) row h r = (h.0, IsClean-append rows row h.1 r)

  -- A successful save keeps the table clean.
  pub save-IsClean :
      (entry : AuditLog) (rows after : List AuditLog)
      → IsClean rows
      → save py entry rows ≡ ok after
      → IsClean after
  save-IsClean entry rows after h e = elim (Bool-cases (flagged (or_empty entry.metadata))) [
    | inl bad ↦ absurd (ground (arith, save_lem entry rows))
    | inr good ↦
        let stored : AuditLog = record entry {
          metadata = redact_json py (or_empty entry.metadata);
        } in
        let same : after ≡ rows ++ (stored ∷ []) = ground (arith, save_lem entry rows) in
        rw same (
          IsClean-append rows stored h (
            (
              exposes-redact_json py (or_empty entry.metadata),
              contains-redacted (or_empty entry.metadata) ∙ good,
            ),
            tt,
          ))
  ]
