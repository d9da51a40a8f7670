-- ===== src/Redaction/Laws.antt =====
-- What `redact_json` guarantees: no value is left under a key that looks secret, the shape stays, and
-- each text that is left has gone through `redact_secrets`.
use matrix_scanner_saas.Prelude.{
  ◌≡◌, refl, ap, ◌⊎◌, inl, inr, Bool, true, false, not, ◌&&◌, ◌||◌, List, [], ◌∷◌, ◌++◌,
  if◌then◌else◌, any, All, All-append, arith,
}
use mathlib.Core.Option
use matrix_scanner_saas.Text.{Text, text_eq}
use matrix_scanner_saas.Text.Laws.{text_eq_self, text_eq_iff}
use matrix_scanner_saas.Json.{
  Value, Items, Fields, null, bool, int, float, str, arr, obj, nil, cons, end, field, keys, get,
}
use matrix_scanner_saas.Redaction.{
  Python, SecretPattern, secret_patterns, redacted, apply_pattern, apply_patterns, redact_secrets,
  is_sensitive_key, redact_json, redact_items, redact_fields,
}

-- The text `[REDACTED]`.
abbrev pub is_marker : Value → Bool
is_marker (str s) = text_eq s redacted
is_marker _ = false

-- The texts of a value, at any depth, without those that are keys.
unfoldable mutual
  pub leaves : Value → List Text
  leaves null = []
  leaves (bool b) = []
  leaves (int n) = []
  leaves (float r) = []
  leaves (str s) = s ∷ []
  leaves (arr xs) = leaves_items xs
  leaves (obj fs) = leaves_fields fs

  pub leaves_items : Items → List Text
  leaves_items nil = []
  leaves_items (cons v xs) = leaves v ++ leaves_items xs

  pub leaves_fields : Fields → List Text
  leaves_fields end = []
  leaves_fields (field k v fs) = leaves v ++ leaves_fields fs

module _ (py : Python) where
  -- Somewhere in the value a key that looks secret stands before a value other than `[REDACTED]`.
  unfoldable mutual
    pub exposes : Value → Bool
    exposes null = false
    exposes (bool b) = false
    exposes (int n) = false
    exposes (float r) = false
    exposes (str s) = false
    exposes (arr xs) = exposes_items xs
    exposes (obj fs) = exposes_fields fs

    pub exposes_items : Items → Bool
    exposes_items nil = false
    exposes_items (cons v xs) = exposes v || exposes_items xs

    pub exposes_fields : Fields → Bool
    exposes_fields end = false
    exposes_fields (field k v fs) =
        (is_sensitive_key py k && not (is_marker v)) || exposes v || exposes_fields fs

  mutual
    unfolding redact_json exposes

    redact_json-exposes : (v : Value) → exposes (redact_json py v) ≡ false
    redact_json-exposes null = refl
    redact_json-exposes (bool b) = refl
    redact_json-exposes (int n) = refl
    redact_json-exposes (float r) = refl
    redact_json-exposes (str s) = refl
    redact_json-exposes (arr xs) = redact_items-exposes xs
    redact_json-exposes (obj fs) = redact_fields-exposes fs

    redact_items-exposes : (xs : Items) → exposes_items (redact_items py xs) ≡ false
    redact_items-exposes nil = refl
    redact_items-exposes (cons v xs) = rw (redact_json-exposes v) (redact_items-exposes xs)

    redact_fields-exposes : (fs : Fields) → exposes_fields (redact_fields py fs) ≡ false
    redact_fields-exposes end = refl
    redact_fields-exposes (field k v fs) =
        ground (arith, text_eq_self redacted, redact_json-exposes v, redact_fields-exposes fs)

  -- In the result of `redact_json` every key that looks secret, at any depth, stands before the text
  -- "[REDACTED]".
  pub exposes-redact_json : (v : Value) → exposes (redact_json py v) ≡ false
  exposes-redact_json v = redact_json-exposes v

  -- A text that is the marker, or what `redact_secrets` made of some text.
  abbrev pub IsScrubbed : Text → Type 0
  IsScrubbed t = (t ≡ redacted) ⊎ ((s : Text) × (t ≡ redact_secrets py s))

  if-IsScrubbed :
      (b : Bool) (v : Value)
      → All IsScrubbed (leaves v)
      → All IsScrubbed (leaves (if b then str redacted else v))
  unfolding leaves
  if-IsScrubbed true v h = (inl refl, tt)
  if-IsScrubbed false v h = h

  mutual
    unfolding redact_json leaves

    leaves-IsScrubbed : (v : Value) → All IsScrubbed (leaves (redact_json py v))
    leaves-IsScrubbed null = tt
    leaves-IsScrubbed (bool b) = tt
    leaves-IsScrubbed (int n) = tt
    leaves-IsScrubbed (float r) = tt
    leaves-IsScrubbed (str s) = (inr (s, refl), tt)
    leaves-IsScrubbed (arr xs) = items-IsScrubbed xs
    leaves-IsScrubbed (obj fs) = fields-IsScrubbed fs

    items-IsScrubbed : (xs : Items) → All IsScrubbed (leaves_items (redact_items py xs))
    items-IsScrubbed nil = tt
    items-IsScrubbed (cons v xs) =
        All-append IsScrubbed (leaves (redact_json py v)) (leaves_items (redact_items py xs))
          (leaves-IsScrubbed v) (items-IsScrubbed xs)

    fields-IsScrubbed : (fs : Fields) → All IsScrubbed (leaves_fields (redact_fields py fs))
    fields-IsScrubbed end = tt
    fields-IsScrubbed (field k v fs) =
        All-append IsScrubbed
          (leaves (if is_sensitive_key py k then str redacted else redact_json py v))
          (leaves_fields (redact_fields py fs))
          (if-IsScrubbed (is_sensitive_key py k) (redact_json py v) (leaves-IsScrubbed v))
          (fields-IsScrubbed fs)

  -- Every text in the result of `redact_json`, at any depth and keys aside, is "[REDACTED]" or the
  -- result of `redact_secrets` on some text.
  pub leaves-redact_json : (v : Value) → All IsScrubbed (leaves (redact_json py v))
  leaves-redact_json v = leaves-IsScrubbed v

  -- Redaction keeps the keys of an object, in order.
  pub keys-redact_fields : (fs : Fields) → keys (redact_fields py fs) ≡ keys fs
  unfolding redact_fields
  keys-redact_fields end = refl
  keys-redact_fields (field k v fs) = ap (λ (t : List Text). k ∷ t) (keys-redact_fields fs)

  abbrev pub redact_entry : Text → Value → Value
  redact_entry key v = if is_sensitive_key py key then str redacted else redact_json py v

  -- Looking a key up in a redacted object gives nothing where the object had nothing, "[REDACTED]"
  -- under a key that looks secret, and the redacted value under any other key.
  pub get-redact_fields :
      (fs : Fields) (key : Text)
      → get (redact_fields py fs) key ≡ Option.map (redact_entry key) (get fs key)
  unfolding redact_fields get
  get-redact_fields end key = refl
  get-redact_fields (field k v fs) key = ground (arith, text_eq_iff k key, get-redact_fields fs key)

  unmatched_kept :
      (ps : List SecretPattern) (s : Text)
      → any (λ p. py.search p s) ps ≡ false
      → apply_patterns py ps s ≡ s
  unfolding apply_patterns apply_pattern
  unmatched_kept [] s h = refl
  unmatched_kept (p ∷ ps) s h =
      ground (arith, py.sub_unmatched p s, py.sub_group_unmatched p s, unmatched_kept ps s)

  -- A text in which none of the ten patterns is found is left as it is.
  pub redact_secrets_unmatched :
      (s : Text) → any (λ p. py.search p s) secret_patterns ≡ false → redact_secrets py s ≡ s
  unfolding redact_secrets
  redact_secrets_unmatched s h = unmatched_kept secret_patterns s h
