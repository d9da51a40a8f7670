-- ===== src/Redaction.antt =====
-- Removal of secrets from text and from JSON: apps/core/redaction.py.
--
-- The engine of `re` and the case tables of Unicode are parameters, with the one documented law that
-- the proofs use: a pattern that is found nowhere leaves the text as it is.
pub mod Laws
mod Tests
pub mod Sample
use matrix_scanner_saas.Prelude.{
  ℕ, zero, suc, ◌≡◌, String, Bool, true, false, List, [], ◌∷◌, ◌++◌, ◌==◌, if◌then◌else◌, any,
}
use matrix_scanner_saas.Text.{Text, codes, contains}
use matrix_scanner_saas.Json.{
  Value, Items, Fields, null, bool, int, float, str, arr, obj, nil, cons, end, field,
}

-- One entry of SECRET_PATTERNS: the source of the expression, its flags, and `pattern.groups`.
pub record SecretPattern : Type 0 where
  pub regex : String
  pub dot_all : Bool
  pub groups : ℕ

-- What the program uses of Python's standard library and does not define.
pub record Python : Type 0 where
  -- s.lower()
  pub lower : Text → Text
  -- bool(pattern.search(text))
  pub search : SecretPattern → Text → Bool
  -- pattern.sub("[REDACTED]", text)
  pub sub : SecretPattern → Text → Text
  -- pattern.sub(lambda match: f"{match.group(1)}[REDACTED]", text)
  pub sub_group : SecretPattern → Text → Text
  pub sub_unmatched : (p : SecretPattern) (s : Text) → search p s ≡ false → sub p s ≡ s
  pub sub_group_unmatched : (p : SecretPattern) (s : Text) → search p s ≡ false → sub_group p s ≡ s

abbrev plain : String → SecretPattern
plain source = record { regex = source; dot_all = false; groups = 0 }

abbrev grouped : String → SecretPattern
grouped source = record { regex = source; dot_all = false; groups = 1 }

abbrev pub secret_patterns : List SecretPattern
secret_patterns =
    plain "(?i)\\bsk-[A-Za-z0-9_-]{10,}\\b"
    ∷ plain
        "(?i)\\b(?:sk-[A-Za-z0-9_-]*canary[A-Za-z0-9_-]*|[A-Za-z0-9_-]*(?:secret|password|private[_-]?key|token)[A-Za-z0-9_-]*canary[A-Za-z0-9_-]*)\\b"
    ∷ grouped "(?i)(password\\s*[:=]\\s*)\\S+"
    ∷ grouped "(?i)(app_key\\s*[:=]\\s*)\\S+"
    ∷ grouped "(?i)(api[_ -]?key\\s*[:=]\\s*)\\S+"
    ∷ grouped "(?i)(private[_ -]?key\\s*[:=]\\s*)\\S+"
    ∷ grouped "(?i)(token\\s*[:=]\\s*)\\S+"
    ∷ grouped "(?i)(authorization\\s*[:=]\\s*)\\S+"
    ∷ grouped "(?i)(bearer\\s+)[A-Za-z0-9._~+/=-]+"
    ∷ record {
      regex = "-----BEGIN [^-]+PRIVATE KEY-----.*?-----END [^-]+PRIVATE KEY-----";
      dot_all = true;
      groups = 0;
    }
    ∷ []

abbrev pub sensitive_key_parts : List Text
sensitive_key_parts =
    codes "password"
    ∷ codes "secret"
    ∷ codes "token"
    ∷ codes "api_key"
    ∷ codes "apikey"
    ∷ codes "app_key"
    ∷ codes "private_key"
    ∷ codes "authorization"
    ∷ codes "bearer"
    ∷ codes "credential"
    ∷ []

abbrev pub redacted : Text
redacted = codes "[REDACTED]"

module _ (py : Python) where
  -- The body of the loop of `redact_secrets`.
  unfoldable pub apply_pattern : SecretPattern → Text → Text
  apply_pattern p text = if p.groups == 0 then py.sub p text else py.sub_group p text

  unfoldable pub apply_patterns : List SecretPattern → Text → Text
  apply_patterns [] text = text
  apply_patterns (p ∷ ps) text = apply_patterns ps (apply_pattern p text)

  unfoldable pub redact_secrets : Text → Text
  redact_secrets text = apply_patterns secret_patterns text

  -- any(part in str(key).lower() for part in SENSITIVE_KEY_PARTS)
  unfoldable pub is_sensitive_key : Text → Bool
  is_sensitive_key key = any (contains (py.lower key)) sensitive_key_parts

  unfoldable mutual
    pub redact_json : Value → Value
    redact_json null = null
    redact_json (bool b) = bool b
    redact_json (int n) = int n
    redact_json (float r) = float r
    redact_json (str s) = str (redact_secrets s)
    redact_json (arr xs) = arr (redact_items xs)
    redact_json (obj fs) = obj (redact_fields fs)

    pub redact_items : Items → Items
    redact_items nil = nil
    redact_items (cons v xs) = cons (redact_json v) (redact_items xs)

    pub redact_fields : Fields → Fields
    redact_fields end = end
    redact_fields (field k v fs) =
        field k (if is_sensitive_key k then str redacted else redact_json v) (redact_fields fs)
