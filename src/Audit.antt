-- ===== src/Audit.antt =====
-- The audit log: apps/audit/models.py. An entry's metadata is redacted when it is saved, and an entry
-- whose metadata still has a key that looks secret is refused.
pub mod Laws
mod Tests
use matrix_scanner_saas.Prelude.{
  ℕ, ◌≡◌, String, Bool, true, false, ◌||◌, Option, List, [], ◌∷◌, ◌++◌, if◌then◌else◌, any,
}
use matrix_scanner_saas.Prelude.Results.{Result, ok, err, ◌>>=◌, ◌>>◌}
use matrix_scanner_saas.Text.{Text, codes, contains}
use matrix_scanner_saas.Json.{
  Value, Items, Fields, null, bool, int, float, str, arr, obj, nil, cons, end, field, or_empty,
}
use matrix_scanner_saas.Redaction.{Python, redact_json}

abbrev pub sensitive_metadata_keys : List Text
sensitive_metadata_keys =
    codes "password"
    ∷ codes "secret"
    ∷ codes "token"
    ∷ codes "api_key"
    ∷ codes "apikey"
    ∷ codes "private_key"
    ∷ codes "authorization"
    ∷ codes "bearer"
    ∷ codes "credential"
    ∷ []

pub data ActorType : Type 0 where
  user admin agent system : ActorType

pub data AuditResult : Type 0 where
  success failure denied info : AuditResult

-- One row. `target_id` holds the decimal text of a key, or a tool key.
pub record AuditLog : Type 0 where
  pub actor_user : Option ℕ
  pub actor_type : ActorType
  pub account : Option ℕ
  pub action : String
  pub target_type : String
  pub target_id : Text
  pub result : AuditResult
  pub metadata : Value

pub data AuditError : Type 0 where
  secret_like_keys : AuditError

module _ (py : Python) where
  unfoldable pub is_metadata_key : Text → Bool
  is_metadata_key key = any (contains (py.lower key)) sensitive_metadata_keys

  unfoldable mutual
    pub metadata_contains_sensitive_key : Value → Bool
    metadata_contains_sensitive_key null = false
    metadata_contains_sensitive_key (bool b) = false
    metadata_contains_sensitive_key (int n) = false
    metadata_contains_sensitive_key (float r) = false
    metadata_contains_sensitive_key (str s) = false
    metadata_contains_sensitive_key (arr xs) = items_contain_sensitive_key xs
    metadata_contains_sensitive_key (obj fs) = fields_contain_sensitive_key fs

    pub items_contain_sensitive_key : Items → Bool
    items_contain_sensitive_key nil = false
    items_contain_sensitive_key (cons v xs) =
        metadata_contains_sensitive_key v || items_contain_sensitive_key xs

    pub fields_contain_sensitive_key : Fields → Bool
    fields_contain_sensitive_key end = false
    fields_contain_sensitive_key (field k v fs) =
        is_metadata_key k || metadata_contains_sensitive_key v || fields_contain_sensitive_key fs

  -- AuditLog.clean
  unfoldable pub clean : AuditLog → Result AuditError (Unit {0})
  clean entry =
      if metadata_contains_sensitive_key entry.metadata then err secret_like_keys else ok tt

  -- AuditLog.save: the table that it writes is the list of rows, the newest last. Of `full_clean`
  -- only `clean` is modelled, not the checks of field lengths and choices.
  unfoldable pub save : AuditLog → List AuditLog → Result AuditError (List AuditLog)
  save entry rows = do
    let stored = record entry { metadata = redact_json py (or_empty entry.metadata) }
    clean stored
    ok (rows ++ (stored ∷ []))
