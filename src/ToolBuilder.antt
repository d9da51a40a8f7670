-- ===== src/ToolBuilder.antt =====
-- The tool builder of apps/tools/services.py: the tables that it tests a proposal against, and the
-- cleaning of its JSON. `re.split` on runs of other characters and the membership test on the set of the
-- parts are the test whether a part stands between such characters.
pub mod Validation
pub mod Review
pub mod Converted
pub mod Refused
pub mod Safe
mod Tests
use matrix_scanner_saas.Prelude.{
  ℕ, Bool, true, false, not, ◌&&◌, ◌||◌, List, [], ◌∷◌, leb, if◌then◌else◌, any, take,
}
use matrix_scanner_saas.Text.{Text, codes, text_eq, one_of, contains}
use matrix_scanner_saas.Json.{
  Value, Items, Fields, null, bool, int, float, str, arr, obj, nil, cons, end, field,
}
use matrix_scanner_saas.Redaction.{Python, redact_secrets, redacted, is_sensitive_key}

-- ALLOWED_BUILDER_HANDLER_KEYS, the keys of BASELINE_TOOL_KEYS
abbrev pub allowed_builder_handler_keys : List Text
allowed_builder_handler_keys =
    codes "system_identity"
    ∷ codes "services_status"
    ∷ codes "panel_detector"
    ∷ codes "cpanel_domain_scanner"
    ∷ codes "application_discovery"
    ∷ codes "laravel_discovery"
    ∷ codes "log_sources_discovery"
    ∷ codes "webroot_risk_checker"
    ∷ []

-- ALLOWED_COMMAND_TEMPLATE_BINARIES
abbrev pub allowed_command_template_binaries : List Text
allowed_command_template_binaries =
    codes "apachectl"
    ∷ codes "awk"
    ∷ codes "cut"
    ∷ codes "df"
    ∷ codes "du"
    ∷ codes "find"
    ∷ codes "grep"
    ∷ codes "journalctl"
    ∷ codes "ls"
    ∷ codes "nginx"
    ∷ codes "ps"
    ∷ codes "sed"
    ∷ codes "sort"
    ∷ codes "ss"
    ∷ codes "stat"
    ∷ codes "systemctl"
    ∷ codes "uniq"
    ∷ codes "wc"
    ∷ []

-- FORBIDDEN_COMMAND_TEMPLATE_PARTS
abbrev pub forbidden_command_template_parts : List Text
forbidden_command_template_parts =
    codes ".env"
    ∷ codes "2>"
    ∷ codes "apt"
    ∷ codes "apt-get"
    ∷ codes "chmod"
    ∷ codes "chown"
    ∷ codes "composer install"
    ∷ codes "cp "
    ∷ codes "curl "
    ∷ codes "delete"
    ∷ codes "destructive"
    ∷ codes "dnf"
    ∷ codes "docker rm"
    ∷ codes "install "
    ∷ codes "less"
    ∷ codes "ln "
    ∷ codes "mkdir"
    ∷ codes "more"
    ∷ codes "mv "
    ∷ codes "npm install"
    ∷ codes "passwd"
    ∷ codes "pip install"
    ∷ codes "private_key"
    ∷ codes "reboot"
    ∷ codes "reload"
    ∷ codes "remediation"
    ∷ codes "remove"
    ∷ codes "restart"
    ∷ codes "rm "
    ∷ codes "scp"
    ∷ codes "service "
    ∷ codes "shutdown"
    ∷ codes "sudo"
    ∷ codes "systemctl disable"
    ∷ codes "systemctl enable"
    ∷ codes "systemctl reload"
    ∷ codes "systemctl restart"
    ∷ codes "systemctl start"
    ∷ codes "systemctl stop"
    ∷ codes "tee "
    ∷ codes "truncate"
    ∷ codes "useradd"
    ∷ codes "usermod"
    ∷ codes "wget "
    ∷ codes "write"
    ∷ codes "yum"
    ∷ []

-- FORBIDDEN_BUILDER_FIELD_PARTS
abbrev pub forbidden_builder_field_parts : List Text
forbidden_builder_field_parts =
    codes "command"
    ∷ codes "shell"
    ∷ codes "script"
    ∷ codes "code"
    ∷ codes "exec"
    ∷ codes "write"
    ∷ codes "delete"
    ∷ codes "remove"
    ∷ codes "restart"
    ∷ codes "install"
    ∷ codes "package"
    ∷ codes "chmod"
    ∷ codes "chown"
    ∷ codes "remediation"
    ∷ codes "destructive"
    ∷ []

-- BUILDER_SAFE_CONFIG_KEYS
abbrev pub builder_safe_config_keys : List Text
builder_safe_config_keys =
    codes "allowed_binaries" ∷ codes "blocked_tokens" ∷ codes "command_argv_template" ∷ []

abbrev onto_word : ℕ → List Text → List Text
onto_word c [] = (c ∷ []) ∷ []
onto_word c (word ∷ words) = (c ∷ word) ∷ words

abbrev is_word_character : ℕ → Bool
is_word_character c = (leb b'a' c && leb c b'z') || (leb b'0' c && leb c b'9')

-- The words of a lower-case key.
unfoldable pub key_words : Text → List Text
key_words [] = [] ∷ []
key_words (c ∷ s) =
    let rest = key_words s in if is_word_character c then onto_word c rest else [] ∷ rest

unfoldable pub has_forbidden_word : Text → Bool
unfolding key_words
has_forbidden_word key = any (λ part. one_of part (key_words key)) forbidden_builder_field_parts

module _ (py : Python) where
  unfoldable mutual
    -- The inner function of `sanitize_builder_json`, whose list of sensitive parts is that of `redact_json`.
    pub sanitize : Value → Value
    sanitize null = null
    sanitize (bool b) = bool b
    sanitize (int n) = int n
    sanitize (float r) = float r
    sanitize (str s) = str (redact_secrets py s)
    sanitize (arr xs) = arr (sanitize_items xs)
    sanitize (obj fs) = obj (sanitize_fields fs)

    pub sanitize_items : Items → Items
    sanitize_items nil = nil
    sanitize_items (cons v xs) = cons (sanitize v) (sanitize_items xs)

    pub sanitize_fields : Fields → Fields
    sanitize_fields end = end
    sanitize_fields (field k v fs) =
        field k
          (if one_of (py.lower k) builder_safe_config_keys
            then sanitize v
            else if is_sensitive_key py k
            then str redacted
            else sanitize v)
          (sanitize_fields fs)

    pub contains_forbidden_builder_key : Value → Bool
    contains_forbidden_builder_key (obj fs) = fields_contain_forbidden_key fs
    contains_forbidden_builder_key (arr xs) = items_contain_forbidden_key xs
    contains_forbidden_builder_key _ = false

    pub items_contain_forbidden_key : Items → Bool
    items_contain_forbidden_key nil = false
    items_contain_forbidden_key (cons v xs) =
        contains_forbidden_builder_key v || items_contain_forbidden_key xs

    pub fields_contain_forbidden_key : Fields → Bool
    fields_contain_forbidden_key end = false
    fields_contain_forbidden_key (field k v fs) =
        has_forbidden_word (py.lower k)
        || contains_forbidden_builder_key v
        || fields_contain_forbidden_key fs

  -- sanitize_builder_text
  unfoldable pub sanitize_builder_text : ℕ → Text → Text
  sanitize_builder_text limit value = take limit (redact_secrets py value)
