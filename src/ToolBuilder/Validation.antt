-- ===== src/ToolBuilder/Validation.antt =====
-- What a proposal is tested for: `validate_builder_schema`, `validate_command_template_proposal` and the
-- tests of `validate_tool_build_proposal`, in order. An exception that a malformed proposal makes the
-- code raise is `broken`: a method of a dict called on another value, a membership test of a list or a
-- dict in a set, or a loop over a value that has no items. `str` of a value that is no text is the
-- parameter `text_of`.
use matrix_scanner_saas.Prelude.{
  ℕ, Bool, true, false, not, ◌&&◌, ◌||◌, Option, none, some, List, [], ◌∷◌, ◌++◌, ◌==◌,
  if◌then◌else◌, any,
}
use matrix_scanner_saas.Prelude.Results.{Result, ok, err, ◌>>=◌}
use matrix_scanner_saas.Text.{Text, codes, text_eq, one_of, contains, after_last, strip}
use matrix_scanner_saas.Json.{
  Value, Items, Fields, bool, str, arr, obj, nil, cons, end, field, get, truthy,
}
use matrix_scanner_saas.Redaction.{Python, redact_secrets}
use matrix_scanner_saas.ToolBuilder.{
  allowed_builder_handler_keys, allowed_command_template_binaries, forbidden_command_template_parts,
  forbidden_builder_field_parts, contains_forbidden_builder_key,
}

-- The messages in `validation_errors`.
pub data ProposalError : Type 0 where
  fields_not_object unsafe_parameter_name spec_not_object unsupported_parameter_type : ProposalError
  not_argv shell_operator no_binaries no_blocked_tokens binary_not_allowlisted : ProposalError
  secret_in_argv forbidden_content listed_binary_not_allowlisted : ProposalError
  unknown_handler unsupported_execution not_read_only forbidden_field no_timeout no_output_cap :
      ProposalError
  bad_status no_redaction_rules allowed_paths_not_list blocked_paths_not_list : ProposalError
  policy_active policy_allows_runs : ProposalError

-- What the builder raises.
pub data BuildError : Type 0 where
  broken has_errors not_approved bad_target validation_failed missing_key duplicate_key : BuildError

abbrev pub fails : Bool → ProposalError → List ProposalError
fails true e = e ∷ []
fails false e = []

-- d.get(key) or {}, of which a method is then called
unfoldable pub section : Fields → Text → Result BuildError Fields
section content key = elim (get content key) [
  | none ↦ ok end
  | some (obj fs) ↦ ok fs
  | some v ↦ if truthy v then err broken else ok end
]

-- The truth of d.get(key)
unfoldable pub has : Fields → Text → Bool
has content key = elim (get content key) [ none ↦ false | some v ↦ truthy v ]

-- d.get(key) or e.get(key) or the default
unfoldable pub either : Fields → Fields → Text → Value → Value
unfolding has
either first second key fallback = elim (get first key) [
  | some v ↦
      if truthy v
      then v
      else elim (get second key) [ some w ↦ if truthy w then w else fallback | none ↦ fallback ]
  | none ↦ elim (get second key) [ some w ↦ if truthy w then w else fallback | none ↦ fallback ]
]

-- v == "text"
abbrev pub is_text : Option Value → Text → Bool
is_text (some (str s)) t = text_eq s t
is_text _ t = false

-- v in {"text", ...}
unfoldable pub in_set : Option Value → List Text → Result BuildError Bool
in_set none texts = ok false
in_set (some (str s)) texts = ok (one_of s texts)
in_set (some (arr xs)) texts = err broken
in_set (some (obj fs)) texts = err broken
in_set (some _) texts = ok false

abbrev pub is_list : Option Value → Bool
is_list (some (arr xs)) = true
is_list _ = false

abbrev pub is_false : Option Value → Bool
is_false (some (bool false)) = true
is_false _ = false

-- A list with an item.
abbrev pub is_filled_list : Value → Bool
is_filled_list (arr (cons v xs)) = true
is_filled_list _ = false

abbrev pub parameter_types : List Text
parameter_types =
    codes "string"
    ∷ codes "integer"
    ∷ codes "number"
    ∷ codes "boolean"
    ∷ codes "object"
    ∷ codes "array"
    ∷ codes "path"
    ∷ []

-- The texts of a list in which every item is a text that is not blank.
unfoldable pub argv_of : Items → Option (List Text)
argv_of nil = some []
argv_of (cons (str s) xs) = elim (argv_of xs) [
  | some rest ↦ if text_eq (strip s) [] then none else some (s ∷ rest)
  | none ↦ none
]
argv_of (cons _ xs) = none

abbrev pub argv_of_value : Value → Option (List Text)
argv_of_value (arr xs) = argv_of xs
argv_of_value _ = none

-- [;&|`<>], a line feed or a carriage return
abbrev pub is_shell_character : ℕ → Bool
is_shell_character c =
    c == b';' || c == b'&' || c == b'|' || c == b'`' || c == b'<' || c == b'>' || c == 10 || c == 13

module _ (py : Python) (text_of : Value → Text) where
  abbrev name_errors : Text → List ProposalError
  name_errors name =
      fails (any (contains (py.lower name)) forbidden_builder_field_parts) unsafe_parameter_name

  abbrev spec_errors : Value → Result BuildError (List ProposalError)
  spec_errors (obj spec) = in_set (get spec (codes "type")) parameter_types >>= λ known.
      ok (fails (not known) unsupported_parameter_type)
  spec_errors _ = ok (spec_not_object ∷ [])

  unfoldable pub field_errors : Fields → Result BuildError (List ProposalError)
  field_errors end = ok []
  field_errors (field name spec fields) = do
    found ← spec_errors spec
    rest ← field_errors fields
    ok (name_errors name ++ found ++ rest)

  unfoldable pub validate_builder_schema : Fields → Result BuildError (List ProposalError)
  validate_builder_schema schema = elim (get schema (codes "fields")) [
    | none ↦ ok []
    | some (obj fields) ↦ field_errors fields
    | some _ ↦ ok (fields_not_object ∷ [])
  ]

  -- The loop over the parts of the command, which stops at the first error.
  unfoldable pub part_errors : List Text → List ProposalError
  part_errors [] = []
  part_errors (part ∷ parts) =
      let rest = part_errors parts in
      if not (text_eq (redact_secrets py part) part)
      then secret_in_argv ∷ []
      else if any (contains (py.lower part)) forbidden_command_template_parts
      then forbidden_content ∷ []
      else rest

  abbrev pub is_allowlisted : Text → Bool
  is_allowlisted name = one_of name allowed_command_template_binaries

  unfoldable pub items_errors : Items → List ProposalError
  items_errors nil = []
  items_errors (cons v xs) =
      let rest = items_errors xs in
      if is_allowlisted (strip (text_of v)) then rest else listed_binary_not_allowlisted ∷ []

  unfoldable pub characters_errors : Text → List ProposalError
  characters_errors [] = []
  characters_errors (c ∷ s) =
      let rest = characters_errors s in
      if is_allowlisted (strip (c ∷ [])) then rest else listed_binary_not_allowlisted ∷ []

  unfoldable pub keys_errors : Fields → List ProposalError
  keys_errors end = []
  keys_errors (field k v fs) =
      let rest = keys_errors fs in
      if is_allowlisted (strip k) then rest else listed_binary_not_allowlisted ∷ []

  -- The loop over the allowed binaries, whatever they are.
  abbrev pub binaries_errors : Value → Result BuildError (List ProposalError)
  binaries_errors (arr xs) = ok (items_errors xs)
  binaries_errors (str s) = ok (characters_errors s)
  binaries_errors (obj fs) = ok (keys_errors fs)
  binaries_errors _ = err broken

  abbrev pub binary_errors : Text → List ProposalError
  binary_errors part =
      let binary = strip part in
      fails
        (not (is_allowlisted binary)
          && not (is_allowlisted (after_last b'\\' (after_last b'/' binary))))
        binary_not_allowlisted

  -- The tests of a command that is a list of texts.
  unfoldable pub command_errors :
      Fields → Fields → List Text → Result BuildError (List ProposalError)
  command_errors template definition [] = ok (not_argv ∷ [])
  command_errors template definition (binary ∷ parts) =
      let binaries = either definition template (codes "allowed_binaries") (arr nil) in
      let tokens = either definition template (codes "blocked_tokens") (arr nil) in
      let tests =
        fails (any (any is_shell_character) (binary ∷ parts)) shell_operator
        ++ fails (not (is_filled_list binaries)) no_binaries
        ++ fails (not (is_filled_list tokens)) no_blocked_tokens
        ++ binary_errors binary
        ++ part_errors (binary ∷ parts) in
      binaries_errors binaries >>= λ listed. ok (tests ++ listed)

  unfoldable pub validate_command_template_proposal :
      Fields → Fields → Result BuildError (List ProposalError)
  validate_command_template_proposal template definition =
      elim (argv_of_value (either definition template (codes "command_argv_template") (arr nil))) [
        | none ↦ ok (not_argv ∷ [])
        | some argv ↦ command_errors template definition argv
      ]

  -- definition_data.get("execution_type") or template_data.get("execution_type") or the runtime handler
  abbrev pub proposed_execution : Fields → Fields → Value
  proposed_execution template definition =
      either definition template (codes "execution_type") (str (codes "runtime_handler"))

  unfoldable pub execution_errors : Fields → Fields → Result BuildError (List ProposalError)
  execution_errors template definition =
      let execution = some (proposed_execution template definition) in
      if is_text execution (codes "runtime_handler")
      then (in_set (get template (codes "runtime_handler_key")) allowed_builder_handler_keys
          >>= λ known. ok (fails (not known) unknown_handler))
      else if is_text execution (codes "command_template")
      then validate_command_template_proposal template definition
      else ok (unsupported_execution ∷ [])

  abbrev pub path_errors : Fields → List ProposalError
  path_errors definition =
      fails
        (has definition (codes "requires_path_policy")
          && not (is_list (get definition (codes "allowed_path_prefixes"))))
        allowed_paths_not_list
      ++ fails (not (is_list (get definition (codes "blocked_path_prefixes"))))
          blocked_paths_not_list

  abbrev pub policy_errors : Fields → List ProposalError
  policy_errors policy =
      fails (not (is_false (get policy (codes "is_active")))) policy_active
      ++ fails
          (has policy (codes "allow_customer_run")
            || has policy (codes "allow_admin_run")
            || has policy (codes "allow_agent_run"))
          policy_allows_runs

  abbrev pub limit_errors : Fields → List ProposalError
  limit_errors definition =
      fails (not (has definition (codes "timeout_seconds"))) no_timeout
      ++ fails (not (has definition (codes "max_output_bytes"))) no_output_cap

  -- The errors of a proposal with this definition and policy.
  unfoldable pub proposal_errors : Fields → Fields → Result BuildError (List ProposalError)
  proposal_errors content policy = do
    template ← section content (codes "template")
    definition ← section content (codes "definition")
    execution ← execution_errors template definition
    drafted ← in_set (get definition (codes "status")) (codes "draft" ∷ codes "pending_review" ∷ [])
    schema ← section definition (codes "input_schema")
    fields ← validate_builder_schema schema
    ok (
        execution
        ++ fails (not (is_text (get definition (codes "risk_level")) (codes "read_only")))
            not_read_only
        ++ fails
            (is_text (some (proposed_execution template definition)) (codes "runtime_handler")
              && contains_forbidden_builder_key py (obj content))
            forbidden_field
        ++ limit_errors definition
        ++ fails (not drafted) bad_status
        ++ fails
            (not (is_list (get definition (codes "redaction_rules")))
              || not (has definition (codes "redaction_rules")))
            no_redaction_rules
        ++ fields
        ++ path_errors definition
        ++ policy_errors policy)
