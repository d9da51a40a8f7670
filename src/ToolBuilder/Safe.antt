-- ===== src/ToolBuilder/Safe.antt =====
-- What a proposal without errors may execute.
use matrix_scanner_saas.Prelude.{
  ◌≡◌, refl, inl, inr, ◌⊎◌, Bool, true, false, not, ◌||◌, some, List, [], ◌∷◌, ◌++◌, arith,
  Bool-cases, Option-cases, any, All,
}
use matrix_scanner_saas.Prelude.Results.{Result, ok, err, Result-cases, ◌>>=◌}
use matrix_scanner_saas.Text.{Text, codes, text_eq, one_of, contains, strip, after_last}
use matrix_scanner_saas.Json.{Value, Fields, str, arr, nil, get}
use matrix_scanner_saas.Redaction.{Python, redact_secrets}
use matrix_scanner_saas.ToolBuilder.{
  allowed_builder_handler_keys, allowed_command_template_binaries, forbidden_command_template_parts,
}
use matrix_scanner_saas.ToolBuilder.Validation.{
  ProposalError, BuildError, shell_operator, no_binaries, no_blocked_tokens, unknown_handler,
  is_filled_list, binary_errors, binaries_errors, fails, section, either, is_text, in_set,
  argv_of_value, is_shell_character, part_errors, command_errors,
  validate_command_template_proposal, execution_errors, proposed_execution, proposal_errors,
}

-- A part of a command that a shell would not read as more than a word, that holds no secret and none of
-- the forbidden parts.
abbrev pub IsSafePart : Python → Text → Type 0
IsSafePart py part =
    (any is_shell_character part ≡ false)
    × (text_eq (redact_secrets py part) part ≡ true)
    × (any (contains (py.lower part)) forbidden_command_template_parts ≡ false)

-- The binary is on the list, by its path or by its name.
abbrev pub IsListedBinary : Text → Type 0
IsListedBinary part =
    (one_of (strip part) allowed_command_template_binaries
      || one_of (after_last b'\\' (after_last b'/' (strip part))) allowed_command_template_binaries)
    ≡ true

-- A handler of the scanner, or a command of safe parts.
pub record IsHandler (template : Fields) : Type 0 where
  pub key : Text
  pub has_key : get template (codes "runtime_handler_key") ≡ some (str key)
  pub known : one_of key allowed_builder_handler_keys ≡ true

pub record IsSafeCommand (py : Python) (template definition : Fields) : Type 0 where
  pub binary : Text
  pub parts : List Text
  pub is_command :
      argv_of_value (either definition template (codes "command_argv_template") (arr nil))
      ≡ some (binary ∷ parts)
  pub listed : IsListedBinary binary
  pub safe : All (IsSafePart py) (binary ∷ parts)

-- By its type of execution, the proposal runs a handler or a command.
abbrev pub ExecutesSafely : Python → (Value → Text) → Fields → Fields → Type 0
ExecutesSafely py text_of template definition =
    let execution = some (proposed_execution py text_of template definition) in
    ((is_text execution (codes "runtime_handler") ≡ true) × IsHandler template)
    ⊎ ((is_text execution (codes "command_template") ≡ true) × IsSafeCommand py template definition)

no_append : {A : Type 0} (xs ys : List A) → xs ++ ys ≡ [] → (xs ≡ []) × (ys ≡ [])
no_append [] ys h = (refl, h)
no_append (x ∷ xs) ys h = absurd (ground arith)

no_first :
    {A : Type 0} (tests : List A) (more : Result BuildError (List A))
    → (more >>= λ listed. ok (tests ++ listed)) ≡ ok []
    → tests ≡ []
no_first tests (err e) h = absurd (ground arith)
no_first tests (ok listed) h = (no_append tests listed (ground arith)).0

no_fails : (b : Bool) (e : ProposalError) → fails b e ≡ [] → b ≡ false
no_fails true e h = absurd (ground arith)
no_fails false e h = refl

module _ (py : Python) (text_of : Value → Text) where
  part_errors-IsSafePart :
      (parts : List Text)
      → any (any is_shell_character) parts ≡ false
      → part_errors py text_of parts ≡ []
      → All (IsSafePart py) parts
  unfolding part_errors
  part_errors-IsSafePart [] plain h = tt
  part_errors-IsSafePart (part ∷ parts) plain h =
      elim (Bool-cases (text_eq (redact_secrets py part) part)) [
        | inr secret ↦ absurd (ground arith)
        | inl clean ↦
            elim (Bool-cases (any (contains (py.lower part)) forbidden_command_template_parts)) [
              | inl forbidden ↦ absurd (ground arith)
              | inr fine ↦ (
                (ground arith, clean, fine),
                part_errors-IsSafePart parts (ground arith) (ground (arith, clean, fine)),
              )
            ]
      ]

  binary_errors-IsListedBinary :
      (part : Text) → binary_errors py text_of part ≡ [] → IsListedBinary part
  binary_errors-IsListedBinary part h = ground arith

  command_errors-IsSafeCommand :
      (template definition : Fields) (argv : List Text)
      → argv_of_value (either definition template (codes "command_argv_template") (arr nil))
        ≡ some argv
      → command_errors py text_of template definition argv ≡ ok []
      → IsSafeCommand py template definition
  unfolding command_errors
  command_errors-IsSafeCommand template definition [] is_argv h = absurd (ground arith)
  command_errors-IsSafeCommand template definition (binary ∷ parts) is_argv h =
      let binaries = either definition template (codes "allowed_binaries") (arr nil) in
      let tokens = either definition template (codes "blocked_tokens") (arr nil) in
      let shell = fails (any (any is_shell_character) (binary ∷ parts)) shell_operator in
      let unlisted = fails (not (is_filled_list binaries)) no_binaries in
      let unblocked = fails (not (is_filled_list tokens)) no_blocked_tokens in
      let named = binary_errors py text_of binary in
      let inner = part_errors py text_of (binary ∷ parts) in
      let (h1, no_inner) = no_append (shell ++ unlisted ++ unblocked ++ named) inner (
        no_first (shell ++ unlisted ++ unblocked ++ named ++ inner)
          (binaries_errors py text_of binaries) h) in
      let (h2, no_named) = no_append (shell ++ unlisted ++ unblocked) named h1 in
      let (h3, no_unblocked) = no_append (shell ++ unlisted) unblocked h2 in
      let (no_shell, no_unlisted) = no_append shell unlisted h3 in
      let words =
        no_fails (any (any is_shell_character) (binary ∷ parts)) shell_operator no_shell in
      record {
        binary = binary;
        parts = parts;
        is_command = is_argv;
        listed = binary_errors-IsListedBinary binary no_named;
        safe = part_errors-IsSafePart (binary ∷ parts) words no_inner;
      }

  in_set-IsHandler :
      (template : Fields)
      → (in_set (get template (codes "runtime_handler_key")) allowed_builder_handler_keys
          >>= λ known. ok (fails (not known) unknown_handler))
        ≡ ok []
      → IsHandler template
  unfolding in_set
  in_set-IsHandler template h = elim (Option-cases (get template (codes "runtime_handler_key"))) [
    | inl absent ↦ absurd (ground arith)
    | inr (str key, found) ↦ record { key = key; has_key = found; known = ground arith }
    | inr (v, found) ↦ absurd (ground arith)
  ]

  validate_command_template_proposal-IsSafeCommand :
      (template definition : Fields)
      → validate_command_template_proposal py text_of template definition ≡ ok []
      → IsSafeCommand py template definition
  unfolding validate_command_template_proposal
  validate_command_template_proposal-IsSafeCommand template definition h =
      elim (Option-cases
        (argv_of_value (either definition template (codes "command_argv_template") (arr nil)))) [
          | inl no_argv ↦ absurd (ground arith)
          | inr (argv, is_argv) ↦
              command_errors-IsSafeCommand template definition argv is_argv (ground arith)
        ]

  execution_errors-safe :
      (template definition : Fields)
      → execution_errors py text_of template definition ≡ ok []
      → ExecutesSafely py text_of template definition
  unfolding execution_errors
  execution_errors-safe template definition h =
      let execution = some (proposed_execution py text_of template definition) in
      elim (Bool-cases (is_text execution (codes "runtime_handler"))) [
        | inl handled ↦ inl (handled, in_set-IsHandler template (ground (arith, handled)))
        | inr other ↦ elim (Bool-cases (is_text execution (codes "command_template"))) [
          | inr neither ↦ absurd (ground arith)
          | inl commanded ↦ inr (
            commanded,
            validate_command_template_proposal-IsSafeCommand template definition
                (ground (arith, other, commanded)),
          )
        ]
      ]

  -- In a proposal in which the validation finds no error the execution type is "runtime_handler" and the
  -- template names a handler of the baseline scan, or it is "command_template" and the command has a
  -- binary that is on the list and only parts with no shell operator, no line break, none of the
  -- forbidden parts, and nothing that the redaction would change.
  pub proposal_errors-IsSafeCommand :
      (content policy : Fields)
      → proposal_errors py text_of content policy ≡ ok []
      → (template : Fields) × (definition : Fields) × (section content (codes "template")
          ≡ ok template)
        × (section content (codes "definition") ≡ ok definition)
        × ExecutesSafely py text_of template definition
  unfolding proposal_errors
  proposal_errors-IsSafeCommand content policy h =
      elim (Result-cases (section content (codes "template"))) [
        | inr (e, bad) ↦ absurd (ground arith)
        | inl (template, t) ↦ elim (Result-cases (section content (codes "definition"))) [
          | inr (e, bad) ↦ absurd (ground arith)
          | inl (definition, d) ↦ (
            template,
            definition,
            t,
            d,
            execution_errors-safe template definition (ground (arith, t, d, h)),
          )
        ]
      ]
