-- ===== src/Command/Laws.antt =====
-- What a built payload guarantees, and when a template argument is passed on as it is.
use matrix_scanner_saas.Prelude.{
  ℕ, ◌≡◌, refl, inl, inr, Bool, true, false, ◌&&◌, Option, none, some, List, [], ◌∷◌, ◌++◌,
  if◌then◌else◌, any, arith, Bool-cases, Option-cases, All,
}
use matrix_scanner_saas.Prelude.Results.{ok, Result-cases}
use matrix_scanner_saas.Text.{Text, codes, contains, replace}
use matrix_scanner_saas.Text.Laws.{text_eq_iff}
use matrix_scanner_saas.Text.Replace.{replace-absent, contains-longer}
use matrix_scanner_saas.Json.{
  Value, Fields, null, bool, int, float, str, arr, obj, end, field, truthy,
}
use matrix_scanner_saas.Redaction.{Python, redact_secrets}
use matrix_scanner_saas.Command.{
  ExecutionType, runtime_handler, command_template, script_template, ToolTemplate, CommandSpec,
  Payload, command, default_command_blocked_tokens, lbrace_mark, rbrace_mark, safe_value,
  substitute, render_command_arg, hits_token, argv_template, or_else, is_listed, check_arg,
  render_argv, command_payload, payload_of_type, template_payload, build_execution_payload,
}

-- The tokens and the binaries that a run of the template is held to.
abbrev pub effective_tokens : ToolTemplate → CommandSpec → List Text
effective_tokens template spec =
    or_else spec.blocked_tokens (or_else template.blocked_tokens default_command_blocked_tokens)

abbrev pub effective_binaries : ToolTemplate → CommandSpec → List Text
effective_binaries template spec = or_else spec.allowed_binaries template.allowed_binaries

module _ (py : Python) where
  -- No blocked token occurs in the argument, and redaction finds nothing in it.
  abbrev pub IsSafeArg : List Text → Text → Type 0
  IsSafeArg tokens arg = (any (hits_token arg) tokens ≡ false) × (redact_secrets py arg ≡ arg)

  check_arg-IsSafeArg :
      (tokens : List Text) (arg : Text) → check_arg py tokens arg ≡ ok tt → IsSafeArg tokens arg
  unfolding check_arg
  check_arg-IsSafeArg tokens arg h =
      (ground arith, (text_eq_iff (redact_secrets py arg) arg).0 (ground arith))

  render_argv-All :
      (tokens : List Text) (params : Fields) (parts argv : List Text)
      → render_argv py tokens params parts ≡ ok argv
      → All (IsSafeArg tokens) argv
  unfolding render_argv
  render_argv-All tokens params [] argv h = let same : argv ≡ [] = cc in rw same tt
  render_argv-All tokens params (part ∷ parts) argv h =
      elim (Result-cases (render_command_arg part params)) [
        | inr (e, bad) ↦ absurd (ground arith)
        | inl (arg, rendered) ↦ elim (Result-cases (check_arg py tokens arg)) [
          | inr (e, bad) ↦ absurd (ground arith)
          | inl (u, safe) ↦ elim (Result-cases (render_argv py tokens params parts)) [
            | inr (e, bad) ↦ absurd (ground arith)
            | inl (rest, later) ↦
                let same : argv ≡ arg ∷ rest = ground arith in
                rw same (
                  check_arg-IsSafeArg tokens arg (ground arith),
                  render_argv-All tokens params parts rest later,
                )
          ]
        ]
      ]

  -- A command that may be sent to an agent.
  pub record IsSafeCommand (template : ToolTemplate) (spec : CommandSpec) (argv : List Text)
      (timeout cap : ℕ) : Type 0 where
    pub binary : Text
    pub arguments : List Text
    pub is_command : spec.execution_type ≡ some command_template
    pub begins : argv ≡ binary ∷ arguments
    pub listed : is_listed (effective_binaries template spec) binary ≡ true
    pub safe : All (IsSafeArg (effective_tokens template spec)) argv
    pub timed : timeout ≡ spec.timeout_seconds
    pub capped : cap ≡ spec.max_output_bytes

  command_payload-listed :
      (spec : CommandSpec) (tokens binaries parts : List Text) (params : Fields) (argv : List Text)
      (timeout cap : ℕ)
      → command_payload py spec tokens binaries parts params ≡ ok (command argv timeout cap)
      → (binary : Text) × (arguments : List Text) × (argv ≡ binary ∷ arguments)
        × (is_listed binaries binary ≡ true)
        × (render_argv py tokens params parts ≡ ok argv)
        × (timeout ≡ spec.timeout_seconds)
        × (cap ≡ spec.max_output_bytes)
  unfolding command_payload
  command_payload-listed spec tokens binaries parts params argv timeout cap h =
      elim (Result-cases (render_argv py tokens params parts)) [
        | inr (e, bad) ↦ absurd (ground arith)
        | inl ([], empty) ↦ absurd (ground arith)
        | inl (binary ∷ arguments, made) ↦ elim (Bool-cases (is_listed binaries binary)) [
          | inr bad ↦ absurd (ground arith)
          | inl listed ↦
              (binary, arguments, ground arith, listed, ground arith, ground arith, ground arith)
        ]
      ]

  only_command :
      (kind : Option ExecutionType) (template : ToolTemplate) (spec : CommandSpec) (params : Fields)
      (argv : List Text) (timeout cap : ℕ)
      → payload_of_type py kind template spec params ≡ ok (command argv timeout cap)
      → (kind ≡ some command_template)
        × (template_payload py template spec params ≡ ok (command argv timeout cap))
  only_command (some command_template) template spec params argv timeout cap h = (refl, h)
  only_command (some runtime_handler) template spec params argv timeout cap h =
      absurd (ground arith)
  only_command (some script_template) template spec params argv timeout cap h =
      absurd (ground arith)
  only_command none template spec params argv timeout cap h = absurd (ground arith)

  chosen_parts :
      (template : ToolTemplate) (spec : CommandSpec) (params : Fields) (payload : Payload)
      → template_payload py template spec params ≡ ok payload
      → (parts : List Text) × (command_payload py spec
            (effective_tokens template spec)
            (effective_binaries template spec)
            parts
            params
          ≡ ok payload)
  unfolding template_payload
  chosen_parts template spec params payload h =
      elim (Option-cases (
        argv_template (
          if truthy spec.command_argv_template
          then spec.command_argv_template
          else template.command_argv_template))) [
            | inl bad ↦ absurd (ground arith)
            | inr (parts, good) ↦ (parts, ground arith)
          ]

  -- A command payload is only built for a definition of the type `command_template`. Its argument
  -- list is not empty; its binary, or the last part of the binary's path, is on the list of allowed
  -- binaries if there is such a list; no argument holds a blocked token or is changed by
  -- `redact_secrets`; and its timeout and output cap are the definition's.
  pub build_execution_payload-IsSafeCommand :
      (template : ToolTemplate) (spec : CommandSpec) (params : Fields) (argv : List Text)
      (timeout cap : ℕ)
      → build_execution_payload py template spec params ≡ ok (command argv timeout cap)
      → IsSafeCommand template spec argv timeout cap
  unfolding build_execution_payload
  build_execution_payload-IsSafeCommand template spec params argv timeout cap h =
      let (is_command, made) =
        only_command spec.execution_type template spec params argv timeout cap h in
      let (parts, paid) = chosen_parts template spec params (command argv timeout cap) made in
      let (binary, arguments, begins, listed, rendered, timed, capped) =
        command_payload-listed spec (effective_tokens template spec)
          (effective_binaries template spec) parts params argv timeout cap paid in
      record {
        binary = binary;
        arguments = arguments;
        is_command = is_command;
        begins = begins;
        listed = listed;
        safe = render_argv-All (effective_tokens template spec) params parts argv rendered;
        timed = timed;
        capped = capped;
      }

-- Every parameter is a scalar.
abbrev pub is_scalar : Value → Bool
is_scalar (arr xs) = false
is_scalar (obj fs) = false
is_scalar _ = true

abbrev pub all_scalar : Fields → Bool
all_scalar end = true
all_scalar (field k v fs) = is_scalar v && all_scalar fs

safe_value_scalar : (v : Value) → is_scalar v ≡ true → (s : Text) × (safe_value v ≡ ok s)
unfolding safe_value
safe_value_scalar null h = ([], refl)
safe_value_scalar (bool b) h = (if b then codes "true" else codes "false", refl)
safe_value_scalar (int n) h = (_, refl)
safe_value_scalar (float r) h = (r, refl)
safe_value_scalar (str s) h = (s, refl)
safe_value_scalar (arr xs) h = absurd (ground arith)
safe_value_scalar (obj fs) h = absurd (ground arith)

substitute_absent :
    (params : Fields) (s : Text)
    → all_scalar params ≡ true
    → contains s (codes "{") ≡ false
    → substitute params s ≡ ok s
unfolding substitute
substitute_absent end s h e = refl
substitute_absent (field k v fs) s h e =
    let (t, known) = safe_value_scalar v (ground arith) in
    let same : replace s (b'{' ∷ (k ++ (b'}' ∷ []))) t ≡ s =
      replace-absent s (b'{' ∷ (k ++ (b'}' ∷ []))) t
        (contains-longer s b'{' (k ++ (b'}' ∷ [])) e) in
    rw (known, same) (substitute_absent fs s (ground arith) e)

-- A template argument without braces, and without the two marks that stand for escaped braces, is
-- passed on as it is, whatever scalar parameters are given.
pub render_command_arg_literal :
    (arg : Text) (params : Fields)
    → all_scalar params ≡ true
    → contains arg (codes "{") ≡ false
    → contains arg (codes "}") ≡ false
    → contains arg lbrace_mark ≡ false
    → contains arg rbrace_mark ≡ false
    → render_command_arg arg params ≡ ok arg
unfolding render_command_arg
render_command_arg_literal arg params scalar no_open no_close no_left no_right =
    rw
      (
        replace-absent arg (codes "{{") lbrace_mark (contains-longer arg b'{' (codes "{") no_open),
        replace-absent arg (codes "}}") rbrace_mark (contains-longer arg b'}' (codes "}") no_close),
        substitute_absent params arg scalar no_open,
      )
      (rw (no_open, no_close)
        (rw (
          replace-absent arg lbrace_mark (codes "{") no_left,
          replace-absent arg rbrace_mark (codes "}") no_right,
        )))
