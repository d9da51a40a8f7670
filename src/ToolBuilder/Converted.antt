-- ===== src/ToolBuilder/Converted.antt =====
-- What a conversion makes.
use matrix_scanner_saas.Prelude.{
  ◌≡◌, ◌∙◌, sym, ap, refl, inl, inr, String, Bool, true, false, some, List, [], ◌∷◌, ◌++◌, arith,
  Bool-cases, Option-cases, any, first,
}
use text.Mathlib.Text.{◌==◌ as str_eq}
use text.Mathlib.TextEquality.{eq_iff}
use matrix_scanner_saas.Prelude.Results.{ok, Result-cases}
use matrix_scanner_saas.Text.{Text, codes}
use matrix_scanner_saas.Command.{ToolTemplate}
use matrix_scanner_saas.Json.{Value, Fields, get}
use matrix_scanner_saas.Redaction.{Python}
use matrix_scanner_saas.Models.{Db, ToolDefinition, ToolPolicy, ToolStatus, RiskLevel}
use matrix_scanner_saas.Gate.{find_tool}
use matrix_scanner_saas.ToolBuilder.Validation.{proposal_errors}
use matrix_scanner_saas.ToolBuilder.Review.{
  Proposal, Builder, Columns, is_approved, is_target, ProposalStatus, required_section,
  policy_or_default, get_or_create_template, insert_definition, new_policy, new_definition,
  insert_tool, inserted_tool, finish_conversion, validate_tool_build_proposal, record_validation,
  convert_tool_build_proposal,
}

-- Whatever the status of the tool, its policy lets nobody run it.
pub record IsLocked (tool : ToolDefinition) : Type 0 where
  pub policy : ToolPolicy
  pub has_policy : tool.policy ≡ some policy
  pub inactive : policy.is_active ≡ false
  pub no_customer : policy.allow_customer_run ≡ false
  pub no_admin : policy.allow_admin_run ≡ false
  pub no_agent : policy.allow_agent_run ≡ false

record IsInserted (status : ToolStatus) (db : Db) (tool : ToolDefinition) (after : Db)
    : Type 0 where
  given : tool.status ≡ status
  read_only : tool.risk_level ≡ RiskLevel.read_only
  locked : IsLocked tool
  fresh : any (λ (t : ToolDefinition). str_eq t.key tool.key) db.tools ≡ false
  tools : after.tools ≡ db.tools ++ (tool ∷ [])

first-append :
    {A : Type 0} (p : A → Bool) (x : A) (xs : List A)
    → any p xs ≡ false
    → p x ≡ true
    → first p (xs ++ (x ∷ [])) ≡ some x
first-append p x [] absent passes = ground (arith, passes)
first-append p x (y ∷ ys) absent passes = ground (arith, first-append p x ys)

module _ (columns : Columns) where
  insert_definition-IsInserted :
      (key : String) (template : ToolTemplate) (status : ToolStatus) (timeout cap : Value)
      (definition policy : Fields) (templates : List (String × ToolTemplate)) (db after : Db)
      (tool : ToolDefinition)
      → insert_definition columns
          (new_definition columns key template status timeout cap definition policy)
          templates
          db
        ≡ ok (tool, after)
      → IsInserted status db tool after
  unfolding insert_definition new_definition new_policy
  insert_definition-IsInserted key template status timeout cap definition policy templates db after
        tool h =
      let made = new_definition columns key template status timeout cap definition policy in
      elim (Bool-cases (any (λ (t : ToolDefinition). str_eq t.key key) db.tools)) [
        | inl taken ↦ absurd (ground arith)
        | inr fresh ↦
            let same : made ≡ tool = ground arith in
            let kept : db.tools ++ (made ∷ []) ≡ after.tools = ground arith in
            rw⁻¹ same (record {
              given = refl;
              read_only = refl;
              locked = record {
                policy = new_policy columns policy;
                has_policy = refl;
                inactive = refl;
                no_customer = refl;
                no_admin = refl;
                no_agent = refl;
              };
              fresh = fresh;
              tools = sym kept;
            })
      ]

  insert_tool-IsInserted :
      (status : ToolStatus) (template definition policy : Fields) (db after : Db)
      (tool : ToolDefinition)
      → insert_tool columns status template definition policy db ≡ ok (tool, after)
      → IsInserted status db tool after
  unfolding insert_tool
  insert_tool-IsInserted status template definition policy db after tool h =
      elim (Option-cases (get template (codes "key"))) [
        | inl absent ↦ absurd (ground arith)
        | inr (template_key, k1) ↦ elim (Option-cases (get definition (codes "key"))) [
          | inl absent ↦ absurd (ground arith)
          | inr (key, k2) ↦ elim (Option-cases (get definition (codes "timeout_seconds"))) [
            | inl absent ↦ absurd (ground arith)
            | inr (timeout, k3) ↦ elim (Option-cases (get definition (codes "max_output_bytes"))) [
              | inl absent ↦ absurd (ground arith)
              | inr (cap, k4) ↦
                  let row =
                    get_or_create_template columns (columns.name template_key) template
                      db.templates in
                  insert_definition-IsInserted (columns.name key) row.0 status timeout cap
                    definition policy row.1 db after tool (ground arith)
            ]
          ]
        ]
      ]

  inserted_tool-IsInserted :
      (status : ToolStatus) (proposal : Proposal) (db after : Db) (tool : ToolDefinition)
      → inserted_tool columns status proposal db ≡ ok (tool, after)
      → IsInserted status db tool after
  inserted_tool-IsInserted status proposal db after tool h =
      elim (Result-cases (required_section proposal.definition (codes "template"))) [
        | inr (e, bad) ↦ absurd (ground arith)
        | inl (template, t) ↦
            elim (Result-cases (required_section proposal.definition (codes "definition"))) [
              | inr (e, bad) ↦ absurd (ground arith)
              | inl (definition, d) ↦
                  insert_tool-IsInserted status template definition
                    (policy_or_default proposal.policy) db after tool (ground arith)
            ]
      ]

find_tool-IsInserted :
    (status : ToolStatus) (db after : Db) (tool : ToolDefinition)
    → IsInserted status db tool after
    → find_tool after tool.key ≡ some tool
find_tool-IsInserted status db after tool row =
    let by_key = λ (t : ToolDefinition). str_eq t.key tool.key in
    ap (λ (ts : List ToolDefinition). first by_key ts) row.tools
    ∙ first-append by_key tool db.tools row.fresh (ground (arith, eq_iff tool.key tool.key))

-- A tool that a conversion made, from the proposal of `before`.
pub record IsConverted (py : Python) (text_of : Value → Text) (target : ToolStatus)
    (before : Builder) (tool : ToolDefinition) (after : Builder) : Type 0 where
  pub was_approved : is_approved before.proposal.status ≡ true
  pub allowed_target : is_target target ≡ true
  pub valid : proposal_errors py text_of before.proposal.definition before.proposal.policy ≡ ok []
  pub given : tool.status ≡ target
  pub read_only : tool.risk_level ≡ RiskLevel.read_only
  pub locked : IsLocked tool
  pub registered : find_tool after.db tool.key ≡ some tool
  pub tools : after.db.tools ≡ before.db.tools ++ (tool ∷ [])
  pub concluded : after.proposal.status ≡ ProposalStatus.converted

module _ (columns : Columns) (py : Python) (text_of : Value → Text) where
  -- A conversion that gets to the tables.
  convert-finish_conversion :
      (target : ToolStatus) (before : Builder)
      → is_approved before.proposal.status ≡ true
      → is_target target ≡ true
      → proposal_errors py text_of before.proposal.definition before.proposal.policy ≡ ok []
      → let checked = record_validation py text_of [] before in
        convert_tool_build_proposal columns py text_of target before
        ≡ finish_conversion columns
            (inserted_tool columns target checked.proposal checked.db)
            checked
  unfolding convert_tool_build_proposal validate_tool_build_proposal
  convert-finish_conversion target before approved allowed valid =
      ground (arith, approved, allowed, valid)

  -- What a conversion has passed.
  convert-passed :
      (target : ToolStatus) (before : Builder) (tool : ToolDefinition)
      → (convert_tool_build_proposal columns py text_of target before).0 ≡ ok tool
      → (is_approved before.proposal.status ≡ true)
        × (is_target target ≡ true)
        × (proposal_errors py text_of before.proposal.definition before.proposal.policy ≡ ok [])
  unfolding convert_tool_build_proposal validate_tool_build_proposal
  convert-passed target before tool h = elim (Bool-cases (is_approved before.proposal.status)) [
    | inr other ↦ absurd (ground arith)
    | inl approved ↦ elim (Bool-cases (is_target target)) [
      | inr live ↦ absurd (ground arith)
      | inl allowed ↦
          elim (Result-cases
            (proposal_errors py text_of before.proposal.definition before.proposal.policy)) [
              | inr (e, bad) ↦ absurd (ground arith)
              | inl ([], none_found) ↦ (approved, allowed, none_found)
              | inl (first ∷ others, found) ↦ absurd (ground arith)
            ]
    ]
  ]

  -- A conversion that succeeds converts an approved proposal in which the validation finds no error, to a
  -- new read-only tool with the status that was asked for, a draft or one pending review; the tool is
  -- found under its key beside the tools there were, its policy is inactive and allows no kind of run, and
  -- the proposal is converted.
  pub convert_tool_build_proposal-IsConverted :
      (target : ToolStatus) (before : Builder) (tool : ToolDefinition)
      → (convert_tool_build_proposal columns py text_of target before).0 ≡ ok tool
      → IsConverted py text_of target before tool
          (convert_tool_build_proposal columns py text_of target before).1
  unfolding finish_conversion record_validation
  convert_tool_build_proposal-IsConverted target before tool h =
      let (approved, allowed, valid) = convert-passed target before tool h in
      let checked = record_validation py text_of [] before in
      let does = convert-finish_conversion target before approved allowed valid in
      elim (Result-cases (inserted_tool columns target checked.proposal before.db)) [
        | inr (e, bad) ↦ absurd (ground arith)
        | inl ((made, after), inserted) ↦
            let ends : convert_tool_build_proposal columns py text_of target before
                ≡ finish_conversion columns (ok (made, after)) checked =
              does ∙ ap (λ r. finish_conversion columns r checked) inserted in
            let same : made ≡ tool = ground (arith, h, ends) in
            let row =
              inserted_tool-IsInserted columns target checked.proposal before.db after tool
                (inserted ∙ ap (λ (t : ToolDefinition). ok (t, after)) same) in
            rw (ends, same)
              (record {
                was_approved = approved;
                allowed_target = allowed;
                valid = valid;
                given = row.given;
                read_only = row.read_only;
                locked = row.locked;
                registered = find_tool-IsInserted target before.db after tool row;
                tools = row.tools;
                concluded = refl;
              })
      ]
