-- ===== src/ToolBuilder/Refused.antt =====
-- What the gate and the review refuse.
use matrix_scanner_saas.Prelude.{
  ℕ, ◌≡◌, ◌∙◌, sym, ap, refl, inl, inr, String, false, some, ◌∷◌, arith, Bool-cases,
}
use text.Mathlib.Text.{◌==◌ as str_eq}
use text.Mathlib.TextEquality.{eq_iff}
use matrix_scanner_saas.Prelude.Results.{ok, err, Result-cases}
use matrix_scanner_saas.Text.{Text}
use matrix_scanner_saas.Json.{Value}
use matrix_scanner_saas.Redaction.{Python}
use matrix_scanner_saas.Models.{Db, ToolDefinition, ToolStatus}
use matrix_scanner_saas.Gate.{find_tool, Request, Denial, authorize, create_tool_run_job, seeded}
use matrix_scanner_saas.Gate.Authorized.{authorize-IsGranted}
use matrix_scanner_saas.ToolBuilder.{sanitize_builder_text}
use matrix_scanner_saas.ToolBuilder.Validation.{has_errors}
use matrix_scanner_saas.ToolBuilder.Review.{
  Decision, no_errors, review_tool_build_proposal, Builder, Columns, convert_tool_build_proposal,
}
use matrix_scanner_saas.ToolBuilder.Converted.{IsLocked, convert_tool_build_proposal-IsConverted}

-- A tool with a policy that is not active is never authorised, whatever its status is.
IsLocked-authorize :
    (py : Python) (now : ℕ) (db : Db) (request : Request) (tool : ToolDefinition)
    → IsLocked tool
    → find_tool db request.tool_key ≡ some tool
    → (denial : Denial) × (authorize py now db request ≡ err denial)
IsLocked-authorize py now db request tool locked registered =
    elim (Result-cases (authorize py now db request)) [
      | inr (denial, denied) ↦ (denial, denied)
      | inl (granted, allowed) ↦
          let permitted = (authorize-IsGranted py now db request granted allowed).0 in
          let same = permitted.registered in
          let is_active = permitted.policy_active in
          let has_policy = permitted.has_policy in
          absurd (
            ground
              (arith, registered, same, is_active, has_policy, locked.has_policy, locked.inactive))
    ]

seeded_registered :
    (db : Db) (request : Request) (tool : ToolDefinition)
    → find_tool db request.tool_key ≡ some tool
    → seeded request db ≡ db
unfolding seeded
seeded_registered db request tool registered =
    elim (Bool-cases (str_eq request.tool_key "system_identity")) [
      | inr other ↦ ground (arith, other)
      | inl identity ↦
          let key : request.tool_key ≡ "system_identity" =
            ground (arith, identity, eq_iff request.tool_key "system_identity") in
          let found : find_tool db "system_identity" ≡ some tool =
            ap (λ (k : String). find_tool db k) (sym key) ∙ registered in
          ground (arith, identity, found)
    ]

module _ (columns : Columns) (py : Python) (text_of : Value → Text) where
  -- After a conversion every request to run the new tool, by anyone, on any server and with any
  -- parameters, is denied.
  pub convert_tool_build_proposal-create_tool_run_job :
      (target : ToolStatus) (before : Builder) (tool : ToolDefinition) (now : ℕ) (request : Request)
      → (convert_tool_build_proposal columns py text_of target before).0 ≡ ok tool
      → request.tool_key ≡ tool.key
      → let after = (convert_tool_build_proposal columns py text_of target before).1 in
        (denial : Denial) × ((create_tool_run_job py now request after.db).0 ≡ err denial)
  unfolding create_tool_run_job
  convert_tool_build_proposal-create_tool_run_job target before tool now request h same_key =
      let made = convert_tool_build_proposal-IsConverted columns py text_of target before tool h in
      let db = (convert_tool_build_proposal columns py text_of target before).1.db in
      let registered : find_tool db request.tool_key ≡ some tool =
        ap (λ (k : String). find_tool db k) same_key ∙ made.registered in
      let (denial, denied) = IsLocked-authorize py now db request tool made.locked registered in
      (denial, rw (seeded_registered db request tool registered, create_tool_run_job, denied) refl)

module _ (py : Python) (text_of : Value → Text) where
  -- An approval of a proposal that has validation errors raises and leaves the proposal, the audit log and
  -- the tables as they were, but the review that says "approved" has been written.
  pub review_tool_build_proposal_refused :
      (notes : Text) (b : Builder)
      → no_errors b.proposal.errors ≡ false
      → review_tool_build_proposal py text_of Decision.approved notes b ≡ (
        err has_errors,
        record b { reviews = (Decision.approved, sanitize_builder_text py 4000 notes) ∷ b.reviews },
      )
  unfolding review_tool_build_proposal
  review_tool_build_proposal_refused notes b h = ground (arith, h)
