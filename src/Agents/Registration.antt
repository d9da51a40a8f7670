-- ===== src/Agents/Registration.antt =====
-- Registration tokens serve once, and the token that a registration issues authenticates the agent.
use matrix_scanner_saas.Prelude.{
  ℕ, ◌≡◌, refl, sym, ◌∙◌, ap, inl, inr, true, false, not, ◌||◌, some, List, [], ◌∷◌, first, arith,
  Bool-cases, Option-cases,
}
use mathlib.Core.Option
use matrix_scanner_saas.Prelude.First.{first_passes}
use matrix_scanner_saas.Prelude.Results.{ok, err}
use matrix_scanner_saas.Text.{Text}
use matrix_scanner_saas.Text.Laws.{text_eq_iff}
use matrix_scanner_saas.Models.{
  Db, ScannerAgent, AgentRegistrationToken, account_is_active, server_is_archived,
}
use matrix_scanner_saas.Agents.{
  not_usable, is_usable, token_has_hash, mark_used, write_registration, register_with,
  register_agent,
}

abbrev used : ℕ → AgentRegistrationToken → AgentRegistrationToken
used now token = record token { used_at = some now }

-- The search for a hash finds the row as `mark_used` left it.
first-mark_used :
    (now : ℕ) (hash : Text) (tokens : List AgentRegistrationToken)
    → first (token_has_hash hash) (mark_used now hash tokens)
      ≡ Option.map (used now) (first (token_has_hash hash) tokens)
unfolding mark_used
first-mark_used now hash [] = refl
first-mark_used now hash (token ∷ tokens) = ground (arith, first-mark_used now hash tokens)

module _ (hash_token : Text → Text) where
  -- A registration that succeeds, taken apart.
  pub record IsRegistered (now : ℕ) (raw hostname version raw_agent : Text) (db after : Db)
      (agent : ScannerAgent) : Type 0 where
    pub token : AgentRegistrationToken
    pub found : first (token_has_hash (hash_token raw)) db.registration_tokens ≡ some token
    pub usable : is_usable now token ≡ true
    pub account_active : account_is_active (db.accounts token.account_id) ≡ true
    pub server_kept : server_is_archived (db.servers token.server_id).status ≡ false
    pub written :
        write_registration now token hostname version (hash_token raw_agent) db ≡ (agent, after)

  -- A registration that succeeds was made with a token that exists, is not expired, used or revoked,
  -- whose account is active and whose server is not archived; and it wrote what `write_registration`
  -- writes for that token.
  pub register_agent-IsRegistered :
      (now : ℕ) (raw hostname version raw_agent : Text) (db after : Db) (agent : ScannerAgent)
      → register_agent hash_token now raw hostname version raw_agent db ≡ (ok agent, after)
      → IsRegistered now raw hostname version raw_agent db after agent
  unfolding register_agent register_with
  register_agent-IsRegistered now raw hostname version raw_agent db after agent h =
      elim (Option-cases (first (token_has_hash (hash_token raw)) db.registration_tokens)) [
        | inl absent ↦ absurd (ground arith)
        | inr (token, found) ↦ elim (Bool-cases (is_usable now token)) [
          | inr spent ↦ absurd (ground arith)
          | inl usable ↦
              elim (Bool-cases (
                not (account_is_active (db.accounts token.account_id))
                || server_is_archived (db.servers token.server_id).status)) [
                  | inl barred ↦ absurd (ground arith)
                  | inr open_still ↦ record {
                    token = token;
                    found = found;
                    usable = usable;
                    account_active = ground arith;
                    server_kept = ground arith;
                    written = ground arith;
                  }
                ]
        ]
      ]

  tokens-write_registration :
      (now : ℕ) (token : AgentRegistrationToken) (hostname version hash : Text) (db : Db)
      → (write_registration now token hostname version hash db).1.registration_tokens
        ≡ mark_used now token.token_hash db.registration_tokens
  unfolding write_registration
  tokens-write_registration now token hostname version hash db = refl

  -- A registration token serves once: after a registration with it has succeeded, a second one with
  -- the same token is refused as not usable at every time, and changes nothing.
  pub register_agent_once :
      (now later : ℕ) (raw hostname version raw_agent hostname' version' raw_agent' : Text)
      (db after : Db) (agent : ScannerAgent)
      → register_agent hash_token now raw hostname version raw_agent db ≡ (ok agent, after)
      → register_agent hash_token later raw hostname' version' raw_agent' after
        ≡ (err not_usable, after)
  unfolding register_agent register_with
  register_agent_once now later raw hostname version raw_agent hostname' version' raw_agent' db
        after agent h =
      let r = register_agent-IsRegistered now raw hostname version raw_agent db after agent h in
      let hash : Text = hash_token raw in
      let named : r.token.token_hash ≡ hash =
        (text_eq_iff r.token.token_hash hash).0
          (first_passes (token_has_hash hash) db.registration_tokens r.token r.found) in
      let tokens : after.registration_tokens ≡ mark_used now hash db.registration_tokens =
        ap (λ (w : ScannerAgent × Db). w.1.registration_tokens) (sym r.written)
        ∙ tokens-write_registration now r.token hostname version (hash_token raw_agent) db
        ∙ ap (λ (t : Text). mark_used now t db.registration_tokens) named in
      let spent : first (token_has_hash hash) after.registration_tokens ≡ some (used now r.token) =
        rw tokens
          (first-mark_used now hash db.registration_tokens ∙ ap (Option.map (used now)) r.found) in
      rw (spent, register_agent) (unfold is_usable in refl)
