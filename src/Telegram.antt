-- ===== src/Telegram.antt =====
-- The linking of Telegram chats: apps/telegram_integration/services.py, `create_link_token_for_portal`,
-- `link_chat_with_code`, `unlink_chat` and `active_chat_link_for_update`, and the two tables of
-- apps/telegram_integration/models.py that they use.
--
-- A message comes parsed, as `parse_message` gives it. The hash of a code is a parameter, the fresh code
-- an argument. The list of notifications and the title of a chat are left out; an exception leaves the
-- tables as they were.
pub mod Linking
mod Tests
use matrix_scanner_saas.Prelude.{
  ℕ, zero, ◌+◌, ◌*◌, String, Bool, true, false, not, ◌&&◌, ◌||◌, Option, none, some, List, [], ◌∷◌,
  ◌++◌, ◌==◌, ltb, if◌then◌else◌, first, any,
}
use matrix_scanner_saas.Prelude.Results.{Result, ok, err}
use matrix_scanner_saas.Text.{Text, codes, text_eq}
use matrix_scanner_saas.Json.{ℤ, pos, negsuc}
use matrix_scanner_saas.Audit.{AuditResult}
use matrix_scanner_saas.Agents.{is_none}
use matrix_scanner_saas.Models.{AccountStatus, CustomerRole, account_is_active}

pub data ChatScope : Type 0 where
  private_scope group_scope : ChatScope

pub data LinkStatus : Type 0 where
  pending active revoked : LinkStatus

pub record LinkToken : Type 0 where
  pub account_id : ℕ
  pub created_by : Option ℕ
  pub token_hash : Text
  pub chat_scope : ChatScope
  pub server : Option ℕ
  pub expires_at : ℕ
  pub used_at : Option ℕ
  pub revoked_at : Option ℕ

pub record ChatLink : Type 0 where
  pub chat_id : ℤ
  pub account_id : ℕ
  pub user : Option ℕ
  pub server : Option ℕ
  pub telegram_user_id : Option ℤ
  pub chat_type : Text
  pub status : LinkStatus
  pub linked_at : Option ℕ
  pub revoked_at : Option ℕ

-- What `parse_message` gives.
pub record Message : Type 0 where
  pub chat_id : Option ℤ
  pub chat_type : Text
  pub telegram_user_id : Option ℤ

pub record PortalUser : Type 0 where
  pub id : ℕ
  pub account_id : ℕ
  pub role : CustomerRole

pub data LinkError : Type 0 where
  no_chat code_not_usable account_inactive private_only group_only linked_elsewhere : LinkError
  not_owner not_permitted foreign_server : LinkError

pub record Chats : Type 0 where
  pub accounts : ℕ → AccountStatus
  -- the account of a server
  pub server_account : ℕ → ℕ
  pub tokens : List LinkToken
  -- one row for a chat
  pub links : List ChatLink
  pub audits : List (String × AuditResult)

abbrev pub id_eq : ℤ → ℤ → Bool
id_eq (pos m) (pos n) = m == n
id_eq (negsuc m) (negsuc n) = m == n
id_eq _ _ = false

abbrev pub is_active_status : LinkStatus → Bool
is_active_status LinkStatus.active = true
is_active_status _ = false

abbrev pub is_owner : CustomerRole → Bool
is_owner CustomerRole.owner = true
is_owner _ = false

abbrev pub is_owner_or_operator : CustomerRole → Bool
is_owner_or_operator CustomerRole.owner = true
is_owner_or_operator CustomerRole.operator = true
is_owner_or_operator _ = false

-- TelegramLinkToken.is_usable
unfoldable pub is_usable : ℕ → LinkToken → Bool
is_usable now token = is_none token.used_at && is_none token.revoked_at && ltb now token.expires_at

abbrev pub has_hash : Text → LinkToken → Bool
has_hash hash token = text_eq token.token_hash hash

-- TelegramLinkToken.mark_used; hashes are unique
unfoldable pub mark_used : ℕ → Text → List LinkToken → List LinkToken
mark_used now hash [] = []
mark_used now hash (token ∷ tokens) =
    (if has_hash hash token then record token { used_at = some now } else token)
    ∷ mark_used now hash tokens

-- The row of a chat.
abbrev pub is_of_chat : ℤ → ChatLink → Bool
is_of_chat chat_id link = id_eq link.chat_id chat_id

-- update_or_create
unfoldable pub put_link : ChatLink → List ChatLink → List ChatLink
put_link link [] = link ∷ []
put_link link (old ∷ links) =
    if is_of_chat link.chat_id old then link ∷ links else old ∷ put_link link links

-- The tests of `create_link_token_for_portal` on the role.
abbrev may_issue : CustomerRole → ChatScope → Result LinkError (Unit {0})
may_issue role group_scope = if is_owner role then ok tt else err not_owner
may_issue role private_scope = if is_owner_or_operator role then ok tt else err not_permitted

abbrev server_is_foreign : Chats → PortalUser → Option ℕ → Bool
server_is_foreign chats user none = false
server_is_foreign chats user (some server) = not (chats.server_account server == user.account_id)

-- The chat's type fits the scope of the code.
unfoldable pub check_scope : ChatScope → Text → Result LinkError (Unit {0})
check_scope private_scope chat_type =
    if text_eq chat_type (codes "private") then ok tt else err private_only
check_scope group_scope chat_type =
    if text_eq chat_type (codes "group") || text_eq chat_type (codes "supergroup")
    then ok tt
    else err group_only

abbrev pub for_private {ℓ} : {A : Type ℓ} → ChatScope → Option A → Option A
for_private private_scope value = value
for_private group_scope value = none

unfoldable pub new_link : ℕ → LinkToken → ℤ → Message → ChatLink
new_link now token chat_id message = record {
  chat_id = chat_id;
  account_id = token.account_id;
  user = for_private token.chat_scope token.created_by;
  server = token.server;
  telegram_user_id = for_private token.chat_scope message.telegram_user_id;
  chat_type = message.chat_type;
  status = LinkStatus.active;
  linked_at = some now;
  revoked_at = none;
}

-- The existing link of the chat is active and belongs to another account.
abbrev is_taken_by_other : ℕ → Option ChatLink → Bool
is_taken_by_other account none = false
is_taken_by_other account (some link) =
    is_active_status link.status && not (link.account_id == account)

-- What a link writes.
unfoldable pub write_link : ℕ → LinkToken → ChatLink → Chats → Chats
unfolding mark_used put_link
write_link now token link chats = record chats {
  links = put_link link chats.links;
  tokens = mark_used now token.token_hash chats.tokens;
  audits = ("telegram.chat_linked", AuditResult.success) ∷ chats.audits;
}

-- The chat's id, where there is one that is not 0.
abbrev pub chat_of : Message → Option ℤ
chat_of message = elim message.chat_id [ some (pos zero) ↦ none | some id ↦ some id | none ↦ none ]

-- From the token on.
unfoldable pub link_with_token :
    ℕ → LinkToken → ℤ → Message → Chats → Result LinkError ChatLink × Chats
unfolding is_usable check_scope new_link write_link
link_with_token now token chat_id message chats =
    let link = new_link now token chat_id message in
    if not (is_usable now token)
    then (err code_not_usable, chats)
    else if not (account_is_active (chats.accounts token.account_id))
    then (err account_inactive, chats)
    else elim (check_scope token.chat_scope message.chat_type) [
      | err e ↦ (err e, chats)
      | ok u ↦
          if is_taken_by_other token.account_id (first (is_of_chat chat_id) chats.links)
          then (err linked_elsewhere, chats)
          else (ok link, write_link now token link chats)
    ]

module _ (hash_token : Text → Text) where
  unfoldable pub create_link_token_for_portal :
      ℕ → PortalUser → ChatScope → Option ℕ → ℕ → Text → Chats → Result LinkError LinkToken × Chats
  create_link_token_for_portal now user scope server ttl_minutes raw chats =
      if not (account_is_active (chats.accounts user.account_id))
      then (err account_inactive, chats)
      else elim (may_issue user.role scope) [
        | err e ↦ (err e, chats)
        | ok u ↦
            if server_is_foreign chats user server
            then (err foreign_server, chats)
            else (let token : LinkToken = record {
              account_id = user.account_id;
              created_by = some user.id;
              token_hash = hash_token raw;
              chat_scope = scope;
              server = server;
              expires_at = now + 60 * ttl_minutes;
              used_at = none;
              revoked_at = none;
            } in
                (
                  ok token,
                  record chats {
                    tokens = chats.tokens ++ (token ∷ []);
                    audits = ("portal.telegram_link_issued", AuditResult.success) ∷ chats.audits;
                  },
                ))
      ]

  unfoldable pub link_chat_with_code :
      ℕ → Message → Text → Chats → Result LinkError ChatLink × Chats
  unfolding link_with_token
  link_chat_with_code now message raw_code chats = elim (chat_of message) [
    | none ↦ (err no_chat, chats)
    | some chat_id ↦ elim (first (has_hash (hash_token raw_code)) chats.tokens) [
      | none ↦ (err code_not_usable, chats)
      | some token ↦ link_with_token now token chat_id message chats
    ]
  ]

unfoldable pub unlink_chat : ℕ → ChatLink → Chats → Chats
unfolding put_link
unlink_chat now link chats = record chats {
  links = put_link (record link { status = LinkStatus.revoked; revoked_at = some now }) chats.links;
  audits = ("telegram.chat_unlinked", AuditResult.success) ∷ chats.audits;
}

-- active_chat_link_for_update
unfoldable pub active_chat_link : ℤ → Chats → Option ChatLink
active_chat_link chat_id chats =
    first (λ link. is_of_chat chat_id link && is_active_status link.status) chats.links
