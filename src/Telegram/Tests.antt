-- ===== src/Telegram/Tests.antt =====
-- Runs of the linking of chats, and its theorems at them.
use matrix_scanner_saas.Prelude.{none, some, [], ◌∷◌, ◌≡◌, refl}
use matrix_scanner_saas.Prelude.Results.{ok, err}
use matrix_scanner_saas.Text.{Text, codes, text_eq}
use matrix_scanner_saas.Json.{pos}
use matrix_scanner_saas.Models.{AccountStatus, CustomerRole}
use matrix_scanner_saas.Telegram.{
  ChatLink, Chats, LinkError, LinkStatus, Message, PortalUser, not_owner, private_only,
  private_scope, group_scope, create_link_token_for_portal, link_chat_with_code, link_with_token,
  is_usable, check_scope, new_link, write_link, put_link, unlink_chat, active_chat_link,
}
use matrix_scanner_saas.Telegram.Linking.{
  IsLinked, link_chat_with_code-IsLinked, link_chat_with_code_once,
}

abbrev hash : Text → Text
hash raw = 35 ∷ raw

abbrev office : Chats
office = record {
  accounts = λ _. AccountStatus.active;
  server_account = λ _. 1;
  tokens = [];
  links = [];
  audits = [];
}

abbrev operator : PortalUser
operator = record { id = 7; account_id = 1; role = CustomerRole.operator }

-- An operator's code for a private chat, which lasts half an hour.
abbrev issued : Chats
issued =
    (create_link_token_for_portal hash 100 operator private_scope none 30 (codes "code") office).1

abbrev direct : Message
direct = record {
  chat_id = some (pos 5);
  chat_type = codes "private";
  telegram_user_id = some (pos 9);
}

abbrev link : ChatLink
link = record {
  chat_id = pos 5;
  account_id = 1;
  user = some 7;
  server = none;
  telegram_user_id = some (pos 9);
  chat_type = codes "private";
  status = LinkStatus.active;
  linked_at = some 200;
  revoked_at = none;
}

group_refused :
    (create_link_token_for_portal hash 100 operator group_scope none 30 (codes "code") office).0
    ≡ err not_owner
unfolding create_link_token_for_portal
group_refused = refl

links : (link_chat_with_code hash 200 direct (codes "code") issued).0 ≡ ok link
unfolding create_link_token_for_portal link_chat_with_code link_with_token is_usable check_scope
    new_link text_eq
links = refl

in_group_refused :
    (link_chat_with_code hash 200
      (record direct { chat_type = codes "group" })
      (codes "code")
      issued).0
    ≡ err private_only
unfolding create_link_token_for_portal link_chat_with_code link_with_token is_usable check_scope
    new_link text_eq
in_group_refused = refl

unlinked :
    active_chat_link
      (pos 5)
      (unlink_chat 300 link (link_chat_with_code hash 200 direct (codes "code") issued).1)
    ≡ none
unfolding create_link_token_for_portal link_chat_with_code link_with_token is_usable check_scope
    new_link write_link put_link text_eq unlink_chat active_chat_link
unlinked = refl

link_chat_with_code-IsLinked_example :
    IsLinked 200
      (hash (codes "code"))
      direct
      issued
      (link_chat_with_code hash 200 direct (codes "code") issued).1
      link
link_chat_with_code-IsLinked_example =
    link_chat_with_code-IsLinked hash 200 direct (codes "code") issued link links

link_chat_with_code_once_example :
    (e : LinkError) × ((link_chat_with_code hash 250 direct
        (codes "code")
        (link_chat_with_code hash 200 direct (codes "code") issued).1).0
      ≡ err e)
link_chat_with_code_once_example =
    link_chat_with_code_once hash 200 250 direct direct (codes "code") issued link links
