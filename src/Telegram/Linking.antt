-- ===== src/Telegram/Linking.antt =====
-- What a link of a chat needs and does.
use mathlib.Core.Option
use matrix_scanner_saas.Prelude.{
  ℕ, ◌≡◌, ◌∙◌, sym, ap, refl, inl, inr, true, false, ◌&&◌, some, List, [], ◌∷◌, ==_self, ==_iff,
  arith, first, Bool-cases, Option-cases,
}
use matrix_scanner_saas.Prelude.Results.{ok, err, Result-cases}
use matrix_scanner_saas.Prelude.First.{first_passes}
use matrix_scanner_saas.Text.{Text}
use matrix_scanner_saas.Text.Laws.{text_eq_iff}
use matrix_scanner_saas.Json.{ℤ, pos, negsuc}
use matrix_scanner_saas.Models.{account_is_active}
use matrix_scanner_saas.Telegram.{
  LinkToken, ChatLink, Message, Chats, LinkError, no_chat, code_not_usable, id_eq, is_active_status,
  is_usable, has_hash, mark_used, is_of_chat, put_link, check_scope, new_link, is_taken_by_other,
  write_link, chat_of, link_with_token, link_chat_with_code, active_chat_link,
}

-- What a successful link has used and left.
pub record IsLinked (now : ℕ) (hash : Text) (message : Message) (before after : Chats)
    (link : ChatLink) : Type 0 where
  pub token : LinkToken
  pub chat_id : ℤ
  pub names_chat : chat_of message ≡ some chat_id
  pub found : first (has_hash hash) before.tokens ≡ some token
  pub usable : is_usable now token ≡ true
  pub account_active : account_is_active (before.accounts token.account_id) ≡ true
  pub fits : check_scope token.chat_scope message.chat_type ≡ ok tt
  pub same_account :
      (old : ChatLink)
      → first (is_of_chat chat_id) before.links ≡ some old
      → is_active_status old.status ≡ true
      → old.account_id ≡ link.account_id
  pub made : link ≡ new_link now token chat_id message
  pub written : after ≡ write_link now token link before
  pub listed : active_chat_link chat_id after ≡ some link

id_eq_self : (n : ℤ) → id_eq n n ≡ true
id_eq_self (pos n) = ==_self n
id_eq_self (negsuc n) = ==_self n

-- The row of the chat is the one that was put.
first-put_link :
    (link : ChatLink) (links : List ChatLink)
    → is_active_status link.status ≡ true
    → first (λ l. is_of_chat link.chat_id l && is_active_status l.status) (put_link link links)
      ≡ some link
unfolding put_link
first-put_link link [] on = ground (arith, on, id_eq_self link.chat_id)
first-put_link link (old ∷ links) on = elim (Bool-cases (is_of_chat link.chat_id old)) [
  | inl same ↦ ground (arith, same, on, id_eq_self link.chat_id)
  | inr other ↦ ground (arith, other, first-put_link link links on)
]

account-new_link :
    (now : ℕ) (token : LinkToken) (chat_id : ℤ) (message : Message)
    → (new_link now token chat_id message).account_id ≡ token.account_id
unfolding new_link
account-new_link now token chat_id message = refl

active_chat_link-write_link :
    (now : ℕ) (token : LinkToken) (chat_id : ℤ) (message : Message) (before : Chats)
    → active_chat_link chat_id (write_link now token (new_link now token chat_id message) before)
      ≡ some (new_link now token chat_id message)
unfolding active_chat_link write_link new_link
active_chat_link-write_link now token chat_id message before =
    first-put_link (new_link now token chat_id message) before.links refl

-- What the tests of a link have let through.
link_with_token-passed :
    (now : ℕ) (token : LinkToken) (chat_id : ℤ) (message : Message) (before : Chats)
    (link : ChatLink)
    → (link_with_token now token chat_id message before).0 ≡ ok link
    → (is_usable now token ≡ true)
      × (account_is_active (before.accounts token.account_id) ≡ true)
      × (check_scope token.chat_scope message.chat_type ≡ ok tt)
      × (is_taken_by_other token.account_id (first (is_of_chat chat_id) before.links) ≡ false)
      × (link ≡ new_link now token chat_id message)
      × ((link_with_token now token chat_id message before).1 ≡ write_link now token link before)
unfolding link_with_token
link_with_token-passed now token chat_id message before link h =
    elim (Bool-cases (is_usable now token)) [
      | inr spent ↦ absurd (ground (arith, spent))
      | inl usable ↦ elim (Bool-cases (account_is_active (before.accounts token.account_id))) [
        | inr closed ↦ absurd (ground (arith, usable, closed))
        | inl open_account ↦ elim (Result-cases (check_scope token.chat_scope message.chat_type)) [
          | inr (e, bad) ↦ absurd (ground (arith, usable, open_account, bad))
          | inl (tt, fits) ↦
              elim (Bool-cases
                (is_taken_by_other token.account_id (first (is_of_chat chat_id) before.links))) [
                  | inl taken ↦ absurd (ground (arith, usable, open_account, fits, taken))
                  | inr free ↦
                      let made : link ≡ new_link now token chat_id message =
                        ground (arith, usable, open_account, fits, free) in
                      (
                        usable,
                        open_account,
                        fits,
                        free,
                        made,
                        ground (arith, usable, open_account, fits, free, made),
                      )
                ]
        ]
      ]
    ]

module _ (hash_token : Text → Text) where
  -- A link that succeeds was made with a code that exists, is not expired, used or revoked, and is for an
  -- active account and for this type of chat; if the chat had an active link, it was of the same account.
  -- The chat then has the new link as its active one, and only the tokens, the links and the audit log
  -- have changed.
  pub link_chat_with_code-IsLinked :
      (now : ℕ) (message : Message) (raw : Text) (before : Chats) (link : ChatLink)
      → (link_chat_with_code hash_token now message raw before).0 ≡ ok link
      → IsLinked now
          (hash_token raw)
          message
          before
          (link_chat_with_code hash_token now message raw before).1
          link
  unfolding link_chat_with_code
  link_chat_with_code-IsLinked now message raw before link h =
      elim (Option-cases (chat_of message)) [
        | inl nowhere ↦ absurd (ground arith)
        | inr (chat_id, names) ↦
            elim (Option-cases (first (has_hash (hash_token raw)) before.tokens)) [
              | inl unknown ↦ absurd (ground arith)
              | inr (token, found) ↦
                  let opened : link_chat_with_code hash_token now message raw before
                      ≡ link_with_token now token chat_id message before =
                    ground (arith, names, found) in
                  let (usable, open_account, fits, free, made, written) =
                    link_with_token-passed now token chat_id message before link
                      (ap (λ r. r.0) (sym opened) ∙ h) in
                  let after = ap (λ r. r.1) opened ∙ written in
                  record {
                    token = token;
                    chat_id = chat_id;
                    names_chat = names;
                    found = found;
                    usable = usable;
                    account_active = open_account;
                    fits = fits;
                    same_account = λ old there is_on. ground (
                      arith,
                      free,
                      there,
                      is_on,
                      ap (λ (l : ChatLink). l.account_id) made,
                      account-new_link now token chat_id message,
                      ==_iff old.account_id token.account_id,
                    );
                    made = made;
                    written = after;
                    listed =
                        ap (active_chat_link chat_id) after
                        ∙ rw made (active_chat_link-write_link now token chat_id message before);
                  }
            ]
      ]

abbrev used : ℕ → LinkToken → LinkToken
used now token = record token { used_at = some now }

first-mark_used :
    (now : ℕ) (hash : Text) (tokens : List LinkToken)
    → first (has_hash hash) (mark_used now hash tokens)
      ≡ Option.map (used now) (first (has_hash hash) tokens)
unfolding mark_used
first-mark_used now hash [] = refl
first-mark_used now hash (token ∷ tokens) = ground (arith, first-mark_used now hash tokens)

used-refused :
    (hash_token : Text → Text) (later now : ℕ) (token : LinkToken) (message : Message) (raw : Text)
    (chats : Chats)
    → first (has_hash (hash_token raw)) chats.tokens ≡ some (used now token)
    → (e : LinkError) × ((link_chat_with_code hash_token later message raw chats).0 ≡ err e)
unfolding link_chat_with_code link_with_token is_usable
used-refused hash_token later now token message raw chats spent =
    elim (Option-cases (chat_of message)) [
      | inl nowhere ↦ (no_chat, ground (arith, nowhere))
      | inr (chat_id, names) ↦ (code_not_usable, ground (arith, names, spent))
    ]

module _ (hash_token : Text → Text) where
  -- After a code has linked a chat, nothing that is sent with the same code, from whatever chat and at
  -- whatever time, links a chat.
  pub link_chat_with_code_once :
      (now later : ℕ) (message other : Message) (raw : Text) (before : Chats) (link : ChatLink)
      → (link_chat_with_code hash_token now message raw before).0 ≡ ok link
      → (e : LinkError) × ((link_chat_with_code hash_token later other raw
            (link_chat_with_code hash_token now message raw before).1).0
          ≡ err e)
  unfolding write_link
  link_chat_with_code_once now later message other raw before link h =
      let linked = link_chat_with_code-IsLinked hash_token now message raw before link h in
      let after = (link_chat_with_code hash_token now message raw before).1 in
      let hash : Text = hash_token raw in
      let named : linked.token.token_hash ≡ hash =
        (text_eq_iff linked.token.token_hash hash).0
          (first_passes (has_hash hash) before.tokens linked.token linked.found) in
      let tokens : after.tokens ≡ mark_used now hash before.tokens =
        ap (λ (c : Chats). c.tokens) linked.written
        ∙ ap (λ (t : Text). mark_used now t before.tokens) named in
      let spent : first (has_hash hash) after.tokens ≡ some (used now linked.token) =
        rw tokens
          (first-mark_used now hash before.tokens ∙ ap (Option.map (used now)) linked.found) in
      used-refused hash_token later now linked.token other raw after spent
