-- ===== src/Smtp/Delivery.antt =====
-- deliverMessage of internal/smtp/session.go. The time, the random draws and the parser of RFC 3339
-- are inputs; every reading of the clock within one delivery is the same.
pub mod Admission
pub mod Sealing
use ghostmail.Prelude.{
  ℕ, suc, ◌+◌, ◌*◌, ◌≤◌, ◌<◌, Bool, true, false, ◌&&◌, not, Option, none, some, List, [], ◌∷◌, ◌++◌,
  map, ◌==◌, ltb, leb, equal, if◌then◌else◌, Bytes, codes, length, ◌≡◌, refl,
}
use mathlib.Core.Option
use ghostmail.Result.{
  Error, invalid_address, user_not_found, alias_inactive, alias_expired, limit_reached,
  owner_not_found, no_inbox, Result, ok, err,
}
use ghostmail.Text.{split_2}
use ghostmail.Sql.{Sql, pure, raise, lift, or_raise, ignoring, wrapping, ◌>>=◌, ◌>>◌}
use ghostmail.Crypto.Primitives.{Primitives}
use ghostmail.Crypto.Envelope.{Draws, Sealed, encrypt_message}
use ghostmail.Crypto.SearchTokens.{generate_search_tokens}
use ghostmail.Storage.Schema.{Tables, User, Alias, Mailbox, Message, second, unix}
use ghostmail.Storage.Mailboxes.{get_mailbox}
use ghostmail.Storage.Messages.{store_message}
use ghostmail.Storage.Users.{get_user, get_user_by_id}
use ghostmail.Storage.Domains.{is_local_domain}
use ghostmail.Storage.Aliases.{resolve_alias, deactivate_alias, increment_alias_count}
use ghostmail.Storage.Queue.{enqueue_message}
use ghostmail.Storage.SearchIndex.{SearchToken, store_search_tokens}
use ghostmail.Smtp.Message.{split_message, extract_header_fields, parse_expiry_header}

-- What one delivery takes from outside: the body's draws and the headers' draws, in this order.
pub record Env : Type 0 where
  pub now : ℕ
  pub primitives : Primitives
  pub body_draws : Draws
  pub header_draws : Draws
  pub parse_rfc3339 : Bytes → Option ℕ

-- alias.ExpiresAt != nil && alias.ExpiresAt.Before(time.Now())
unfoldable pub has_expired : ℕ → Alias → Bool
has_expired now a = elim a.expires_at [ none ↦ false | some t ↦ ltb (t * second) now ]

-- alias.MaxMessages != nil && alias.MessageCount >= *alias.MaxMessages
unfoldable pub is_used_up : Alias → Bool
is_used_up a = elim a.max_messages [ none ↦ false | some n ↦ leb n a.message_count ]

unfoldable pub admit_alias : ℕ → Alias → Sql Tables (Unit {0})
admit_alias now a =
    if not a.is_active
    then raise alias_inactive
    else if has_expired now a
    then raise alias_expired
    else if is_used_up a
    then (ignoring tt (deactivate_alias a.id) >> raise limit_reached)
    else ignoring tt (increment_alias_count a.id)

-- The alias's owner.
unfoldable pub resolve_by_alias : ℕ → Bytes → Sql Tables User
resolve_by_alias now address = do
  found ← resolve_alias address
  a ← or_raise user_not_found found
  admit_alias now a
  owner ← wrapping owner_not_found (get_user_by_id a.user_id)
  or_raise owner_not_found owner

abbrev pub or_alias : ℕ → Bytes → Option User → Sql Tables User
or_alias now address (some user) = pure user
or_alias now address none = resolve_by_alias now address

unfoldable pub resolve_recipient : ℕ → Bytes → Bytes → Bytes → Sql Tables User
resolve_recipient now address local domain = do
  user ← get_user local domain
  or_alias now address user

abbrev pub blank_message : ℕ → Bytes → ℕ → Option ℕ → Message
blank_message mailbox_id text now expires_at = record {
  id = 0;
  mailbox_id = mailbox_id;
  uid = 0;
  message_key_enc = [];
  message_key_nonce = [];
  header_enc = [];
  header_nonce = [];
  body_enc = [];
  body_nonce = [];
  size = length text;
  flags = [];
  internal_date = unix now;
  expires_at = expires_at;
  envelope_enc = [];
  envelope_nonce = [];
}

-- The headers' ciphertext and nonce, if there are headers and their encryption works.
abbrev pub with_headers : Result Sealed → Message → Message
with_headers (ok s) m = record m { header_enc = s.body_enc; header_nonce = s.body_nonce }
with_headers (err e) m = m

abbrev pub with_body : Sealed → Message → Message
with_body s m = record m {
  message_key_enc = s.wrapped_key;
  message_key_nonce = s.key_nonce;
  body_enc = s.body_enc;
  body_nonce = s.body_nonce;
}

abbrev pub add_headers : Env → User → Bytes → Message → Message
add_headers env user headers m =
    if ltb 0 (length headers)
    then with_headers (encrypt_message env.primitives env.header_draws headers user.public_key) m
    else m

abbrev pub sealed_as : Env → User → Bytes → Message → Result Sealed → Result Message
sealed_as env user headers m (ok s) = ok (add_headers env user headers (with_body s m))
sealed_as env user headers m (err e) = err e

-- Encryption for a user with a public key; the text as it is for one without.
unfoldable pub seal_message : Env → User → Message → Bytes → Result Message
seal_message env user m text =
    if ltb 0 (length user.public_key)
    then sealed_as env user (split_message text).0 m
        (encrypt_message env.primitives env.body_draws text user.public_key)
    else ok (record m { body_enc = text })

-- The blind index of a message, for a user with a search key; its errors are dropped.
unfoldable pub message_tokens : Env → User → Bytes → List SearchToken
message_tokens env user text =
    let (headers, body) = split_message text in
    let fields = extract_header_fields headers in
    map (λ t. record { hash = t.token_hash; field = t.field })
      (generate_search_tokens env.primitives user.search_key fields.subject fields.sender
        fields.recipient body)

unfoldable pub index_message : Env → User → ℕ → Bytes → Sql Tables (Unit {0})
index_message env user id text =
    if ltb 0 (length user.search_key)
    then ignoring tt (store_search_tokens id (message_tokens env user text))
    else pure tt

-- From the look-up of the INBOX on; the id and UID of the stored message.
unfoldable pub deliver_to_user : Env → User → Bytes → Sql Tables (ℕ × ℕ)
deliver_to_user env user text = do
  found ← wrapping no_inbox (get_mailbox user.id (codes "INBOX"))
  inbox ← or_raise no_inbox found
  m ← lift (
      seal_message env user
        (blank_message inbox.id text env.now
          (Option.map unix (parse_expiry_header env.parse_rfc3339 env.now text)))
        text)
  stored ← store_message m
  index_message env user stored.0 text
  pure stored

-- A recipient in a domain of this server, or one for the queue.
abbrev pub deliver_by : Env → Bytes → Bytes → Bytes → Bytes → Bytes → Bool → Sql Tables (Unit {0})
deliver_by env sender recipient local domain text false =
    enqueue_message sender recipient text env.now
deliver_by env sender recipient local domain text true = do
  user ← resolve_recipient env.now recipient local domain
  deliver_to_user env user text
  pure tt

unfoldable pub deliver_message : Env → Bytes → Bytes → Bytes → Sql Tables (Unit {0})
deliver_message env sender recipient text = do
  parts ← or_raise invalid_address (split_2 recipient b'@')
  is_local ← is_local_domain parts.1
  deliver_by env sender recipient parts.0 parts.1 text is_local
