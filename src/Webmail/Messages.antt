-- ===== src/Webmail/Messages.antt =====
-- The handlers of internal/webmail/api_message.go on one message: read, flags, move and delete. The
-- numbers of the path are what strconv reads of them, 0 for what it does not read; negative ones, which
-- no row has, are left out.
use ghostmail.Prelude.{
  ℕ, Bool, ◌||◌, Option, none, some, List, [], ◌∷◌, ◌==◌, ltb, equal, length, if◌then◌else◌, Bytes,
  codes, any,
}
use ghostmail.Result.{refused, Result, ok, err}
use ghostmail.Text.{contains, to_lower}
use ghostmail.Sql.{Sql, pure, lift, ignoring, wrapping, or_raise, ◌>>=◌, ◌>>◌}
use ghostmail.Crypto.Envelope.{decrypt_message}
use ghostmail.Crypto.Service.{SessionKeys}
use ghostmail.Storage.Schema.{Tables, Mailbox, Message}
use ghostmail.Storage.Mailboxes.{get_mailbox, list_mailboxes}
use ghostmail.Storage.Messages.{get_message, update_flags, delete_message, move_message}
use ghostmail.Storage.Flags.{has_flag, add_flag, remove_flag}
use ghostmail.Storage.SearchIndex.{delete_search_tokens}
use ghostmail.Smtp.Delivery.Sealing.{sealed_body}
use ghostmail.Webmail.{json_error, require_mailbox}
use ghostmail.Webmail.Sessions.{WebSession}
use ghostmail.Webmail.Headers.{split_message, parse_header_fields, parse_header_field}
use ghostmail.Webmail.Mailboxes.{Formats}

pub record FullMessage : Type 0 where
  pub uid : ℕ
  pub sender : Bytes
  pub recipient : Bytes
  pub cc : Bytes
  pub subject : Bytes
  pub date : Bytes
  pub body_text : Bytes
  pub body_html : Bytes
  pub flags : Bytes
  pub size : ℕ

-- GetMessage, whose error is that of a message that is not there.
unfoldable pub find_message : ℕ → ℕ → Sql Tables Message
find_message mailbox_id uid = do
  found ← wrapping (refused 404 (codes "message not found")) (get_message mailbox_id uid)
  or_raise (refused 404 (codes "message not found")) found

abbrev pub or_refused : Bytes → ℕ → Result Bytes → Result Bytes
or_refused message status (ok text) = ok text
or_refused message status (err e) = err (refused status message)

-- if !storage.HasFlag(msg.Flags, "\\Seen") { … }: the flags that the reply shows.
unfoldable pub mark_read : Message → Sql Tables Bytes
mark_read msg =
    if has_flag msg.flags (codes "\\Seen")
    then pure msg.flags
    else (ignoring tt (update_flags msg.id (add_flag msg.flags (codes "\\Seen")))
        >> pure (add_flag msg.flags (codes "\\Seen")))

module _ (env : Formats) where
  abbrev pub plaintext_for : Message → Option SessionKeys → Result Bytes
  plaintext_for msg none = ok msg.body_enc
  plaintext_for msg (some keys) =
      if ltb 0 (length msg.message_key_enc)
      then or_refused (codes "decryption failed") 500
          (decrypt_message env.primitives (sealed_body msg) keys.private_key)
      else ok msg.body_enc

  unfoldable pub full_message : Message → Bytes → Bytes → FullMessage
  full_message msg plaintext flags =
      let (headers, body) = split_message plaintext in
      let fields = parse_header_fields headers in
      let is_html =
        contains (to_lower (parse_header_field headers (codes "content-type")))
          (codes "text/html") in
      record {
        uid = msg.uid;
        sender = fields.sender;
        recipient = fields.recipient;
        cc = parse_header_field headers (codes "cc");
        subject = fields.subject;
        date = env.format_time (codes "2006-01-02 15:04:05") msg.internal_date;
        body_text = if is_html then [] else body;
        body_html = if is_html then body else [];
        flags = flags;
        size = msg.size;
      }

  -- The mailboxes are listed here, and a list that fails is an error.
  unfoldable pub check_owner : WebSession → ℕ → Sql Tables (Unit {0})
  check_owner sess mailbox_id = do
    mailboxes ← wrapping (refused 500 (codes "internal error")) (list_mailboxes sess.user_id)
    if any (λ mb. mb.id == mailbox_id) mailboxes
        then pure tt
        else json_error (codes "mailbox not found") 404

  unfoldable pub handle_get_message : WebSession → ℕ → ℕ → Sql Tables FullMessage
  handle_get_message sess mailbox_id uid = do
    (if (mailbox_id == 0) || (uid == 0)
        then json_error (codes "invalid parameters") 400
        else pure tt)
    check_owner sess mailbox_id
    msg ← find_message mailbox_id uid
    plaintext ← lift (plaintext_for msg sess.keys)
    flags ← mark_read msg
    pure (full_message msg plaintext flags)

pub record FlagsRequest : Type 0 where
  pub add : List Bytes
  pub remove : List Bytes

unfoldable pub add_flags : Bytes → List Bytes → Bytes
add_flags flags [] = flags
add_flags flags (f ∷ fs) = add_flags (add_flag flags f) fs

unfoldable pub remove_flags : Bytes → List Bytes → Bytes
remove_flags flags [] = flags
remove_flags flags (f ∷ fs) = remove_flags (remove_flag flags f) fs

-- `none` is a body that does not decode.
unfoldable pub handle_update_flags : WebSession → ℕ → ℕ → Option FlagsRequest → Sql Tables Bytes
handle_update_flags sess mailbox_id uid body = do
  require_mailbox sess.user_id mailbox_id
  msg ← find_message mailbox_id uid
  req ← or_raise (refused 400 (codes "invalid request")) body
  let flags = remove_flags (add_flags msg.flags req.add) req.remove
  wrapping (refused 500 (codes "failed to update flags")) (update_flags msg.id flags)
  pure flags

-- The destination of the request, or `none`.
unfoldable pub handle_move_message : WebSession → ℕ → ℕ → Option Bytes → Sql Tables (Unit {0})
handle_move_message sess mailbox_id uid body = do
  require_mailbox sess.user_id mailbox_id
  destination ← or_raise (refused 400 (codes "invalid request")) body
  found ←
      wrapping (refused 404 (codes "destination mailbox not found"))
        (get_mailbox sess.user_id destination)
  dest_mb ← or_raise (refused 404 (codes "destination mailbox not found")) found
  msg ← find_message mailbox_id uid
  wrapping (refused 500 (codes "failed to move message")) (move_message msg.id dest_mb.id)

abbrev pub is_trash : Mailbox → Bool
is_trash mb = equal mb.special_use (codes "\\Trash") || equal mb.name (codes "Trash")

-- The loop of handleDeleteMessage: the last Trash.
unfoldable pub last_trash : Option Mailbox → List Mailbox → Option Mailbox
last_trash found [] = found
last_trash found (mb ∷ mbs) = last_trash (if is_trash mb then some mb else found) mbs

-- And the last name of the mailbox.
unfoldable pub current_name : ℕ → Bytes → List Mailbox → Bytes
current_name mailbox_id name [] = name
current_name mailbox_id name (mb ∷ mbs) =
    current_name mailbox_id (if mb.id == mailbox_id then mb.name else name) mbs

unfoldable pub delete_for_good : Message → Sql Tables (Unit {0})
delete_for_good msg = do
  ignoring tt (delete_search_tokens msg.id)
  wrapping (refused 500 (codes "failed to delete message")) (delete_message msg.id)

-- A message that is in the Trash, or whose user has none, is deleted; any other moves there.
abbrev pub discard : Message → ℕ → Bytes → Option Mailbox → Sql Tables (Unit {0})
discard msg mailbox_id name none = delete_for_good msg
discard msg mailbox_id name (some trash) =
    if equal name (codes "Trash") || (mailbox_id == trash.id)
    then delete_for_good msg
    else wrapping (refused 500 (codes "failed to move to trash")) (move_message msg.id trash.id)

unfoldable pub handle_delete_message : WebSession → ℕ → ℕ → Sql Tables (Unit {0})
handle_delete_message sess mailbox_id uid = do
  require_mailbox sess.user_id mailbox_id
  msg ← find_message mailbox_id uid
  mailboxes ← ignoring [] (list_mailboxes sess.user_id)
  discard msg mailbox_id (current_name mailbox_id [] mailboxes) (last_trash none mailboxes)
