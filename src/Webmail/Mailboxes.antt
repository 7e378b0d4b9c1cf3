-- ===== src/Webmail/Mailboxes.antt =====
-- internal/webmail/api_mailbox.go. The formatting of a time is a parameter.
use ghostmail.Prelude.{
  map, ℕ, ◌-◌, ◌*◌, ◌%◌, ◌^◌, Bool, not, Option, none, some, List, [], ◌∷◌, ltb, ◌||◌, equal,
  length, if◌then◌else◌, Bytes, codes,
}
use ghostmail.Result.{refused, Result, ok, err}
use ghostmail.Sql.{Sql, pure, ignoring, wrapping, or_raise, ◌>>=◌}
use ghostmail.Crypto.Primitives.{Primitives}
use ghostmail.Crypto.Envelope.{decrypt_message}
use ghostmail.Crypto.Service.{SessionKeys}
use ghostmail.Storage.Schema.{Tables, Mailbox, Message}
use ghostmail.Storage.Mailboxes.{get_mailbox, list_mailboxes, mailbox_message_count}
use ghostmail.Storage.Messages.{list_messages_paginated, mailbox_unread_count}
use ghostmail.Storage.Flags.{has_flag}
use ghostmail.Smtp.Delivery.Sealing.{sealed_body}
use ghostmail.Webmail.Sessions.{WebSession}
use ghostmail.Webmail.Headers.{split_message, Fields, parse_header_fields}

pub record MailboxInfo : Type 0 where
  pub name : Bytes
  pub total : ℕ
  pub unread : ℕ
  pub special_use : Bytes

-- The loop over the mailboxes; a count that fails is 0.
unfoldable pub mailbox_infos : List Mailbox → Sql Tables (List MailboxInfo)
mailbox_infos [] = pure []
mailbox_infos (mb ∷ mbs) = do
  total ← ignoring 0 (mailbox_message_count mb.id)
  unread ← ignoring 0 (mailbox_unread_count mb.id)
  rest ← mailbox_infos mbs
  pure (
      record { name = mb.name; total = total; unread = unread; special_use = mb.special_use }
      ∷ rest)

unfoldable pub handle_list_mailboxes : WebSession → Sql Tables (List MailboxInfo)
handle_list_mailboxes sess = do
  mailboxes ←
      wrapping (refused 500 (codes "failed to list mailboxes")) (list_mailboxes sess.user_id)
  mailbox_infos mailboxes

-- What the handlers take from outside: the formatting of times, by its layout, and the cryptography.
pub record Formats : Type 0 where
  pub primitives : Primitives
  pub format_time : Bytes → ℕ → Bytes

pub record Summary : Type 0 where
  pub sender : Bytes
  pub recipient : Bytes
  pub subject : Bytes
  pub date : Bytes

abbrev pub headers_or_none : Result Bytes → Bytes
headers_or_none (ok plaintext) = (split_message plaintext).0
headers_or_none (err e) = []

abbrev pub or_text : Bytes → Bytes → Bytes
or_text value other = if equal value [] then other else value

abbrev pub no_fields : Fields
no_fields = record { sender = []; recipient = []; subject = [] }

module _ (env : Formats) where
  -- The headers of a row whose key is wrapped are read only where it can be decrypted.
  abbrev pub sealed_headers : Message → SessionKeys → Bytes
  sealed_headers msg keys =
      headers_or_none (decrypt_message env.primitives (sealed_body msg) keys.private_key)

  abbrev pub plain_headers : Message → Bytes
  plain_headers msg = if ltb 0 (length msg.body_enc) then (split_message msg.body_enc).0 else []

  abbrev pub header_data : Message → Option SessionKeys → Bytes
  header_data msg none = plain_headers msg
  header_data msg (some keys) =
      if ltb 0 (length msg.message_key_enc) then sealed_headers msg keys else plain_headers msg

  unfoldable pub extract_message_summary : Message → Option SessionKeys → Summary
  extract_message_summary msg keys =
      let headers = header_data msg keys in
      let fields = if ltb 0 (length headers) then parse_header_fields headers else no_fields in
      record {
        sender = or_text fields.sender (codes "(encrypted)");
        recipient = fields.recipient;
        subject = or_text fields.subject (codes "(no subject)");
        date = env.format_time (codes "2006-01-02 15:04") msg.internal_date;
      }

pub record MessageSummary : Type 0 where
  pub uid : ℕ
  pub summary : Summary
  pub flags : Bytes
  pub size : ℕ
  pub unread : Bool

pub record MessagePage : Type 0 where
  pub messages : List MessageSummary
  pub total : ℕ
  pub page : ℕ
  pub limit : ℕ
  pub mailbox : Bytes

-- if page < 1 { page = 1 }; a value that Atoi does not read is 0, as is a negative one here.
unfoldable pub page_or_first : ℕ → ℕ
page_or_first page = if ltb page 1 then 1 else page

unfoldable pub limit_or_default : ℕ → ℕ
limit_or_default limit = if ltb limit 1 || ltb 100 limit then 50 else limit

-- (page - 1) * limit in 64 bits; the engine takes a negative OFFSET as 0.
unfoldable pub offset_of : ℕ → ℕ → ℕ
offset_of page limit =
    let offset = ((page - 1) * limit) % 2 ^ 64 in if ltb offset (2 ^ 63) then offset else 0

module _ (env : Formats) where
  unfoldable pub message_summary : Option SessionKeys → Message → MessageSummary
  message_summary keys msg = record {
    uid = msg.uid;
    summary = extract_message_summary env msg keys;
    flags = msg.flags;
    size = msg.size;
    unread = not (has_flag msg.flags (codes "\\Seen"));
  }

  unfoldable pub handle_list_messages : WebSession → Bytes → ℕ → ℕ → Sql Tables MessagePage
  handle_list_messages sess mb_name page_text limit_text = do
    let page = page_or_first page_text
    let limit = limit_or_default limit_text
    found ← wrapping (refused 404 (codes "mailbox not found")) (get_mailbox sess.user_id mb_name)
    mb ← or_raise (refused 404 (codes "mailbox not found")) found
    messages ←
        wrapping (refused 500 (codes "failed to list messages"))
          (list_messages_paginated mb.id limit (offset_of page limit))
    total ← ignoring 0 (mailbox_message_count mb.id)
    pure (record {
      messages = map (message_summary sess.keys) messages;
      total = total;
      page = page;
      limit = limit;
      mailbox = mb_name;
    })
