-- ===== src/Webmail/Compose.antt =====
-- internal/webmail/deliver.go: the text of a message and its delivery. The clock, the random draws and
-- the printing of numbers and times are inputs.
use ghostmail.Prelude.{
  ℕ, none, List, [], ◌++◌, map, ltb, equal, length, if◌then◌else◌, Bytes, codes,
}
use ghostmail.Result.{no_inbox, Result, ok, err}
use ghostmail.Text.Hex.{hex_encode}
use ghostmail.Sql.{Sql, pure, lift, ignoring, wrapping, or_raise, ◌>>=◌}
use ghostmail.Crypto.Primitives.{Primitives}
use ghostmail.Crypto.Envelope.{Draws, Sealed, encrypt_message}
use ghostmail.Crypto.SearchTokens.{generate_search_tokens}
use ghostmail.Storage.Schema.{Tables, User, Message}
use ghostmail.Storage.Mailboxes.{get_mailbox}
use ghostmail.Storage.Messages.{store_message}
use ghostmail.Storage.SearchIndex.{SearchToken, store_search_tokens}
use ghostmail.Smtp.Delivery.{blank_message, with_body}
use ghostmail.Webmail.Headers.{split_message, parse_header_fields}

pub record ComposeRequest : Type 0 where
  pub to : Bytes
  pub cc : Bytes
  pub bcc : Bytes
  pub subject : Bytes
  pub body : Bytes
  pub from_alias : Bytes
  pub in_reply_to : Bytes

-- What a message takes from outside: the eight random bytes of its id, the nanoseconds of the clock
-- as a text, and the time in the layout of a Date line.
pub record Stamp : Type 0 where
  pub drawn : Bytes
  pub nanoseconds : Bytes
  pub date : Bytes

abbrev crlf : Bytes
crlf = codes "\r\n"

abbrev pub header_line : Bytes → Bytes → Bytes
header_line name value = name ++ (value ++ crlf)

abbrev pub header_unless_empty : Bytes → Bytes → Bytes
header_unless_empty name value = if equal value [] then [] else header_line name value

-- The values are written as they are.
unfoldable pub build_rfc5322 : Stamp → Bytes → Bytes → Bytes → Bytes → Bytes → Bytes → Bytes → Bytes
build_rfc5322 stamp sender to cc subject body in_reply_to hostname =
    let msg_id =
      codes "<"
      ++ (stamp.nanoseconds
          ++ (codes "." ++ (hex_encode stamp.drawn ++ (codes "@" ++ (hostname ++ codes ">"))))) in
    header_line (codes "From: ") sender
    ++ (header_line (codes "To: ") to
        ++ (header_unless_empty (codes "Cc: ") cc
            ++ (header_line (codes "Subject: ") subject
                ++ (header_line (codes "Date: ") stamp.date
                    ++ (header_line (codes "Message-ID: ") msg_id
                        ++ (header_unless_empty (codes "In-Reply-To: ") in_reply_to
                            ++ (header_unless_empty (codes "References: ") in_reply_to
                                ++ (codes "MIME-Version: 1.0\r\n"
                                    ++ (codes "Content-Type: text/plain; charset=utf-8\r\n"
                                        ++ (crlf ++ body))))))))))

-- One delivery: the clock, the cryptography and its draws.
pub record Env : Type 0 where
  pub now : ℕ
  pub primitives : Primitives
  pub draws : Draws

abbrev pub sealed_body_of : Message → Result Sealed → Result Message
sealed_body_of msg (ok s) = ok (with_body s msg)
sealed_body_of msg (err e) = err e

-- Encryption for a user with a public key; the text as it is for one without.
unfoldable pub seal_for : Env → User → Message → Bytes → Result Message
seal_for env user msg raw_message =
    if ltb 0 (length user.public_key)
    then sealed_body_of msg (encrypt_message env.primitives env.draws raw_message user.public_key)
    else ok (record msg { body_enc = raw_message })

unfoldable pub search_tokens : Env → User → Bytes → List SearchToken
search_tokens env user raw_message =
    let (headers, body) = split_message raw_message in
    let fields = parse_header_fields headers in
    map (λ t. record { hash = t.token_hash; field = t.field })
      (generate_search_tokens env.primitives user.search_key fields.subject fields.sender
        fields.recipient body)

unfoldable pub index_tokens : Env → User → ℕ → Bytes → Sql Tables (Unit {0})
index_tokens env user id raw_message =
    if ltb 0 (length user.search_key)
    then ignoring tt (store_search_tokens id (search_tokens env user raw_message))
    else pure tt

unfoldable pub deliver_local : Env → User → Bytes → Sql Tables (Unit {0})
deliver_local env user raw_message = do
  found ← wrapping no_inbox (get_mailbox user.id (codes "INBOX"))
  inbox ← or_raise no_inbox found
  msg ← lift (seal_for env user (blank_message inbox.id raw_message env.now none) raw_message)
  stored ← store_message msg
  index_tokens env user stored.0 raw_message

abbrev pub seen : Message → Message
seen msg = record msg { flags = codes "\\Seen" }

-- The result is not read, and no search tokens are stored.
unfoldable pub store_sent_copy : Env → User → Bytes → Sql Tables (Unit {0})
store_sent_copy env user raw_message = ignoring tt (do
  found ← get_mailbox user.id (codes "Sent")
  sent ← or_raise no_inbox found
  msg ← lift (seal_for env user (seen (blank_message sent.id raw_message env.now none)) raw_message)
  stored ← store_message msg
  pure tt)
