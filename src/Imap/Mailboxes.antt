-- ===== src/Imap/Mailboxes.antt =====
-- The commands of internal/imap/session.go on whole mailboxes, for an authenticated session.
use ghostmail.Prelude.{
  ℕ, ◌%◌, ◌^◌, Bool, true, false, ◌&&◌, not, Option, none, some, List, [], ◌∷◌, ◌==◌, equal, any,
  if◌then◌else◌, Bytes, codes,
}
use ghostmail.Result.{
  constraint, auth_required, no_mailbox, is_inbox, disconnected, Result, ok, err,
}
use ghostmail.Text.{equal_fold, join}
use ghostmail.Sql.{Sql, pure, raise, or_raise, statement, exec, ignoring, wrapping, ◌>>=◌, ◌>>◌}
use ghostmail.Sql.Rows.{update}
use ghostmail.Storage.Schema.{Tables, User, Mailbox, Message, unix}
use ghostmail.Storage.Mailboxes.{
  has_id, get_mailbox, list_mailboxes, create_mailbox, delete_mailbox, mailbox_message_count,
}
use ghostmail.Storage.Messages.{store_message}
use ghostmail.Smtp.Delivery.{blank_message}
use ghostmail.Imap.Session.{Session, u32}

-- The guard of every command, and the look-up of a mailbox of the user's.
unfoldable pub authenticated : Session → Sql Tables User
authenticated s = or_raise auth_required s.user

unfoldable pub named_mailbox : User → Bytes → Sql Tables Mailbox
named_mailbox user name = do found ← get_mailbox user.id name; or_raise no_mailbox found

-- time.Now().Unix() & 0x7FFFFFFF
abbrev pub fresh_mailbox : ℕ → Bytes → ℕ → Mailbox
fresh_mailbox user_id name now = record {
  id = 0;
  user_id = user_id;
  name = name;
  uid_validity = unix now % 2 ^ 31;
  uid_next = 1;
  subscribed = true;
  special_use = [];
}

unfoldable pub create : Session → Bytes → ℕ → Sql Tables (Unit {0})
create s name now = do
  user ← authenticated s
  create_mailbox (fresh_mailbox user.id name now)
  pure tt

abbrev pub refuse_inbox : Bytes → Sql Tables (Unit {0})
refuse_inbox name = if equal_fold name (codes "INBOX") then raise is_inbox else pure tt

unfoldable pub delete : Session → Bytes → Sql Tables (Unit {0})
delete s name = do
  user ← authenticated s
  refuse_inbox name
  mb ← named_mailbox user name
  delete_mailbox mb.id

abbrev pub with_name : Bytes → Mailbox → Mailbox
with_name name b = record b { name = name }

abbrev pub rename_row : ℕ → Bytes → Tables → Tables
rename_row id name t = record t { mailboxes = update (has_id id) (with_name name) t.mailboxes }

-- UPDATE mailboxes SET name WHERE id, with the table's UNIQUE(user_id, name).
unfoldable pub set_name : Mailbox → Bytes → Tables → Result (Unit {0} × Tables)
set_name mb name t =
    if any (λ c. (c.user_id == mb.user_id) && equal c.name name && not (c.id == mb.id)) t.mailboxes
    then err constraint
    else ok (tt, rename_row mb.id name t)

unfoldable pub rename : Session → Bytes → Bytes → Sql Tables (Unit {0})
rename s name new_name = do
  user ← authenticated s
  refuse_inbox name
  mb ← named_mailbox user name
  statement (set_name mb new_name)

abbrev pub with_subscribed : Bool → Mailbox → Mailbox
with_subscribed b mb = record mb { subscribed = b }

unfoldable pub set_subscribed : Session → Bytes → Bool → Sql Tables (Unit {0})
set_subscribed s name value = do
  user ← authenticated s
  mb ← wrapping no_mailbox (named_mailbox user name)
  exec λ t. record t { mailboxes = update (has_id mb.id) (with_subscribed value) t.mailboxes }

unfoldable pub subscribe : Session → Bytes → Sql Tables (Unit {0})
subscribe s name = set_subscribed s name true

unfoldable pub unsubscribe : Session → Bytes → Sql Tables (Unit {0})
unsubscribe s name = set_subscribed s name false

pub record StatusData : Type 0 where
  pub mailbox : Bytes
  pub num_messages : Option ℕ
  pub uid_validity : ℕ
  pub uid_next : ℕ

pub record ListData : Type 0 where
  pub mailbox : Bytes
  pub attrs : List Bytes
  pub status : Option StatusData

-- Patterns and what the library does with them, and the options: only the subscribed, with status.
pub record ListEnv : Type 0 where
  pub matches : Bytes → Bool
  pub select_subscribed : Bool
  pub return_status : Bool
  pub writes : ListData → Bool

abbrev pub list_data : Bool → Mailbox → ℕ → ListData
list_data return_status mb count = record {
  mailbox = mb.name;
  attrs = if equal mb.special_use [] then [] else mb.special_use ∷ [];
  status =
      if return_status
      then some (record {
        mailbox = mb.name;
        num_messages = some (u32 count);
        uid_validity = u32 mb.uid_validity;
        uid_next = u32 mb.uid_next;
      })
      else none;
}

abbrev pub is_listed : ListEnv → Mailbox → Bool
is_listed env mb = not (env.select_subscribed && not mb.subscribed) && env.matches mb.name

-- The loop over the mailboxes.
unfoldable pub list_each : ListEnv → List Mailbox → Sql Tables (List ListData)
list_each env [] = pure []
list_each env (mb ∷ mbs) = elim (is_listed env mb) [
  | false ↦ list_each env mbs
  | true ↦ do
    count ← ignoring 0 (mailbox_message_count mb.id)
    let line = list_data env.return_status mb count
    (if env.writes line then pure tt else raise disconnected)
    rest ← list_each env mbs
    pure (line ∷ rest)
]

unfoldable pub list : Session → ListEnv → Sql Tables (List ListData)
list s env = do user ← authenticated s; mailboxes ← list_mailboxes user.id; list_each env mailboxes

unfoldable pub status : Session → Bytes → Bool → Sql Tables StatusData
status s name wants_count = do
  user ← authenticated s
  mb ← named_mailbox user name
  count ← ignoring 0 (mailbox_message_count mb.id)
  pure (record {
    mailbox = mb.name;
    num_messages = if wants_count then some (u32 count) else none;
    uid_validity = u32 mb.uid_validity;
    uid_next = u32 mb.uid_next;
  })

-- What Append is given: the literal, `none` if reading it fails, and its options.
pub record AppendEnv : Type 0 where
  pub now : ℕ
  pub literal : Option Bytes
  pub time : Option ℕ
  pub flags : List Bytes

abbrev pub appended : AppendEnv → ℕ → Bytes → Message
appended env mailbox_id text = record (blank_message mailbox_id text env.now none) {
  body_enc = text;
  flags = join env.flags (codes " ");
  internal_date = elim env.time [ none ↦ unix env.now | some t ↦ unix t ];
}

-- UIDVALIDITY and the UID of the new message; the count that it tells other sessions is not used here.
unfoldable pub append : Session → Bytes → AppendEnv → Sql Tables (ℕ × ℕ)
append s name env = do
  user ← authenticated s
  mb ← named_mailbox user name
  text ← or_raise disconnected env.literal
  stored ← store_message (appended env mb.id text)
  ignoring 0 (mailbox_message_count mb.id)
  pure (u32 mb.uid_validity, u32 stored.1)
