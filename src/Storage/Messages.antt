-- ===== src/Storage/Messages.antt =====
-- internal/storage/messages.go
use ghostmail.Prelude.{
  ℕ, suc, Bool, false, ◌&&◌, ◌||◌, not, Option, none, some, List, [], ◌∷◌, ◌++◌, reverse, ◌==◌, leb,
  equal, any, take, drop, if◌then◌else◌, Bytes, codes,
}
use ghostmail.Result.{constraint, Result, ok, err}
use ghostmail.Text.{contains, to_lower}
use ghostmail.Sql.{Sql, pure, statement, query, exec, ◌>>=◌}
use ghostmail.Sql.Rows.{find, select, update, count, order_by}
use ghostmail.Storage.Schema.{Tables, Message}
use ghostmail.Storage.Mailboxes.{in_mailbox, has_id, next_uid, delete_messages}

abbrev pub has_uid : ℕ → ℕ → Message → Bool
has_uid mailbox_id uid m = (m.mailbox_id == mailbox_id) && (m.uid == uid)

-- The new row, under the next id.
abbrev pub append_message : Message → Tables → Tables
append_message msg t = record t {
  messages = t.messages ++ record msg { id = suc t.last_message } ∷ [];
  last_message = suc t.last_message;
}

-- INSERT INTO messages, with its UNIQUE(mailbox_id, uid) and its reference to mailboxes.
unfoldable pub insert_message : Message → Tables → Result (ℕ × Tables)
insert_message msg t =
    if any (has_uid msg.mailbox_id msg.uid) t.messages
    then err constraint
    else if t.foreign_keys && not (any (has_id msg.mailbox_id) t.mailboxes)
    then err constraint
    else ok (suc t.last_message, append_message msg t)

-- The id and the UID that StoreMessage writes into its argument.
unfoldable pub store_message : Message → Sql Tables (ℕ × ℕ)
store_message msg = do
  uid ← next_uid msg.mailbox_id
  id ← statement (insert_message (record msg { uid = uid }))
  pure (id, uid)

unfoldable pub get_message : ℕ → ℕ → Sql Tables (Option Message)
get_message mailbox_id uid = query (λ t. find (has_uid mailbox_id uid) t.messages)

-- ORDER BY uid
unfoldable pub list_messages : ℕ → Sql Tables (List Message)
list_messages mailbox_id =
    query (λ t. order_by (λ m. m.uid) (select (in_mailbox mailbox_id) t.messages))

abbrev pub has_message_id : ℕ → Message → Bool
has_message_id id m = m.id == id

abbrev pub with_flags : Bytes → Message → Message
with_flags flags m = record m { flags = flags }

unfoldable pub update_flags : ℕ → Bytes → Sql Tables (Unit {0})
update_flags message_id flags =
    exec
      λ t. record t { messages = update (has_message_id message_id) (with_flags flags) t.messages }

unfoldable pub delete_message : ℕ → Sql Tables (Unit {0})
delete_message id = exec (delete_messages (has_message_id id))

-- expires_at IS NOT NULL AND expires_at <= now
unfoldable pub is_expired : ℕ → Message → Bool
is_expired now m = elim m.expires_at [ none ↦ false | some t ↦ leb t now ]

-- The number of rows deleted.
unfoldable pub delete_expired_messages : ℕ → Sql Tables ℕ
delete_expired_messages now =
    statement λ t. ok (count (is_expired now) t.messages, delete_messages (is_expired now) t)

-- ORDER BY uid DESC LIMIT limit OFFSET offset
unfoldable pub list_messages_paginated : ℕ → ℕ → ℕ → Sql Tables (List Message)
list_messages_paginated mailbox_id limit offset = query λ t.
    take limit
      (drop offset (reverse (order_by (λ m. m.uid) (select (in_mailbox mailbox_id) t.messages))))

-- flags NOT LIKE '%\Seen%' OR flags = ''; LIKE does not tell cases apart.
unfoldable pub is_unread : Message → Bool
is_unread m = not (contains (to_lower m.flags) (codes "\\seen")) || equal m.flags []

unfoldable pub mailbox_unread_count : ℕ → Sql Tables ℕ
mailbox_unread_count mailbox_id =
    query λ t. count (λ m. in_mailbox mailbox_id m && is_unread m) t.messages

abbrev pub move_to : ℕ → ℕ → Message → Message
move_to mailbox_id uid m = record m { mailbox_id = mailbox_id; uid = uid }

abbrev pub move_row : ℕ → ℕ → ℕ → Tables → Tables
move_row message_id dest uid t = record t {
  messages = update (has_message_id message_id) (move_to dest uid) t.messages;
}

-- UPDATE messages SET mailbox_id, uid WHERE id, with the table's UNIQUE and its reference.
unfoldable pub relocate : ℕ → ℕ → ℕ → Tables → Result (Unit {0} × Tables)
relocate message_id dest uid t =
    if any (has_message_id message_id) t.messages
      && (any (λ m. has_uid dest uid m && not (m.id == message_id)) t.messages
          || (t.foreign_keys && not (any (has_id dest) t.mailboxes)))
    then err constraint
    else ok (tt, move_row message_id dest uid t)

unfoldable pub move_message : ℕ → ℕ → Sql Tables (Unit {0})
move_message message_id dest = do uid ← next_uid dest; statement (relocate message_id dest uid)

unfoldable pub get_message_by_id : ℕ → Sql Tables (Option Message)
get_message_by_id id = query (λ t. find (has_message_id id) t.messages)
