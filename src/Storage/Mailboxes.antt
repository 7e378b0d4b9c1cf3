-- ===== src/Storage/Mailboxes.antt =====
-- internal/storage/mailboxes.go
use ghostmail.Prelude.{
  ℕ, suc, ◌+◌, Bool, ◌&&◌, not, Option, List, [], ◌∷◌, ◌++◌, ◌==◌, equal, any, if◌then◌else◌, Bytes,
}
use ghostmail.Result.{constraint, no_rows, Result, ok, err}
use ghostmail.Sql.{Sql, pure, or_raise, statement, query, exec, rollback_on_error, ◌>>=◌, ◌>>◌}
use ghostmail.Sql.Rows.{find, select, update, delete, count, order_by_text}
use ghostmail.Storage.Schema.{Tables, Mailbox, Message}

abbrev pub has_id : ℕ → Mailbox → Bool
has_id id b = b.id == id

abbrev pub in_mailbox : ℕ → Message → Bool
in_mailbox id m = m.mailbox_id == id

unfoldable pub get_mailbox : ℕ → Bytes → Sql Tables (Option Mailbox)
get_mailbox user_id name =
    query (λ t. find (λ b. (b.user_id == user_id) && equal b.name name) t.mailboxes)

-- ORDER BY name
unfoldable pub list_mailboxes : ℕ → Sql Tables (List Mailbox)
list_mailboxes user_id =
    query λ t. order_by_text (λ b. b.name) (select (λ b. b.user_id == user_id) t.mailboxes)

-- The new row, under the next id.
abbrev pub append_mailbox : Mailbox → Tables → Tables
append_mailbox b t = record t {
  mailboxes = t.mailboxes ++ record b { id = suc t.last_mailbox } ∷ [];
  last_mailbox = suc t.last_mailbox;
}

-- INSERT INTO mailboxes, with its UNIQUE(user_id, name) and its reference to users.
unfoldable pub insert_mailbox : Mailbox → Tables → Result (ℕ × Tables)
insert_mailbox b t =
    if any (λ c. (c.user_id == b.user_id) && equal c.name b.name) t.mailboxes
    then err constraint
    else if t.foreign_keys && not (any (λ u. u.id == b.user_id) t.users)
    then err constraint
    else ok (suc t.last_mailbox, append_mailbox b t)

-- The id is the one that CreateMailbox writes into its argument.
unfoldable pub create_mailbox : Mailbox → Sql Tables ℕ
create_mailbox b = statement (insert_mailbox b)

-- DELETE FROM messages, and from search_tokens where the engine cascades.
unfoldable pub delete_messages : (Message → Bool) → Tables → Tables
delete_messages p t = record t {
  messages = delete p t.messages;
  search_tokens =
      if t.foreign_keys
      then delete (λ k. any (λ m. p m && (m.id == k.message_id)) t.messages) t.search_tokens
      else t.search_tokens;
}

unfoldable pub delete_mailbox : ℕ → Sql Tables (Unit {0})
delete_mailbox id = exec λ t.
    let t' = record t { mailboxes = delete (has_id id) t.mailboxes } in
    if t.foreign_keys then delete_messages (in_mailbox id) t' else t'

abbrev pub take_uid : Mailbox → Mailbox
take_uid b = record b { uid_next = b.uid_next + 1 }

unfoldable pub next_uid : ℕ → Sql Tables ℕ
next_uid mailbox_id = rollback_on_error (do
  query (λ t. tt)
  row ← query (λ t. find (has_id mailbox_id) t.mailboxes)
  b ← or_raise no_rows row
  exec (λ t. record t { mailboxes = update (has_id mailbox_id) take_uid t.mailboxes })
  query (λ t. tt)
  pure b.uid_next)

unfoldable pub mailbox_message_count : ℕ → Sql Tables ℕ
mailbox_message_count mailbox_id = query (λ t. count (in_mailbox mailbox_id) t.messages)
