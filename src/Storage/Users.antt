-- ===== src/Storage/Users.antt =====
-- internal/storage/users.go
pub mod Creation
use ghostmail.Prelude.{
  ℕ, suc, ◌+◌, ◌%◌, ◌^◌, Bool, true, false, ◌&&◌, Option, none, some, List, [], ◌∷◌, ◌++◌, map,
  ◌==◌, equal, any, if◌then◌else◌, Bytes, codes, ◌≡◌, refl,
}
use ghostmail.Result.{Error, constraint, Result, ok, err}
use ghostmail.Sql.{Sql, Db, pure, statement, query, exec, rollback_on_error, settle, ◌>>=◌, ◌>>◌}
use ghostmail.Sql.Rows.{find, select, delete, count, order_by_text}
use ghostmail.Storage.Schema.{Tables, User, Mailbox, unix}
use ghostmail.Storage.Mailboxes.{insert_mailbox, delete_messages}

abbrev pub is_named : Bytes → Bytes → User → Bool
is_named username domain u = equal u.username username && equal u.domain domain

abbrev pub append_user : User → ℕ → Tables → Tables
append_user u now t = record t {
  users =
      t.users
      ++ record u {
        id = suc t.last_user;
        pgp_public_key = [];
        pgp_private_key_enc = [];
        created_at = unix now;
        updated_at = unix now;
      }
        ∷ [];
  last_user = suc t.last_user;
}

-- INSERT INTO users, with its UNIQUE(username, domain); it leaves the PGP columns NULL.
unfoldable pub insert_user : User → ℕ → Tables → Result (ℕ × Tables)
insert_user u now t =
    if any (is_named u.username u.domain) t.users
    then err constraint
    else ok (suc t.last_user, append_user u now t)

-- The names and uses of defaultMailboxes.
unfoldable pub default_mailboxes : List (Bytes × Bytes)
default_mailboxes =
    (codes "INBOX", [])
    ∷ (codes "Sent", codes "\\Sent")
    ∷ (codes "Drafts", codes "\\Drafts")
    ∷ (codes "Trash", codes "\\Trash")
    ∷ (codes "Spam", codes "\\Junk")
    ∷ []

abbrev pub default_mailbox : ℕ → ℕ → Bytes × Bytes → Mailbox
default_mailbox user_id now (name, special_use) = record {
  id = 0;
  user_id = user_id;
  name = name;
  uid_validity = unix now % 2 ^ 31;
  uid_next = 1;
  subscribed = true;
  special_use = special_use;
}

-- The loop over the default mailboxes; `now & 0x7FFFFFFF` is the remainder by 2 ^ 31.
unfoldable pub create_mailboxes : ℕ → ℕ → List (Bytes × Bytes) → Sql Tables (Unit {0})
create_mailboxes user_id now [] = pure tt
create_mailboxes user_id now (mb ∷ mbs) = do
  statement (insert_mailbox (default_mailbox user_id now mb))
  create_mailboxes user_id now mbs

-- The id is the one that CreateUser writes into its argument.
unfoldable pub create_user : User → ℕ → Sql Tables ℕ
create_user u now = rollback_on_error (do
  query (λ t. tt)
  user_id ← statement (insert_user u now)
  create_mailboxes user_id now default_mailboxes
  query (λ t. tt)
  pure user_id)

unfoldable pub get_user : Bytes → Bytes → Sql Tables (Option User)
get_user username domain = query (λ t. find (is_named username domain) t.users)

unfoldable pub get_user_by_id : ℕ → Sql Tables (Option User)
get_user_by_id id = query (λ t. find (λ u. u.id == id) t.users)

-- The rows that the engine deletes with a user where it cascades.
abbrev pub cascade_user : ℕ → Tables → Tables
cascade_user id t =
    let gone = select (λ (b : Mailbox). b.user_id == id) t.mailboxes in
    let t' = delete_messages (λ m. any (λ b. m.mailbox_id == b.id) gone) t in
    record t' {
      mailboxes = delete (λ b. b.user_id == id) t.mailboxes;
      aliases = delete (λ a. a.user_id == id) t.aliases;
      pgp_keyring = delete (λ k. k.user_id == id) t.pgp_keyring;
    }

-- The columns that ListUsers asks for.
abbrev listed_user : User → User
listed_user u = record u {
  password_hash = [];
  public_key = [];
  wrapped_private_key = [];
  key_nonce = [];
  key_params = [];
  pgp_public_key = [];
  pgp_private_key_enc = [];
  search_key = [];
}

-- ORDER BY username
unfoldable pub list_users : Sql Tables (List User)
list_users = query (λ t. map listed_user (order_by_text (λ u. u.username) t.users))

unfoldable pub delete_user : ℕ → Sql Tables (Unit {0})
delete_user id = exec λ t.
    let t' = if t.foreign_keys then cascade_user id t else t in
    record t' { users = delete (λ u. u.id == id) t.users }

unfoldable pub user_count : Sql Tables ℕ
user_count = query (λ t. count (λ u. true) t.users)
