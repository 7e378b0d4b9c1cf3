-- ===== src/Webmail.antt =====
-- internal/webmail: the sessions, the API handlers and the sending of mail. The router, the templates
-- and JSON are the libraries'; a request arrives with its path values and its decoded body.
pub mod Sessions
pub mod Headers
pub mod Mailboxes
pub mod Messages
pub mod Compose
pub mod Send
pub mod Search
pub mod Aliases
pub mod Login
pub mod Requests
pub mod Effects
pub mod Uids
pub mod Own
pub mod Owned
pub mod Isolation
use ghostmail.Prelude.{ℕ, Bool, true, false, ◌==◌, any, if◌then◌else◌, Bytes, codes, []}
use ghostmail.Result.{refused}
use ghostmail.Sql.{Sql, pure, raise, ignoring, ◌>>=◌}
use ghostmail.Storage.Schema.{Tables}
use ghostmail.Storage.Mailboxes.{list_mailboxes}

-- jsonError
unfoldable pub json_error : {A : Type 0} → Bytes → ℕ → Sql Tables A
json_error message status = raise (refused status message)

-- The loop over the user's mailboxes; a mailbox list that fails has none.
unfoldable pub user_owns_mailbox : ℕ → ℕ → Sql Tables Bool
user_owns_mailbox user_id mailbox_id = do
  mailboxes ← ignoring [] (list_mailboxes user_id)
  pure (any (λ mb. mb.id == mailbox_id) mailboxes)

unfoldable pub require_mailbox : ℕ → ℕ → Sql Tables (Unit {0})
require_mailbox user_id mailbox_id = do
  owns ← user_owns_mailbox user_id mailbox_id
  if owns then pure tt else json_error (codes "mailbox not found") 404
