-- ===== src/Webmail/Requests.antt =====
-- The routes of internal/webmail/webmail.go that need a session, over one store.
use ghostmail.Prelude.{ℕ, Option, Bytes}
use ghostmail.Sql.{Sql, pure, ◌>>◌}
use ghostmail.Storage.Schema.{Tables}
use ghostmail.Generator.{Generator}
use ghostmail.Webmail.Sessions.{WebSession, SessionStore}
use ghostmail.Webmail.Mailboxes.{Formats, handle_list_mailboxes, handle_list_messages}
use ghostmail.Webmail.Messages.{
  FlagsRequest, handle_get_message, handle_update_flags, handle_move_message, handle_delete_message,
}
use ghostmail.Webmail.Compose.{ComposeRequest}
use ghostmail.Webmail.Send.{SendEnv, handle_send_message}
use ghostmail.Webmail.Search.{SearchRequest, handle_search}
use ghostmail.Webmail.Aliases.{handle_list_aliases, handle_create_alias, handle_delete_alias}
use ghostmail.Webmail.Login.{require_auth_api}

-- What the handlers of one server share.
pub record Server : Type 0 where
  pub formats : Formats
  pub generator : Generator
  pub default_domain : Bytes

-- The routes of Register, in its order, each with its path values and its body.
pub data Request : Type 0 where
  lists_mailboxes : Request
  lists_messages : Bytes → ℕ → ℕ → Request
  gets_message : ℕ → ℕ → Request
  sends_message : SendEnv → Option ComposeRequest → Request
  updates_flags : ℕ → ℕ → Option FlagsRequest → Request
  moves_message : ℕ → ℕ → Option Bytes → Request
  deletes_message : ℕ → ℕ → Request
  searches : Option SearchRequest → Request
  lists_aliases : Request
  creates_alias : ℕ → Bytes → Option (Bytes × Bytes) → Request
  deletes_alias : ℕ → Request

module _ (server : Server) where
  -- The reply is not looked at here.
  unfoldable pub handle : Request → WebSession → Sql Tables (Unit {0})
  handle lists_mailboxes sess = handle_list_mailboxes sess >> pure tt
  handle (lists_messages name page limit) sess =
      handle_list_messages server.formats sess name page limit >> pure tt
  handle (gets_message id uid) sess = handle_get_message server.formats sess id uid >> pure tt
  handle (sends_message env body) sess = handle_send_message env sess body >> pure tt
  handle (updates_flags id uid body) sess = handle_update_flags sess id uid body >> pure tt
  handle (moves_message id uid body) sess = handle_move_message sess id uid body
  handle (deletes_message id uid) sess = handle_delete_message sess id uid
  handle (searches body) sess = handle_search server.formats sess body >> pure tt
  handle lists_aliases sess = handle_list_aliases server.formats.format_time sess >> pure tt
  handle (creates_alias now drawn body) sess =
      handle_create_alias server.formats.format_time server.generator server.default_domain now
        drawn sess body
      >> pure tt
  handle (deletes_alias id) sess = handle_delete_alias sess id

  -- A request with its cookie.
  unfoldable pub serve : ℕ → Option Bytes → SessionStore → Request → Sql Tables (Unit {0})
  serve now cookie ss req = require_auth_api now cookie ss (handle req)
