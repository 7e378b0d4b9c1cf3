-- ===== src/Webmail/Isolation/Requests.antt =====
-- No request of the webmail changes a message of another user than its session's.
use ghostmail.Prelude.{
  ℕ, suc, Option, some, List, Bytes, ◌≡◌, ◌≢◌, refl, All, Option-cases, inl, inr,
}
use ghostmail.Sql.{raise, Db}
use ghostmail.Sql.Keeps.{Keeps, HoldsAfter-guard, Keeps-exec, Keeps-statement}
use ghostmail.Storage.Schema.{Tables, Alias, Message}
use ghostmail.Storage.Aliases.{append_alias, create_alias, delete_alias}
use ghostmail.Storage.Kept.{IsKept}
use ghostmail.Webmail.Sessions.{WebSession, SessionStore, get_from_request}
use ghostmail.Webmail.Login.{require_auth_api}
use ghostmail.Webmail.Requests.{
  Server, Request, lists_mailboxes, lists_messages, gets_message, sends_message, updates_flags,
  moves_message, deletes_message, searches, lists_aliases, creates_alias, deletes_alias, handle,
  serve,
}
use ghostmail.Webmail.Effects.{
  IsStable, answered, handle_send_message-Keeps, handle_search-Keeps, handle_list_mailboxes-Keeps,
  handle_list_messages-Keeps, handle_list_aliases-Keeps, handle_create_alias-Keeps,
  handle_delete_alias-Keeps,
}
use ghostmail.Webmail.Isolation.{IsForeign}
use ghostmail.Webmail.Isolation.Operations.{
  store_message-IsForeign, store_search_tokens-IsForeign, enqueue_message-IsForeign,
}
use ghostmail.Webmail.Isolation.Handlers.{
  handle_get_message-IsForeign, handle_update_flags-IsForeign, handle_move_message-IsForeign,
  handle_delete_message-IsForeign,
}

module _ (m : Message) (user_id : ℕ) where
  same_messages :
      (t : Tables) (aliases : List Alias) (last : ℕ)
      → IsForeign m user_id t
      → IsForeign m user_id (record t { aliases = aliases; last_alias = last })
  same_messages t aliases last v = record {
    kept = record { there = v.kept.there; alone = v.kept.alone; known = v.kept.known };
    foreign = v.foreign;
  }

  create_alias-IsForeign : (a : Alias) (now : ℕ) → Keeps (IsForeign m user_id) (create_alias a now)
  unfolding create_alias
  create_alias-IsForeign a now = Keeps-statement _ λ t v.
      let added = same_messages t (append_alias a now t).aliases (suc t.last_alias) v in
      search (HoldsAfter-guard, added)

  IsForeign-IsStable : IsStable (IsForeign m user_id)
  unfolding delete_alias
  IsForeign-IsStable = record {
    stores = store_message-IsForeign m user_id;
    indexes = store_search_tokens-IsForeign m user_id;
    enqueues = enqueue_message-IsForeign m user_id;
    adds_alias = create_alias-IsForeign;
    drops_alias = λ id. Keeps-exec _ (λ t v. same_messages t _ t.last_alias v);
  }

  handle-IsForeign :
      (server : Server) (req : Request) (sess : WebSession)
      → sess.user_id ≡ user_id
      → Keeps (IsForeign m user_id) (handle server req sess)
  unfolding handle
  handle-IsForeign server lists_mailboxes sess own =
      answered _ (handle_list_mailboxes-Keeps server.formats sess)
  handle-IsForeign server (lists_messages name page limit) sess own =
      answered _ (handle_list_messages-Keeps server.formats sess name page limit)
  handle-IsForeign server (gets_message id uid) sess own =
      answered _ (handle_get_message-IsForeign m user_id sess own id uid server.formats)
  handle-IsForeign server (sends_message env body) sess own =
      answered _ (handle_send_message-Keeps IsForeign-IsStable env sess body)
  handle-IsForeign server (updates_flags id uid body) sess own =
      answered _ (handle_update_flags-IsForeign m user_id sess own id uid body)
  handle-IsForeign server (moves_message id uid body) sess own =
      handle_move_message-IsForeign m user_id sess own id uid body
  handle-IsForeign server (deletes_message id uid) sess own =
      handle_delete_message-IsForeign m user_id sess own id uid
  handle-IsForeign server (searches body) sess own =
      answered _ (handle_search-Keeps server.formats sess body)
  handle-IsForeign server lists_aliases sess own =
      answered _ (handle_list_aliases-Keeps server.formats sess)
  handle-IsForeign server (creates_alias now drawn body) sess own = answered _ (
      handle_create_alias-Keeps IsForeign-IsStable sess server.formats.format_time server.generator
        server.default_domain now drawn body)
  handle-IsForeign server (deletes_alias id) sess own =
      handle_delete_alias-Keeps IsForeign-IsStable sess id

-- A message whose id is its own is a row of the table, unchanged, after every request of the webmail
-- whose cookie has no session, or the session of a user who does not own the message's mailbox: reading,
-- flags, moving, deleting, sending, searching and aliases, whether they succeed or not and whichever
-- statements the engine fails.
pub serve-IsKept :
    (server : Server) (now : ℕ) (cookie : Option Bytes) (ss : SessionStore) (req : Request)
    (m : Message) (db : Db Tables)
    → IsKept m db.tables
    → ((sess : WebSession)
        → get_from_request now cookie ss ≡ some sess
        → All (λ b. b.id ≡ m.mailbox_id → b.user_id ≢ sess.user_id) db.tables.mailboxes)
    → IsKept m (serve server now cookie ss req db).1.tables
unfolding serve require_auth_api
serve-IsKept server now cookie ss req m db kept away =
    elim (Option-cases (get_from_request now cookie ss)) [
      | inl e ↦ rw e (unfold raise in kept)
      | inr (sess, e) ↦
          rw e
            ((handle-IsForeign m sess.user_id server req sess refl).at db
              (record { kept = kept; foreign = away sess e })).kept
    ]
