-- ===== src/Webmail/Uids.antt =====
-- The webmail keeps the invariant of the UIDs, whatever the engine fails.
use ghostmail.Prelude.{ℕ, Option, none, some, Bytes}
use ghostmail.Sql.Keeps.{Keeps, HoldsAfter-guard, Keeps-exec, Keeps-statement, keeps_rules}
use ghostmail.Storage.Schema.{Tables, Alias, Mailbox, Message}
use ghostmail.Storage.Mailboxes.{get_mailbox, list_mailboxes}
use ghostmail.Storage.Messages.{get_message}
use ghostmail.Storage.Aliases.{append_alias, create_alias, delete_alias}
use ghostmail.Storage.SearchIndex.{delete_search_tokens}
use ghostmail.Storage.Uids.{UidsInRange}
use ghostmail.Storage.Uids.Operations.{
  store_message-UidsInRange, move_message-UidsInRange, delete_message-UidsInRange,
  update_flags-UidsInRange,
}
use ghostmail.Smtp.Session.Uids.{store_search_tokens-UidsInRange, enqueue_message-UidsInRange}
use ghostmail.Webmail.{json_error, user_owns_mailbox, require_mailbox}
use ghostmail.Webmail.Sessions.{WebSession, SessionStore, get_from_request}
use ghostmail.Webmail.Messages.{
  FlagsRequest, find_message, mark_read, check_owner, handle_get_message, handle_update_flags,
  handle_move_message, delete_for_good, discard, handle_delete_message,
}
use ghostmail.Webmail.Mailboxes.{Formats}
use ghostmail.Webmail.Login.{run_as, require_auth_api}
use ghostmail.Webmail.Requests.{
  Server, Request, lists_mailboxes, lists_messages, gets_message, sends_message, updates_flags,
  moves_message, deletes_message, searches, lists_aliases, creates_alias, deletes_alias, handle,
  serve,
}
use ghostmail.Webmail.Effects.{
  IsStable, answered, handle_send_message-Keeps, handle_search-Keeps, handle_list_mailboxes-Keeps,
  handle_list_messages-Keeps, handle_list_aliases-Keeps, handle_create_alias-Keeps,
  handle_delete_alias-Keeps,
}

create_alias-UidsInRange : (a : Alias) (now : ℕ) → Keeps UidsInRange (create_alias a now)
unfolding create_alias
create_alias-UidsInRange a now = Keeps-statement _ λ t v.
    let added : UidsInRange (append_alias a now t) = record {
      placed = v.placed;
      distinct = v.distinct;
    } in
    search (HoldsAfter-guard, added)

UidsInRange-IsStable : IsStable UidsInRange
unfolding delete_alias
UidsInRange-IsStable = record {
  stores = store_message-UidsInRange;
  indexes = store_search_tokens-UidsInRange;
  enqueues = enqueue_message-UidsInRange;
  adds_alias = create_alias-UidsInRange;
  drops_alias = λ id. Keeps-exec _ (λ t v. record { placed = v.placed; distinct = v.distinct });
}

delete_search_tokens-UidsInRange : (id : ℕ) → Keeps UidsInRange (delete_search_tokens id)
unfolding delete_search_tokens
delete_search_tokens-UidsInRange id =
    Keeps-exec _ (λ t v. record { placed = v.placed; distinct = v.distinct })

module _ {P : Tables → Type 0} where
  require_mailbox-Keeps : (user_id id : ℕ) → Keeps P (require_mailbox user_id id)
  unfolding require_mailbox user_owns_mailbox list_mailboxes json_error
  require_mailbox-Keeps user_id id = search keeps_rules depth 12

  find_message-Keeps : (id uid : ℕ) → Keeps P (find_message id uid)
  unfolding find_message get_message
  find_message-Keeps id uid = search keeps_rules depth 8

module _ (sess : WebSession) (id uid : ℕ) where
  mark_read-UidsInRange : (msg : Message) → Keeps UidsInRange (mark_read msg)
  unfolding mark_read
  mark_read-UidsInRange msg = search (keeps_rules, update_flags-UidsInRange) depth 8

  handle_get_message-UidsInRange :
      (env : Formats) → Keeps UidsInRange (handle_get_message env sess id uid)
  unfolding handle_get_message check_owner list_mailboxes json_error
  handle_get_message-UidsInRange env =
      search (keeps_rules, find_message-Keeps, mark_read-UidsInRange) depth 18

  handle_update_flags-UidsInRange :
      (body : Option FlagsRequest) → Keeps UidsInRange (handle_update_flags sess id uid body)
  unfolding handle_update_flags
  handle_update_flags-UidsInRange body =
      search (keeps_rules, require_mailbox-Keeps, find_message-Keeps, update_flags-UidsInRange)
        depth 14

  handle_move_message-UidsInRange :
      (body : Option Bytes) → Keeps UidsInRange (handle_move_message sess id uid body)
  unfolding handle_move_message get_mailbox
  handle_move_message-UidsInRange body =
      search (keeps_rules, require_mailbox-Keeps, find_message-Keeps, move_message-UidsInRange)
        depth 16

  delete_for_good-UidsInRange : (msg : Message) → Keeps UidsInRange (delete_for_good msg)
  unfolding delete_for_good
  delete_for_good-UidsInRange msg =
      search (keeps_rules, delete_search_tokens-UidsInRange, delete_message-UidsInRange) depth 8

  discard-UidsInRange :
      (msg : Message) (name : Bytes) (trash : Option Mailbox)
      → Keeps UidsInRange (discard msg id name trash)
  discard-UidsInRange msg name none = delete_for_good-UidsInRange msg
  discard-UidsInRange msg name (some trash) =
      search (keeps_rules, delete_for_good-UidsInRange, move_message-UidsInRange) depth 8

  handle_delete_message-UidsInRange : Keeps UidsInRange (handle_delete_message sess id uid)
  unfolding handle_delete_message list_mailboxes
  handle_delete_message-UidsInRange =
      search (keeps_rules, require_mailbox-Keeps, find_message-Keeps, discard-UidsInRange) depth 14

handle-UidsInRange :
    (server : Server) (req : Request) (sess : WebSession)
    → Keeps UidsInRange (handle server req sess)
unfolding handle
handle-UidsInRange server lists_mailboxes sess =
    answered _ (handle_list_mailboxes-Keeps server.formats sess)
handle-UidsInRange server (lists_messages name page limit) sess =
    answered _ (handle_list_messages-Keeps server.formats sess name page limit)
handle-UidsInRange server (gets_message id uid) sess =
    answered _ (handle_get_message-UidsInRange sess id uid server.formats)
handle-UidsInRange server (sends_message env body) sess =
    answered _ (handle_send_message-Keeps UidsInRange-IsStable env sess body)
handle-UidsInRange server (updates_flags id uid body) sess =
    answered _ (handle_update_flags-UidsInRange sess id uid body)
handle-UidsInRange server (moves_message id uid body) sess =
    handle_move_message-UidsInRange sess id uid body
handle-UidsInRange server (deletes_message id uid) sess =
    handle_delete_message-UidsInRange sess id uid
handle-UidsInRange server (searches body) sess =
    answered _ (handle_search-Keeps server.formats sess body)
handle-UidsInRange server lists_aliases sess =
    answered _ (handle_list_aliases-Keeps server.formats sess)
handle-UidsInRange server (creates_alias now drawn body) sess = answered _ (
    handle_create_alias-Keeps UidsInRange-IsStable sess server.formats.format_time server.generator
      server.default_domain now drawn body)
handle-UidsInRange server (deletes_alias id) sess =
    handle_delete_alias-Keeps UidsInRange-IsStable sess id

run_as-UidsInRange :
    (server : Server) (req : Request) (o : Option WebSession)
    → Keeps UidsInRange (run_as o (handle server req))
run_as-UidsInRange server req none = search keeps_rules
run_as-UidsInRange server req (some sess) = handle-UidsInRange server req sess

pub serve-UidsInRange :
    (server : Server) (now : ℕ) (cookie : Option Bytes) (ss : SessionStore) (req : Request)
    → Keeps UidsInRange (serve server now cookie ss req)
unfolding serve require_auth_api
serve-UidsInRange server now cookie ss req =
    run_as-UidsInRange server req (get_from_request now cookie ss)
