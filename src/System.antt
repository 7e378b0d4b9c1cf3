-- ===== src/System.antt =====
-- The servers over one store: deliveries of internal/smtp, commands of internal/imap, ticks of the
-- reaper of internal/expiry, accounts of internal/admin, and requests of internal/webmail, one after the
-- other.
use ghostmail.Prelude.{ℕ, Option, List, [], ◌∷◌, Bytes}
use ghostmail.Sql.{Db, Sql, pure, ◌>>◌}
use ghostmail.Sql.Keeps.{Keeps, Keeps-pure, Keeps-exec, Keeps-bind, Keeps-ignoring, keeps_rules}
use ghostmail.Sql.Rows.{All-update}
use ghostmail.Crypto.Primitives.{Primitives}
use ghostmail.Crypto.Service.{Registration}
use ghostmail.Storage.Schema.{Tables}
use ghostmail.Storage.Users.{get_user_by_id}
use ghostmail.Storage.Audit.{log_audit}
use ghostmail.Storage.Uids.{IsPlaced, UidsInRange}
use ghostmail.Storage.Uids.Operations.{delete_expired_messages-UidsInRange}
use ghostmail.Storage.Uids.Accounts.{create_user-UidsInRange, delete_user-UidsInRange}
use ghostmail.Smtp.Session.{DataEnv, receive, Session as SmtpSession}
use ghostmail.Smtp.Session.Uids.{receive-UidsInRange}
use ghostmail.Expiry.{
  Reaper, with_expiry, set_ttl_for_mailbox, apply_trash_ttl, apply_spam_ttl, apply_mailbox_ttls,
  sweep, vacuum, Tick, sweeps, vacuums, handle_tick,
}
use ghostmail.Admin.{Env as AdminEnv, handle_create_user, handle_delete_user}
use ghostmail.Webmail.Sessions.{SessionStore}
use ghostmail.Webmail.Requests.{Server, Request, serve}
use ghostmail.Webmail.Uids.{serve-UidsInRange}
use ghostmail.Imap.Session.{Session as ImapSession}
use ghostmail.Imap.Commands.{Command, perform, perform-UidsInRange}

-- What one of the servers does in one go. The sessions are any at all.
pub data Event : Type 0 where
  delivers : DataEnv → SmtpSession → Bytes → Event
  commands : Primitives → ImapSession → Command → Event
  ticks : Reaper → Tick → Event
  enrols : AdminEnv → Registration → Bytes → Bytes → Bytes → Event
  removes : ℕ → Option ℕ → Event
  browses : Server → ℕ → Option Bytes → SessionStore → Request → Event

pub act : Event → Sql Tables (Unit {0})
act (delivers env s text) = receive env s text
act (commands p s c) = perform p s c
act (ticks r tick) = handle_tick r tick
act (enrols env drawn username domain password) =
    handle_create_user env drawn username domain password >> pure tt
act (removes now id_text) = handle_delete_user now id_text
act (browses server now cookie ss req) = serve server now cookie ss req

-- Events in the order in which they reach the store; one that fails ends only itself.
pub run_events : List Event → Db Tables → Db Tables
run_events [] db = db
run_events (e ∷ es) db = run_events es (act e db).1

set_ttl_for_mailbox-UidsInRange :
    (now : ℕ) (name : Bytes) (ttl : ℕ) → Keeps UidsInRange (set_ttl_for_mailbox now name ttl)
unfolding set_ttl_for_mailbox
set_ttl_for_mailbox-UidsInRange now name ttl = Keeps-ignoring _ _ (
    Keeps-exec _ λ t v. record {
      placed =
          All-update (IsPlaced t.last_mailbox t.mailboxes) _ (with_expiry _) t.messages (λ m p. p)
            v.placed;
      distinct = v.distinct;
    })

handle_tick-UidsInRange : (r : Reaper) (tick : Tick) → Keeps UidsInRange (handle_tick r tick)
unfolding handle_tick sweep vacuum apply_mailbox_ttls apply_trash_ttl apply_spam_ttl
handle_tick-UidsInRange r (sweeps now trash_now spam_now) =
    search (keeps_rules, delete_expired_messages-UidsInRange, set_ttl_for_mailbox-UidsInRange) depth
      14
handle_tick-UidsInRange r vacuums = search keeps_rules

log_audit-UidsInRange :
    (actor action target : Bytes) (now : ℕ) → Keeps UidsInRange (log_audit actor action target now)
unfolding log_audit
log_audit-UidsInRange actor action target now =
    Keeps-exec _ (λ t v. record { placed = v.placed; distinct = v.distinct })

handle_create_user-UidsInRange :
    (env : AdminEnv) (drawn : Registration) (username domain password : Bytes)
    → Keeps UidsInRange (handle_create_user env drawn username domain password)
unfolding handle_create_user
handle_create_user-UidsInRange env drawn username domain password =
    search (keeps_rules, create_user-UidsInRange, log_audit-UidsInRange) depth 14

handle_delete_user-UidsInRange :
    (now : ℕ) (id_text : Option ℕ) → Keeps UidsInRange (handle_delete_user now id_text)
unfolding handle_delete_user get_user_by_id
handle_delete_user-UidsInRange now id_text =
    search (keeps_rules, delete_user-UidsInRange, log_audit-UidsInRange) depth 14

act-UidsInRange : (e : Event) → Keeps UidsInRange (act e)
unfolding act
act-UidsInRange (delivers env s text) = record { at = receive-UidsInRange env s text }
act-UidsInRange (commands p s c) = perform-UidsInRange p s c
act-UidsInRange (ticks r tick) = handle_tick-UidsInRange r tick
act-UidsInRange (enrols env drawn username domain password) =
    Keeps-bind _ _ (handle_create_user-UidsInRange env drawn username domain password)
      (λ id. Keeps-pure tt)
act-UidsInRange (removes now id_text) = handle_delete_user-UidsInRange now id_text
act-UidsInRange (browses server now cookie ss req) = serve-UidsInRange server now cookie ss req

-- From tables with the UIDs in range, any sequence of deliveries, IMAP commands of any sessions, ticks
-- of the reaper, creations and deletions of users through the panel and requests of the webmail with any
-- cookies and sessions, with any statements failed by the engine, leaves tables with the UIDs in range: every UID in use is less than the next UID of its
-- mailbox, and no two mailboxes share an id.
pub run_events-UidsInRange :
    (es : List Event) (db : Db Tables)
    → UidsInRange db.tables
    → UidsInRange (run_events es db).tables
unfolding run_events
run_events-UidsInRange [] db h = h
run_events-UidsInRange (e ∷ es) db h = run_events-UidsInRange es _ ((act-UidsInRange e).at db h)
