-- ===== src/Storage/History.antt =====
-- Histories of the mailbox and message operations of internal/storage, and what UIDs do along them.
pub mod Ascending
use ghostmail.Prelude.{
  ℕ, suc, ◌+◌, ◌≤◌, ◌<◌, Bool, true, false, Option, none, some, List, [], ◌∷◌, ◌++◌, ◌≡◌, ◌≢◌, refl,
  ◌⊎◌, inl, inr, arith, if◌then◌else◌, Bytes, ◌==◌, All, All-append, All-map,
}
use ghostmail.Result.{Error, no_rows, Result, ok, err}
use ghostmail.Sql.{Db, Sql, pure, ◌>>=◌, ◌>>◌}
use ghostmail.Sql.Gives.{
  Gives, Gives-pure, Gives-raise, Gives-query, Gives-exec, Gives-statement, Gives-bind,
  Gives-rollback, ReturnsIn,
}
use ghostmail.Sql.Keeps.{
  Keeps, HoldsAfter, HoldsAfter-guard, Keeps-exec, Keeps-statement, keeps_rules,
}
use ghostmail.Sql.Rows.{find, update, delete, All-update, All-delete}
use ghostmail.Storage.Schema.{Tables, Mailbox, Message}
use ghostmail.Storage.Mailboxes.{
  has_id, in_mailbox, take_uid, next_uid, append_mailbox, insert_mailbox, create_mailbox,
  delete_mailbox, delete_messages,
}
use ghostmail.Storage.Messages.{
  insert_message, store_message, update_flags, delete_message, relocate, move_message,
  delete_expired_messages,
}
use ghostmail.Storage.Uids.{UidsInRange, Allocated, next_uid-UidsInRange}
use ghostmail.Storage.Uids.Operations.{
  store_message-UidsInRange, move_message-UidsInRange, delete_message-UidsInRange,
  delete_expired_messages-UidsInRange, update_flags-UidsInRange, delete_mailbox-UidsInRange,
  create_mailbox-UidsInRange,
}

-- A call of one of the methods that write mailboxes or messages.
pub data Call : Type 0 where
  creates : Mailbox → Call
  drops : ℕ → Call
  stores : Message → Call
  moves : ℕ → ℕ → Call
  flags : ℕ → Bytes → Call
  deletes : ℕ → Call
  expires : ℕ → Call

unfoldable pub perform : Call → Sql Tables (Unit {0})
perform (creates b) = do create_mailbox b; pure tt
perform (drops id) = delete_mailbox id
perform (stores msg) = do store_message msg; pure tt
perform (moves id dest) = move_message id dest
perform (flags id text) = update_flags id text
perform (deletes id) = delete_message id
perform (expires now) = do delete_expired_messages now; pure tt

-- A call that fails ends only itself.
unfoldable pub run : List Call → Db Tables → Db Tables
run [] db = db
run (c ∷ cs) db = run cs (perform c db).1

pub run-Keeps :
    (P : Tables → Type 0) (step : (c : Call) → Keeps P (perform c)) (cs : List Call)
    (db : Db Tables)
    → P db.tables
    → P (run cs db).tables
unfolding run
run-Keeps P step [] db h = h
run-Keeps P step (c ∷ cs) db h = run-Keeps P step cs (perform c db).1 ((step c).at db h)

ruleset range_rules = (
  keeps_rules, store_message-UidsInRange, move_message-UidsInRange, delete_message-UidsInRange,
  delete_expired_messages-UidsInRange, update_flags-UidsInRange, delete_mailbox-UidsInRange,
  create_mailbox-UidsInRange,
)

perform-UidsInRange : (c : Call) → Keeps UidsInRange (perform c)
unfolding perform
perform-UidsInRange (creates b) = search range_rules
perform-UidsInRange _ = search range_rules

-- Whatever calls are made, and whichever statements the engine fails, every UID in use stays under
-- the next UID of its mailbox, and no two mailboxes share an id.
pub run-UidsInRange :
    (cs : List Call) (db : Db Tables) → UidsInRange db.tables → UidsInRange (run cs db).tables
run-UidsInRange = run-Keeps UidsInRange perform-UidsInRange
