-- ===== src/Imap/Moving.antt =====
-- EXPUNGE, COPY and MOVE of internal/imap/fetch.go.
use ghostmail.Prelude.{
  ℕ, suc, ◌+◌, ◌-◌, ◌%◌, ◌^◌, Bool, true, false, ◌&&◌, Option, none, some, List, [], ◌∷◌, reverse,
  leb, if◌then◌else◌, Bytes, codes,
}
use ghostmail.Result.{not_selected, auth_required, no_mailbox, disconnected}
use ghostmail.Sql.{Sql, pure, raise, or_raise, ignoring, ◌>>=◌, ◌>>◌}
use ghostmail.Storage.Schema.{Tables, Message}
use ghostmail.Storage.Mailboxes.{get_mailbox, mailbox_message_count}
use ghostmail.Storage.Messages.{list_messages, store_message, delete_message}
use ghostmail.Storage.Flags.{has_flag}
use ghostmail.Imap.Session.{Session, u32}
use ghostmail.Imap.Fetch.{NumSet, resolve_num_set}

-- uids == nil, or the set has the message's.
abbrev pub in_uids : Option (ℕ → Bool) → Message → Bool
in_uids none m = true
in_uids (some contains) m = contains (u32 m.uid)

abbrev pub is_deleted : Message → Bool
is_deleted m = has_flag m.flags (codes "\\Deleted")

-- uint32(i + 1 - deleted): the int may be negative.
abbrev pub expunge_number : ℕ → ℕ → ℕ
expunge_number i deleted = (2 ^ 32 + (i + 1) - deleted) % 2 ^ 32

-- Messages with their positions, from position i on.
unfoldable pub positions_from : ℕ → List Message → List (ℕ × Message)
positions_from i [] = []
positions_from i (m ∷ msgs) = (i, m) ∷ positions_from (suc i) msgs

-- The loop from the last message to the first; the sequence numbers that it writes.
unfoldable pub expunge_each :
    Option (ℕ → Bool) → (ℕ → Bool) → ℕ → List (ℕ × Message) → Sql Tables (List ℕ)
expunge_each uids writes deleted [] = pure []
expunge_each uids writes deleted (entry ∷ entries) =
    elim (is_deleted entry.1 && in_uids uids entry.1) [
      | false ↦ expunge_each uids writes deleted entries
      | true ↦ do
        delete_message entry.1.id
        let seq = expunge_number entry.0 deleted
        (if writes seq then pure tt else raise disconnected)
        rest ← expunge_each uids writes (suc deleted) entries
        pure (seq ∷ rest)
    ]

unfoldable pub expunge : Session → Option (ℕ → Bool) → (ℕ → Bool) → Sql Tables (List ℕ)
expunge s uids writes = do
  mb ← or_raise not_selected s.selected_mailbox
  msgs ← list_messages mb.id
  expunge_each uids writes 0 (reverse (positions_from 0 msgs))

-- The new row: all columns but the id, the mailbox and the UID.
abbrev pub copied : ℕ → Message → Message
copied mailbox_id m = record m { id = 0; mailbox_id = mailbox_id; uid = 0 }

-- The UIDs of the source and of the destination, side by side.
unfoldable pub copy_each : ℕ → List (ℕ × Message) → Sql Tables (List (ℕ × ℕ))
copy_each mailbox_id [] = pure []
copy_each mailbox_id (entry ∷ matching) = do
  stored ← store_message (copied mailbox_id entry.1)
  rest ← copy_each mailbox_id matching
  pure ((u32 entry.1.uid, u32 stored.1) ∷ rest)

pub record CopyData : Type 0 where
  pub uid_validity : ℕ
  pub uids : List (ℕ × ℕ)

-- What Copy and Move take from outside: the order in which the runtime goes through a map.
abbrev pub Order : Type 0
Order = List (ℕ × Message) → List (ℕ × Message)

unfoldable pub copy : Session → Order → NumSet → Bytes → Sql Tables CopyData
copy s order set dest = do
  mb ← or_raise not_selected s.selected_mailbox
  user ← or_raise auth_required s.user
  found ← get_mailbox user.id dest
  dest_mb ← or_raise no_mailbox found
  msgs ← list_messages mb.id
  uids ← copy_each dest_mb.id (order (resolve_num_set msgs set))
  ignoring 0 (mailbox_message_count dest_mb.id)
  pure (record { uid_validity = u32 dest_mb.uid_validity; uids = uids })

-- sort.Slice by descending sequence number.
unfoldable pub insert_descending : ℕ × Message → List (ℕ × Message) → List (ℕ × Message)
insert_descending x [] = x ∷ []
insert_descending x (y ∷ ys) =
    let rest = insert_descending x ys in if leb y.0 x.0 then x ∷ y ∷ ys else y ∷ rest

unfoldable pub descending : List (ℕ × Message) → List (ℕ × Message)
unfolding insert_descending
descending [] = []
descending (x ∷ xs) = insert_descending x (descending xs)

unfoldable pub remove_each : (ℕ → Bool) → List (ℕ × Message) → Sql Tables (List ℕ)
remove_each writes [] = pure []
remove_each writes (entry ∷ entries) = do
  delete_message entry.1.id
  (if writes entry.0 then pure tt else raise disconnected)
  rest ← remove_each writes entries
  pure (entry.0 ∷ rest)

-- The second half of Move: the messages that the set names by then are removed.
unfoldable pub expunge_source : Session → NumSet → (ℕ → Bool) → Sql Tables (List ℕ)
expunge_source s set writes = do
  mb ← or_raise not_selected s.selected_mailbox
  msgs ← list_messages mb.id
  remove_each writes (descending (resolve_num_set msgs set))

-- `accepts` is whether the client takes the COPYUID response. The result has the sequence numbers
-- that the responses name.
unfoldable pub move :
    Session → Order → NumSet → Bytes → Bool → (ℕ → Bool) → Sql Tables (CopyData × List ℕ)
move s order set dest accepts writes = do
  copy_data ← copy s order set dest
  (if accepts then pure tt else raise disconnected)
  numbers ← expunge_source s set writes
  pure (copy_data, numbers)
