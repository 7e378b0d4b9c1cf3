-- ===== src/Expiry.antt =====
-- internal/expiry/reaper.go. The ticks of Run and what the clock reads are inputs.
pub mod Trash
pub mod Spared
pub mod Start
use ghostmail.Prelude.{
  ℕ, ◌^◌, Bool, true, false, ◌&&◌, Option, none, some, List, [], ◌∷◌, ◌==◌, equal, any, ltb,
  if◌then◌else◌, Bytes, codes,
}
use ghostmail.Sql.{Sql, pure, exec, query, ignoring, ◌>>=◌, ◌>>◌}
use ghostmail.Sql.Rows.{update}
use ghostmail.Storage.Schema.{Tables, Mailbox, Message, unix}
use ghostmail.Storage.Messages.{delete_expired_messages}
use ghostmail.Smtp.Message.{add_duration}

-- The fields that the sweeps read; a time.Duration is a word of 64 bits.
pub record Reaper : Type 0 where
  pub trash_ttl : ℕ
  pub spam_ttl : ℕ

-- ttl > 0
abbrev pub is_positive : ℕ → Bool
is_positive ttl = ltb 0 ttl && ltb ttl (2 ^ 63)

-- The count that DeleteExpiredMessages returns is only logged, and so is its error.
unfoldable pub sweep : ℕ → Sql Tables (Unit {0})
sweep now = ignoring tt (do delete_expired_messages (unix now); pure tt)

abbrev pub is_named : Bytes → ℕ → Mailbox → Bool
is_named name id b = (b.id == id) && equal b.name name

-- mailbox_id IN (SELECT id FROM mailboxes WHERE name = ?)
abbrev pub lies_in : Bytes → Tables → Message → Bool
lies_in name t m = any (is_named name m.mailbox_id) t.mailboxes

abbrev pub never_expires : Message → Bool
never_expires m = elim m.expires_at [ none ↦ true | some t ↦ false ]

abbrev pub with_expiry : ℕ → Message → Message
with_expiry at m = record m { expires_at = some at }

abbrev pub give_expiry : Bytes → ℕ → Tables → Tables
give_expiry name at t = record t {
  messages = update (λ m. never_expires m && lies_in name t m) (with_expiry at) t.messages;
}

-- setTTLForMailbox
unfoldable pub set_ttl_for_mailbox : ℕ → Bytes → ℕ → Sql Tables (Unit {0})
set_ttl_for_mailbox now name ttl =
    ignoring tt (exec (give_expiry name (unix (add_duration now ttl))))

unfoldable pub apply_trash_ttl : Reaper → ℕ → Sql Tables (Unit {0})
apply_trash_ttl r now =
    if is_positive r.trash_ttl then set_ttl_for_mailbox now (codes "Trash") r.trash_ttl else pure tt

unfoldable pub apply_spam_ttl : Reaper → ℕ → Sql Tables (Unit {0})
apply_spam_ttl r now =
    if is_positive r.spam_ttl then set_ttl_for_mailbox now (codes "Spam") r.spam_ttl else pure tt

-- applyMailboxTTLs; the clock is read once for each mailbox name.
unfoldable pub apply_mailbox_ttls : Reaper → ℕ → ℕ → Sql Tables (Unit {0})
apply_mailbox_ttls r trash_now spam_now = do apply_trash_ttl r trash_now; apply_spam_ttl r spam_now

-- VACUUM changes no table.
unfoldable pub vacuum : Sql Tables (Unit {0})
vacuum = ignoring tt (query (λ t. tt))

-- A tick of one of the two tickers, with the clock readings of its handler.
pub data Tick : Type 0 where
  sweeps : ℕ → ℕ → ℕ → Tick
  vacuums : Tick

unfoldable pub handle_tick : Reaper → Tick → Sql Tables (Unit {0})
handle_tick r (sweeps now trash_now spam_now) = do
  sweep now
  apply_mailbox_ttls r trash_now spam_now
handle_tick r vacuums = vacuum

unfoldable pub handle_ticks : Reaper → List Tick → Sql Tables (Unit {0})
handle_ticks r [] = pure tt
handle_ticks r (tick ∷ ticks) = do handle_tick r tick; handle_ticks r ticks

-- Run, until its context is done.
unfoldable pub run : Reaper → ℕ → ℕ → List Tick → Sql Tables (Unit {0})
run r trash_now spam_now ticks = do apply_mailbox_ttls r trash_now spam_now; handle_ticks r ticks
