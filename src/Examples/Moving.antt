-- ===== src/Examples/Moving.antt =====
-- The theorem on what a MOVE takes up, at the data of the parent module.
use ghostmail.Prelude.{true, some, [], ◌∷◌, ◌==◌, equal, codes, ◌⊎◌, inl, refl, arith}
use ghostmail.Sql.{healthy}
use ghostmail.Sql.Rows.{find}
use ghostmail.Storage.Schema.{Tables, Mailbox}
use ghostmail.Storage.Kept.{IsKept}
use ghostmail.Imap.Session.{Session, new_session}
use ghostmail.Imap.Fetch.{NumSet, seq_set}
use ghostmail.Imap.Moving.{move}
use ghostmail.Imap.Copied.{HasCopy}
use ghostmail.Imap.Arrival.{move-HasCopy}
use ghostmail.Examples.{alice, inbox, letter, tables}

abbrev archive : Mailbox
archive = record inbox { id = 2; name = codes "Archive" }

abbrev with_archive : Tables
with_archive = record tables {
  mailboxes = inbox ∷ archive ∷ [];
  messages = letter ∷ [];
  last_message = 1;
}

abbrev on_inbox : Session
on_inbox = record new_session { user = some alice; selected_mailbox = some inbox }

abbrev first_only : NumSet
first_only = seq_set (λ n. n == 1)

letter-IsKept : IsKept letter with_archive
letter-IsKept = record { there = inl refl; alone = ((λ e. refl), tt); known = omega arith }

move_example :
    IsKept letter
      (move on_inbox
        (λ es. es)
        first_only
        (codes "Archive")
        true
        (λ n. true)
        (healthy with_archive)).1.tables
    ⊎ HasCopy letter 2
        (move on_inbox
          (λ es. es)
          first_only
          (codes "Archive")
          true
          (λ n. true)
          (healthy with_archive)).1.tables
unfolding find equal
move_example =
    move-HasCopy letter on_inbox inbox archive alice (codes "Archive") first_only (λ es. es) true
      (λ n. true) (healthy with_archive) refl refl refl (omega arith) (λ e es h. h)
      (omega arith, tt) letter-IsKept
