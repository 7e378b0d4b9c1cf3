-- ===== src/Examples/Boxes.antt =====
-- The theorems on internal/expiry and on the mailboxes of internal/imap, at the data of the parent
-- module.
use ghostmail.Prelude.{
  ℕ, ◌+◌, ◌*◌, ◌<◌, ◌||◌, ◌^◌, ◌≤◌, true, false, none, some, List, [], ◌∷◌, ◌==◌, equal, codes,
  length, ◌⊎◌, inl, inr, ◌≡◌, refl, arith, All,
}
use ghostmail.Result.{ok}
use ghostmail.Sql.{Db, healthy, or_raise, exec, query, statement, pure, ◌>>=◌, ◌>>◌}
use ghostmail.Sql.Rows.{delete, order_by, select}
use ghostmail.Text.{fields, fields_from, is_space, equal_fold}
use ghostmail.Storage.Flags.{has_flag}
use ghostmail.Storage.Schema.{Tables, Mailbox, Message, second, unix}
use ghostmail.Storage.Mailboxes.{delete_messages}
use ghostmail.Storage.Messages.{list_messages, delete_message}
use ghostmail.Smtp.Message.{add_duration}
use ghostmail.Expiry.{Reaper, lies_in, sweeps, vacuums, sweep, apply_mailbox_ttls, run}
use ghostmail.Expiry.Spared.{IsSpared, run-IsSpared}
use ghostmail.Expiry.Trash.{OwnExpiry, sweep-OwnExpiry}
use ghostmail.Imap.Session.{Session, new_session}
use ghostmail.Imap.Fetch.{resolve_from, resolve_num_set, NumSet, seq_set}
use ghostmail.Imap.Moving.{
  move, is_deleted, expunge, expunge_each, positions_from, expunge_source, remove_each, descending,
  insert_descending,
}
use ghostmail.Storage.Kept.{IsKept}
use ghostmail.Imap.Isolation.{removal-IsKept}
use ghostmail.Imap.Client.{view, apply_expunges}
use ghostmail.Imap.Client.Moved.{unnamed_from, expunge_source-client}
use ghostmail.Imap.Client.Expunged.{expunge-client_keeps}
use ghostmail.Examples.{inbox, letter, tables}

abbrev pub reaper : Reaper
reaper = record { trash_ttl = 3600 * second; spam_ttl = 0 }

abbrev trash : Mailbox
trash = record inbox { id = 2; name = codes "Trash" }

abbrev discarded : Message
discarded = record letter { id = 2; mailbox_id = 2 }

abbrev with_trash : Tables
with_trash = record tables {
  mailboxes = inbox ∷ trash ∷ [];
  messages = letter ∷ discarded ∷ [];
  last_message = 2;
}

-- The engine fails the second statement.
abbrev failing : Db Tables
failing = record { tables = with_trash; faults = false ∷ true ∷ [] }

letter-IsSpared : IsSpared letter with_trash
unfolding equal
letter-IsSpared = record { there = inl refl; permanent = refl; no_trash = refl; no_spam = refl }

run-IsSpared_example :
    IsSpared letter (run reaper 0 0 (sweeps 1 2 3 ∷ vacuums ∷ []) failing).1.tables
run-IsSpared_example =
    run-IsSpared reaper 0 0 (sweeps 1 2 3 ∷ vacuums ∷ []) letter failing letter-IsSpared

reached : unix (add_duration 0 reaper.trash_ttl) ≤ unix (7200 * second)
unfolding add_duration
reached = omega arith

sweep_example :
    All
      (λ m.
        (lies_in (codes "Trash") with_trash m ≡ false)
        ⊎ OwnExpiry (unix (7200 * second)) with_trash m)
      ((apply_mailbox_ttls reaper 0 0 >> sweep (7200 * second))
        (healthy with_trash)).1.tables.messages
sweep_example = sweep-OwnExpiry reaper with_trash 0 0 (7200 * second) refl reached

abbrev second_letter : Message
second_letter = record letter { id = 3; uid = 2; flags = codes "\\Deleted" }

abbrev third_letter : Message
third_letter = record letter { id = 4; uid = 3 }

abbrev three_letters : Tables
three_letters = record tables { messages = letter ∷ second_letter ∷ third_letter ∷ [] }

abbrev pub selected : Session
selected = record new_session { selected_mailbox = some inbox }

abbrev first_and_last : NumSet
first_and_last = seq_set (λ n. (n == 1) || (n == 3))

numbers_told :
    (expunge_source selected first_and_last (λ n. true) (healthy three_letters)).0 ≡ ok (3 ∷ 1 ∷ [])
unfolding expunge_source remove_each resolve_num_set ◌>>=◌ or_raise pure list_messages query
    statement descending insert_descending resolve_from order_by select delete_message
    delete_messages delete exec
numbers_told = refl

three_fit : length (view 1 three_letters) < 2 ^ 32
unfolding order_by select
three_fit = omega arith

expunge_source_example :
    apply_expunges 0 (3 ∷ 1 ∷ []) (view 1 three_letters)
    ≡ unnamed_from first_and_last 0 (view 1 three_letters)
expunge_source_example =
    expunge_source-client selected first_and_last (λ n. true) inbox (healthy three_letters)
      (3 ∷ 1 ∷ []) refl three_fit numbers_told

abbrev all_deleted : Tables
all_deleted = record tables {
  messages =
      second_letter
      ∷ record second_letter { id = 4; uid = 3 }
      ∷ record second_letter { id = 5; uid = 4 }
      ∷ [];
}

abbrev wrong_numbers : List ℕ
wrong_numbers = 3 ∷ 1 ∷ 4294967295 ∷ []

numbers_written : (expunge selected none (λ n. true) (healthy all_deleted)).0 ≡ ok wrong_numbers
unfolding expunge expunge_each positions_from ◌>>=◌ or_raise pure list_messages query statement
    order_by select has_flag fields fields_from is_space equal_fold delete_message delete_messages
    delete exec
numbers_written = refl

marked_letters : All (λ m. is_deleted m ≡ true) (view 1 all_deleted)
unfolding order_by select has_flag fields fields_from is_space equal_fold
marked_letters = (refl, (refl, (refl, tt)))

all_fit : length (view 1 all_deleted) < 2 ^ 31
unfolding order_by select
all_fit = omega arith

expunge_example :
    length (view 1 all_deleted)
    ≤ 2 * length (apply_expunges 0 wrong_numbers (view 1 all_deleted)) + 1
expunge_example =
    expunge-client_keeps selected (λ n. true) inbox (healthy all_deleted) wrong_numbers refl
      marked_letters all_fit numbers_written

discarded-IsKept : IsKept discarded with_trash
discarded-IsKept = record {
  there = inr (inl refl);
  alone = ((λ e. absurd (omega arith)), ((λ e. refl), tt));
  known = omega arith;
}

removal_example :
    IsKept discarded (expunge selected none (λ n. true) failing).1.tables
    × IsKept discarded
        (move selected (λ es. es) first_and_last (codes "Trash") true (λ n. true) failing).1.tables
removal_example =
    removal-IsKept selected inbox discarded failing none (λ n. true) (λ es. es) first_and_last
      (codes "Trash") true refl (omega arith) discarded-IsKept
