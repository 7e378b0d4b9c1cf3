-- ===== src/Examples/Delivery.antt =====
-- The theorems on deliver of internal/smtp/sender.go, with two mail servers.
use ghostmail.Prelude.{ℕ, true, false, Option, none, some, [], ◌∷◌, Bytes, codes, ◌≡◌, refl}
use ghostmail.Result.{ok}
use ghostmail.Text.{split_2}
use ghostmail.Sql.{Db}
use ghostmail.Storage.Schema.{Tables, QueueItem, pending}
use ghostmail.Smtp.Sender.Deliver.{Peer, Outcome, Network, Outgoing, deliver}
use ghostmail.Smtp.Sender.Deliver.Once.{IsTakenOnce, IsCopied, deliver_once, deliver_copies}
use ghostmail.Examples.{tables}

abbrev outgoing : Outgoing
outgoing = record {
  headers = record { canonical = λ s. s; decimal = λ n. codes "1"; hostname = codes "x.org" };
  strip = record {
    strip_received = true;
    strip_user_agent = true;
    strip_x_orig_ip = true;
    normalize_message_id = false;
  };
  encrypt_mime = λ message key. none;
  signers = (codes "x.org", λ message. some message) ∷ [];
}

abbrev accepting : Option Bytes → Peer
accepting quit = record {
  dial = none;
  mail_from = λ from. none;
  rcpt_to = λ to. none;
  open_data = none;
  write = λ message. none;
  close_data = none;
  quit = quit;
}

abbrev two_hosts : Option Bytes → Network
two_hosts quit = record {
  lookup_mx = λ domain. codes "a.z.org." ∷ codes "b.z.org." ∷ [];
  peers = λ i addr. accepting quit;
}

abbrev letter_out : QueueItem
letter_out = record {
  id = 1;
  from_addr = codes "alice@x.org";
  to_addr = codes "bob@z.org";
  message_data = codes "Subject: hi\r\n\r\nhello";
  attempts = 0;
  next_retry_at = 0;
  last_error = [];
  created_at = 10;
  status = pending;
}

-- The look-up of a key fails.
abbrev failing : Db Tables
failing = record { tables = tables; faults = true ∷ [] }

deliver_once_example :
    (r : Outcome × ℕ) × ((deliver outgoing (two_hosts none) 0 letter_out failing).0 ≡ ok r)
    × IsTakenOnce r.0
deliver_once_example = deliver_once outgoing (two_hosts none) 0 letter_out failing (λ i addr. refl)

deliver_copies_example :
    (r : Outcome × ℕ) × ((deliver outgoing (two_hosts (some (codes "EOF"))) 0 letter_out failing).0
      ≡ ok r)
    × IsCopied letter_out (codes "a.z.org." ∷ codes "b.z.org." ∷ []) r.0
unfolding split_2
deliver_copies_example =
    deliver_copies outgoing (two_hosts (some (codes "EOF"))) 0 letter_out (codes "bob")
      (codes "z.org") failing refl
      (λ i addr. record {
        dial = refl;
        mail_from = λ from. refl;
        rcpt_to = λ to. refl;
        open_data = refl;
        write = λ message. refl;
        close_data = refl;
        error = codes "EOF";
        quit = refl;
      })
