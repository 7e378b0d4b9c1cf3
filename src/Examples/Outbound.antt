-- ===== src/Examples/Outbound.antt =====
-- The theorems on the sender, the stripping of headers and the alias generator, at the data of the
-- parent module.
use ghostmail.Prelude.{
  ◌≤◌, ◌*◌, true, false, some, List, [], ◌∷◌, Bytes, codes, ◌≡◌, refl, arith, All, inl, inr,
}
use ghostmail.Result.{ok}
use ghostmail.Sql.{Db, healthy}
use ghostmail.Sql.Rows.{count}
use ghostmail.Storage.Schema.{Tables, QueueItem, pending, sending, second}
use ghostmail.Storage.Queue.{update_item}
use ghostmail.Smtp.Headers.{StripConfig, HeaderEnv}
use ghostmail.Smtp.Sender.{Sender, Pass, process_item, process_queue, run, load_dkim_keys}
use ghostmail.Smtp.Sender.Settled.{IsSettled, run-IsSettled}
use ghostmail.Smtp.Sender.Outcome.{IsNotSending, process_queue-IsNotSending}
use ghostmail.Smtp.Sender.Backoff.{row_after, process_item-row_after}
use ghostmail.Smtp.Sender.Retries.{tries, total_left, tries-total_left}
use ghostmail.Smtp.Sender.Signers.{load_dkim_keys-none}
use ghostmail.Generator.{Generator}
use ghostmail.Generator.Limit.{
  WithinLimit, Call, creates, customs, deletes, run_calls, run_calls-WithinLimit,
}
use ghostmail.Examples.{tables}

abbrev sender : Sender
sender = record {
  retry_base_delay = 60 * second;
  dead_letter_after = 86400 * second;
  max_retries = 5;
  concurrent_deliveries = 10;
}

-- Deliveries fail.
abbrev pass : Pass
pass = record {
  now = 100 * second;
  deliver = λ i. some (codes "refused");
  failed_at = λ i. 101 * second;
}

abbrev waiting : QueueItem
waiting = record {
  id = 1;
  from_addr = codes "alice@x.org";
  to_addr = codes "bob@z.org";
  message_data = codes "hi";
  attempts = 2;
  next_retry_at = 90;
  last_error = [];
  created_at = 10;
  status = pending;
}

abbrev stuck : QueueItem
stuck = record waiting { id = 2; status = sending }

abbrev queued : Tables
queued = record tables { send_queue = waiting ∷ stuck ∷ [] }

-- The engine fails the third statement.
abbrev failing : Db Tables
failing = record { tables = queued; faults = false ∷ false ∷ true ∷ [] }

stuck-IsSettled : IsSettled stuck queued
stuck-IsSettled = record {
  there = inr (inl refl);
  alone = ((λ e. absurd (omega arith)), ((λ e. refl), tt));
  settled = refl;
}

run-IsSettled_example : IsSettled stuck (run sender (pass ∷ pass ∷ []) failing).1.tables
run-IsSettled_example = run-IsSettled sender (pass ∷ pass ∷ []) stuck failing stuck-IsSettled

process_item_example : process_item sender pass waiting (healthy queued) ≡ (
  ok tt,
  healthy (update_item 1 (row_after sender (101 * second) waiting (some (codes "refused"))) queued),
)
process_item_example = process_item-row_after sender pass waiting queued (omega arith) (omega arith)

abbrev one_waiting : Tables
one_waiting = record tables { send_queue = waiting ∷ [] }

process_queue_example :
    All IsNotSending (process_queue sender pass (healthy one_waiting)).1.tables.send_queue
process_queue_example = process_queue-IsNotSending sender pass one_waiting (refl, tt)

tries_example : tries sender (pass ∷ pass ∷ pass ∷ []) queued ≤ total_left sender queued.send_queue
tries_example =
    tries-total_left sender (pass ∷ pass ∷ pass ∷ []) queued ((omega arith, tt), (tt, tt))

load_dkim_keys_example :
    (load_dkim_keys {Signer = Bytes} (λ name selector key. some key) failing).0 ≡ ok []
load_dkim_keys_example =
    load_dkim_keys-none {Signer = Bytes} (λ name selector key. some key) failing

-- No name changes its case.
abbrev header_env : HeaderEnv
header_env = record { canonical = λ name. name; decimal = λ n. codes "7"; hostname = codes "x.org" }

abbrev strip_all : StripConfig
strip_all = record {
  strip_received = true;
  strip_user_agent = true;
  strip_x_orig_ip = true;
  normalize_message_id = true;
}

abbrev text : Bytes
text = codes "Received: from home\r\nSubject: hello\r\n\r\nhi"

abbrev generator : Generator
generator = record { max_per_user = 2; encode = λ b. codes "abcdefghijklm" }

tables-WithinLimit : WithinLimit generator tables
unfolding count
tables-WithinLimit = record { within = λ user_id. ground arith }

abbrev calls : List (Call generator)
calls =
    customs 5 1 (codes "shop") (codes "x.org") []
    ∷ creates 6 (1 ∷ 2 ∷ []) 1 (codes "x.org") [] 0 0
    ∷ deletes 1
    ∷ []

run_calls_example : WithinLimit generator (run_calls generator calls (healthy tables)).tables
run_calls_example = run_calls-WithinLimit generator calls (healthy tables) tables-WithinLimit
