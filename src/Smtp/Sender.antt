-- ===== src/Smtp/Sender.antt =====
-- The queue of internal/smtp/sender.go: loadDKIMKeys, Run, processQueue and handleFailure. What
-- deliver returns is an input of each pass; Deliver models it.
pub mod Settled
pub mod Outcome
pub mod Backoff
pub mod Signers
pub mod Retries
pub mod Deliver
pub mod Start
use ghostmail.Prelude.{
  ℕ, ◌*◌, ◌-◌, ◌%◌, ◌^◌, Bool, ◌||◌, Option, none, some, List, [], ◌∷◌, equal, ltb, leb,
  if◌then◌else◌, Bytes,
}
use ghostmail.Result.{Result, ok, err}
use ghostmail.Sql.{Sql, pure, attempted, ignoring, ◌>>=◌, ◌>>◌}
use ghostmail.Storage.Schema.{Tables, Domain, QueueItem, second}
use ghostmail.Storage.Domains.{list_domains}
use ghostmail.Storage.Queue.{
  dequeue_messages, mark_sending, mark_sent, mark_failed, mark_dead_letter,
}
use ghostmail.Smtp.Message.{add_duration}

-- Numbers of the configuration; the durations are not negative.
pub record Sender : Type 0 where
  pub retry_base_delay : ℕ
  pub dead_letter_after : ℕ
  pub max_retries : ℕ
  pub concurrent_deliveries : ℕ

-- time.Duration(math.Pow(2, n)): exact below 2 ^ 63; a greater float becomes the least int64 on amd64.
unfoldable pub power : ℕ → ℕ
power n = if ltb n 63 then 2 ^ n else 2 ^ 63

-- The product of two words of 64 bits.
unfoldable pub backoff : Sender → ℕ → ℕ
backoff s attempts = s.retry_base_delay * power attempts % 2 ^ 64

unfoldable pub is_overdue : Sender → ℕ → QueueItem → Bool
is_overdue s now item = ltb s.dead_letter_after (now - item.created_at * second)

-- One call of processQueue: the clock, what deliver returns for each item, `none` for success and the
-- text of its error otherwise, and the clock in handleFailure.
pub record Pass : Type 0 where
  pub now : ℕ
  pub deliver : QueueItem → Option Bytes
  pub failed_at : QueueItem → ℕ

unfoldable pub handle_failure : Sender → ℕ → QueueItem → Bytes → Sql Tables (Unit {0})
handle_failure s now item error =
    if is_overdue s now item
    then ignoring tt (mark_dead_letter item.id error)
    else if leb s.max_retries item.attempts
    then ignoring tt (mark_dead_letter item.id error)
    else ignoring tt (mark_failed item.id error (add_duration now (backoff s item.attempts)))

-- After deliver.
abbrev pub settle : Sender → Pass → QueueItem → Option Bytes → Sql Tables (Unit {0})
settle s pass item none = ignoring tt (mark_sent item.id)
settle s pass item (some error) = handle_failure s (pass.failed_at item) item error

abbrev pub deliver_marked : Sender → Pass → QueueItem → Result (Unit {0}) → Sql Tables (Unit {0})
deliver_marked s pass item (ok u) = settle s pass item (pass.deliver item)
deliver_marked s pass item (err e) = pure tt

-- One round of the loop.
unfoldable pub process_item : Sender → Pass → QueueItem → Sql Tables (Unit {0})
process_item s pass item = do
  marked ← attempted (mark_sending item.id)
  deliver_marked s pass item marked

unfoldable pub process_items : Sender → Pass → List QueueItem → Sql Tables (Unit {0})
process_items s pass [] = pure tt
process_items s pass (item ∷ items) = do process_item s pass item; process_items s pass items

unfoldable pub process_queue : Sender → Pass → Sql Tables (Unit {0})
process_queue s pass = do
  items ← ignoring [] (dequeue_messages s.concurrent_deliveries pass.now)
  process_items s pass items

-- Run, until its context is done: one pass for each tick.
unfoldable pub run : Sender → List Pass → Sql Tables (Unit {0})
run s [] = pure tt
run s (pass ∷ passes) = do process_queue s pass; run s passes

-- loadDKIMKeys, over what NewRSASigner makes of a domain's name, selector and key.
module _ {Signer : Type 0} (new_rsa_signer : Bytes → Bytes → Bytes → Option Signer) where
  abbrev add_signer : Bytes → Option Signer → List (Bytes × Signer) → List (Bytes × Signer)
  add_signer name none signers = signers
  add_signer name (some signer) signers = (name, signer) ∷ signers

  unfoldable pub signers_of : List Domain → List (Bytes × Signer)
  signers_of [] = []
  signers_of (d ∷ domains) =
      let rest = signers_of domains in
      if equal d.dkim_selector [] || equal d.dkim_private_key []
      then rest
      else add_signer d.name (new_rsa_signer d.name d.dkim_selector d.dkim_private_key) rest

  unfoldable pub load_dkim_keys : Sql Tables (List (Bytes × Signer))
  load_dkim_keys = do domains ← ignoring [] list_domains; pure (signers_of domains)
