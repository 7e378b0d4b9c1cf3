-- ===== src/Smtp/Sender/Backoff.antt =====
-- What handleFailure writes, with the numbers of its durations: the queue of internal/smtp/sender.go.
use ghostmail.Prelude.{
  ℕ, ◌+◌, ◌*◌, ◌-◌, ◌^◌, ◌/◌, ◌<◌, ◌%◌, true, ◌||◌, Option, none, some, ltb, leb, Bytes,
  if◌then◌else◌, ◌≡◌, refl, ap, ◌∙◌, arith, Bool-cases, inl, inr,
}
use ghostmail.Result.{ok}
use ghostmail.Sql.{healthy}
use ghostmail.Storage.Schema.{Tables, QueueItem, sent, failed, pending, unix}
use ghostmail.Storage.Queue.{update_item}
use ghostmail.Smtp.Message.{add_duration}
use ghostmail.Smtp.Sender.{Sender, Pass, power, backoff, is_overdue, process_item}
use ghostmail.Smtp.Sender.Outcome.{is_dead, settled_by, failed_by, process_item-settled}

-- The row after an error at `now`, in nanoseconds.
abbrev pub row_after_error : Sender → ℕ → QueueItem → Bytes → QueueItem → QueueItem
row_after_error s now item e row =
    if ltb s.dead_letter_after (now - item.created_at * 1000000000)
      || leb s.max_retries item.attempts
    then record row { status = failed; last_error = e; attempts = row.attempts + 1 }
    else record row {
      status = pending;
      last_error = e;
      attempts = row.attempts + 1;
      next_retry_at = (now + s.retry_base_delay * 2 ^ item.attempts) / 1000000000;
    }

-- The row after a round of the loop, by what deliver returned.
abbrev pub row_after : Sender → ℕ → QueueItem → Option Bytes → QueueItem → QueueItem
row_after s now item none row = record row { status = sent }
row_after s now item (some e) row = row_after_error s now item e row

module _ (s : Sender) (pass : Pass) (item : QueueItem) (few : item.attempts < 63)
    (fits : s.retry_base_delay * 2 ^ item.attempts < 2 ^ 63) where
  backoff-power : backoff s item.attempts ≡ s.retry_base_delay * 2 ^ item.attempts
  unfolding backoff power
  backoff-power =
      let below : ltb item.attempts 63 ≡ true = ground arith in
      rw below (word (s.retry_base_delay * 2 ^ item.attempts) fits)
    where
      word : (n : ℕ) → n < 2 ^ 63 → n % 2 ^ 64 ≡ n
      word n h = omega arith

  next_retry :
      (now : ℕ)
      → unix (add_duration now (backoff s item.attempts))
        ≡ (now + s.retry_base_delay * 2 ^ item.attempts) / 1000000000
  unfolding add_duration
  next_retry now = rw backoff-power (later (s.retry_base_delay * 2 ^ item.attempts) fits)
    where
      later :
          (n : ℕ)
          → n < 2 ^ 63
          → unix (if ltb n (2 ^ 63) then now + n else now - (2 ^ 64 - n)) ≡ (now + n) / 1000000000
      later n h = let below : ltb n (2 ^ 63) ≡ true = ground arith in rw below refl

  failed_by-row_after :
      (e : Bytes) (row : QueueItem)
      → failed_by s pass item e (is_dead s pass item) row
        ≡ row_after_error s (pass.failed_at item) item e row
  unfolding is_dead is_overdue
  failed_by-row_after e row =
      elim (Bool-cases (
        ltb s.dead_letter_after (pass.failed_at item - item.created_at * 1000000000)
        || leb s.max_retries item.attempts)) [
          | inl dead ↦ rw dead refl
          | inr alive ↦ rw alive (rw (next_retry (pass.failed_at item)) refl)
        ]

  settled-row_after :
      (o : Option Bytes) (row : QueueItem)
      → settled_by s pass item o row ≡ row_after s (pass.failed_at item) item o row
  settled-row_after none row = refl
  settled-row_after (some e) row = failed_by-row_after e row

-- On an engine that fails nothing, one round of processQueue changes the rows of the item's id, each in
-- one of three ways, and no other row: to sent if deliver succeeds; otherwise, with the error and one
-- attempt more, to failed if the item was created longer ago than DeadLetterAfter or has been tried
-- MaxRetries times, and else to pending, to be tried again RetryBaseDelay * 2 ^ attempts after the
-- failure, in whole seconds. There are fewer than 63 attempts, and that delay is below 2 ^ 63
-- nanoseconds.
pub process_item-row_after :
    (s : Sender) (pass : Pass) (item : QueueItem) (t : Tables)
    → item.attempts < 63
    → s.retry_base_delay * 2 ^ item.attempts < 2 ^ 63
    → process_item s pass item (healthy t) ≡ (
      ok tt,
      healthy (update_item item.id (row_after s (pass.failed_at item) item (pass.deliver item)) t),
    )
process_item-row_after s pass item t few fits =
    process_item-settled s pass item t
    ∙ ap (λ f. (ok tt, healthy (update_item item.id f t)))
        (λ i row. settled-row_after s pass item few fits (pass.deliver item) row i)
