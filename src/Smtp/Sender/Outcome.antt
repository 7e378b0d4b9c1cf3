-- ===== src/Smtp/Sender/Outcome.antt =====
-- What a pass of the sender makes of the items, on an engine that fails nothing.
use ghostmail.Prelude.{
  ℕ, Bool, true, false, ◌||◌, Option, none, some, List, [], ◌∷◌, take, leb, Bytes, ◌≡◌, refl, ap,
  All, Bool-cases, if◌then◌else◌, inl, inr,
}
use ghostmail.Result.{ok}
use ghostmail.Sql.{healthy, statement, exec, query, ignoring, attempted, pure, ◌>>=◌}
use ghostmail.Sql.Rows.{update, All-update, select, order_by}
use ghostmail.Storage.Schema.{Tables, QueueItem, sending, sent}
use ghostmail.Storage.Queue.{
  has_item_id, update_item, with_status, retried, buried, is_due, dequeue_messages, mark_sending,
  mark_sent, mark_failed, mark_dead_letter,
}
use ghostmail.Smtp.Message.{add_duration}
use ghostmail.Smtp.Sender.{
  Sender, Pass, is_overdue, backoff, handle_failure, settle, process_item, process_items,
  process_queue,
}

abbrev is_sending : QueueItem → Bool
is_sending i = elim i.status [ sending ↦ true | _ ↦ false ]

abbrev pub IsNotSending : QueueItem → Type 0
IsNotSending i = is_sending i ≡ false

-- Two updates of the same rows are one.
update-update :
    {A : Type 0} (p : A → Bool) (f g : A → A) (xs : List A)
    → ((x : A) → p (g x) ≡ p x)
    → update p f (update p g xs) ≡ update p (λ x. f (g x)) xs
unfolding update
update-update p f g [] same = refl
update-update p f g (x ∷ xs) same = elim (Bool-cases (p x)) [
  | inl e ↦ rw (e, same x, e) (ap (λ l. f (g x) ∷ l) (update-update p f g xs same))
  | inr e ↦ rw (e, e) (ap (λ l. x ∷ l) (update-update p f g xs same))
]

module _ (s : Sender) (pass : Pass) where
  -- An item is dead once it is overdue or has been tried often enough.
  unfoldable pub is_dead : QueueItem → Bool
  is_dead item = is_overdue s (pass.failed_at item) item || leb s.max_retries item.attempts

  abbrev next_try : QueueItem → ℕ
  next_try item = add_duration (pass.failed_at item) (backoff s item.attempts)

  abbrev pub failed_by : QueueItem → Bytes → Bool → QueueItem → QueueItem
  failed_by item e true row = buried e row
  failed_by item e false row = retried e (next_try item) row

  abbrev pub settled_by : QueueItem → Option Bytes → QueueItem → QueueItem
  settled_by item none row = with_status sent row
  settled_by item (some e) row = failed_by item e (is_dead item) row

  -- Sent, dead, or pending with one attempt more and later.
  abbrev pub settled : QueueItem → QueueItem → QueueItem
  settled item row = settled_by item (pass.deliver item) row

  twice :
      (id : ℕ) (f : QueueItem → QueueItem) (t : Tables)
      → update_item id f (update_item id (with_status sending) t)
        ≡ update_item id (λ i. f (with_status sending i)) t
  twice id f t =
      ap (λ q. record t { send_queue = q })
        (update-update (has_item_id id) f (with_status sending) t.send_queue (λ i. refl))

  -- The two tests of handleFailure.
  fails :
      (item : QueueItem) (t : Tables) (e : Bytes) (old tried : Bool)
      → (if old
            then ignoring tt (mark_dead_letter item.id e)
            else if tried
            then ignoring tt (mark_dead_letter item.id e)
            else ignoring tt (mark_failed item.id e (next_try item)))
          (healthy (update_item item.id (with_status sending) t))
        ≡ (ok tt, healthy (update_item item.id (failed_by item e (old || tried)) t))
  unfolding mark_failed mark_dead_letter ignoring exec statement
  fails item t e true tried = ap (λ u. (ok tt, healthy u)) (twice item.id (buried e) t)
  fails item t e false true = ap (λ u. (ok tt, healthy u)) (twice item.id (buried e) t)
  fails item t e false false =
      ap (λ u. (ok tt, healthy u)) (twice item.id (retried e (next_try item)) t)

  settle-settled :
      (item : QueueItem) (t : Tables) (o : Option Bytes)
      → settle s pass item o (healthy (update_item item.id (with_status sending) t))
        ≡ (ok tt, healthy (update_item item.id (settled_by item o) t))
  unfolding handle_failure mark_sent mark_failed mark_dead_letter ignoring exec statement is_dead
  settle-settled item t none = ap (λ u. (ok tt, healthy u)) (twice item.id (with_status sent) t)
  settle-settled item t (some e) =
      fails item t e (is_overdue s (pass.failed_at item) item) (leb s.max_retries item.attempts)

  -- On an engine that fails nothing, one round of processQueue changes the rows of the item's id, each
  -- in one of three ways and in a single step: to sent if deliver succeeds; otherwise, with the error
  -- and one attempt more, to failed if the item is overdue or has been tried MaxRetries times, and else
  -- to pending, to be tried again after the backoff. No other row changes.
  pub process_item-settled :
      (item : QueueItem) (t : Tables)
      → process_item s pass item (healthy t)
        ≡ (ok tt, healthy (update_item item.id (settled item) t))
  unfolding process_item handle_failure mark_sending mark_sent mark_failed mark_dead_letter ignoring
      attempted exec statement pure ◌>>=◌ is_dead
  process_item-settled item t = settle-settled item t (pass.deliver item)

  -- The changes of a pass, one after the other.
  unfoldable pub settle_all : List QueueItem → Tables → Tables
  settle_all [] t = t
  settle_all (item ∷ items) t = settle_all items (update_item item.id (settled item) t)

  pub process_items-settle_all :
      (items : List QueueItem) (t : Tables)
      → process_items s pass items (healthy t) ≡ (ok tt, healthy (settle_all items t))
  unfolding process_items settle_all pure ◌>>=◌
  process_items-settle_all [] t = refl
  process_items-settle_all (item ∷ items) t =
      rw (process_item-settled item t)
        (process_items-settle_all items (update_item item.id (settled item) t))

  settled_by-IsNotSending :
      (item : QueueItem) (o : Option Bytes) (i : QueueItem) → IsNotSending (settled_by item o i)
  settled_by-IsNotSending item none i = refl
  settled_by-IsNotSending item (some e) i = failed_by-IsNotSending (is_dead item)
    where
      failed_by-IsNotSending : (b : Bool) → IsNotSending (failed_by item e b i)
      failed_by-IsNotSending true = refl
      failed_by-IsNotSending false = refl

  settle_all-IsNotSending :
      (items : List QueueItem) (t : Tables)
      → All IsNotSending t.send_queue
      → All IsNotSending (settle_all items t).send_queue
  unfolding settle_all
  settle_all-IsNotSending [] t h = h
  settle_all-IsNotSending (item ∷ items) t h =
      settle_all-IsNotSending items (update_item item.id (settled item) t) (
        All-update IsNotSending _ _ t.send_queue
          (λ i k. settled_by-IsNotSending item (pass.deliver item) i) h)

-- On an engine that fails nothing, a pass leaves no item as sending if none was: each that it takes up
-- is sent, failed or pending again, whatever deliver returns.
pub process_queue-IsNotSending :
    (s : Sender) (pass : Pass) (t : Tables)
    → All IsNotSending t.send_queue
    → All IsNotSending (process_queue s pass (healthy t)).1.tables.send_queue
unfolding process_queue dequeue_messages ignoring query statement ◌>>=◌
process_queue-IsNotSending s pass t h =
    let items =
      take s.concurrent_deliveries
        (order_by (λ i. i.next_retry_at) (select (is_due pass.now) t.send_queue)) in
    rw (process_items-settle_all s pass items t) (settle_all-IsNotSending s pass items t h)
