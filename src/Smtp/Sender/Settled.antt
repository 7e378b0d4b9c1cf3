-- ===== src/Smtp/Sender/Settled.antt =====
-- The sender never touches an item again that is no longer pending.
use ghostmail.Prelude.{
  ℕ, zero, suc, true, false, Option, none, some, List, [], ◌∷◌, ◌==◌, take, Bytes, ◌≡◌, refl, arith,
  All, All-map, Bool-cases, if_both, inl, inr,
}
use ghostmail.Result.{Result, ok, err}
use ghostmail.Sql.{Db}
use ghostmail.Sql.Gives.{Gives, Gives-query, Gives-ignoring}
use ghostmail.Sql.Keeps.{
  Keeps, Keeps-pure, Keeps-exec, Keeps-bind, Keeps-ignoring, Keeps-attempted, keeps_rules,
  Keeps-query,
}
use ghostmail.Sql.Leads.{Keeps-bind_gives}
use ghostmail.Sql.Rows.{select, All-order_by}
use ghostmail.Sql.Members.{Has, All-Has, Has-All, Has-update, Has-select, All-updated}
use ghostmail.Storage.Schema.{Tables, QueueItem}
use ghostmail.Storage.Queue.{
  is_pending, has_item_id, is_due, update_item, dequeue_messages, mark_sending, mark_sent,
  mark_failed, mark_dead_letter,
}
use ghostmail.Smtp.Sender.{
  Sender, Pass, handle_failure, settle, deliver_marked, process_item, process_items, process_queue,
  run,
}

All-take : (P : QueueItem → Type 0) (n : ℕ) (xs : List QueueItem) → All P xs → All P (take n xs)
All-take P zero xs h = tt
All-take P (suc n) [] h = tt
All-take P (suc n) (x ∷ xs) (h, hs) = (h, All-take P n xs hs)

module _ (r : QueueItem) where
  -- The row is there, is the only one of its id, and is not pending.
  pub record IsSettled (t : Tables) : Type 0 where
    pub there : Has r t.send_queue
    pub alone : All (λ i. i.id ≡ r.id → i ≡ r) t.send_queue
    pub settled : is_pending r ≡ false

  update_item-IsSettled :
      (id : ℕ) (f : QueueItem → QueueItem) (t : Tables)
      → has_item_id id r ≡ false
      → ((i : QueueItem) → (f i).id ≡ i.id)
      → IsSettled t
      → IsSettled (update_item id f t)
  update_item-IsSettled id f t other same v = record {
    there = Has-update (has_item_id id) f r t.send_queue other v.there;
    alone = All-updated _ (has_item_id id) f t.send_queue (
        All-map _ _ t.send_queue
          (λ i h.
            if_both (λ k. k.id ≡ r.id → k ≡ r) (has_item_id id i)
              (λ hit here. absurd (ground (arith, same i))) (λ _. h))
          v.alone);
    settled = v.settled;
  }

  apart :
      (now : ℕ) (i : QueueItem)
      → is_due now i ≡ true
      → (i.id ≡ r.id → i ≡ r)
      → is_pending r ≡ false
      → has_item_id i.id r ≡ false
  unfolding is_due
  apart now i due alone settled = elim (Bool-cases (r.id == i.id)) [
    | inr other ↦ other
    | inl here ↦
        let same : i ≡ r = alone (ground arith) in
        let waiting : is_pending i ≡ true = ground arith in absurd (clash (rw same at waiting))
  ]
    where
      clash : is_pending r ≡ true → ⊥
      clash waiting = cc

  dequeue_messages-apart :
      (limit now : ℕ)
      → Gives IsSettled
          (dequeue_messages limit now)
          (λ items _. All (λ i. has_item_id i.id r ≡ false) items)
  unfolding dequeue_messages
  dequeue_messages-apart limit now = Gives-query _ λ t v.
      let due = select (is_due now) t.send_queue in
      let others : All (λ i. has_item_id i.id r ≡ false) due =
        All-map (λ i. Has i due) _ due
          (λ i h.
            let (there, is_now) = Has-select (is_due now) i t.send_queue h in
            apart now i is_now (Has-All _ i t.send_queue there v.alone) v.settled)
          (All-Has due) in
      All-take _ limit _ (All-order_by _ (λ i. i.next_retry_at) due others)

  module _ (i : QueueItem) (other : has_item_id i.id r ≡ false) where
    mark_sending-IsSettled : Keeps IsSettled (mark_sending i.id)
    unfolding mark_sending
    mark_sending-IsSettled =
        Keeps-exec _ (λ t v. update_item-IsSettled i.id _ t other (λ k. refl) v)

    mark_sent-IsSettled : Keeps IsSettled (mark_sent i.id)
    unfolding mark_sent
    mark_sent-IsSettled = Keeps-exec _ (λ t v. update_item-IsSettled i.id _ t other (λ k. refl) v)

    mark_failed-IsSettled : (e : Bytes) (at : ℕ) → Keeps IsSettled (mark_failed i.id e at)
    unfolding mark_failed
    mark_failed-IsSettled e at =
        Keeps-exec _ (λ t v. update_item-IsSettled i.id _ t other (λ k. refl) v)

    mark_dead_letter-IsSettled : (e : Bytes) → Keeps IsSettled (mark_dead_letter i.id e)
    unfolding mark_dead_letter
    mark_dead_letter-IsSettled e =
        Keeps-exec _ (λ t v. update_item-IsSettled i.id _ t other (λ k. refl) v)

    handle_failure-IsSettled :
        (s : Sender) (now : ℕ) (e : Bytes) → Keeps IsSettled (handle_failure s now i e)
    unfolding handle_failure
    handle_failure-IsSettled s now e =
        search (keeps_rules, mark_failed-IsSettled, mark_dead_letter-IsSettled) depth 8

    settle-IsSettled :
        (s : Sender) (pass : Pass) (o : Option Bytes) → Keeps IsSettled (settle s pass i o)
    settle-IsSettled s pass none = Keeps-ignoring _ _ mark_sent-IsSettled
    settle-IsSettled s pass (some e) = handle_failure-IsSettled s _ e

    deliver_marked-IsSettled :
        (s : Sender) (pass : Pass) (marked : Result (Unit {0}))
        → Keeps IsSettled (deliver_marked s pass i marked)
    deliver_marked-IsSettled s pass (ok u) = settle-IsSettled s pass (pass.deliver i)
    deliver_marked-IsSettled s pass (err e) = Keeps-pure tt

    process_item-IsSettled : (s : Sender) (pass : Pass) → Keeps IsSettled (process_item s pass i)
    unfolding process_item
    process_item-IsSettled s pass =
        Keeps-bind _ _ (Keeps-attempted _ mark_sending-IsSettled) (deliver_marked-IsSettled s pass)

  process_items-IsSettled :
      (s : Sender) (pass : Pass) (items : List QueueItem)
      → All (λ i. has_item_id i.id r ≡ false) items
      → Keeps IsSettled (process_items s pass items)
  unfolding process_items
  process_items-IsSettled s pass [] h = Keeps-pure tt
  process_items-IsSettled s pass (i ∷ items) (h, hs) =
      Keeps-bind _ _ (process_item-IsSettled i h s pass)
        (λ u. process_items-IsSettled s pass items hs)

  dequeue-Keeps :
      (s : Sender) (pass : Pass)
      → Keeps IsSettled (dequeue_messages s.concurrent_deliveries pass.now)
  unfolding dequeue_messages
  dequeue-Keeps s pass = Keeps-query _

  process_queue-IsSettled : (s : Sender) (pass : Pass) → Keeps IsSettled (process_queue s pass)
  unfolding process_queue
  process_queue-IsSettled s pass =
      Keeps-bind_gives {Q = λ items _. All (λ i. has_item_id i.id r ≡ false) items} _ _
        (Keeps-ignoring _ _ (dequeue-Keeps s pass))
        (Gives-ignoring _ _ (λ t. tt) (dequeue_messages-apart _ _))
        λ items. record { at = λ db h. (process_items-IsSettled s pass items h.1).at db h.0 }

  run-Keeps : (s : Sender) (passes : List Pass) → Keeps IsSettled (run s passes)
  unfolding run
  run-Keeps s [] = Keeps-pure tt
  run-Keeps s (pass ∷ passes) =
      Keeps-bind _ _ (process_queue-IsSettled s pass) (λ u. run-Keeps s passes)

-- An item that is not pending, so sent, failed or left as sending, and is the only one of its id, is a
-- row of the queue, unchanged, after any number of passes of the sender, whatever deliver returns and
-- whichever statements the engine fails.
pub run-IsSettled :
    (s : Sender) (passes : List Pass) (r : QueueItem) (db : Db Tables)
    → IsSettled r db.tables
    → IsSettled r (run s passes db).1.tables
run-IsSettled s passes r db h = (run-Keeps r s passes).at db h
