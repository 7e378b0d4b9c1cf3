-- ===== src/Smtp/Sender/Retries.antt =====
-- How often the sender tries: its passes come to an end with the mail in the queue.
use ghostmail.Prelude.{
  ℕ, ◌+◌, ◌-◌, ◌≤◌, ◌<◌, Bool, true, false, Option, none, some, List, [], ◌∷◌, take, length, Bytes,
  ◌≡◌, ◌≢◌, refl, ap, arith, All, All-map, Bool-cases, if◌then◌else◌, inl, inr, if_both,
}
use ghostmail.Result.{ok}
use ghostmail.Sql.{healthy, statement, query, ignoring, ◌>>=◌}
use ghostmail.Sql.Rows.{update, select, order_by, All-order_by}
use ghostmail.Sql.Distinct.{
  DistinctBy, take-All, DistinctBy-take, DistinctBy-order_by, DistinctBy-select,
}
use ghostmail.Sql.Members.{Has, All-Has, Has-All, Has-select, Has-update}
use ghostmail.Storage.Schema.{Tables, QueueItem}
use ghostmail.Storage.Queue.{is_pending, has_item_id, update_item, is_due, dequeue_messages}
use ghostmail.Smtp.Sender.{Sender, Pass, process_queue}
use ghostmail.Smtp.Sender.Outcome.{
  is_dead, settled_by, failed_by, settled, settle_all, process_items-settle_all,
}

-- No two items share an id.
abbrev DistinctItems : List QueueItem → Type 0
DistinctItems = DistinctBy (λ i. i.id)

-- The items that a pass takes up.
abbrev pub taken : Sender → Pass → Tables → List QueueItem
taken s pass t =
    take s.concurrent_deliveries
      (order_by (λ i. i.next_retry_at) (select (is_due pass.now) t.send_queue))

-- How often the passes try to deliver.
pub tries : Sender → List Pass → Tables → ℕ
tries s [] t = 0
tries s (pass ∷ passes) t =
    length (taken s pass t) + tries s passes (process_queue s pass (healthy t)).1.tables

module _ (s : Sender) where
  -- What is left of an item: one try and the retries.
  abbrev tries_left : QueueItem → ℕ
  tries_left i = if is_pending i then 1 + (s.max_retries - i.attempts) else 0

  pub total_left : List QueueItem → ℕ
  total_left [] = 0
  total_left (i ∷ is) = tries_left i + total_left is

  module _ (pass : Pass) where
    settled_by-tries_left :
        (i : QueueItem) (o : Option Bytes)
        → is_pending i ≡ true
        → tries_left (settled_by s pass i o i) < tries_left i
    unfolding is_dead
    settled_by-tries_left i none e = rw e (omega arith)
    settled_by-tries_left i (some err) e = elim (Bool-cases (is_dead s pass i)) [
      | inl dead ↦ rw (dead, e) (omega arith)
      | inr alive ↦
          let fresh : i.attempts < s.max_retries = ground arith in
          rw (alive, e) (omega (arith, fresh))
    ]

    settled_by-id : (i j : QueueItem) (o : Option Bytes) → (settled_by s pass i o j).id ≡ j.id
    settled_by-id i j none = refl
    settled_by-id i j (some err) = failed_by-id (is_dead s pass i)
      where
        failed_by-id : (b : Bool) → (failed_by s pass i err b j).id ≡ j.id
        failed_by-id true = refl
        failed_by-id false = refl

    -- An UPDATE of the one row of an id.
    update-none :
        (f : QueueItem → QueueItem) (id : ℕ) (q : List QueueItem)
        → All (λ j. j.id ≢ id) q
        → update (has_item_id id) f q ≡ q
    unfolding update
    update-none f id [] h = refl
    update-none f id (j ∷ q) (h, hs) =
        let miss : has_item_id id j ≡ false = ground arith in
        rw miss (ap (λ l. j ∷ l) (update-none f id q hs))

    total_left-update :
        (i : QueueItem) (q : List QueueItem)
        → DistinctItems q
        → Has i q
        → is_pending i ≡ true
        → total_left (update (has_item_id i.id) (settled s pass i) q) < total_left q
    unfolding update total_left
    total_left-update i [] d h e = absurd h
    total_left-update i (j ∷ q) (d, ds) (inl same) e =
        let hit : has_item_id i.id j ≡ true = rw same (ground arith) in
        let less = settled_by-tries_left i (pass.deliver i) e in
        rw hit (
          rw (← same)
            (rw (update-none (settled s pass i) i.id q (rw (← same) at d)) (omega (arith, less))))
    total_left-update i (j ∷ q) (d, ds) (inr h) e =
        let apart : i.id ≢ j.id = Has-All _ i q h d in
        let miss : has_item_id i.id j ≡ false = ground (arith, apart) in
        rw miss (omega (arith, total_left-update i q ds h e))

    update-DistinctItems :
        (i : QueueItem) (q : List QueueItem)
        → DistinctItems q
        → DistinctItems (update (has_item_id i.id) (settled s pass i) q)
    unfolding update
    update-DistinctItems i [] d = tt
    update-DistinctItems i (j ∷ q) (d, ds) =
        (rw (id_kept j) (others q d), update-DistinctItems i q ds)
      where
        id_kept : (k : QueueItem) → (if has_item_id i.id k then settled s pass i k else k).id ≡ k.id
        id_kept k =
            if_both (λ (x : QueueItem). x.id ≡ k.id) (has_item_id i.id k)
              (λ _. settled_by-id i k (pass.deliver i)) (λ _. refl)

        others :
            (r : List QueueItem)
            → All (λ k. k.id ≢ j.id) r
            → All (λ k. k.id ≢ j.id) (update (has_item_id i.id) (settled s pass i) r)
        others [] h = tt
        others (k ∷ r) (h, hs) = (rw (id_kept k) h, others r hs)

    -- Items that stand in the queue as they are, and are pending.
    abbrev Waits : List QueueItem → QueueItem → Type 0
    Waits q i = Has i q × (is_pending i ≡ true)

    settle_all-total_left :
        (items : List QueueItem) (t : Tables)
        → DistinctItems items
        → DistinctItems t.send_queue
        → All (Waits t.send_queue) items
        → (length items + total_left (settle_all s pass items t).send_queue
            ≤ total_left t.send_queue)
          × DistinctItems (settle_all s pass items t).send_queue
    unfolding settle_all
    settle_all-total_left [] t di dq ws = (omega arith, dq)
    settle_all-total_left (i ∷ items) t (d, di) dq ((there, waits), ws) =
        let less = total_left-update i t.send_queue dq there waits in
        let (le, rest) =
          settle_all-total_left items (update_item i.id (settled s pass i) t) di
            (update-DistinctItems i t.send_queue dq) (still items d ws) in
        (omega (arith, less, le), rest)
      where
        still :
            (is : List QueueItem)
            → All (λ j. j.id ≢ i.id) is
            → All (Waits t.send_queue) is
            → All (Waits (update (has_item_id i.id) (settled s pass i) t.send_queue)) is
        still [] d ws = tt
        still (j ∷ is) (apart, d) ((there, waits), ws) =
            let miss : has_item_id i.id j ≡ false = ground (arith, apart) in
            (
              (Has-update (has_item_id i.id) (settled s pass i) j t.send_queue miss there, waits),
              still is d ws,
            )

taken-Waits :
    (s : Sender) (pass : Pass) (t : Tables) → All (Waits s pass t.send_queue) (taken s pass t)
unfolding is_due
taken-Waits s pass t =
    let due = select (is_due pass.now) t.send_queue in
    take-All _ s.concurrent_deliveries _ (
      All-order_by _ (λ i. i.next_retry_at) due
        (All-map (λ i. Has i due) _ due
          (λ i h.
            let (there, fits) = Has-select (is_due pass.now) i t.send_queue h in
            (there, ground (arith, fits)))
          (All-Has due)))

process_queue-settle_all :
    (s : Sender) (pass : Pass) (t : Tables)
    → process_queue s pass (healthy t) ≡ (ok tt, healthy (settle_all s pass (taken s pass t) t))
unfolding process_queue dequeue_messages ignoring query statement ◌>>=◌
process_queue-settle_all s pass t = process_items-settle_all s pass (taken s pass t) t

-- On an engine that fails nothing and with no new mail, all the passes of the sender together try no
-- more than MaxRetries + 1 times for each item that is pending at the start, less the attempts that it
-- already had, whatever deliver returns and however many passes there are. The items have ids of their
-- own.
pub tries-total_left :
    (s : Sender) (passes : List Pass) (t : Tables)
    → DistinctItems t.send_queue
    → tries s passes t ≤ total_left s t.send_queue
unfolding tries
tries-total_left s [] t d = omega arith
tries-total_left s (pass ∷ passes) t d =
    let items = taken s pass t in
    let (le, rest) =
      settle_all-total_left s pass items t
        (DistinctBy-take _ s.concurrent_deliveries _ (
          DistinctBy-order_by _ (λ i. i.next_retry_at) _
            (DistinctBy-select _ (is_due pass.now) t.send_queue d)))
        d (taken-Waits s pass t) in
    let later = tries-total_left s passes (settle_all s pass items t) rest in
    rw (process_queue-settle_all s pass t) (omega (arith, le, later))
