-- ===== src/Imap/Trackers.antt =====
-- GetTracker and NotifyNewMessage of internal/imap/server.go: the map of the mailboxes' trackers. A
-- tracker is the library's; `queue` is its QueueNumMessages and `new` its NewMailboxTracker.
use ghostmail.Prelude.{ℕ, ◌==◌, Option, none, some, List, [], ◌∷◌, if◌then◌else◌}

module _ {Tracker : Type 0} where
  -- s.trackers[id]
  unfoldable find_tracker : ℕ → List (ℕ × Tracker) → Option Tracker
  find_tracker id [] = none
  find_tracker id ((k, t) ∷ rest) =
      let other = find_tracker id rest in if k == id then some t else other

  -- The map holds pointers: what is queued is seen by all who have the tracker.
  unfoldable queue_at : (ℕ → Tracker → Tracker) → ℕ → ℕ → List (ℕ × Tracker) → List (ℕ × Tracker)
  queue_at queue id n [] = []
  queue_at queue id n ((k, t) ∷ rest) =
      let others = queue_at queue id n rest in
      if k == id then (k, queue n t) ∷ rest else (k, t) ∷ others

  abbrev or_new :
      (ℕ → Tracker) → ℕ → ℕ → List (ℕ × Tracker) → Option Tracker → Tracker × List (ℕ × Tracker)
  or_new new id n trackers (some t) = (t, trackers)
  or_new new id n trackers none = (new n, (id, new n) ∷ trackers)

  unfoldable get_tracker : (ℕ → Tracker) → ℕ → ℕ → List (ℕ × Tracker) → Tracker × List (ℕ × Tracker)
  get_tracker new id n trackers = or_new new id n trackers (find_tracker id trackers)

  unfoldable notify_new_message :
      (ℕ → Tracker → Tracker) → ℕ → ℕ → List (ℕ × Tracker) → List (ℕ × Tracker)
  notify_new_message queue id n trackers = queue_at queue id n trackers
