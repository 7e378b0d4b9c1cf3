-- ===== src/Storage/Queue.antt =====
-- internal/storage/queue.go
use ghostmail.Prelude.{
  ℕ, suc, ◌+◌, Bool, true, false, ◌&&◌, List, [], ◌∷◌, ◌++◌, ◌==◌, ltb, leb, take, Bytes,
}
use ghostmail.Result.{ok}
use ghostmail.Sql.{Sql, statement, query, exec}
use ghostmail.Sql.Rows.{select, update, delete, count, order_by}
use ghostmail.Storage.Schema.{Tables, QueueItem, QueueStatus, pending, sending, sent, failed, unix}

abbrev pub is_pending : QueueItem → Bool
is_pending i = elim i.status [ pending ↦ true | _ ↦ false ]

abbrev is_sent : QueueItem → Bool
is_sent i = elim i.status [ sent ↦ true | _ ↦ false ]

abbrev pub has_item_id : ℕ → QueueItem → Bool
has_item_id id i = i.id == id

abbrev new_item : Bytes → Bytes → Bytes → ℕ → ℕ → QueueItem
new_item sender recipient text now id = record {
  id = id;
  from_addr = sender;
  to_addr = recipient;
  message_data = text;
  attempts = 0;
  next_retry_at = unix now;
  last_error = [];
  created_at = unix now;
  status = pending;
}

abbrev pub append_item : Bytes → Bytes → Bytes → ℕ → Tables → Tables
append_item sender recipient text now t = record t {
  send_queue = t.send_queue ++ new_item sender recipient text now (suc t.last_item) ∷ [];
  last_item = suc t.last_item;
}

unfoldable pub enqueue_message : Bytes → Bytes → Bytes → ℕ → Sql Tables (Unit {0})
enqueue_message sender recipient text now = exec (append_item sender recipient text now)

-- Due, and not with another worker.
unfoldable pub is_due : ℕ → QueueItem → Bool
is_due now i = is_pending i && leb i.next_retry_at (unix now)

unfoldable pub dequeue_messages : ℕ → ℕ → Sql Tables (List QueueItem)
dequeue_messages limit now =
    query λ t. take limit (order_by (λ i. i.next_retry_at) (select (is_due now) t.send_queue))

abbrev pub with_status : QueueStatus → QueueItem → QueueItem
with_status s i = record i { status = s }

abbrev pub update_item : ℕ → (QueueItem → QueueItem) → Tables → Tables
update_item id f t = record t { send_queue = update (has_item_id id) f t.send_queue }

unfoldable pub mark_sending : ℕ → Sql Tables (Unit {0})
mark_sending id = exec (update_item id (with_status sending))

unfoldable pub mark_sent : ℕ → Sql Tables (Unit {0})
mark_sent id = exec (update_item id (with_status sent))

abbrev pub retried : Bytes → ℕ → QueueItem → QueueItem
retried last_error next_retry i = record i {
  status = pending;
  attempts = i.attempts + 1;
  last_error = last_error;
  next_retry_at = unix next_retry;
}

unfoldable pub mark_failed : ℕ → Bytes → ℕ → Sql Tables (Unit {0})
mark_failed id last_error next_retry = exec (update_item id (retried last_error next_retry))

abbrev pub buried : Bytes → QueueItem → QueueItem
buried last_error i = record i {
  status = failed;
  last_error = last_error;
  attempts = i.attempts + 1;
}

unfoldable pub mark_dead_letter : ℕ → Bytes → Sql Tables (Unit {0})
mark_dead_letter id last_error = exec (update_item id (buried last_error))

unfoldable delete_queue_item : ℕ → Sql Tables (Unit {0})
delete_queue_item id = exec (λ t. record t { send_queue = delete (has_item_id id) t.send_queue })

unfoldable pub queue_size : Sql Tables ℕ
queue_size = query (λ t. count is_pending t.send_queue)

abbrev is_old_sent : ℕ → QueueItem → Bool
is_old_sent older_than i = is_sent i && ltb i.created_at (unix older_than)

unfoldable clean_sent_messages : ℕ → Sql Tables ℕ
clean_sent_messages older_than = statement λ t. ok (
  count (is_old_sent older_than) t.send_queue,
  record t { send_queue = delete (is_old_sent older_than) t.send_queue },
)
