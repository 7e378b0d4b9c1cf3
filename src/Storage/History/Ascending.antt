-- ===== src/Storage/History/Ascending.antt =====
-- UIDs ascend: what a mailbox hands out is never handed out again.
use ghostmail.Prelude.{
  ℕ, suc, ◌≤◌, ◌<◌, Bool, true, false, Option, some, List, [], ◌∷◌, ◌≡◌, ◌≢◌, refl, sym, ◌∙◌, ◌⊎◌,
  inl, arith, if◌then◌else◌, Bytes, All, All-append, All-map,
}
use mathlib.Core.Path.{subst}
use ghostmail.Result.{no_rows, ok}
use ghostmail.Sql.{Db}
use ghostmail.Sql.Gives.{
  Gives, Gives-pure, Gives-or_raise, Gives-query, Gives-exec, Gives-statement, Gives-bind,
  Gives-rollback, ReturnsIn, ReturnsIn-guard,
}
use ghostmail.Sql.Keeps.{
  Keeps, HoldsAfter, HoldsAfter-guard, Keeps-exec, Keeps-statement, keeps_rules,
}
use ghostmail.Sql.Rows.{find, delete, All-update, All-delete}
use ghostmail.Storage.Schema.{Tables, Mailbox, Message}
use ghostmail.Storage.Mailboxes.{
  has_id, next_uid, append_mailbox, insert_mailbox, create_mailbox, delete_mailbox, delete_messages,
}
use ghostmail.Storage.Messages.{
  append_message, insert_message, store_message, update_flags, delete_message, move_row, relocate,
  move_message, delete_expired_messages,
}
use ghostmail.Storage.Uids.{UidsInRange, Allocated, bump_uid, next_uid-Allocated}
use ghostmail.Storage.History.{
  Call, creates, drops, stores, moves, flags, deletes, expires, perform, run, run-Keeps,
}

-- The mailbox of that id, if it is there, hands out `k` or more.
pub record Floor (id k : ℕ) (t : Tables) : Type 0 where
  pub known : id ≤ t.last_mailbox
  pub floor : All (λ b. (b.id ≢ id) ⊎ (k ≤ b.uid_next)) t.mailboxes

module _ (id k : ℕ) where
  abbrev Above : Mailbox → Type 0
  Above b = (b.id ≢ id) ⊎ (k ≤ b.uid_next)

  bump_uid-Floor : (dest : ℕ) (t : Tables) → Floor id k t → Floor id k (bump_uid dest t)
  bump_uid-Floor dest t v = record {
    known = v.known;
    floor = All-update Above _ _ t.mailboxes (λ b p. ground arith) v.floor;
  }

  next_uid-Floor : (dest : ℕ) → Keeps (Floor id k) (next_uid dest)
  unfolding next_uid
  next_uid-Floor dest = search (keeps_rules, Keeps-exec, bump_uid-Floor) depth 12

  insert_message-Floor :
      (msg : Message) (t : Tables) → Floor id k t → HoldsAfter (Floor id k) (insert_message msg t)
  unfolding insert_message
  insert_message-Floor msg t v =
      let kept : Floor id k (append_message msg t) = record { known = v.known; floor = v.floor } in
      search (HoldsAfter-guard, kept)

  store_message-Floor : (msg : Message) → Keeps (Floor id k) (store_message msg)
  unfolding store_message
  store_message-Floor msg =
      search (keeps_rules, next_uid-Floor, Keeps-statement, insert_message-Floor)

  relocate-Floor :
      (m dest uid : ℕ) (t : Tables) → Floor id k t → HoldsAfter (Floor id k) (relocate m dest uid t)
  unfolding relocate
  relocate-Floor m dest uid t v =
      let kept : Floor id k (move_row m dest uid t) = record { known = v.known; floor = v.floor } in
      search (HoldsAfter-guard, kept)

  move_message-Floor : (m dest : ℕ) → Keeps (Floor id k) (move_message m dest)
  unfolding move_message
  move_message-Floor m dest = search (keeps_rules, next_uid-Floor, Keeps-statement, relocate-Floor)

  delete_messages-Floor :
      (p : Message → Bool) (t : Tables) → Floor id k t → Floor id k (delete_messages p t)
  unfolding delete_messages
  delete_messages-Floor p t v = record { known = v.known; floor = v.floor }

  delete_message-Floor : (m : ℕ) → Keeps (Floor id k) (delete_message m)
  unfolding delete_message
  delete_message-Floor m = Keeps-exec _ (delete_messages-Floor _)

  delete_expired_messages-Floor : (now : ℕ) → Keeps (Floor id k) (delete_expired_messages now)
  unfolding delete_expired_messages
  delete_expired_messages-Floor now = Keeps-statement _ (delete_messages-Floor _)

  update_flags-Floor : (m : ℕ) (text : Bytes) → Keeps (Floor id k) (update_flags m text)
  unfolding update_flags
  update_flags-Floor m text = Keeps-exec _ (λ t v. record { known = v.known; floor = v.floor })

  if-Floor :
      (b : Bool) (t u : Tables) → Floor id k t → Floor id k u → Floor id k (if b then t else u)
  if-Floor true t u ht hu = ht
  if-Floor false t u ht hu = hu

  without_mailbox-Floor :
      (b : ℕ) (t : Tables)
      → Floor id k t
      → Floor id k (record t { mailboxes = delete (has_id b) t.mailboxes })
  without_mailbox-Floor b t v = record {
    known = v.known;
    floor = All-delete Above _ t.mailboxes v.floor;
  }

  delete_mailbox-Floor : (b : ℕ) → Keeps (Floor id k) (delete_mailbox b)
  unfolding delete_mailbox
  delete_mailbox-Floor b = Keeps-exec _ λ t v.
      if-Floor t.foreign_keys _ _ (delete_messages-Floor _ _ (without_mailbox-Floor b t v))
        (without_mailbox-Floor b t v)

  append_mailbox-Floor : (b : Mailbox) (t : Tables) → Floor id k t → Floor id k (append_mailbox b t)
  append_mailbox-Floor b t v = record {
    known = omega (arith, v.known);
    floor = All-append Above t.mailboxes _ v.floor (inl (omega (arith, v.known)), tt);
  }

  insert_mailbox-Floor :
      (b : Mailbox) (t : Tables) → Floor id k t → HoldsAfter (Floor id k) (insert_mailbox b t)
  unfolding insert_mailbox
  insert_mailbox-Floor b t v =
      let kept = append_mailbox-Floor b t v in search (HoldsAfter-guard, kept)

  create_mailbox-Floor : (b : Mailbox) → Keeps (Floor id k) (create_mailbox b)
  unfolding create_mailbox
  create_mailbox-Floor b = Keeps-statement _ (insert_mailbox-Floor b)

  perform-Floor : (c : Call) → Keeps (Floor id k) (perform c)
  unfolding perform
  perform-Floor (creates b) = search (keeps_rules, create_mailbox-Floor)
  perform-Floor (drops b) = delete_mailbox-Floor b
  perform-Floor (stores msg) = search (keeps_rules, store_message-Floor)
  perform-Floor (moves m dest) = move_message-Floor m dest
  perform-Floor (flags m text) = update_flags-Floor m text
  perform-Floor (deletes m) = delete_message-Floor m
  perform-Floor (expires now) = search (keeps_rules, delete_expired_messages-Floor)

  found-Floor :
      (b : Mailbox) (bs : List Mailbox)
      → find (has_id id) bs ≡ some b
      → All Above bs
      → k ≤ b.uid_next
  unfolding find
  found-Floor b [] e h = cc
  found-Floor b (c ∷ bs) e (p, h) = ground (arith, found-Floor b bs)

  abbrev FloorFound : Option Mailbox → Tables → Type 0
  FloorFound o t = All Above t.mailboxes × (find (has_id id) t.mailboxes ≡ o)

  -- A UID that is handed out lies at or above the floor.
  next_uid_above : Gives (Floor id k) (next_uid id) (λ uid t. k ≤ uid)
  unfolding next_uid
  next_uid_above = Gives-rollback _ (
      Gives-bind {Q = λ _. Floor id k} _ _ (Gives-query _ (λ t v. v)) λ _.
        Gives-bind {Q = FloorFound} _ _ (Gives-query _ (λ t v. (v.floor, refl))) λ o.
          Gives-bind {Q = λ b. FloorFound (some b)} _ _
            (Gives-or_raise no_rows o (λ t b e h. (h.0, h.1 ∙ e)))
            λ b.
              Gives-bind {Q = λ _ t. k ≤ b.uid_next} _ _
                (Gives-exec _ (λ t h. found-Floor b t.mailboxes h.1 h.0))
                λ _.
                  Gives-bind {Q = λ _ t. k ≤ b.uid_next} _ _ (Gives-query _ (λ t v. v))
                    λ _. Gives-pure b.uid_next (λ t v. v))

-- What holds of the appended row's tables holds of what the INSERT returns.
insert_message_returns :
    (Q : Tables → Type 0) (msg : Message) (t : Tables)
    → Q (append_message msg t)
    → ReturnsIn (λ (id : ℕ). Q) (insert_message msg t)
unfolding insert_message
insert_message_returns Q msg t h = search (ReturnsIn-guard, h)

Allocated-Floor : (id uid : ℕ) (t : Tables) → Allocated id uid t → Floor id (suc uid) t
Allocated-Floor id uid t a = record {
  known = a.known;
  floor = All-map _ (Above id (suc uid)) t.mailboxes (λ b p. ground arith) a.next;
}

-- A stored message raises its mailbox's floor above its UID.
store_message-Floor_self :
    (msg : Message) → Gives UidsInRange (store_message msg) (λ r. Floor msg.mailbox_id (suc r.1))
unfolding store_message
store_message-Floor_self msg = Gives-bind _ _ (next_uid-Allocated msg.mailbox_id) λ uid.
    Gives-bind {Q = λ _. Floor msg.mailbox_id (suc uid)} _ _
      (Gives-statement _ (λ t a.
        let f = Allocated-Floor msg.mailbox_id uid t a in
        insert_message_returns _ (record msg { uid = uid }) t
          (record { known = f.known; floor = f.floor })))
      λ id. Gives-pure (id, uid) (λ t h. h)

store_message_above :
    (msg : Message) (k : ℕ) → Gives (Floor msg.mailbox_id k) (store_message msg) (λ r t. k ≤ r.1)
unfolding store_message
store_message_above msg k = Gives-bind _ _ (next_uid_above msg.mailbox_id k) λ uid.
    Gives-bind {Q = λ _ t. k ≤ uid} _ _
      (Gives-statement _
        (λ t h. insert_message_returns (λ _. k ≤ uid) (record msg { uid = uid }) t h))
      λ id. Gives-pure (id, uid) (λ t h. h)

-- Of two messages stored in one mailbox the later has the greater UID, whatever calls come between,
-- deletes included, and whichever statements the engine fails.
pub store_message_ascending :
    (first second : Message) (between : List Call) (db : Db Tables) (i u j v : ℕ)
    → UidsInRange db.tables
    → second.mailbox_id ≡ first.mailbox_id
    → (store_message first db).0 ≡ ok (i, u)
    → (store_message second (run between (store_message first db).1)).0 ≡ ok (j, v)
    → u < v
store_message_ascending first second between db i u j v h same e e' =
    let raised = (store_message-Floor_self first).on_ok db (i, u) h e in
    let lasting = run-Keeps _ (perform-Floor first.mailbox_id (suc u)) between _ raised in
    (store_message_above second (suc u)).on_ok _ (j, v)
      (subst (λ id. Floor id (suc u) (run between (store_message first db).1).tables) (sym same)
        lasting)
      e'
