-- ===== src/Storage/Uids/Operations.antt =====
-- Every operation on mailboxes and messages keeps the UIDs in range, whatever the engine fails.
use ghostmail.Prelude.{
  ℕ, suc, Bool, true, false, List, [], ◌∷◌, ◌++◌, ◌≡◌, ◌≢◌, refl, inl, inr, arith, if◌then◌else◌,
  Bytes, Bool-cases, All-append, All-map,
}
use ghostmail.Sql.Keeps.{
  Keeps, HoldsAfter, HoldsAfter-guard, Keeps-exec, Keeps-statement, keeps_rules,
}
use ghostmail.Sql.Leads.{Keeps-bind_gives, Leads-statement, Leads-bind}
use ghostmail.Sql.Rows.{delete, All-delete, All-update}
use ghostmail.Storage.Schema.{Tables, Mailbox, Message}
use ghostmail.Storage.Mailboxes.{
  has_id, in_mailbox, append_mailbox, insert_mailbox, create_mailbox, delete_mailbox,
  delete_messages,
}
use ghostmail.Storage.Messages.{
  has_message_id, append_message, insert_message, store_message, update_flags, with_flags,
  delete_message, move_to, move_row, relocate, move_message, delete_expired_messages, is_expired,
}
use ghostmail.Storage.Uids.{
  Under, IsPlaced, DistinctIds, UidsInRange, Allocated, next_uid-UidsInRange, next_uid-Allocated,
}

-- A message under the UID that was handed out for its mailbox lies in range.
Allocated-IsPlaced :
    (m : Message) (t : Tables)
    → Allocated m.mailbox_id m.uid t
    → IsPlaced t.last_mailbox t.mailboxes m
Allocated-IsPlaced m t a = (a.known, All-map _ (Under m) t.mailboxes (λ b p. ground arith) a.next)

append_message-UidsInRange :
    (msg : Message) (t : Tables)
    → UidsInRange t
    → Allocated msg.mailbox_id msg.uid t
    → UidsInRange (append_message msg t)
append_message-UidsInRange msg t v a = record {
  placed =
      All-append (IsPlaced t.last_mailbox t.mailboxes) t.messages _ v.placed
        (Allocated-IsPlaced msg t a, tt);
  distinct = v.distinct;
}

insert_message-UidsInRange :
    (msg : Message) (t : Tables)
    → UidsInRange t
    → Allocated msg.mailbox_id msg.uid t
    → HoldsAfter UidsInRange (insert_message msg t)
unfolding insert_message
insert_message-UidsInRange msg t v a =
    let added = append_message-UidsInRange msg t v a in search (HoldsAfter-guard, added)

pub store_message-UidsInRange : (msg : Message) → Keeps UidsInRange (store_message msg)
unfolding store_message
store_message-UidsInRange msg =
    Keeps-bind_gives _ _ (next_uid-UidsInRange msg.mailbox_id) (next_uid-Allocated msg.mailbox_id)
      λ uid.
        Leads-bind _ _
          (Leads-statement _ (λ t h. h.0)
            (λ t h. insert_message-UidsInRange (record msg { uid = uid }) t h.0 h.1))
          (λ id. search keeps_rules)

move_row-UidsInRange :
    (id dest uid : ℕ) (t : Tables)
    → UidsInRange t
    → Allocated dest uid t
    → UidsInRange (move_row id dest uid t)
move_row-UidsInRange id dest uid t v a = record {
  placed =
      All-update (IsPlaced t.last_mailbox t.mailboxes) (has_message_id id) (move_to dest uid)
        t.messages (λ m p. Allocated-IsPlaced (move_to dest uid m) t a) v.placed;
  distinct = v.distinct;
}

relocate-UidsInRange :
    (id dest uid : ℕ) (t : Tables)
    → UidsInRange t
    → Allocated dest uid t
    → HoldsAfter UidsInRange (relocate id dest uid t)
unfolding relocate
relocate-UidsInRange id dest uid t v a =
    let moved = move_row-UidsInRange id dest uid t v a in search (HoldsAfter-guard, moved)

pub move_message-UidsInRange : (id dest : ℕ) → Keeps UidsInRange (move_message id dest)
unfolding move_message
move_message-UidsInRange id dest =
    Keeps-bind_gives _ _ (next_uid-UidsInRange dest) (next_uid-Allocated dest)
      λ uid. Leads-statement _ (λ t h. h.0) (λ t h. relocate-UidsInRange id dest uid t h.0 h.1)

pub delete_messages-UidsInRange :
    (p : Message → Bool) (t : Tables) → UidsInRange t → UidsInRange (delete_messages p t)
unfolding delete_messages
delete_messages-UidsInRange p t v = record {
  placed = All-delete _ p t.messages v.placed;
  distinct = v.distinct;
}

pub delete_message-UidsInRange : (id : ℕ) → Keeps UidsInRange (delete_message id)
unfolding delete_message
delete_message-UidsInRange id = Keeps-exec _ (delete_messages-UidsInRange (has_message_id id))

pub delete_expired_messages-UidsInRange :
    (now : ℕ) → Keeps UidsInRange (delete_expired_messages now)
unfolding delete_expired_messages
delete_expired_messages-UidsInRange now =
    Keeps-statement _ (delete_messages-UidsInRange (is_expired now))

pub update_flags-UidsInRange : (id : ℕ) (flags : Bytes) → Keeps UidsInRange (update_flags id flags)
unfolding update_flags
update_flags-UidsInRange id flags = Keeps-exec _ λ t v. record {
  placed =
      All-update (IsPlaced t.last_mailbox t.mailboxes) (has_message_id id) (with_flags flags)
        t.messages (λ m p. p) v.placed;
  distinct = v.distinct;
}

pub DistinctIds-delete :
    (last : ℕ) (p : Mailbox → Bool) (bs : List Mailbox)
    → DistinctIds last bs
    → DistinctIds last (delete p bs)
unfolding delete
DistinctIds-delete last p [] h = tt
DistinctIds-delete last p (b ∷ bs) (k, q, h) = elim (Bool-cases (p b)) [
  | inl e ↦ rw e (DistinctIds-delete last p bs h)
  | inr e ↦ rw e (k, All-delete _ p bs q, DistinctIds-delete last p bs h)
]

without_mailbox-UidsInRange :
    (id : ℕ) (t : Tables)
    → UidsInRange t
    → UidsInRange (record t { mailboxes = delete (has_id id) t.mailboxes })
without_mailbox-UidsInRange id t v = record {
  placed = All-map _ _ t.messages (λ m p. (p.0, All-delete _ _ t.mailboxes p.1)) v.placed;
  distinct = DistinctIds-delete t.last_mailbox (has_id id) t.mailboxes v.distinct;
}

pub if-UidsInRange :
    (b : Bool) (t u : Tables) → UidsInRange t → UidsInRange u → UidsInRange (if b then t else u)
if-UidsInRange true t u ht hu = ht
if-UidsInRange false t u ht hu = hu

pub delete_mailbox-UidsInRange : (id : ℕ) → Keeps UidsInRange (delete_mailbox id)
unfolding delete_mailbox
delete_mailbox-UidsInRange id = Keeps-exec _ λ t v.
    if-UidsInRange t.foreign_keys _ _
      (delete_messages-UidsInRange (in_mailbox id) _ (without_mailbox-UidsInRange id t v))
      (without_mailbox-UidsInRange id t v)

DistinctIds-append :
    (last : ℕ) (bs : List Mailbox) (b : Mailbox)
    → b.id ≡ suc last
    → DistinctIds last bs
    → DistinctIds (suc last) (bs ++ b ∷ [])
DistinctIds-append last [] b e h = (omega arith, tt, tt)
DistinctIds-append last (c ∷ bs) b e (k, q, h) = (
  omega arith,
  All-append (λ a. a.id ≢ c.id) bs (b ∷ []) q (omega arith, tt),
  DistinctIds-append last bs b e h,
)

append_mailbox-UidsInRange :
    (b : Mailbox) (t : Tables) → UidsInRange t → UidsInRange (append_mailbox b t)
append_mailbox-UidsInRange b t v =
    let added : Mailbox = record b { id = suc t.last_mailbox } in
    record {
      placed =
          All-map _ (IsPlaced (suc t.last_mailbox) (t.mailboxes ++ added ∷ [])) t.messages
            (λ m p. (
              omega (arith, p.0),
              All-append (Under m) t.mailboxes (added ∷ []) p.1 (inl (omega (arith, p.0)), tt),
            ))
            v.placed;
      distinct = DistinctIds-append t.last_mailbox t.mailboxes added refl v.distinct;
    }

pub insert_mailbox-UidsInRange :
    (b : Mailbox) (t : Tables) → UidsInRange t → HoldsAfter UidsInRange (insert_mailbox b t)
unfolding insert_mailbox
insert_mailbox-UidsInRange b t v =
    let added = append_mailbox-UidsInRange b t v in search (HoldsAfter-guard, added)

pub create_mailbox-UidsInRange : (b : Mailbox) → Keeps UidsInRange (create_mailbox b)
unfolding create_mailbox
create_mailbox-UidsInRange b = Keeps-statement _ (insert_mailbox-UidsInRange b)
