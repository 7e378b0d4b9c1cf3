-- ===== src/Storage/Uids/Accounts.antt =====
-- Creating and deleting users keeps the UIDs in range, whatever the engine fails.
use ghostmail.Prelude.{ℕ, List, [], ◌∷◌, Bytes, ◌==◌, any, All-map}
use ghostmail.Sql.Keeps.{
  Keeps, HoldsAfter, HoldsAfter-guard, Keeps-pure, Keeps-exec, Keeps-statement, Keeps-bind,
  keeps_rules,
}
use ghostmail.Sql.Rows.{select, All-delete}
use ghostmail.Storage.Schema.{Tables, User, Mailbox}
use ghostmail.Storage.Mailboxes.{delete_messages}
use ghostmail.Storage.Users.{
  append_user, insert_user, default_mailbox, create_mailboxes, create_user, cascade_user,
  delete_user,
}
use ghostmail.Storage.Uids.{Under, UidsInRange}
use ghostmail.Storage.Uids.Operations.{
  delete_messages-UidsInRange, DistinctIds-delete, insert_mailbox-UidsInRange, if-UidsInRange,
}

insert_user-UidsInRange :
    (u : User) (now : ℕ) (t : Tables) → UidsInRange t → HoldsAfter UidsInRange (insert_user u now t)
unfolding insert_user
insert_user-UidsInRange u now t v =
    let kept : UidsInRange (append_user u now t) = record {
      placed = v.placed;
      distinct = v.distinct;
    } in
    search (HoldsAfter-guard, kept)

create_mailboxes-UidsInRange :
    (user_id now : ℕ) (mbs : List (Bytes × Bytes))
    → Keeps UidsInRange (create_mailboxes user_id now mbs)
unfolding create_mailboxes
create_mailboxes-UidsInRange user_id now [] = Keeps-pure tt
create_mailboxes-UidsInRange user_id now (mb ∷ mbs) =
    Keeps-bind _ _ (Keeps-statement _ (insert_mailbox-UidsInRange (default_mailbox user_id now mb)))
      (λ id. create_mailboxes-UidsInRange user_id now mbs)

pub create_user-UidsInRange : (u : User) (now : ℕ) → Keeps UidsInRange (create_user u now)
unfolding create_user
create_user-UidsInRange u now =
    search (keeps_rules, Keeps-statement, insert_user-UidsInRange, create_mailboxes-UidsInRange)
      depth 12

cascade_user-UidsInRange : (id : ℕ) (t : Tables) → UidsInRange t → UidsInRange (cascade_user id t)
unfolding delete_messages
cascade_user-UidsInRange id t v =
    let gone = select (λ (b : Mailbox). b.user_id == id) t.mailboxes in
    let less =
      delete_messages-UidsInRange (λ m. any (λ (b : Mailbox). m.mailbox_id == b.id) gone) t v in
    record {
      placed = All-map _ _ _ (λ m p. (p.0, All-delete (Under m) _ t.mailboxes p.1)) less.placed;
      distinct = DistinctIds-delete t.last_mailbox _ t.mailboxes v.distinct;
    }

users-UidsInRange :
    (us : List User) (t : Tables) → UidsInRange t → UidsInRange (record t { users = us })
users-UidsInRange us t v = record { placed = v.placed; distinct = v.distinct }

pub delete_user-UidsInRange : (id : ℕ) → Keeps UidsInRange (delete_user id)
unfolding delete_user
delete_user-UidsInRange id = Keeps-exec _ λ t v.
    users-UidsInRange _ _ (if-UidsInRange t.foreign_keys _ _ (cascade_user-UidsInRange id t v) v)
