-- ===== src/Imap/Uids.antt =====
-- The commands of a session keep the UIDs in range, whatever the engine fails.
use ghostmail.Prelude.{
  ℕ, suc, Bool, ◌&&◌, Option, List, [], ◌∷◌, Bytes, ◌≡◌, ◌≢◌, refl, All, All-map, if◌then◌else◌,
  Bool-cases, inl, inr,
}
use ghostmail.Result.{disconnected}
use ghostmail.Sql.{Sql, pure, raise, ◌>>=◌}
use ghostmail.Sql.Keeps.{
  Keeps, HoldsAfter, HoldsAfter-guard, Keeps-pure, Keeps-exec, Keeps-statement, Keeps-bind,
  keeps_rules,
}
use ghostmail.Sql.Rows.{update, All-update}
use ghostmail.Storage.Schema.{Tables, User, Mailbox, Message}
use ghostmail.Storage.Mailboxes.{has_id, get_mailbox, mailbox_message_count}
use ghostmail.Storage.Messages.{list_messages}
use ghostmail.Storage.Uids.{Under, DistinctIds, UidsInRange}
use ghostmail.Storage.Uids.Operations.{
  store_message-UidsInRange, delete_message-UidsInRange, update_flags-UidsInRange,
  delete_mailbox-UidsInRange, create_mailbox-UidsInRange,
}
use ghostmail.Imap.Session.{Session}
use ghostmail.Imap.Mailboxes.{
  authenticated, named_mailbox, create, delete, with_name, rename_row, set_name, rename,
  with_subscribed, set_subscribed, AppendEnv, append,
}
use ghostmail.Imap.Fetch.{
  StoreFlags, NumSet, FetchOptions, FetchEnv, mark_seen, fetch_each, fetch, store_each, store,
}
use ghostmail.Imap.Moving.{
  expunge_each, expunge, copied, copy_each, copy, Order, remove_each, expunge_source, move,
  is_deleted, in_uids,
}
use ghostmail.Crypto.Primitives.{Primitives}

-- An UPDATE of a column that is neither the id nor uid_next.
module _ (f : Mailbox → Mailbox) (same : (b : Mailbox) → (f b).id ≡ b.id) where
  id-updated : (p : Mailbox → Bool) (b : Mailbox) → (if p b then f b else b).id ≡ b.id
  id-updated p b = elim (Bool-cases (p b)) [ inl e ↦ rw e (same b) | inr e ↦ rw e refl ]

  ids-updated :
      (p : Mailbox → Bool) (c : ℕ) (bs : List Mailbox)
      → All (λ b. b.id ≢ c) bs
      → All (λ b. b.id ≢ c) (update p f bs)
  ids-updated p c bs h = All-update _ p f bs (λ b k. rw (same b) k) h

  DistinctIds-updated :
      (p : Mailbox → Bool) (last : ℕ) (bs : List Mailbox)
      → DistinctIds last bs
      → DistinctIds last (update p f bs)
  unfolding update
  DistinctIds-updated p last [] h = tt
  DistinctIds-updated p last (b ∷ bs) (k, q, h) =
      rw (id-updated p b) (k, ids-updated p b.id bs q, DistinctIds-updated p last bs h)

rename_row-UidsInRange :
    (id : ℕ) (name : Bytes) (t : Tables) → UidsInRange t → UidsInRange (rename_row id name t)
rename_row-UidsInRange id name t v = record {
  placed =
      All-map _ _ t.messages
        (λ m p. (p.0, All-update (Under m) (has_id id) (with_name name) t.mailboxes (λ b k. k) p.1))
        v.placed;
  distinct = DistinctIds-updated (with_name name) (λ b. refl) (has_id id) _ t.mailboxes v.distinct;
}

set_name-UidsInRange :
    (mb : Mailbox) (name : Bytes) (t : Tables)
    → UidsInRange t
    → HoldsAfter UidsInRange (set_name mb name t)
unfolding set_name
set_name-UidsInRange mb name t v =
    let kept = rename_row-UidsInRange mb.id name t v in search (HoldsAfter-guard, kept)

subscribed-UidsInRange :
    (id : ℕ) (value : Bool) (t : Tables)
    → UidsInRange t
    → UidsInRange (record t { mailboxes = update (has_id id) (with_subscribed value) t.mailboxes })
subscribed-UidsInRange id value t v = record {
  placed =
      All-map _ _ t.messages
        (λ m p. (
          p.0,
          All-update (Under m) (has_id id) (with_subscribed value) t.mailboxes (λ b k. k) p.1,
        ))
        v.placed;
  distinct =
      DistinctIds-updated (with_subscribed value) (λ b. refl) (has_id id) _ t.mailboxes v.distinct;
}

named_mailbox-UidsInRange :
    (user : User) (name : Bytes) → Keeps UidsInRange (named_mailbox user name)
unfolding named_mailbox get_mailbox
named_mailbox-UidsInRange user name = search keeps_rules

pub create-UidsInRange :
    (s : Session) (name : Bytes) (now : ℕ) → Keeps UidsInRange (create s name now)
unfolding create authenticated
create-UidsInRange s name now = search (keeps_rules, create_mailbox-UidsInRange)

pub delete-UidsInRange : (s : Session) (name : Bytes) → Keeps UidsInRange (delete s name)
unfolding delete authenticated
delete-UidsInRange s name =
    search (keeps_rules, named_mailbox-UidsInRange, delete_mailbox-UidsInRange) depth 10

pub rename-UidsInRange :
    (s : Session) (name new_name : Bytes) → Keeps UidsInRange (rename s name new_name)
unfolding rename authenticated
rename-UidsInRange s name new_name =
    search (keeps_rules, named_mailbox-UidsInRange, Keeps-statement, set_name-UidsInRange) depth 10

pub set_subscribed-UidsInRange :
    (s : Session) (name : Bytes) (value : Bool) → Keeps UidsInRange (set_subscribed s name value)
unfolding set_subscribed authenticated
set_subscribed-UidsInRange s name value =
    search (keeps_rules, named_mailbox-UidsInRange, Keeps-exec, subscribed-UidsInRange) depth 10

pub append-UidsInRange :
    (s : Session) (name : Bytes) (env : AppendEnv) → Keeps UidsInRange (append s name env)
unfolding append authenticated mailbox_message_count
append-UidsInRange s name env =
    search (keeps_rules, named_mailbox-UidsInRange, store_message-UidsInRange) depth 12

-- A response that the client takes or not.
written-UidsInRange :
    (b : Bool) → Keeps {A = Unit {0}} UidsInRange (if b then pure tt else raise disconnected)
written-UidsInRange b = search keeps_rules

-- Two steps, then the rest of a loop, then its result.
loop-UidsInRange :
    {A B C D : Type 0} (first : Sql Tables A) (second : A → Sql Tables B)
    (others : A → B → Sql Tables C) (f : A → B → C → D)
    → Keeps UidsInRange first
    → ((a : A) → Keeps UidsInRange (second a))
    → ((a : A) (b : B) → Keeps UidsInRange (others a b))
    → Keeps UidsInRange (first >>= λ a. second a >>= λ b. others a b >>= λ c. pure (f a b c))
loop-UidsInRange first second others f k l m =
    Keeps-bind _ _ k λ a. Keeps-bind _ _ (l a) λ b. Keeps-bind _ _ (m a b) λ c. Keeps-pure _

mark_seen-UidsInRange :
    (p : Primitives) (o : FetchOptions) (m : Message) → Keeps UidsInRange (mark_seen p o m)
unfolding mark_seen
mark_seen-UidsInRange p o m = search (keeps_rules, update_flags-UidsInRange)

module _ (p : Primitives) (s : Session) where
  fetch_each-UidsInRange :
      (o : FetchOptions) (writes : ℕ → Bool) (matching : List (ℕ × Message))
      → Keeps UidsInRange (fetch_each p s o writes matching)
  unfolding fetch_each
  fetch_each-UidsInRange o writes [] = Keeps-pure _
  fetch_each-UidsInRange o writes (entry ∷ matching) =
      loop-UidsInRange _ _ _ _ (written-UidsInRange (writes entry.0))
        (λ a. mark_seen-UidsInRange p o entry.1) (λ a b. fetch_each-UidsInRange o writes matching)

  pub fetch-UidsInRange :
      (env : FetchEnv) (set : NumSet) (o : FetchOptions) → Keeps UidsInRange (fetch p s env set o)
  unfolding fetch list_messages
  fetch-UidsInRange env set o = search (keeps_rules, fetch_each-UidsInRange) depth 10

store_each-UidsInRange :
    (sf : StoreFlags) (writes : ℕ → Bool) (matching : List (ℕ × Message))
    → Keeps UidsInRange (store_each sf writes matching)
unfolding store_each
store_each-UidsInRange sf writes [] = Keeps-pure _
store_each-UidsInRange sf writes (entry ∷ matching) =
    loop-UidsInRange _ _ _ _ (update_flags-UidsInRange entry.1.id _) (λ a. written-UidsInRange _)
      (λ a b. store_each-UidsInRange sf writes matching)

pub store-UidsInRange :
    (s : Session) (env : FetchEnv) (set : NumSet) (sf : StoreFlags)
    → Keeps UidsInRange (store s env set sf)
unfolding store list_messages
store-UidsInRange s env set sf = search (keeps_rules, store_each-UidsInRange) depth 10

expunge_each-UidsInRange :
    (uids : Option (ℕ → Bool)) (writes : ℕ → Bool) (deleted : ℕ) (entries : List (ℕ × Message))
    → Keeps UidsInRange (expunge_each uids writes deleted entries)
unfolding expunge_each
expunge_each-UidsInRange uids writes deleted [] = Keeps-pure _
expunge_each-UidsInRange uids writes deleted (entry ∷ entries) =
    elim (Bool-cases (is_deleted entry.1 && in_uids uids entry.1)) [
      | inr e ↦ rw (e, expunge_each) (expunge_each-UidsInRange uids writes deleted entries)
      | inl e ↦
          rw (e, expunge_each)
            (loop-UidsInRange _ _ _ _ (delete_message-UidsInRange entry.1.id)
              (λ a. written-UidsInRange _)
              (λ a b. expunge_each-UidsInRange uids writes (suc deleted) entries))
    ]

pub expunge-UidsInRange :
    (s : Session) (uids : Option (ℕ → Bool)) (writes : ℕ → Bool)
    → Keeps UidsInRange (expunge s uids writes)
unfolding expunge list_messages
expunge-UidsInRange s uids writes = search (keeps_rules, expunge_each-UidsInRange) depth 10

copy_each-UidsInRange :
    (id : ℕ) (matching : List (ℕ × Message)) → Keeps UidsInRange (copy_each id matching)
unfolding copy_each
copy_each-UidsInRange id [] = Keeps-pure _
copy_each-UidsInRange id (entry ∷ matching) =
    Keeps-bind _ _ (store_message-UidsInRange (copied id entry.1))
      λ a. Keeps-bind _ _ (copy_each-UidsInRange id matching) λ b. Keeps-pure _

pub copy-UidsInRange :
    (s : Session) (order : Order) (set : NumSet) (dest : Bytes)
    → Keeps UidsInRange (copy s order set dest)
unfolding copy get_mailbox list_messages mailbox_message_count
copy-UidsInRange s order set dest = search (keeps_rules, copy_each-UidsInRange) depth 16

remove_each-UidsInRange :
    (writes : ℕ → Bool) (entries : List (ℕ × Message))
    → Keeps UidsInRange (remove_each writes entries)
unfolding remove_each
remove_each-UidsInRange writes [] = Keeps-pure _
remove_each-UidsInRange writes (entry ∷ entries) =
    loop-UidsInRange _ _ _ _ (delete_message-UidsInRange entry.1.id) (λ a. written-UidsInRange _)
      (λ a b. remove_each-UidsInRange writes entries)

pub move-UidsInRange :
    (s : Session) (order : Order) (set : NumSet) (dest : Bytes) (accepts : Bool) (writes : ℕ → Bool)
    → Keeps UidsInRange (move s order set dest accepts writes)
unfolding move expunge_source list_messages
move-UidsInRange s order set dest accepts writes =
    search (keeps_rules, copy-UidsInRange, remove_each-UidsInRange) depth 16
