-- ===== src/Storage/Uids.antt =====
-- UIDs: the invariant behind messages.go and mailboxes.go.
pub mod Operations
pub mod Accounts
use ghostmail.Prelude.{
  ℕ, suc, ◌+◌, ◌≤◌, ◌<◌, Bool, true, false, Option, none, some, List, [], ◌∷◌, ◌++◌, ◌≡◌, ◌≢◌, refl,
  ◌∙◌, ◌⊎◌, inl, inr, arith, if◌then◌else◌, ◌==◌, ==_iff, Bool-cases, All, All-append, All-map,
}
use mathlib.Core.Path.{subst}
use ghostmail.Result.{Error, Result, ok, err, no_rows}
use ghostmail.Sql.{Db, Sql, statement, query, exec, pure, ◌>>=◌, ◌>>◌, rollback_on_error}
use ghostmail.Sql.Keeps.{
  Keeps, HoldsAfter, Keeps-exec, Keeps-query, Keeps-statement, Keeps-bind, Keeps-rollback,
  keeps_rules,
}
use ghostmail.Sql.Leads.{Keeps-bind_gives}
use ghostmail.Sql.Gives.{
  Gives, Gives-pure, Gives-or_raise, Gives-query, Gives-exec, Gives-statement, Gives-bind,
  Gives-rollback,
}
use ghostmail.Sql.Rows.{find, update, delete}
use ghostmail.Storage.Schema.{Tables, Mailbox, Message}
use ghostmail.Storage.Mailboxes.{
  has_id, in_mailbox, take_uid, next_uid, insert_mailbox, create_mailbox, delete_mailbox,
  delete_messages,
}
use ghostmail.Storage.Messages.{
  has_message_id, insert_message, store_message, update_flags, with_flags, delete_message, move_to,
  relocate, move_message, delete_expired_messages,
}

-- The message's UID lies under the next UID of the mailbox, if it is the message's.
abbrev pub Under : Message → Mailbox → Type 0
Under m b = (b.id ≢ m.mailbox_id) ⊎ (m.uid < b.uid_next)

abbrev pub IsPlaced : ℕ → List Mailbox → Message → Type 0
IsPlaced last bs m = (m.mailbox_id ≤ last) × All (Under m) bs

abbrev pub DistinctIds : ℕ → List Mailbox → Type 0
DistinctIds last [] = Unit {0}
DistinctIds last (b ∷ bs) = (b.id ≤ last) × All (λ c. c.id ≢ b.id) bs × DistinctIds last bs

-- Every UID in use lies under the next UID of its mailbox, and mailboxes have ids of their own.
pub record UidsInRange (t : Tables) : Type 0 where
  pub placed : All (IsPlaced t.last_mailbox t.mailboxes) t.messages
  pub distinct : DistinctIds t.last_mailbox t.mailboxes

-- The mailbox of that id, if it is there, hands out `suc uid` next; its messages lie below `uid`.
pub record Allocated (id uid : ℕ) (t : Tables) : Type 0 where
  pub known : id ≤ t.last_mailbox
  pub next : All (λ b. (b.id ≢ id) ⊎ (b.uid_next ≡ suc uid)) t.mailboxes
  pub above : All (λ m. (m.mailbox_id ≢ id) ⊎ (m.uid < uid)) t.messages

Under-take_uid :
    (m : Message) (id : ℕ) (bs : List Mailbox)
    → All (Under m) bs
    → All (Under m) (update (has_id id) take_uid bs)
unfolding update
Under-take_uid m id [] h = tt
Under-take_uid m id (b ∷ bs) (p, h) = (ground arith, Under-take_uid m id bs h)

ids-take_uid :
    (c id : ℕ) (bs : List Mailbox)
    → All (λ b. b.id ≢ c) bs
    → All (λ b. b.id ≢ c) (update (has_id id) take_uid bs)
unfolding update
ids-take_uid c id [] h = tt
ids-take_uid c id (b ∷ bs) (p, h) = (ground arith, ids-take_uid c id bs h)

id-take_uid : (id : ℕ) (b : Mailbox) → (if has_id id b then take_uid b else b).id ≡ b.id
id-take_uid id b = ground arith

DistinctIds-take_uid :
    (last id : ℕ) (bs : List Mailbox)
    → DistinctIds last bs
    → DistinctIds last (update (has_id id) take_uid bs)
unfolding update
DistinctIds-take_uid last id [] h = tt
DistinctIds-take_uid last id (b ∷ bs) (p, q, h) =
    rw (id-take_uid id b) (p, ids-take_uid b.id id bs q, DistinctIds-take_uid last id bs h)

abbrev pub bump_uid : ℕ → Tables → Tables
bump_uid id t = record t { mailboxes = update (has_id id) take_uid t.mailboxes }

pub bump_uid-UidsInRange : (id : ℕ) (t : Tables) → UidsInRange t → UidsInRange (bump_uid id t)
bump_uid-UidsInRange id t v = record {
  placed = All-map _ _ t.messages (λ m p. (p.0, Under-take_uid m id t.mailboxes p.1)) v.placed;
  distinct = DistinctIds-take_uid t.last_mailbox id t.mailboxes v.distinct;
}

pub next_uid-UidsInRange : (id : ℕ) → Keeps UidsInRange (next_uid id)
unfolding next_uid
next_uid-UidsInRange id = search (keeps_rules, Keeps-exec, bump_uid-UidsInRange) depth 12

-- The row that QueryRow finds is among the rows.
next-take_uid :
    (id uid : ℕ) (bs : List Mailbox)
    → All (λ b. b.id ≢ id) bs
    → All (λ b. (b.id ≢ id) ⊎ (b.uid_next ≡ suc uid)) (update (has_id id) take_uid bs)
unfolding update
next-take_uid id uid [] h = tt
next-take_uid id uid (b ∷ bs) (p, h) = (ground arith, next-take_uid id uid bs h)

-- After the update, the row that was found is the only one of its id and hands out the next UID.
found-next :
    (last id : ℕ) (bs : List Mailbox) (b : Mailbox)
    → DistinctIds last bs
    → find (has_id id) bs ≡ some b
    → (id ≤ last)
      × All (λ c. (c.id ≢ id) ⊎ (c.uid_next ≡ suc b.uid_next)) (update (has_id id) take_uid bs)
unfolding update find
found-next last id [] b h e = cc
found-next last id (c ∷ bs) b (p, q, h) e = elim (Bool-cases (c.id == id)) [
  | inl hit ↦
      let same = (==_iff c.id id).0 hit in
      let first : b ≡ c = ground arith in
      (
        omega arith,
        (
          rw (hit, first) (inr (omega arith)),
          next-take_uid id b.uid_next bs (subst (λ k. All (λ a. a.id ≢ k) bs) same q),
        ),
      )
  | inr miss ↦
      let (known, rest) = found-next last id bs b h (ground arith) in (known, (ground arith, rest))
]

found-above :
    (id : ℕ) (bs : List Mailbox) (b : Mailbox) (m : Message)
    → find (has_id id) bs ≡ some b
    → All (Under m) bs
    → (m.mailbox_id ≢ id) ⊎ (m.uid < b.uid_next)
unfolding find
found-above id [] b m e h = cc
found-above id (c ∷ bs) b m e (p, h) = ground (arith, found-above id bs b m)

found-Allocated :
    (id : ℕ) (b : Mailbox) (t : Tables)
    → UidsInRange t
    → find (has_id id) t.mailboxes ≡ some b
    → Allocated id b.uid_next (bump_uid id t)
found-Allocated id b t v e =
    let (known, next) = found-next t.last_mailbox id t.mailboxes b v.distinct e in
    record {
      known = known;
      next = next;
      above = All-map _ _ t.messages (λ m p. found-above id t.mailboxes b m e p.1) v.placed;
    }

abbrev Found : ℕ → Option Mailbox → Tables → Type 0
Found id o t = UidsInRange t × (find (has_id id) t.mailboxes ≡ o)

-- The UID that NextUID returns lies above those in use, and is not handed out again.
pub next_uid-Allocated : (id : ℕ) → Gives UidsInRange (next_uid id) (Allocated id)
unfolding next_uid
next_uid-Allocated id = Gives-rollback _ (
    Gives-bind {Q = λ _. UidsInRange} _ _ (Gives-query _ (λ t v. v)) λ _.
      Gives-bind {Q = Found id} _ _ (Gives-query _ (λ t v. (v, refl))) λ o.
        Gives-bind {Q = λ b. Found id (some b)} _ _
          (Gives-or_raise no_rows o (λ t b e h. (h.0, h.1 ∙ e)))
          λ b.
            Gives-bind {Q = λ _. Allocated id b.uid_next} _ _
              (Gives-exec _ (λ t h. found-Allocated id b t h.0 h.1))
              λ _.
                Gives-bind {Q = λ _. Allocated id b.uid_next} _ _ (Gives-query _ (λ t v. v))
                  λ _. Gives-pure b.uid_next (λ t v. v))
