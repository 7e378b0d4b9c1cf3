-- ===== src/Storage/Users/Creation.antt =====
-- CreateUser makes a user with the default mailboxes, or changes nothing.
use ghostmail.Prelude.{
  ℕ, true, ◌&&◌, List, [], ◌∷◌, Bytes, ◌≡◌, refl, arith, any, any-append, equal, equal_refl, ◌==◌,
  All,
}
use ghostmail.Result.{ok}
use ghostmail.Sql.{Db}
use ghostmail.Sql.Gives.{
  Gives, Gives-pure, Gives-query, Gives-statement, Gives-bind, Gives-rollback, ReturnsIn-guard,
  ReturnsIn,
}
use ghostmail.Sql.Keeps.{
  Keeps, Keeps-statement, Keeps-bind, HoldsAfter, HoldsAfter-guard, keeps_rules,
}
use ghostmail.Storage.Schema.{Tables, User, Mailbox}
use ghostmail.Storage.Mailboxes.{append_mailbox, insert_mailbox}
use ghostmail.Storage.Users.{default_mailboxes, default_mailbox, create_mailboxes, create_user}

-- The user has a mailbox of that name.
abbrev pub HasMailbox : ℕ → Bytes → Tables → Type 0
HasMailbox user_id name t =
    any (λ (b : Mailbox). (b.user_id == user_id) && equal b.name name) t.mailboxes ≡ true

-- There is a user of that id.
abbrev pub HasUser : ℕ → Tables → Type 0
HasUser id t = any (λ (u : User). u.id == id) t.users ≡ true

module _ (id now : ℕ) where
  insert_mailbox-HasMailbox :
      (b : Mailbox) (name : Bytes) (t : Tables)
      → HasMailbox id name t
      → HoldsAfter (HasMailbox id name) (insert_mailbox b t)
  unfolding insert_mailbox
  insert_mailbox-HasMailbox b name t h =
      let kept : HasMailbox id name (append_mailbox b t) = rw any-append (rw h refl) in
      search (HoldsAfter-guard, kept)

  create_mailboxes-HasMailbox :
      (name : Bytes) (mbs : List (Bytes × Bytes))
      → Keeps (HasMailbox id name) (create_mailboxes id now mbs)
  unfolding create_mailboxes
  create_mailboxes-HasMailbox name [] = search keeps_rules
  create_mailboxes-HasMailbox name (mb ∷ mbs) =
      Keeps-bind _ _ (Keeps-statement _ (insert_mailbox-HasMailbox _ name))
        (λ _. create_mailboxes-HasMailbox name mbs)

  insert_mailbox_makes :
      (mb : Bytes × Bytes) (t : Tables)
      → ReturnsIn (λ _ u. HasMailbox id mb.0 u) (insert_mailbox (default_mailbox id now mb) t)
  unfolding insert_mailbox
  insert_mailbox_makes mb t =
      let made : HasMailbox id mb.0 (append_mailbox (default_mailbox id now mb) t) =
        rw any-append (ground (arith, equal_refl mb.0)) in
      search (ReturnsIn-guard, made)

  abbrev HasMailboxes : List (Bytes × Bytes) → Tables → Type 0
  HasMailboxes mbs t = All (λ mb. HasMailbox id mb.0 t) mbs

  create_mailboxes_makes :
      (mbs : List (Bytes × Bytes))
      → Gives (λ _. Unit {0}) (create_mailboxes id now mbs) (λ _ t. HasMailboxes mbs t)
  unfolding create_mailboxes
  create_mailboxes_makes [] = Gives-pure _ (λ _ _. tt)
  create_mailboxes_makes (mb ∷ mbs) =
      Gives-bind {Q = λ _ t. HasMailbox id mb.0 t} _ _
        (Gives-statement _ (λ t _. insert_mailbox_makes mb t))
        λ _. record {
          on_ok = λ db b p e. (
            (create_mailboxes-HasMailbox mb.0 mbs).at db p,
            (create_mailboxes_makes mbs).on_ok db b tt e,
          );
        }

create_user-Gives :
    (u : User) (now : ℕ)
    → Gives
        (λ _. Unit {0})
        (create_user u now)
        (λ id t. All (λ mb. HasMailbox id mb.0 t) default_mailboxes)
unfolding create_user
create_user-Gives u now = Gives-rollback _ (
    Gives-bind {Q = λ _ _. Unit {0}} _ _ (Gives-query _ (λ _ _. tt)) λ _.
      Gives-bind {Q = λ _ _. Unit {0}} _ _ (record { on_ok = λ _ _ _ _. tt })
        λ id.
          Gives-bind {Q = λ _ t. HasMailboxes id now default_mailboxes t} _ _
            (create_mailboxes_makes id now default_mailboxes)
            λ _.
              Gives-bind {Q = λ _ t. HasMailboxes id now default_mailboxes t} _ _
                (Gives-query _ (λ t h. h)) λ _. Gives-pure id (λ t h. h))

-- If CreateUser returns an id, whatever statements the engine fails, that user has an INBOX and the
-- four other default mailboxes.
pub create_user-HasMailboxes :
    (u : User) (now : ℕ) (db : Db Tables) (id : ℕ)
    → (create_user u now db).0 ≡ ok id
    → All (λ mb. HasMailbox id mb.0 (create_user u now db).1.tables) default_mailboxes
create_user-HasMailboxes u now db id e = (create_user-Gives u now).on_ok db id tt e
