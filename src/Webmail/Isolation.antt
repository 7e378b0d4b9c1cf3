-- ===== src/Webmail/Isolation.antt =====
-- The handlers of internal/webmail/api_message.go on one message touch no message of another user.
pub mod Operations
pub mod Handlers
pub mod Requests
use ghostmail.Prelude.{
  ℕ, Bool, true, false, Option, none, some, List, [], ◌∷◌, ◌==◌, any, Bytes, ◌≡◌, ◌≢◌, refl, arith,
  All, Bool-cases, inl, inr, if◌then◌else◌,
}
use ghostmail.Result.{Error}
use ghostmail.Sql.{Sql, pure, ◌>>=◌}
use ghostmail.Sql.Gives.{
  Gives, Gives-query, Gives-wrapping, Gives-or_raise, Gives-bind, Gives-ignoring, Gives-if,
  Gives-pure, Gives-raise,
}
use ghostmail.Sql.Keeps.{
  Keeps, HoldsAfter, Keeps-pure, Keeps-exec, Keeps-statement, Keeps-bind, Keeps-query,
  Keeps-ignoring, Keeps-wrapping, keeps_rules,
}
use ghostmail.Sql.Leads.{Leads, Keeps-bind_gives}
use ghostmail.Sql.Rows.{select, find, All-select, All-order_by_text, update}
use ghostmail.Sql.Members.{Has, find-Has, Has-All, All-updated}
use ghostmail.Storage.Schema.{Tables, Mailbox, Message}
use ghostmail.Storage.Mailboxes.{has_id, list_mailboxes, get_mailbox, next_uid, take_uid}
use ghostmail.Storage.Messages.{has_uid, get_message}
use ghostmail.Storage.SearchIndex.{delete_search_tokens}
use ghostmail.Storage.Kept.{
  IsKept, Other, delete_message-IsKept, update_flags-IsKept, move_message-IsKept,
}
use ghostmail.Webmail.{json_error, user_owns_mailbox, require_mailbox}
use ghostmail.Webmail.Sessions.{WebSession}
use ghostmail.Webmail.Messages.{find_message}

-- A rest that needs a fact, after a method that gives it.
Leads-given :
    {T A : Type 0} {P : T → Type 0} {C : Type 0} (m : Sql T A)
    → (C → Keeps P m)
    → Leads (λ t. P t × C) m P
Leads-given m k = record { at = λ db h. (k h.1).at db h.0 }

module _ (m : Message) (user_id : ℕ) where
  -- The message is kept, and its mailbox is not the user's.
  pub record IsForeign (t : Tables) : Type 0 where
    pub kept : IsKept m t
    pub foreign : All (λ b. b.id ≡ m.mailbox_id → b.user_id ≢ user_id) t.mailboxes

  -- Of a list of the user's mailboxes none is the message's.
  none_owned :
      (bs : List Mailbox)
      → All (λ b. b.user_id ≡ user_id) bs
      → All (λ b. b.id ≡ m.mailbox_id → b.user_id ≢ user_id) bs
      → (id : ℕ) → any (λ b. b.id == id) bs ≡ true
      → m.mailbox_id ≢ id
  none_owned [] own away id e same = ground arith
  none_owned (b ∷ bs) (o, own) (a, away) id e same = elim (Bool-cases (b.id == id)) [
    | inl hit ↦ a (ground arith) o
    | inr miss ↦ none_owned bs own away id (ground arith) same
  ]

  -- No mailbox of the list is the message's.
  abbrev pub Apart : List Mailbox → Type 0
  Apart bs = (id : ℕ) → any (λ b. b.id == id) bs ≡ true → m.mailbox_id ≢ id

  select_own :
      (bs : List Mailbox) → All (λ b. b.user_id ≡ user_id) (select (λ b. b.user_id == user_id) bs)
  unfolding select
  select_own [] = tt
  select_own (b ∷ bs) = elim (Bool-cases (b.user_id == user_id)) [
    | inl own ↦ rw own (ground arith, select_own bs)
    | inr other ↦ rw other (select_own bs)
  ]

  pub list_mailboxes-Apart : Gives IsForeign (list_mailboxes user_id) (λ bs t. Apart bs)
  unfolding list_mailboxes
  list_mailboxes-Apart = Gives-query _ λ t v.
      let own = select (λ b. b.user_id == user_id) t.mailboxes in
      none_owned _ (All-order_by_text _ (λ b. b.name) own (select_own t.mailboxes))
        (All-order_by_text _ (λ b. b.name) own (All-select _ _ t.mailboxes v.foreign))

  list_mailboxes-IsForeign : Keeps IsForeign (list_mailboxes user_id)
  unfolding list_mailboxes
  list_mailboxes-IsForeign = Keeps-query _

  user_owns_mailbox-Gives :
      (id : ℕ)
      → Gives IsForeign (user_owns_mailbox user_id id) (λ b t. b ≡ true → m.mailbox_id ≢ id)
  unfolding user_owns_mailbox
  user_owns_mailbox-Gives id =
      Gives-bind _ _
        (Gives-ignoring [] (list_mailboxes user_id) (λ t i e same. ground arith)
          list_mailboxes-Apart)
        (λ bs. Gives-pure _ (λ t apart. apart id))

  pub require_mailbox-Gives :
      (id : ℕ) → Gives IsForeign (require_mailbox user_id id) (λ u t. m.mailbox_id ≢ id)
  unfolding require_mailbox json_error
  require_mailbox-Gives id =
      Gives-bind _ _ (user_owns_mailbox-Gives id)
        (λ b. Gives-if b _ _ (λ e. Gives-pure tt (λ t k. k e)) (λ e. Gives-raise _))

  require_mailbox-IsForeign : (id : ℕ) → Keeps IsForeign (require_mailbox user_id id)
  unfolding require_mailbox user_owns_mailbox json_error
  require_mailbox-IsForeign id = search (keeps_rules, list_mailboxes-IsForeign) depth 10

  find_message-Other :
      (id uid : ℕ) → m.mailbox_id ≢ id → Gives IsForeign (find_message id uid) (λ x t. Other m x)
  unfolding find_message get_message
  find_message-Other id uid away =
      Gives-bind {Q = λ o t. (x : Message) → o ≡ some x → Other m x} _ _
        (Gives-wrapping _ _
          (Gives-query _ (λ t v x e. other x (find-Has (has_uid id uid) x t.messages e) v)))
        (λ o. Gives-or_raise _ o (λ t x e h. h x e))
    where
      other :
          {t : Tables} (x : Message)
          → Has x t.messages × (has_uid id uid x ≡ true)
          → IsForeign t
          → Other m x
      other x (there, fits) v = elim (Bool-cases (m.id == x.id)) [
        | inr differs ↦ differs
        | inl hit ↦ absurd (away (in_it (Has-All _ x _ there v.kept.alone (ground arith))))
      ]
        where
          in_it : x ≡ m → m.mailbox_id ≡ id
          in_it same = rw same at (mailbox fits)
            where
              mailbox : has_uid id uid x ≡ true → x.mailbox_id ≡ id
              mailbox fits = ground arith

  find_message-IsForeign : (id uid : ℕ) → Keeps IsForeign (find_message id uid)
  unfolding find_message get_message
  find_message-IsForeign id uid = search keeps_rules depth 8
