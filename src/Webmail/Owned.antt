-- ===== src/Webmail/Owned.antt =====
-- The mailboxes of a session's user, as the webmail's handlers list them.
pub mod Results
use ghostmail.Prelude.{
  ◌∙◌, not, ◌⊎◌, ℕ, true, ◌&&◌, Option, none, some, List, [], ◌∷◌, ◌==◌, any, leb, ltb, length,
  Bytes, ◌≡◌, refl, arith, All, All-map, All-append, Bool-cases, inl, inr,
}
use ghostmail.Result.{ok}
use ghostmail.Sql.{Db, Sql, ignoring}
use ghostmail.Sql.Gives.{
  Gives, Gives-query, Gives-wrapping, Gives-or_raise, Gives-bind, Gives-ignoring, Gives-if,
  Gives-pure, Gives-raise, Gives-from, Gives-lift,
}
use ghostmail.Sql.Keeps.{
  Keeps-wrapping, Keeps-ignoring, Keeps, Keeps-Gives, Keeps-query, keeps_rules,
}
use ghostmail.Sql.Rows.{select, order_by_text, All-order_by_text}
use ghostmail.Sql.Members.{Has, All-Has, Has-select, find-Has}
use ghostmail.Crypto.Service.{SessionKeys}
use ghostmail.Storage.Schema.{Tables, Mailbox, Message}
use ghostmail.Storage.Mailboxes.{list_mailboxes}
use ghostmail.Storage.Messages.{has_uid, get_message, get_message_by_id}
use ghostmail.Webmail.{json_error}
use ghostmail.Webmail.Sessions.{WebSession}
use ghostmail.Webmail.Mailboxes.{Formats}
use ghostmail.Webmail.Messages.{
  FullMessage, plaintext_for, full_message, find_message, check_owner, handle_get_message,
}
use ghostmail.Webmail.Search.{
  Found, SearchRequest, own_mailbox, admit_own, admit, with_found, collect, search_terms,
  handle_search, tokenize,
}
use ghostmail.Webmail.Effects.{search_by_tokens-Keeps}

-- One of the mailboxes has the id and is the user's.
abbrev pub Owned : List Mailbox → ℕ → ℕ → Type 0
Owned bs user_id id = any (λ b. (b.id == id) && (b.user_id == user_id)) bs ≡ true

Has-Owned :
    (b : Mailbox) (user_id : ℕ) (bs : List Mailbox)
    → Has b bs
    → b.user_id ≡ user_id
    → Owned bs user_id b.id
Has-Owned b user_id [] h own = absurd h
Has-Owned b user_id (c ∷ bs) (inl same) own = rw (← same) (ground arith)
Has-Owned b user_id (c ∷ bs) (inr h) own = ground (arith, Has-Owned b user_id bs h own)

pub Gives-both :
    {A : Type 0} {P : Tables → Type 0} {Q R : A → Tables → Type 0} (m : Sql Tables A)
    → Gives P m Q
    → Gives P m R
    → Gives P m (λ a t. Q a t × R a t)
Gives-both m g h = record { on_ok = λ db a p e. (g.on_ok db a p e, h.on_ok db a p e) }

module _ (stored : Tables) (user_id : ℕ) where
  abbrev pub AllOwned : List Mailbox → Type 0
  AllOwned = All (λ b. Owned stored.mailboxes user_id b.id)

  select-AllOwned :
      AllOwned (order_by_text (λ b. b.name) (select (λ b. b.user_id == user_id) stored.mailboxes))
  select-AllOwned =
      let rows = select (λ b. b.user_id == user_id) stored.mailboxes in
      All-order_by_text _ (λ b. b.name) rows
        (All-map (λ b. Has b rows) _ rows
          (λ b h.
            let (there, own) = Has-select (λ c. c.user_id == user_id) b stored.mailboxes h in
            Has-Owned b user_id stored.mailboxes there (ground arith))
          (All-Has rows))

  -- The tables of a request that has written nothing yet.
  abbrev pub Holds : Tables → Type 0
  Holds t = t ≡ stored

  pub list_mailboxes-AllOwned : Gives Holds (list_mailboxes user_id) (λ mbs t. AllOwned mbs)
  unfolding list_mailboxes
  list_mailboxes-AllOwned = Gives-query _ (λ t h. rw h select-AllOwned)

  pub own_mailbox-Owned :
      (id : ℕ) (mbs : List Mailbox)
      → AllOwned mbs
      → (own_mailbox id mbs ≡ none) ⊎ Owned stored.mailboxes user_id id
  unfolding own_mailbox
  own_mailbox-Owned id [] own = inl refl
  own_mailbox-Owned id (mb ∷ mbs) (o, own) = elim (own_mailbox-Owned id mbs own) [
    | inr here ↦ inr here
    | inl none_later ↦ elim (Bool-cases (mb.id == id)) [
      | inl hit ↦ let same : mb.id ≡ id = ground arith in inr (rw same at o)
      | inr miss ↦ inl (rw none_later (rw miss refl))
    ]
  ]

  pub list_mailboxes-Holds : Keeps Holds (list_mailboxes user_id)
  unfolding list_mailboxes
  list_mailboxes-Holds = Keeps-query _
