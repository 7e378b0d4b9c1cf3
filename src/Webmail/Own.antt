-- ===== src/Webmail/Own.antt =====
-- What the webmail shows of a store: only messages in mailboxes of the session's user.
use ghostmail.Prelude.{
  ◌∙◌, ℕ, true, Option, some, List, [], ◌∷◌, ◌==◌, any, Bytes, ◌≡◌, refl, arith, All, Bool-cases,
  inl, inr,
}
use ghostmail.Result.{ok}
use ghostmail.Sql.{Db}
use ghostmail.Sql.Gives.{
  Gives, Gives-query, Gives-wrapping, Gives-or_raise, Gives-bind, Gives-if, Gives-pure, Gives-raise,
  Gives-from, Gives-lift,
}
use ghostmail.Sql.Keeps.{Keeps-Gives, keeps_rules}
use ghostmail.Sql.Members.{Has, find-Has}
use ghostmail.Storage.Schema.{Tables, Mailbox, Message}
use ghostmail.Storage.Messages.{has_uid, get_message}
use ghostmail.Webmail.{json_error}
use ghostmail.Webmail.Sessions.{WebSession}
use ghostmail.Webmail.Mailboxes.{Formats}
use ghostmail.Webmail.Messages.{
  FullMessage, plaintext_for, full_message, find_message, check_owner, handle_get_message,
}
use ghostmail.Webmail.Search.{Found, SearchRequest, handle_search}
use ghostmail.Webmail.Owned.{
  Owned, AllOwned, Holds, Gives-both, list_mailboxes-AllOwned, list_mailboxes-Holds,
}
use ghostmail.Webmail.Owned.Results.{IsOwn, handle_search-IsOwn}

-- The reply shows the stored message of that mailbox and that UID, and the mailbox is the user's.
pub record IsReadFrom (env : Formats) (sess : WebSession) (stored : Tables) (id uid : ℕ)
    (reply : FullMessage) : Type 0 where
  pub msg : Message
  pub there : Has msg stored.messages
  pub in_box : msg.mailbox_id ≡ id
  pub at_uid : msg.uid ≡ uid
  pub owned : Owned stored.mailboxes sess.user_id id
  pub text : Bytes
  pub opened : plaintext_for env msg sess.keys ≡ ok text
  pub flags : Bytes
  pub shown : reply ≡ full_message env msg text flags
  pub named : reply.uid ≡ uid

module _ (env : Formats) (sess : WebSession) (stored : Tables) where
  any-AllOwned :
      (id : ℕ) (mbs : List Mailbox)
      → AllOwned stored sess.user_id mbs
      → any (λ mb. mb.id == id) mbs ≡ true
      → Owned stored.mailboxes sess.user_id id
  any-AllOwned id [] own e = ground arith
  any-AllOwned id (mb ∷ mbs) (o, own) e = elim (Bool-cases (mb.id == id)) [
    | inl hit ↦ let same : mb.id ≡ id = ground arith in rw same at o
    | inr miss ↦ any-AllOwned id mbs own (ground arith)
  ]

  full_message-uid :
      (msg : Message) (text flags : Bytes) → (full_message env msg text flags).uid ≡ msg.uid
  unfolding full_message
  full_message-uid msg text flags = refl

  check_owner-Owned :
      (id : ℕ)
      → Gives
          (Holds stored sess.user_id)
          (check_owner env sess id)
          (λ u t. Owned stored.mailboxes sess.user_id id × Holds stored sess.user_id t)
  unfolding check_owner json_error
  check_owner-Owned id =
      Gives-bind {Q = λ mbs t. AllOwned stored sess.user_id mbs × Holds stored sess.user_id t} _ _
        (Gives-wrapping _ _ (
          Gives-both _ (list_mailboxes-AllOwned stored sess.user_id) (
            Keeps-Gives {R = Holds stored sess.user_id} _ (list_mailboxes-Holds stored sess.user_id)
              (λ t h. h) (λ a t h. h))))
        λ mbs.
          Gives-if (any (λ mb. mb.id == id) mbs) _ _
            (λ e. Gives-pure tt (λ t h. (any-AllOwned id mbs h.0 e, h.1))) (λ e. Gives-raise _)

  abbrev IsAt : ℕ → ℕ → Message → Type 0
  IsAt id uid x = Has x stored.messages × (x.mailbox_id ≡ id) × (x.uid ≡ uid)

  find_message-IsAt :
      (id uid : ℕ) → Gives (Holds stored sess.user_id) (find_message id uid) (λ x t. IsAt id uid x)
  unfolding find_message get_message
  find_message-IsAt id uid =
      Gives-bind {Q = λ o t. (x : Message) → o ≡ some x → IsAt id uid x} _ _
        (Gives-wrapping _ _ (
          Gives-query _ λ t h x e.
            let (there, fits) = find-Has (has_uid id uid) x t.messages e in
            (rw h at there, ground arith, ground arith)))
        (λ o. Gives-or_raise _ o (λ t x e h. h x e))

  handle_get_message-IsReadFrom :
      (id uid : ℕ)
      → Gives
          (Holds stored sess.user_id)
          (handle_get_message env sess id uid)
          (λ reply t. IsReadFrom env sess stored id uid reply)
  unfolding handle_get_message json_error
  handle_get_message-IsReadFrom id uid =
      Gives-bind {Q = λ o t. Holds stored sess.user_id t} _ _
        (Keeps-Gives {R = Holds stored sess.user_id} _ (search keeps_rules) (λ t h. h) (λ a t h. h))
        λ u.
          Gives-bind
            {Q = λ u t. Owned stored.mailboxes sess.user_id id × Holds stored sess.user_id t} _ _
            (check_owner-Owned id)
            λ u.
              Gives-from {R = Holds stored sess.user_id} _ (λ t h. h)
                λ own. Gives-bind _ _ (find_message-IsAt id uid) λ msg.
                  Gives-from _ (λ t here. (here, tt))
                    λ here.
                      Gives-bind {Q = λ text t. plaintext_for env msg sess.keys ≡ ok text} _ _
                        (Gives-lift _ (λ t a e h. e))
                        λ text.
                          Gives-from _ (λ t e. (e, tt))
                            λ opened.
                              Gives-bind {Q = λ flags t. Unit {0}} _ _
                                (Keeps-Gives {R = λ t. Unit {0}} _ (record { at = λ db h. tt })
                                  (λ t h. h) (λ a t h. h))
                                λ flags.
                                  Gives-pure _
                                    (λ t h. read_from id uid msg text flags own here opened)
    where
      read_from :
          (id uid : ℕ) (msg : Message) (text flags : Bytes)
          → Owned stored.mailboxes sess.user_id id
          → IsAt id uid msg
          → plaintext_for env msg sess.keys ≡ ok text
          → IsReadFrom env sess stored id uid (full_message env msg text flags)
      read_from id uid msg text flags own here opened = record {
        msg = msg;
        there = here.0;
        in_box = here.1;
        at_uid = here.2;
        owned = own;
        text = text;
        opened = opened;
        flags = flags;
        shown = refl;
        named = full_message-uid msg text flags ∙ here.2;
      }

-- If a search and the reading of a message succeed, over stores and under faults of their own, then every
-- result of the search, whatever its query and filter, has the UID and the mailbox of a stored message
-- whose mailbox the store has under the session's user; and the message read is shown from the stored
-- message of the requested mailbox and UID, as the session's keys open it, and that mailbox is the
-- user's too.
pub handlers-IsOwn :
    (env : Formats) (sess : WebSession) (body : Option SearchRequest) (id uid : ℕ)
    (db db' : Db Tables) (rs : List Found) (reply : FullMessage)
    → (handle_search env sess body db).0 ≡ ok rs
    → (handle_get_message env sess id uid db').0 ≡ ok reply
    → All (IsOwn db.tables sess.user_id) rs × IsReadFrom env sess db'.tables id uid reply
handlers-IsOwn env sess body id uid db db' rs reply searched read = (
  (handle_search-IsOwn env sess db.tables body).on_ok db rs refl searched,
  (handle_get_message-IsReadFrom env sess db'.tables id uid).on_ok db' reply refl read,
)
