-- ===== src/Imap/Copying.antt =====
-- What COPY of internal/imap/fetch.go leaves, from what its loop leaves.
use ghostmail.Prelude.{some, List, ◌==◌, ◌&&◌, equal, Bytes, ◌≡◌}
use ghostmail.Sql.{pure, ignoring, ◌>>=◌, ◌>>◌}
use ghostmail.Sql.Gives.{Gives, Gives-query, Gives-bind, Gives-from, Gives-or_raise_some}
use ghostmail.Sql.Keeps.{Keeps-Gives, keeps_rules}
use ghostmail.Sql.Rows.{find}
use ghostmail.Storage.Schema.{Tables, Mailbox, Message, User}
use ghostmail.Storage.Mailboxes.{get_mailbox, mailbox_message_count}
use ghostmail.Storage.Messages.{list_messages}
use ghostmail.Imap.Session.{Session, u32}
use ghostmail.Imap.Client.{view}
use ghostmail.Imap.Fetch.{NumSet, resolve_num_set}
use ghostmail.Imap.Moving.{copy_each, Order, CopyData, copy}

module _ (user : User) (mb dest_mb : Mailbox) (dest : Bytes) (msgs : List Message) where
  -- The mailbox of that name is there, and the messages are those of the selected one.
  pub record Lists (t : Tables) : Type 0 where
    pub destination :
        find (λ b. (b.user_id == user.id) && equal b.name dest) t.mailboxes ≡ some dest_mb
    pub listed : view mb.id t ≡ msgs

  module _ (P R : Tables → Type 0) (s : Session) (order : Order) (set : NumSet)
      (selected : s.selected_mailbox ≡ some mb) (logged_in : s.user ≡ some user)
      (copies : Gives
        (λ t. Lists t × P t)
        (copy_each dest_mb.id (order (resolve_num_set msgs set)))
        (λ _ t. R t)) where
    pub copy_gives : Gives (λ t. Lists t × P t) (copy s order set dest) (λ _ t. R t)
    unfolding copy get_mailbox list_messages mailbox_message_count
    copy_gives = Gives-or_raise_some _ _ mb _ selected (
        Gives-or_raise_some _ _ user _ logged_in (
          Gives-bind {Q = λ found t. (found ≡ some dest_mb) × (Lists t × P t)} _ _
            (Gives-query _ (λ t v. (v.0.destination, v)))
            λ found.
              Gives-from _ (λ t v. v)
                λ there. Gives-or_raise_some _ found dest_mb _ there (
                  Gives-bind {Q = λ ms t. (ms ≡ msgs) × (Lists t × P t)} _ _
                    (Gives-query _ (λ t v. (v.0.listed, v)))
                    λ ms. Gives-from _ (λ t v. v) λ same. rw same copied_all)))
      where
        copied_all :
            Gives {A = CopyData}
              (λ t. Lists t × P t)
              (copy_each dest_mb.id (order (resolve_num_set msgs set)) >>= λ uids.
                ignoring 0 (mailbox_message_count dest_mb.id)
                >> pure (record { uid_validity = u32 dest_mb.uid_validity; uids = uids }))
              (λ _ t. R t)
        copied_all =
            Gives-bind {Q = λ _ t. R t} _ _ copies
              λ uids. Keeps-Gives _ (search keeps_rules) (λ t c. c) (λ a t c. c)
