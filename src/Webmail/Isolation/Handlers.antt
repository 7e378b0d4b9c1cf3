-- ===== src/Webmail/Isolation/Handlers.antt =====
-- Reading, flagging, moving and deleting through the webmail leave the messages of other users alone.
use ghostmail.Prelude.{ℕ, Option, none, some, ◌==◌, any, Bytes, ◌≡◌, ◌≢◌}
use ghostmail.Sql.{Sql, ◌>>=◌}
use ghostmail.Sql.Gives.{Gives-raise, Gives-pure, Gives-if, Gives, Gives-wrapping, Gives-bind}
use ghostmail.Sql.Keeps.{
  Keeps-lift, Keeps, Keeps-pure, Keeps-bind, Keeps-ignoring, Keeps-wrapping, keeps_rules,
}
use ghostmail.Sql.Leads.{Keeps-bind_gives}
use ghostmail.Storage.Schema.{Tables, Mailbox, Message}
use ghostmail.Storage.Mailboxes.{get_mailbox}
use ghostmail.Storage.Kept.{Other}
use ghostmail.Webmail.{require_mailbox, json_error}
use ghostmail.Webmail.Sessions.{WebSession}
use ghostmail.Webmail.Mailboxes.{Formats}
use ghostmail.Webmail.Messages.{
  find_message, mark_read, check_owner, handle_get_message, FlagsRequest, handle_update_flags,
  handle_move_message, delete_for_good, discard, handle_delete_message,
}
use ghostmail.Webmail.Isolation.{
  IsForeign, Leads-given, list_mailboxes-Apart, list_mailboxes-IsForeign, require_mailbox-Gives,
  require_mailbox-IsForeign, find_message-Other, find_message-IsForeign,
}
use ghostmail.Webmail.Isolation.Operations.{
  move_message-IsForeign, update_flags-IsForeign, delete_message-IsForeign,
  delete_search_tokens-IsForeign,
}

module _ (m : Message) (user_id : ℕ) where
  mark_read-IsForeign : (x : Message) → Other m x → Keeps (IsForeign m user_id) (mark_read x)
  unfolding mark_read
  mark_read-IsForeign x other =
      let marked = λ (flags : Bytes). update_flags-IsForeign m user_id x flags other in
      search (keeps_rules, marked) depth 10

  -- What a handler does with the message of a mailbox that is not the foreign one.
  found-IsForeign :
      {A : Type 0} (id uid : ℕ) (f : Message → Sql Tables A)
      → m.mailbox_id ≢ id
      → ((x : Message) → Other m x → Keeps (IsForeign m user_id) (f x))
      → Keeps (IsForeign m user_id) (find_message id uid >>= f)
  found-IsForeign id uid f away k =
      Keeps-bind_gives {Q = λ x _. Other m x} _ f (find_message-IsForeign m user_id id uid)
        (find_message-Other m user_id id uid away) (λ x. Leads-given (f x) (k x))

  -- What follows the check of the mailbox.
  owned-IsForeign :
      {A : Type 0} (id : ℕ) (check : Sql Tables (Unit {0})) (f : Unit {0} → Sql Tables A)
      → Keeps (IsForeign m user_id) check
      → Gives (IsForeign m user_id) check (λ _ _. m.mailbox_id ≢ id)
      → (m.mailbox_id ≢ id → Keeps (IsForeign m user_id) (f tt))
      → Keeps (IsForeign m user_id) (check >>= f)
  owned-IsForeign id check f kept gives k =
      Keeps-bind_gives {Q = λ _ _. m.mailbox_id ≢ id} check f kept gives (λ u. Leads-given (f u) k)

  module _ (sess : WebSession) (own : sess.user_id ≡ user_id) (id uid : ℕ) where
    module _ (env : Formats) where
      check_owner-Gives :
          Gives (IsForeign m user_id) (check_owner env sess id) (λ _ _. m.mailbox_id ≢ id)
      unfolding check_owner json_error
      check_owner-Gives = rw own (
          Gives-bind _ _ (Gives-wrapping _ _ (list_mailboxes-Apart m user_id)) λ bs.
            Gives-if (any (λ mb. mb.id == id) bs) _ _ (λ e. Gives-pure tt (λ t apart. apart id e))
              (λ e. Gives-raise _))

      check_owner-IsForeign : Keeps (IsForeign m user_id) (check_owner env sess id)
      unfolding check_owner json_error
      check_owner-IsForeign = rw own (search (keeps_rules, list_mailboxes-IsForeign) depth 10)

      pub handle_get_message-IsForeign :
          Keeps (IsForeign m user_id) (handle_get_message env sess id uid)
      unfolding handle_get_message json_error
      handle_get_message-IsForeign = Keeps-bind _ _ (search keeps_rules) λ u.
          owned-IsForeign id (check_owner env sess id) _ check_owner-IsForeign check_owner-Gives
            λ away. found-IsForeign id uid _ away λ x other.
              Keeps-bind _ _ (Keeps-lift _)
                λ text. Keeps-bind _ _ (mark_read-IsForeign x other) λ flags. Keeps-pure _

    -- What a handler does after the check of its mailbox.
    required-IsForeign :
        {A : Type 0} (f : Unit {0} → Sql Tables A)
        → (m.mailbox_id ≢ id → Keeps (IsForeign m user_id) (f tt))
        → Keeps (IsForeign m user_id) (require_mailbox sess.user_id id >>= f)
    required-IsForeign f k =
        owned-IsForeign id _ f (rw own (require_mailbox-IsForeign m user_id id))
          (rw own (require_mailbox-Gives m user_id id)) k

    pub handle_update_flags-IsForeign :
        (body : Option FlagsRequest)
        → Keeps (IsForeign m user_id) (handle_update_flags sess id uid body)
    unfolding handle_update_flags
    handle_update_flags-IsForeign body = required-IsForeign _ λ away.
        found-IsForeign id uid _ away λ x other.
          let set = λ (flags : Bytes). update_flags-IsForeign m user_id x flags other in
          search (keeps_rules, set) depth 12

    pub handle_move_message-IsForeign :
        (body : Option Bytes) → Keeps (IsForeign m user_id) (handle_move_message sess id uid body)
    unfolding handle_move_message get_mailbox
    handle_move_message-IsForeign body = required-IsForeign _ λ away.
        Keeps-bind _ _ (search keeps_rules) λ destination.
          Keeps-bind _ _ (search keeps_rules) λ found.
            Keeps-bind _ _ (search keeps_rules) λ dest_mb.
              found-IsForeign id uid _ away
                λ x other. Keeps-wrapping _ _ (move_message-IsForeign m user_id x dest_mb.id other)

    delete_for_good-IsForeign :
        (x : Message) → Other m x → Keeps (IsForeign m user_id) (delete_for_good x)
    unfolding delete_for_good
    delete_for_good-IsForeign x other =
        Keeps-bind _ _ (Keeps-ignoring _ _ (delete_search_tokens-IsForeign m user_id x.id))
          λ u. Keeps-wrapping _ _ (delete_message-IsForeign m user_id x other)

    discard-IsForeign :
        (x : Message) (name : Bytes) (trash : Option Mailbox)
        → Other m x
        → Keeps (IsForeign m user_id) (discard x id name trash)
    discard-IsForeign x name none other = delete_for_good-IsForeign x other
    discard-IsForeign x name (some trash) other =
        let gone = delete_for_good-IsForeign x other in
        let moved = move_message-IsForeign m user_id x trash.id other in
        search (keeps_rules, gone, moved) depth 8

    pub handle_delete_message-IsForeign :
        Keeps (IsForeign m user_id) (handle_delete_message sess id uid)
    unfolding handle_delete_message
    handle_delete_message-IsForeign = required-IsForeign _ λ away.
        found-IsForeign id uid _ away λ x other.
          Keeps-bind _ _ (rw own (Keeps-ignoring _ _ (list_mailboxes-IsForeign m user_id)))
            λ mailboxes. discard-IsForeign x _ _ other
