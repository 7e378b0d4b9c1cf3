-- ===== src/Imap/Isolation.antt =====
-- Commands on the selected mailbox touch no message of another mailbox.
use ghostmail.Storage.Kept.{IsKept, Other, delete_message-IsKept, store_message-IsKept}
use ghostmail.Prelude.{
  ℕ, suc, Bool, true, false, ◌&&◌, Option, some, List, [], ◌∷◌, ◌==◌, Bytes, ◌≡◌, ◌≢◌, arith, All,
  All-map, Bool-cases, inl, inr,
}
use ghostmail.Result.{not_selected}
use ghostmail.Sql.{Db, Sql, pure, or_raise, ◌>>=◌}
use ghostmail.Sql.Gives.{Gives, Gives-query}
use ghostmail.Sql.Keeps.{Keeps, Keeps-pure, Keeps-bind, Keeps-query, keeps_rules}
use ghostmail.Sql.Leads.{Keeps-bind_gives}
use ghostmail.Sql.Rows.{select, All-order_by}
use ghostmail.Sql.Members.{Has, All-Has, Has-All, Has-select}
use ghostmail.Storage.Schema.{Tables, Mailbox, Message}
use ghostmail.Storage.Mailboxes.{in_mailbox, get_mailbox, mailbox_message_count}
use ghostmail.Storage.Messages.{has_message_id, list_messages}
use ghostmail.Imap.Session.{Session}
use ghostmail.Imap.Fetch.{NumSet, resolve_num_set}
use ghostmail.Imap.Entries.{reverse-All, positions-All, descending-All, resolve_from-All}
use ghostmail.Imap.Moving.{
  in_uids, is_deleted, expunge_each, expunge, copied, copy_each, Order, copy, remove_each,
  expunge_source, move,
}

module _ (m : Message) where
  -- Messages of another mailbox have other ids.
  list_messages-Other :
      (mailbox_id : ℕ)
      → m.mailbox_id ≢ mailbox_id
      → Gives (IsKept m) (list_messages mailbox_id) (λ msgs _. All (Other m) msgs)
  unfolding list_messages
  list_messages-Other mailbox_id away = Gives-query _ λ t v.
      let rows = select (in_mailbox mailbox_id) t.messages in
      All-order_by _ (λ x. x.uid) rows
        (All-map (λ x. Has x rows) (Other m) rows
          (λ x h.
            let (there, inside) = Has-select (in_mailbox mailbox_id) x t.messages h in
            differs x inside (Has-All _ x t.messages there v.alone))
          (All-Has rows))
    where
      differs :
          (x : Message)
          → in_mailbox mailbox_id x ≡ true
          → (x.id ≡ m.id → x ≡ m)
          → has_message_id x.id m ≡ false
      differs x inside alone = elim (Bool-cases (m.id == x.id)) [
        | inr other ↦ other
        | inl here ↦ let same : x ≡ m = alone (ground arith) in absurd (clash (rw same at inside))
      ]
        where
          clash : in_mailbox mailbox_id m ≡ true → ⊥
          clash inside = ground arith

  abbrev pub OtherEntry : ℕ × Message → Type 0
  OtherEntry e = Other m e.1

  expunge_each-IsKept :
      (uids : Option (ℕ → Bool)) (writes : ℕ → Bool) (deleted : ℕ) (es : List (ℕ × Message))
      → All OtherEntry es
      → Keeps (IsKept m) (expunge_each uids writes deleted es)
  unfolding expunge_each
  expunge_each-IsKept uids writes deleted [] h = Keeps-pure _
  expunge_each-IsKept uids writes deleted (e ∷ es) (h, hs) =
      elim (Bool-cases (is_deleted e.1 && in_uids uids e.1)) [
        | inr k ↦ rw (k, expunge_each) (expunge_each-IsKept uids writes deleted es hs)
        | inl k ↦
            rw (k, expunge_each)
              (Keeps-bind _ _ (delete_message-IsKept m e.1 h) λ a.
                Keeps-bind _ _ (search keeps_rules) λ b.
                  Keeps-bind _ _ (expunge_each-IsKept uids writes (suc deleted) es hs)
                    λ c. Keeps-pure _)
      ]

  pub remove_each-IsKept :
      (writes : ℕ → Bool) (es : List (ℕ × Message))
      → All OtherEntry es
      → Keeps (IsKept m) (remove_each writes es)
  unfolding remove_each
  remove_each-IsKept writes [] h = Keeps-pure _
  remove_each-IsKept writes (e ∷ es) (h, hs) = Keeps-bind _ _ (delete_message-IsKept m e.1 h) λ a.
      Keeps-bind _ _ (search keeps_rules)
        λ b. Keeps-bind _ _ (remove_each-IsKept writes es hs) λ c. Keeps-pure _

  pub copy_each-IsKept : (id : ℕ) (es : List (ℕ × Message)) → Keeps (IsKept m) (copy_each id es)
  unfolding copy_each
  copy_each-IsKept id [] = Keeps-pure _
  copy_each-IsKept id (e ∷ es) =
      Keeps-bind _ _ (store_message-IsKept m (copied id e.1))
        λ a. Keeps-bind _ _ (copy_each-IsKept id es) λ b. Keeps-pure _

  pub copy-IsKept :
      (s : Session) (order : Order) (set : NumSet) (dest : Bytes)
      → Keeps (IsKept m) (copy s order set dest)
  unfolding copy get_mailbox list_messages mailbox_message_count
  copy-IsKept s order set dest = search (keeps_rules, copy_each-IsKept) depth 16

  module _ (s : Session) (mb : Mailbox) (selected : s.selected_mailbox ≡ some mb)
      (away : m.mailbox_id ≢ mb.id) where
    -- What a command does with the messages of the selected mailbox.
    selected-IsKept :
        {B : Type 0} (f : List Message → Sql Tables B)
        → ((msgs : List Message) → All (Other m) msgs → Keeps (IsKept m) (f msgs))
        → Keeps
            (IsKept m)
            (or_raise not_selected s.selected_mailbox >>= λ b. list_messages b.id >>= f)
    unfolding or_raise pure ◌>>=◌
    selected-IsKept f k =
        let listed : Keeps (IsKept m) (list_messages mb.id >>= f) =
          Keeps-bind_gives {Q = λ msgs _. All (Other m) msgs} _ f (listing-Keeps mb.id)
            (list_messages-Other mb.id away)
            λ msgs. record { at = λ db h. (k msgs h.1).at db h.0 } in
        rw selected (record { at = λ db h. listed.at db h })
      where
        listing-Keeps : (id : ℕ) → Keeps (IsKept m) (list_messages id)
        listing-Keeps id = unfold list_messages in Keeps-query _

    expunge-IsKept :
        (uids : Option (ℕ → Bool)) (writes : ℕ → Bool) → Keeps (IsKept m) (expunge s uids writes)
    unfolding expunge
    expunge-IsKept uids writes = selected-IsKept _ (λ msgs h.
        expunge_each-IsKept uids writes 0 _ (reverse-All _ _ (positions-All (Other m) 0 msgs h)))

    pub expunge_source-IsKept :
        (set : NumSet) (writes : ℕ → Bool) → Keeps (IsKept m) (expunge_source s set writes)
    unfolding expunge_source resolve_num_set
    expunge_source-IsKept set writes = selected-IsKept _ (λ msgs h.
        remove_each-IsKept writes _ (descending-All _ _ (resolve_from-All (Other m) set 0 msgs h)))

    move-IsKept :
        (order : Order) (set : NumSet) (dest : Bytes) (accepts : Bool) (writes : ℕ → Bool)
        → Keeps (IsKept m) (move s order set dest accepts writes)
    unfolding move
    move-IsKept order set dest accepts writes = Keeps-bind _ _ (copy-IsKept s order set dest) λ a.
        Keeps-bind _ _ (search keeps_rules)
          λ b. Keeps-bind _ _ (expunge_source-IsKept set writes) λ c. Keeps-pure _

-- A message of another mailbox than the selected one, whose id is its own, is a row of the table,
-- unchanged, after EXPUNGE and after MOVE to any mailbox, whether they succeed or not and whichever
-- statements the engine fails.
pub removal-IsKept :
    (s : Session) (mb : Mailbox) (m : Message) (db : Db Tables) (uids : Option (ℕ → Bool))
    (writes : ℕ → Bool) (order : Order) (set : NumSet) (dest : Bytes) (accepts : Bool)
    → s.selected_mailbox ≡ some mb
    → m.mailbox_id ≢ mb.id
    → IsKept m db.tables
    → IsKept m (expunge s uids writes db).1.tables
      × IsKept m (move s order set dest accepts writes db).1.tables
removal-IsKept s mb m db uids writes order set dest accepts selected away h = (
  (expunge-IsKept m s mb selected away uids writes).at db h,
  (move-IsKept m s mb selected away order set dest accepts writes).at db h,
)
