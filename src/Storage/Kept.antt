-- ===== src/Storage/Kept.antt =====
-- A message that stays in the table as it is, whatever is done with messages of other ids.
use ghostmail.Prelude.{ℕ, ◌≤◌, false, List, Bytes, ◌≡◌, arith, All, All-map, All-append, if_both}
use ghostmail.Sql.Keeps.{
  Keeps, HoldsAfter-guard, HoldsAfter, Keeps-exec, Keeps-statement, Keeps-bind, keeps_rules,
}
use ghostmail.Sql.Rows.{All-delete}
use ghostmail.Sql.Members.{Has, Has-append, Has-update, Has-delete, All-updated}
use ghostmail.Storage.Schema.{Tables, Mailbox, Message}
use ghostmail.Storage.Mailboxes.{delete_messages, next_uid}
use ghostmail.Storage.Messages.{
  move_to, move_row, move_message, relocate, has_message_id, append_message, insert_message,
  store_message, with_flags, update_flags, delete_message,
}

module _ (m : Message) where
  -- The row is there and is the only one of its id, which is one that was given out.
  pub record IsKept (t : Tables) : Type 0 where
    pub there : Has m t.messages
    pub alone : All (λ x. x.id ≡ m.id → x ≡ m) t.messages
    pub known : m.id ≤ t.last_message

  abbrev pub Other : Message → Type 0
  Other x = has_message_id x.id m ≡ false

  pub delete_message-IsKept : (x : Message) → Other x → Keeps IsKept (delete_message x.id)
  unfolding delete_message delete_messages
  delete_message-IsKept x other = Keeps-exec _ λ t v. record {
    there = Has-delete (has_message_id x.id) m t.messages other v.there;
    alone = All-delete _ (has_message_id x.id) t.messages v.alone;
    known = v.known;
  }

  pub update_flags-IsKept :
      (x : Message) (flags : Bytes) → Other x → Keeps IsKept (update_flags x.id flags)
  unfolding update_flags
  update_flags-IsKept x flags other = Keeps-exec _ λ t v. record {
    there = Has-update (has_message_id x.id) (with_flags flags) m t.messages other v.there;
    alone = All-updated _ (has_message_id x.id) (with_flags flags) t.messages (
        All-map _ _ t.messages
          (λ y h.
            if_both (λ k. k.id ≡ m.id → k ≡ m) (has_message_id x.id y)
              (λ hit here. absurd (ground arith)) (λ _. h))
          v.alone);
    known = v.known;
  }

  pub append_message-IsKept : (x : Message) (t : Tables) → IsKept t → IsKept (append_message x t)
  append_message-IsKept x t v = record {
    there = Has-append m t.messages _ v.there;
    alone = All-append _ t.messages _ v.alone ((λ here. absurd (omega (arith, v.known))), tt);
    known = omega (arith, v.known);
  }

  pub insert_message-IsKept :
      (x : Message) (t : Tables) → IsKept t → HoldsAfter IsKept (insert_message x t)
  unfolding insert_message
  insert_message-IsKept x t v =
      let added = append_message-IsKept x t v in search (HoldsAfter-guard, added)

  pub next_uid-IsKept : (id : ℕ) → Keeps IsKept (next_uid id)
  unfolding next_uid
  next_uid-IsKept id = search (keeps_rules, Keeps-exec, moved) depth 12
    where
      moved : (bs : List Mailbox) (t : Tables) → IsKept t → IsKept (record t { mailboxes = bs })
      moved bs t v = record { there = v.there; alone = v.alone; known = v.known }

  pub store_message-IsKept : (x : Message) → Keeps IsKept (store_message x)
  unfolding store_message
  store_message-IsKept x =
      search (keeps_rules, next_uid-IsKept, Keeps-statement, insert_message-IsKept) depth 12

  relocate-IsKept :
      (x : Message) (dest uid : ℕ) (t : Tables)
      → Other x
      → IsKept t
      → HoldsAfter IsKept (relocate x.id dest uid t)
  unfolding relocate
  relocate-IsKept x dest uid t other v =
      let moved : IsKept (move_row x.id dest uid t) = record {
        there = Has-update (has_message_id x.id) (move_to dest uid) m t.messages other v.there;
        alone = All-updated _ (has_message_id x.id) (move_to dest uid) t.messages (
            All-map _ _ t.messages
              (λ y h.
                if_both (λ k. k.id ≡ m.id → k ≡ m) (has_message_id x.id y)
                  (λ hit here. absurd (ground arith)) (λ _. h))
              v.alone);
        known = v.known;
      } in
      search (HoldsAfter-guard, moved)

  pub move_message-IsKept :
      (x : Message) (dest : ℕ) → Other x → Keeps IsKept (move_message x.id dest)
  unfolding move_message
  move_message-IsKept x dest other =
      Keeps-bind _ _ (next_uid-IsKept dest)
        (λ uid. Keeps-statement _ (λ t v. relocate-IsKept x dest uid t other v))
