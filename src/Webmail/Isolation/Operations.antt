-- ===== src/Webmail/Isolation/Operations.antt =====
-- What the methods that the handlers call do with the message of another user.
use ghostmail.Prelude.{ℕ, List, [], ◌∷◌, ◌++◌, Bytes, ◌≡◌, ◌≢◌, All, if_both}
use ghostmail.Sql.{Sql}
use ghostmail.Sql.Keeps.{
  Keeps, HoldsAfter, HoldsAfter-guard, Keeps-exec, Keeps-statement, Keeps-bind, keeps_rules,
}
use ghostmail.Sql.Rows.{update}
use ghostmail.Storage.Schema.{Tables, Mailbox, Message, TokenRow}
use ghostmail.Storage.Mailboxes.{has_id, take_uid, next_uid, delete_messages}
use ghostmail.Storage.Messages.{
  insert_message, store_message, update_flags, delete_message, relocate, move_message,
}
use ghostmail.Storage.Queue.{enqueue_message}
use ghostmail.Storage.SearchIndex.{
  SearchToken, token_row, insert_token, insert_tokens, store_search_tokens, delete_search_tokens,
}
use ghostmail.Storage.Kept.{
  IsKept, Other, delete_message-IsKept, update_flags-IsKept, move_message-IsKept,
  store_message-IsKept,
}
use ghostmail.Webmail.Isolation.{IsForeign}

module _ (m : Message) (user_id : ℕ) where
  abbrev Away : Tables → Type 0
  Away t = All (λ b. b.id ≡ m.mailbox_id → b.user_id ≢ user_id) t.mailboxes

  both_kept :
      {A : Type 0} (s : Sql Tables A)
      → Keeps (IsKept m) s
      → Keeps Away s
      → Keeps (IsForeign m user_id) s
  both_kept s k a = record {
    at = λ db v. record { kept = k.at db v.kept; foreign = a.at db v.foreign };
  }

  take_uid-Away :
      (id : ℕ) (bs : List Mailbox)
      → All (λ b. b.id ≡ m.mailbox_id → b.user_id ≢ user_id) bs
      → All (λ b. b.id ≡ m.mailbox_id → b.user_id ≢ user_id) (update (has_id id) take_uid bs)
  unfolding update
  take_uid-Away id [] h = tt
  take_uid-Away id (b ∷ bs) (h, hs) = (
    if_both (λ (c : Mailbox). c.id ≡ m.mailbox_id → c.user_id ≢ user_id) (has_id id b) (λ _. h)
        (λ _. h),
    take_uid-Away id bs hs,
  )

  next_uid-Away : (id : ℕ) → Keeps Away (next_uid id)
  unfolding next_uid
  next_uid-Away id = search (keeps_rules, Keeps-exec, taken) depth 12
    where
      taken :
          (t : Tables)
          → Away t
          → Away (record t { mailboxes = update (has_id id) take_uid t.mailboxes })
      taken t h = take_uid-Away id t.mailboxes h

  insert_message-Away : (x : Message) (t : Tables) → Away t → HoldsAfter Away (insert_message x t)
  unfolding insert_message
  insert_message-Away x t h = search (HoldsAfter-guard, h)

  store_message-Away : (x : Message) → Keeps Away (store_message x)
  unfolding store_message
  store_message-Away x =
      search (keeps_rules, next_uid-Away, Keeps-statement, insert_message-Away) depth 12

  pub store_message-IsForeign : (x : Message) → Keeps (IsForeign m user_id) (store_message x)
  store_message-IsForeign x = both_kept _ (store_message-IsKept m x) (store_message-Away x)

  relocate-Away : (id dest uid : ℕ) (t : Tables) → Away t → HoldsAfter Away (relocate id dest uid t)
  unfolding relocate
  relocate-Away id dest uid t h = search (HoldsAfter-guard, h)

  move_message-Away : (id dest : ℕ) → Keeps Away (move_message id dest)
  unfolding move_message
  move_message-Away id dest =
      search (keeps_rules, next_uid-Away, Keeps-statement, relocate-Away) depth 12

  pub move_message-IsForeign :
      (x : Message) (dest : ℕ) → Other m x → Keeps (IsForeign m user_id) (move_message x.id dest)
  move_message-IsForeign x dest other =
      both_kept _ (move_message-IsKept m x dest other) (move_message-Away x.id dest)

  pub update_flags-IsForeign :
      (x : Message) (flags : Bytes)
      → Other m x
      → Keeps (IsForeign m user_id) (update_flags x.id flags)
  update_flags-IsForeign x flags other =
      both_kept _ (update_flags-IsKept m x flags other)
        (unfold update_flags in Keeps-exec _ (λ t h. h))

  pub delete_message-IsForeign :
      (x : Message) → Other m x → Keeps (IsForeign m user_id) (delete_message x.id)
  delete_message-IsForeign x other =
      both_kept _ (delete_message-IsKept m x other)
        (unfold delete_message delete_messages in Keeps-exec _ (λ t h. h))

  -- Tables whose messages and mailboxes are the same.
  same_rows :
      (t : Tables)
      → IsForeign m user_id t
      → (tokens : List TokenRow) → IsForeign m user_id (record t { search_tokens = tokens })
  same_rows t v tokens = record {
    kept = record { there = v.kept.there; alone = v.kept.alone; known = v.kept.known };
    foreign = v.foreign;
  }

  pub delete_search_tokens-IsForeign :
      (id : ℕ) → Keeps (IsForeign m user_id) (delete_search_tokens id)
  unfolding delete_search_tokens
  delete_search_tokens-IsForeign id = Keeps-exec _ (λ t v. same_rows t v _)

  insert_tokens-IsForeign :
      (id : ℕ) (tokens : List SearchToken) → Keeps (IsForeign m user_id) (insert_tokens id tokens)
  unfolding insert_tokens insert_token
  insert_tokens-IsForeign id [] = search keeps_rules
  insert_tokens-IsForeign id (tok ∷ tokens) =
      Keeps-bind _ _
        (Keeps-statement _ (λ t v.
          let added = same_rows t v (t.search_tokens ++ token_row id tok ∷ []) in
          search (HoldsAfter-guard, added)))
        (λ u. insert_tokens-IsForeign id tokens)

  pub store_search_tokens-IsForeign :
      (id : ℕ) (tokens : List SearchToken)
      → Keeps (IsForeign m user_id) (store_search_tokens id tokens)
  unfolding store_search_tokens
  store_search_tokens-IsForeign id [] = search keeps_rules
  store_search_tokens-IsForeign id (tok ∷ tokens) =
      search (keeps_rules, insert_tokens-IsForeign) depth 12

  pub enqueue_message-IsForeign :
      (sender recipient text : Bytes) (now : ℕ)
      → Keeps (IsForeign m user_id) (enqueue_message sender recipient text now)
  unfolding enqueue_message
  enqueue_message-IsForeign sender recipient text now = Keeps-exec _ λ t v. record {
    kept = record { there = v.kept.there; alone = v.kept.alone; known = v.kept.known };
    foreign = v.foreign;
  }
