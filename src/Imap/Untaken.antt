-- ===== src/Imap/Untaken.antt =====
-- MOVE of internal/imap/fetch.go: the messages that its set does not name.
use ghostmail.Prelude.{
  ℕ, suc, ◌+◌, Bool, false, some, List, [], ◌∷◌, ◌++◌, ◌==◌, ◌≡◌, ◌≢◌, refl, ap, sym, ◌∙◌, arith,
  All, Bool-cases, ◌⊎◌, inl, inr,
}
use ghostmail.Sql.{or_raise, pure, ◌>>=◌}
use ghostmail.Sql.Gives.{Gives-query}
use ghostmail.Sql.Keeps.{
  Keeps, Keeps-pure, Keeps-bind, Keeps-exec, Keeps-statement, Keeps-query, HoldsAfter,
  HoldsAfter-guard, keeps_rules,
}
use ghostmail.Sql.Leads.{Leads, Leads-bind_gives}
use ghostmail.Sql.Rows.{select, order_by}
use ghostmail.Sql.Members.{Has}
use ghostmail.Storage.Kept.{IsKept}
use ghostmail.Storage.Schema.{Tables, Mailbox, Message}
use ghostmail.Storage.Mailboxes.{in_mailbox, next_uid}
use ghostmail.Storage.Messages.{append_message, insert_message, store_message, list_messages}
use ghostmail.Imap.Session.{Session, u32}
use ghostmail.Imap.Client.{view}
use ghostmail.Imap.Entries.{descending-All}
use ghostmail.Imap.Fetch.{NumSet, in_set, resolve_from, resolve_num_set}
use ghostmail.Imap.Moving.{copied, copy_each, remove_each, expunge_source, descending}
use ghostmail.Imap.Isolation.{OtherEntry, remove_each-IsKept}

-- Rows of another mailbox do not show.
select-append_other :
    {A : Type 0} (p : A → Bool) (xs : List A) (x : A)
    → p x ≡ false
    → select p (xs ++ x ∷ []) ≡ select p xs
unfolding select
select-append_other p [] x e = rw e refl
select-append_other p (y ∷ ys) x e = ground (arith, select-append_other p ys x e)

module _ (mailbox_id : ℕ) (msgs : List Message) where
  abbrev pub Shows : Tables → Type 0
  Shows t = view mailbox_id t ≡ msgs

  append_message-Shows :
      (x : Message) (t : Tables) → x.mailbox_id ≢ mailbox_id → Shows t → Shows (append_message x t)
  append_message-Shows x t away v =
      ap (order_by (λ m. m.uid))
        (select-append_other (in_mailbox mailbox_id) t.messages _ (ground (arith, away)))
      ∙ v

  store_message-Shows : (x : Message) → x.mailbox_id ≢ mailbox_id → Keeps Shows (store_message x)
  unfolding store_message next_uid
  store_message-Shows x away =
      search (keeps_rules, Keeps-exec, moved, Keeps-statement, inserted) depth 16
    where
      moved : (bs : List Mailbox) (t : Tables) → Shows t → Shows (record t { mailboxes = bs })
      moved bs t v = v

      inserted :
          (uid : ℕ) (t : Tables)
          → Shows t
          → HoldsAfter Shows (insert_message (record x { uid = uid }) t)
      inserted uid t v =
          unfold insert_message in
          let added = append_message-Shows (record x { uid = uid }) t away v in
          search (HoldsAfter-guard, added)

  pub copy_each-Shows :
      (dest : ℕ) (es : List (ℕ × Message)) → dest ≢ mailbox_id → Keeps Shows (copy_each dest es)
  unfolding copy_each
  copy_each-Shows dest [] away = Keeps-pure _
  copy_each-Shows dest (e ∷ es) away =
      Keeps-bind _ _ (store_message-Shows (copied dest e.1) away)
        λ a. Keeps-bind _ _ (copy_each-Shows dest es away) λ b. Keeps-pure _

module _ (m : Message) where
  -- The set names the message, or only messages of other ids.
  pub named_or_other :
      (set : NumSet) (i : ℕ) (msgs : List Message)
      → All (λ x. x.id ≡ m.id → x ≡ m) msgs
      → ((seq : ℕ) × Has (seq, m) (resolve_from set i msgs))
        ⊎ All (OtherEntry m) (resolve_from set i msgs)
  unfolding resolve_from
  named_or_other set i [] h = inr tt
  named_or_other set i (x ∷ msgs) (here, h) =
      let rest = named_or_other set (suc i) msgs h in
      let seq = u32 (i + 1) in
      elim (Bool-cases (in_set set seq x)) [
        | inr out ↦ rw out rest
        | inl taken ↦ rw taken (elim rest [
          | inl (k, found) ↦ inl (k, inr found)
          | inr others ↦ elim (Bool-cases (m.id == x.id)) [
            | inr other ↦ inr (other, others)
            | inl same ↦
                let e : x ≡ m = here (ground (arith, same)) in inl (seq, inl (λ j. (seq, sym e j)))
          ]
        ])
      ]

  module _ (s : Session) (mb : Mailbox) (msgs : List Message)
      (selected : s.selected_mailbox ≡ some mb) (set : NumSet) (writes : ℕ → Bool)
      (others : All (OtherEntry m) (resolve_num_set msgs set)) where
    -- Then the second half of MOVE does not touch it.
    pub expunge_source-untaken :
        Leads (λ t. Shows mb.id msgs t × IsKept m t) (expunge_source s set writes) (IsKept m)
    unfolding expunge_source list_messages or_raise pure ◌>>=◌
    expunge_source-untaken = rw selected (record { at = λ db v. removed.at db v })
      where
        remove_same :
            (ms : List Message)
            → ms ≡ msgs
            → Keeps (IsKept m) (remove_each writes (descending (resolve_num_set ms set)))
        remove_same ms same = rw same (remove_each-IsKept m writes _ (descending-All _ _ others))

        removed :
            Leads
              (λ t. Shows mb.id msgs t × IsKept m t)
              (list_messages mb.id >>= λ ms.
                remove_each writes (descending (resolve_num_set ms set)))
              (IsKept m)
        removed =
            Leads-bind_gives {R = λ ms t. (ms ≡ msgs) × IsKept m t} _ _
              (record { at = λ db v. (Keeps-query {P = IsKept m} _).at db v.1 })
              (Gives-query _ (λ t v. v))
              λ ms. record { at = λ db v. (remove_same ms v.0).at db v.1 }
