-- ===== src/Imap/Copied.antt =====
-- COPY of internal/imap/fetch.go: the rows that it adds.
use ghostmail.Storage.Kept.{IsKept}
use ghostmail.Prelude.{
  ℕ, suc, ◌≤◌, List, [], ◌∷◌, ◌≡◌, refl, arith, All, All-map, All-append, inl, inr,
}
use ghostmail.Sql.{Sql}
use ghostmail.Sql.Gives.{Gives, Gives-statement, Gives-bind, Gives-pure, ReturnsIn, ReturnsIn-guard}
use ghostmail.Sql.Keeps.{
  Keeps, Keeps-exec, Keeps-statement, Keeps-Gives, HoldsAfter, HoldsAfter-guard, keeps_rules,
}
use ghostmail.Sql.Members.{Has, Has-append_right}
use ghostmail.Storage.Schema.{Tables, Mailbox, Message}
use ghostmail.Storage.Mailboxes.{next_uid}
use ghostmail.Storage.Messages.{append_message, insert_message, store_message}
use ghostmail.Imap.Moving.{copied, copy_each}
use ghostmail.Imap.Isolation.{copy_each-IsKept}

-- Every id was given out.
abbrev pub GivenOut : Tables → Type 0
GivenOut t = All (λ x. x.id ≤ t.last_message) t.messages

-- All columns but the id, the mailbox and the UID.
abbrev pub content : Message → Message
content m = record m { id = 0; mailbox_id = 0; uid = 0 }

-- A row of that mailbox that differs from the message in its id, mailbox and UID at most.
pub record HasCopy (m : Message) (dest : ℕ) (t : Tables) : Type 0 where
  pub row : Message
  pub same : content row ≡ content m
  pub location : row.mailbox_id ≡ dest
  pub kept : IsKept row t

append_message-GivenOut : (x : Message) (t : Tables) → GivenOut t → GivenOut (append_message x t)
append_message-GivenOut x t v =
    All-append _ t.messages _ (All-map _ _ t.messages (λ y h. omega (arith, h)) v) (omega arith, tt)

insert_message-GivenOut :
    (x : Message) (t : Tables) → GivenOut t → HoldsAfter GivenOut (insert_message x t)
unfolding insert_message
insert_message-GivenOut x t v =
    let added = append_message-GivenOut x t v in search (HoldsAfter-guard, added)

next_uid-GivenOut : (id : ℕ) → Keeps GivenOut (next_uid id)
unfolding next_uid
next_uid-GivenOut id = search (keeps_rules, Keeps-exec, moved) depth 12
  where
    moved : (bs : List Mailbox) (t : Tables) → GivenOut t → GivenOut (record t { mailboxes = bs })
    moved bs t v = v

store_message-GivenOut : (x : Message) → Keeps GivenOut (store_message x)
unfolding store_message
store_message-GivenOut x =
    search (keeps_rules, next_uid-GivenOut, Keeps-statement, insert_message-GivenOut) depth 12

module _ (m : Message) (dest : ℕ) where
  -- The row that StoreMessage appends.
  appended-HasCopy :
      (uid : ℕ) (t : Tables)
      → GivenOut t
      → HasCopy m dest (append_message (record (copied dest m) { uid = uid }) t)
  appended-HasCopy uid t v = record {
    row = record m { id = suc t.last_message; mailbox_id = dest; uid = uid };
    same = refl;
    location = refl;
    kept = record {
      there = Has-append_right _ t.messages _ (inl refl);
      alone =
          All-append _ t.messages _
            (All-map _ _ t.messages (λ y h here. absurd (omega (arith, h))) v) ((λ here. refl), tt);
      known = omega arith;
    };
  }

  store_message-HasCopy : Gives GivenOut (store_message (copied dest m)) (λ _ t. HasCopy m dest t)
  unfolding store_message insert_message
  store_message-HasCopy =
      Gives-bind _ _
        (Keeps-Gives {Q = λ _ t. GivenOut t} _ (next_uid-GivenOut dest) (λ t v. v) (λ a t v. v))
        λ uid.
          Gives-bind {Q = λ _ t. HasCopy m dest t} _ _
            (Gives-statement _ (λ t v. stored_row uid t v)) λ id. Gives-pure _ (λ t c. c)
    where
      stored_row :
          (uid : ℕ) (t : Tables)
          → GivenOut t
          → ReturnsIn
              (λ _ t'. HasCopy m dest t')
              (insert_message (record (copied dest m) { uid = uid }) t)
      stored_row uid t v = let added = appended-HasCopy uid t v in search (ReturnsIn-guard, added)

  -- What keeps every row keeps the copy.
  pub HasCopy-Keeps :
      {A : Type 0} (f : Sql Tables A)
      → ((x : Message) → x.mailbox_id ≡ dest → Keeps (IsKept x) f)
      → Keeps (HasCopy m dest) f
  HasCopy-Keeps f k = record {
    at = λ db c. record {
      row = c.row;
      same = c.same;
      location = c.location;
      kept = (k c.row c.location).at db c.kept;
    };
  }

  pub copy_each-HasCopy :
      (seq : ℕ) (es : List (ℕ × Message))
      → Has (seq, m) es
      → Gives GivenOut (copy_each dest es) (λ _ t. HasCopy m dest t)
  unfolding copy_each
  copy_each-HasCopy seq [] h = absurd h
  copy_each-HasCopy seq (e ∷ es) (inl here) =
      let same : m ≡ e.1 = λ i. (here i).1 in
      rw (← same) (
        Gives-bind _ _ store_message-HasCopy λ stored.
          Gives-bind {Q = λ _ t. HasCopy m dest t} _ _
            (Keeps-Gives _ (HasCopy-Keeps _ (λ x at. copy_each-IsKept x dest es)) (λ t c. c)
              (λ a t c. c))
            λ rest. Gives-pure _ (λ t c. c))
  copy_each-HasCopy seq (e ∷ es) (inr later) =
      Gives-bind {Q = λ _ t. GivenOut t} _ _
        (Keeps-Gives _ (store_message-GivenOut (copied dest e.1)) (λ t v. v) (λ a t v. v))
        λ stored. Gives-bind _ _ (copy_each-HasCopy seq es later) λ rest. Gives-pure _ (λ t c. c)
