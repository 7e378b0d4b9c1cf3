-- ===== src/Imap/Arrival.antt =====
-- MOVE of internal/imap/fetch.go: no message is lost.
use ghostmail.Storage.Kept.{IsKept}
use ghostmail.Prelude.{
  if◌then◌else◌, ℕ, Bool, some, List, ◌==◌, ◌&&◌, equal, Bytes, ◌≡◌, ◌≢◌, refl, All, ◌⊎◌, inl, inr,
}
use ghostmail.Result.{disconnected}
use ghostmail.Sql.{Db, pure, raise}
use ghostmail.Sql.Gives.{Gives-from}
use ghostmail.Sql.Keeps.{Keeps-both, Keeps, Keeps-pure, Keeps-bind, Keeps-Gives, keeps_rules}
use ghostmail.Sql.Leads.{Leads-weaken, Leads-bind, Leads, Leads-bind_gives, Leads-Keeps}
use ghostmail.Sql.Rows.{All-select, All-order_by, find}
use ghostmail.Sql.Members.{Has}
use ghostmail.Storage.Schema.{Tables, Mailbox, Message, User}
use ghostmail.Storage.Mailboxes.{in_mailbox}
use ghostmail.Imap.Session.{Session}
use ghostmail.Imap.Client.{view}
use ghostmail.Imap.Copying.{Lists, copy_gives}
use ghostmail.Imap.Untaken.{Shows, copy_each-Shows, named_or_other, expunge_source-untaken}
use ghostmail.Imap.Fetch.{NumSet, resolve_num_set}
use ghostmail.Imap.Moving.{copy_each, Order, copy, move}
use ghostmail.Imap.Isolation.{OtherEntry, copy_each-IsKept, copy-IsKept, expunge_source-IsKept}
use ghostmail.Imap.Copied.{GivenOut, HasCopy, copy_each-HasCopy, HasCopy-Keeps}

-- What is left to do after the copying keeps a copy.
module _ (m : Message) (s : Session) (mb dest_mb : Mailbox) (user : User) (dest : Bytes)
    (set : NumSet) (order : Order) (accepts : Bool) (writes : ℕ → Bool) (t₀ : Tables)
    (selected : s.selected_mailbox ≡ some mb) (logged_in : s.user ≡ some user)
    (away : dest_mb.id ≢ mb.id) where
  abbrev Start : Tables → Type 0
  Start t = Lists user mb dest_mb dest (view mb.id t₀) t × (GivenOut t × IsKept m t)

  abbrev Safe : Tables → Type 0
  Safe t = IsKept m t ⊎ HasCopy m dest_mb.id t

  copy-Safe : Leads Start (copy s order set dest) Safe
  copy-Safe = record { at = λ db v. inl ((copy-IsKept m s order set dest).at db v.1.1) }

  -- A message that the set names is copied first.
  named-Safe :
      (seq : ℕ)
      → Has (seq, m) (order (resolve_num_set (view mb.id t₀) set))
      → Leads Start (move s order set dest accepts writes) Safe
  unfolding move
  named-Safe seq named =
      Leads-bind_gives {R = λ _. HasCopy m dest_mb.id} _ _ copy-Safe
        (copy_gives user mb dest_mb dest (view mb.id t₀) (λ t. GivenOut t × IsKept m t)
          (HasCopy m dest_mb.id) s order set selected logged_in
          (Gives-from _ (λ t v. (tt, v.1.0)) λ _. copy_each-HasCopy m dest_mb.id seq _ named))
        λ copy_data.
          Leads-Keeps _
            (HasCopy-Keeps m dest_mb.id _ λ x at. Keeps-bind _ _ (search keeps_rules) λ _.
              Keeps-bind _ _ (expunge_source-IsKept x s mb selected (away_copy x at) set writes)
                λ numbers. Keeps-pure _)
            (λ t c. inr c)
    where
      away_copy : (x : Message) → x.mailbox_id ≡ dest_mb.id → x.mailbox_id ≢ mb.id
      away_copy x at here = away cc

  -- Any other message is not touched.
  unnamed-Safe :
      All (OtherEntry m) (resolve_num_set (view mb.id t₀) set)
      → Leads Start (move s order set dest accepts writes) Safe
  unfolding move
  unnamed-Safe others =
      Leads-bind_gives {R = λ _. Unmoved} _ _ copy-Safe
        (copy_gives user mb dest_mb dest (view mb.id t₀) (λ t. GivenOut t × IsKept m t) Unmoved s
          order set selected logged_in
          (Keeps-Gives _ copies (λ t v. (v.0.listed, v.1.1)) (λ a t v. v)))
        λ copy_data.
          Leads-bind_gives {R = λ _. Unmoved} _ _ (Leads-Keeps _ accepting (λ t v. inl v.1))
            (Keeps-Gives _ accepting (λ t v. v) (λ a t v. v))
            λ _.
              Leads-bind _ _
                (Leads-weaken _
                  (expunge_source-untaken m s mb (view mb.id t₀) selected set writes others)
                  (λ t v. inl v))
                λ numbers. Keeps-pure _
    where
      Unmoved : Tables → Type 0
      Unmoved t = Shows mb.id (view mb.id t₀) t × IsKept m t

      copies : Keeps Unmoved (copy_each dest_mb.id (order (resolve_num_set (view mb.id t₀) set)))
      copies =
          Keeps-both _ (copy_each-Shows mb.id (view mb.id t₀) dest_mb.id _ away)
            (copy_each-IsKept m dest_mb.id _)

      accepting : Keeps Unmoved (if accepts then pure tt else raise disconnected)
      accepting = search keeps_rules

-- After a MOVE to another mailbox than the selected one, every message of the store is still the row
-- that it was, or a copy of it is in the destination; whether MOVE succeeds or not and whichever
-- statements the engine fails, if the runtime's order leaves out no entry of the map.
pub move-HasCopy :
    (m : Message) (s : Session) (mb dest_mb : Mailbox) (user : User) (dest : Bytes) (set : NumSet)
    (order : Order) (accepts : Bool) (writes : ℕ → Bool) (db : Db Tables)
    → s.selected_mailbox ≡ some mb
    → s.user ≡ some user
    → find (λ b. (b.user_id == user.id) && equal b.name dest) db.tables.mailboxes ≡ some dest_mb
    → dest_mb.id ≢ mb.id
    → ((e : ℕ × Message) (es : List (ℕ × Message)) → Has e es → Has e (order es))
    → GivenOut db.tables
    → IsKept m db.tables
    → IsKept m (move s order set dest accepts writes db).1.tables
      ⊎ HasCopy m dest_mb.id (move s order set dest accepts writes db).1.tables
unfolding resolve_num_set
move-HasCopy m s mb dest_mb user dest set order accepts writes db selected logged_in there away
      every known home =
    let start : Start m s mb dest_mb user dest set order accepts writes db.tables selected logged_in
        away db.tables =
      (record { destination = there; listed = refl }, (known, home)) in
    elim (named_or_other m set 0 (view mb.id db.tables) own) [
      | inl (seq, named) ↦
          (named-Safe m s mb dest_mb user dest set order accepts writes db.tables selected logged_in
              away seq (every _ _ named)).at
            db start
      | inr others ↦
          (unnamed-Safe m s mb dest_mb user dest set order accepts writes db.tables selected
              logged_in away others).at
            db start
    ]
  where
    own : All (λ x. x.id ≡ m.id → x ≡ m) (view mb.id db.tables)
    own = All-order_by _ (λ x. x.uid) _ (All-select _ (in_mailbox mb.id) _ home.alone)
