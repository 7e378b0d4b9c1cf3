-- ===== src/Expiry/Spared.antt =====
-- What the reaper never touches.
use ghostmail.Prelude.{ℕ, false, none, List, [], ◌∷◌, Bytes, codes, ◌≡◌, refl, arith}
use ghostmail.Sql.{Db}
use ghostmail.Sql.Keeps.{
  Keeps, Keeps-exec, Keeps-statement, Keeps-bind, Keeps-ignoring, keeps_rules,
}
use ghostmail.Sql.Members.{Has, Has-update, Has-delete}
use ghostmail.Storage.Schema.{Tables, Message}
use ghostmail.Storage.Mailboxes.{delete_messages}
use ghostmail.Storage.Messages.{is_expired, delete_expired_messages}
use ghostmail.Expiry.{
  Reaper, lies_in, with_expiry, give_expiry, set_ttl_for_mailbox, sweep, apply_trash_ttl,
  apply_spam_ttl, apply_mailbox_ttls, vacuum, Tick, sweeps, vacuums, handle_tick, handle_ticks, run,
}

module _ (m : Message) where
  -- The row is there as it is, has no expiry, and lies in no mailbox of the two names.
  pub record IsSpared (t : Tables) : Type 0 where
    pub there : Has m t.messages
    pub permanent : m.expires_at ≡ none
    pub no_trash : lies_in (codes "Trash") t m ≡ false
    pub no_spam : lies_in (codes "Spam") t m ≡ false

  not_expired : (now : ℕ) → m.expires_at ≡ none → is_expired now m ≡ false
  unfolding is_expired
  not_expired now e = rw (e, is_expired) refl

  delete_expired_messages-IsSpared : (now : ℕ) → Keeps IsSpared (delete_expired_messages now)
  unfolding delete_expired_messages delete_messages
  delete_expired_messages-IsSpared now = Keeps-statement _ λ t v. record {
    there = Has-delete (is_expired now) m t.messages (not_expired now v.permanent) v.there;
    permanent = v.permanent;
    no_trash = v.no_trash;
    no_spam = v.no_spam;
  }

  give_expiry-IsSpared :
      (name : Bytes) (at : ℕ) (t : Tables)
      → lies_in name t m ≡ false
      → IsSpared t
      → IsSpared (give_expiry name at t)
  give_expiry-IsSpared name at t e v = record {
    there = Has-update _ (with_expiry at) m t.messages (ground arith) v.there;
    permanent = v.permanent;
    no_trash = v.no_trash;
    no_spam = v.no_spam;
  }

  set_ttl_for_mailbox-IsSpared :
      (now : ℕ) (name : Bytes) (ttl : ℕ)
      → ((t : Tables) → IsSpared t → lies_in name t m ≡ false)
      → Keeps IsSpared (set_ttl_for_mailbox now name ttl)
  unfolding set_ttl_for_mailbox
  set_ttl_for_mailbox-IsSpared now name ttl out =
      Keeps-ignoring _ _ (Keeps-exec _ (λ t v. give_expiry-IsSpared name _ t (out t v) v))

  set_trash_ttl-IsSpared :
      (now ttl : ℕ) → Keeps IsSpared (set_ttl_for_mailbox now (codes "Trash") ttl)
  set_trash_ttl-IsSpared now ttl = set_ttl_for_mailbox-IsSpared now _ ttl (λ t v. v.no_trash)

  set_spam_ttl-IsSpared :
      (now ttl : ℕ) → Keeps IsSpared (set_ttl_for_mailbox now (codes "Spam") ttl)
  set_spam_ttl-IsSpared now ttl = set_ttl_for_mailbox-IsSpared now _ ttl (λ t v. v.no_spam)

  apply_mailbox_ttls-IsSpared :
      (r : Reaper) (trash_now spam_now : ℕ)
      → Keeps IsSpared (apply_mailbox_ttls r trash_now spam_now)
  unfolding apply_mailbox_ttls apply_trash_ttl apply_spam_ttl
  apply_mailbox_ttls-IsSpared r trash_now spam_now =
      search (keeps_rules, set_trash_ttl-IsSpared, set_spam_ttl-IsSpared) depth 8

  handle_tick-IsSpared : (r : Reaper) (tick : Tick) → Keeps IsSpared (handle_tick r tick)
  unfolding handle_tick sweep vacuum
  handle_tick-IsSpared r (sweeps now trash_now spam_now) =
      search (keeps_rules, delete_expired_messages-IsSpared, apply_mailbox_ttls-IsSpared) depth 8
  handle_tick-IsSpared r vacuums = search keeps_rules

  handle_ticks-IsSpared : (r : Reaper) (ticks : List Tick) → Keeps IsSpared (handle_ticks r ticks)
  unfolding handle_ticks
  handle_ticks-IsSpared r [] = search keeps_rules
  handle_ticks-IsSpared r (tick ∷ ticks) =
      Keeps-bind _ _ (handle_tick-IsSpared r tick) (λ u. handle_ticks-IsSpared r ticks)

-- A message without an expiry in a mailbox of another name than Trash and Spam is a row of the
-- table, unchanged, after any run of the reaper, whatever the clock reads and whichever statements
-- the engine fails.
pub run-IsSpared :
    (r : Reaper) (trash_now spam_now : ℕ) (ticks : List Tick) (m : Message) (db : Db Tables)
    → IsSpared m db.tables
    → IsSpared m (run r trash_now spam_now ticks db).1.tables
unfolding run
run-IsSpared r trash_now spam_now ticks m db h =
    (Keeps-bind _ _ (apply_mailbox_ttls-IsSpared m r trash_now spam_now)
        (λ u. handle_ticks-IsSpared m r ticks)).at
      db h
