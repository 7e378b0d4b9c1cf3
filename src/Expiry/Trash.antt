-- ===== src/Expiry/Trash.antt =====
-- What a sweep leaves of the mailboxes with a time to live.
use ghostmail.Prelude.{
  ℕ, ◌≤◌, ◌<◌, true, false, ◌&&◌, some, codes, ◌≡◌, refl, arith, if◌then◌else◌, ◌⊎◌, inl, inr, All,
  All-map, Bool-cases, if_both,
}
use ghostmail.Result.{ok}
use ghostmail.Sql.{healthy, statement, exec, ignoring, pure, ◌>>=◌, ◌>>◌}
use ghostmail.Sql.Rows.{All-delete}
use ghostmail.Sql.Members.{Has, All-Has, All-updated, All-remaining, All-both}
use ghostmail.Storage.Schema.{Tables, Message, unix}
use ghostmail.Storage.Mailboxes.{delete_messages}
use ghostmail.Storage.Messages.{is_expired, delete_expired_messages}
use ghostmail.Smtp.Message.{add_duration}
use ghostmail.Expiry.{
  Reaper, is_positive, lies_in, never_expires, with_expiry, give_expiry, set_ttl_for_mailbox, sweep,
  apply_trash_ttl, apply_spam_ttl, apply_mailbox_ttls,
}

-- The row was there with an expiry of its own that is later than `now`.
abbrev pub OwnExpiry : ℕ → Tables → Message → Type 0
OwnExpiry now t m = Has m t.messages × ((e : ℕ) × (m.expires_at ≡ some e) × (now < e))

expires : (m : Message) → never_expires m ≡ false → (e : ℕ) × (m.expires_at ≡ some e)
expires m h = ground arith

module _ (t : Tables) (deadline : ℕ) where
  -- A row once the deadline of its mailbox has been written.
  abbrev HasDeadline : Message → Type 0
  HasDeadline m =
      (lies_in (codes "Trash") t m ≡ false)
      ⊎ (m.expires_at ≡ some deadline)
      ⊎ (Has m t.messages × ((e : ℕ) × (m.expires_at ≡ some e)))

  give_trash-HasDeadline :
      (m : Message)
      → Has m t.messages
      → HasDeadline
          (if never_expires m && lies_in (codes "Trash") t m then with_expiry deadline m else m)
  give_trash-HasDeadline m h =
      if_both HasDeadline (never_expires m && lies_in (codes "Trash") t m) (λ _. inr (inl refl))
        λ no. elim (Bool-cases (lies_in (codes "Trash") t m)) [
          | inr out ↦ inl out
          | inl inside ↦ inr (inr (h, expires m (ground arith)))
        ]

  give_spam-HasDeadline :
      (m : Message) (u : Tables) (at : ℕ)
      → HasDeadline m
      → HasDeadline (if never_expires m && lies_in (codes "Spam") u m then with_expiry at m else m)
  give_spam-HasDeadline m u at h =
      if_both HasDeadline _ (λ given. permanent_outside given h) (λ _. h)
    where
      permanent_outside :
          (never_expires m && lies_in (codes "Spam") u m) ≡ true
          → HasDeadline m
          → HasDeadline (with_expiry at m)
      permanent_outside given (inl out) = inl out
      permanent_outside given (inr (inl e)) = absurd (ground arith)
      permanent_outside given (inr (inr (k, (x, e)))) = absurd (ground arith)

  -- What has a deadline that is reached and has not expired has an expiry of its own.
  remaining-OwnExpiry :
      (now : ℕ) (m : Message)
      → deadline ≤ now
      → HasDeadline m × (is_expired now m ≡ false)
      → (lies_in (codes "Trash") t m ≡ false) ⊎ OwnExpiry now t m
  unfolding is_expired
  remaining-OwnExpiry now m late (inl out, alive) = inl out
  remaining-OwnExpiry now m late (inr (inl e), alive) = absurd (ground arith)
  remaining-OwnExpiry now m late (inr (inr (h, (x, e))), alive) = inr (h, (x, e, ground arith))

abbrev marked : Reaper → Tables → ℕ → ℕ → Tables
marked r t trash_now spam_now =
    let u = give_expiry (codes "Trash") (unix (add_duration trash_now r.trash_ttl)) t in
    if is_positive r.spam_ttl
    then give_expiry (codes "Spam") (unix (add_duration spam_now r.spam_ttl)) u
    else u

marked-HasDeadline :
    (r : Reaper) (t : Tables) (trash_now spam_now : ℕ)
    → All
        (HasDeadline t (unix (add_duration trash_now r.trash_ttl)))
        (marked r t trash_now spam_now).messages
marked-HasDeadline r t trash_now spam_now =
    let deadline = unix (add_duration trash_now r.trash_ttl) in
    let u = give_expiry (codes "Trash") deadline t in
    let first : All (HasDeadline t deadline) u.messages =
      All-updated _ _ _ t.messages
        (All-map _ _ t.messages (give_trash-HasDeadline t deadline) (All-Has t.messages)) in
    if_both (λ (v : Tables). All (HasDeadline t deadline) v.messages) (is_positive r.spam_ttl)
      (λ _.
        All-updated _ _ _ u.messages
          (All-map _ _ u.messages (λ m. give_spam-HasDeadline t deadline m u _) first))
      (λ _. first)

apply_mailbox_ttls-marked :
    (r : Reaper) (t : Tables) (trash_now spam_now : ℕ)
    → is_positive r.trash_ttl ≡ true
    → apply_mailbox_ttls r trash_now spam_now (healthy t)
      ≡ (ok tt, healthy (marked r t trash_now spam_now))
unfolding apply_mailbox_ttls apply_trash_ttl apply_spam_ttl set_ttl_for_mailbox ignoring exec
    statement pure ◌>>=◌
apply_mailbox_ttls-marked r t trash_now spam_now e = elim (Bool-cases (is_positive r.spam_ttl)) [
  | inl spam ↦ rw (e, spam) refl
  | inr only ↦ rw (e, only) refl
]

-- With a time to live for the Trash, on an engine that fails nothing: once the deadline that
-- applyMailboxTTLs gives has been reached, a sweep leaves no message in a mailbox named Trash but
-- those that were rows of the table with an expiry of their own, later than the sweep.
pub sweep-OwnExpiry :
    (r : Reaper) (t : Tables) (trash_now spam_now now : ℕ)
    → is_positive r.trash_ttl ≡ true
    → unix (add_duration trash_now r.trash_ttl) ≤ unix now
    → All
        (λ m. (lies_in (codes "Trash") t m ≡ false) ⊎ OwnExpiry (unix now) t m)
        ((apply_mailbox_ttls r trash_now spam_now >> sweep now) (healthy t)).1.tables.messages
unfolding sweep delete_expired_messages delete_messages ignoring statement pure ◌>>=◌
sweep-OwnExpiry r t trash_now spam_now now e late =
    rw (apply_mailbox_ttls-marked r t trash_now spam_now e) (
      let u = marked r t trash_now spam_now in
      All-map _ _ _ (λ m. remaining-OwnExpiry t _ (unix now) m late)
        (All-both _ _ _
          (All-delete _ (is_expired (unix now)) u.messages
            (marked-HasDeadline r t trash_now spam_now))
          (All-remaining (is_expired (unix now)) u.messages)))
