-- ===== src/Smtp/Session/Authorization.antt =====
-- Who may send: the checks of Mail.
use ghostmail.Prelude.{
  Bool, true, false, Option, none, some, Bytes, ◌≡◌, ◌⊎◌, inl, inr, refl, arith, Bool-cases, ==_iff,
}
use ghostmail.Result.{ok}
use ghostmail.Text.{equal_fold}
use ghostmail.Sql.{Db, pure, raise, wrapping, query, statement, ◌>>=◌, healthy}
use ghostmail.Sql.Gives.{
  Gives, Gives-pure, Gives-raise, Gives-query, Gives-bind, Gives-wrapping, Gives-if,
}
use ghostmail.Sql.Rows.{find}
use ghostmail.Storage.Schema.{Tables, User, Alias}
use ghostmail.Storage.Aliases.{has_address, resolve_alias}
use ghostmail.Smtp.Message.{extract_addr}
use ghostmail.Smtp.Session.{Session, address_of, owns, authorize_sender, with_sender, mail_as, mail}

-- The address is the user's own, or that of an alias of the user's.
abbrev OwnsAddress : Tables → User → Bytes → Type 0
OwnsAddress t user address =
    (equal_fold address (address_of user) ≡ true)
    ⊎ ((a : Alias) × (find (has_address address) t.aliases ≡ some a) × (a.user_id ≡ user.id))

-- A session without a user may send if its server asks for none.
abbrev pub MaySend : Tables → Bool → Bytes → Option User → Type 0
MaySend t require_auth sender none = require_auth ≡ false
MaySend t require_auth sender (some user) = OwnsAddress t user (extract_addr sender)

module _ (t : Tables) where
  owns-OwnsAddress :
      (user : User) (address : Bytes) (o : Option Alias)
      → find (has_address address) t.aliases ≡ o
      → owns user o ≡ true
      → OwnsAddress t user address
  owns-OwnsAddress user address none e h = ground arith
  owns-OwnsAddress user address (some a) e h = inr (a, e, (==_iff a.user_id user.id).0 h)

  authorize_sender-Gives :
      (user : User) (sender : Bytes)
      → Gives
          (λ u. u ≡ t)
          (authorize_sender user sender)
          (λ _ _. OwnsAddress t user (extract_addr sender))
  unfolding authorize_sender resolve_alias
  authorize_sender-Gives user sender =
      Gives-if _ _ _ (λ e. Gives-pure _ (λ _ _. inl e))
        λ e.
          Gives-bind {Q = λ o _. find (has_address (extract_addr sender)) t.aliases ≡ o} _ _
            (Gives-wrapping _ _ (Gives-query _ (λ u e. rw e refl)))
            λ o.
              Gives-if _ _ _ (λ h. Gives-pure _ (λ _ found. owns-OwnsAddress user _ o found h))
                (λ h. Gives-raise _)

  mail_as-Gives :
      (s : Session) (sender : Bytes) (o : Option User)
      → Gives
          (λ u. u ≡ t)
          (mail_as s sender o)
          (λ s' _. (s' ≡ with_sender s sender) × MaySend t s.require_auth sender o)
  mail_as-Gives s sender none =
      Gives-if _ _ _ (λ e. Gives-raise _) (λ e. Gives-pure _ (λ _ _. (refl, e)))
  mail_as-Gives s sender (some user) =
      Gives-bind {Q = λ _ _. OwnsAddress t user (extract_addr sender)} _ _
        (authorize_sender-Gives user sender) (λ _. Gives-pure _ (λ _ h. (refl, h)))

  mail-Gives :
      (s : Session) (sender : Bytes)
      → Gives
          (λ u. u ≡ t)
          (mail s sender)
          (λ s' _. (s' ≡ with_sender s sender) × MaySend t s.require_auth sender s.auth_user)
  unfolding mail
  mail-Gives s sender = mail_as-Gives s sender s.auth_user

  authorize_own :
      (user : User) (sender : Bytes)
      → OwnsAddress t user (extract_addr sender)
      → authorize_sender user sender (healthy t) ≡ (ok tt, healthy t)
  unfolding authorize_sender resolve_alias query statement wrapping pure raise ◌>>=◌
  authorize_own user sender (inl e) = rw e refl
  authorize_own user sender (inr (a, found, e)) =
      elim (Bool-cases (equal_fold (extract_addr sender) (address_of user))) [
        | inl own ↦ rw own refl
        | inr other ↦ rw (other, found, (==_iff a.user_id user.id).1 e) refl
      ]

  mail_as-accepts :
      (s : Session) (sender : Bytes) (o : Option User)
      → MaySend t s.require_auth sender o
      → mail_as s sender o (healthy t) ≡ (ok (with_sender s sender), healthy t)
  unfolding ◌>>=◌ pure
  mail_as-accepts s sender none h = rw h refl
  mail_as-accepts s sender (some user) h = rw (authorize_own user sender h) refl

  -- Every session that may send as a sender has its MAIL FROM accepted by an engine that fails no
  -- statement; the store stays as it was.
  mail_accepts :
      (s : Session) (sender : Bytes)
      → MaySend t s.require_auth sender s.auth_user
      → mail s sender (healthy t) ≡ (ok (with_sender s sender), healthy t)
  unfolding mail
  mail_accepts s sender h = mail_as-accepts s sender s.auth_user h

-- If MAIL FROM is accepted, whatever statements the engine fails, only the sender of the session has
-- changed, and the session may send as that sender: it has no user and its server asks for none, or
-- the address is the user's own or that of an alias of the user's in the tables.
pub mail-MaySend :
    (db : Db Tables) (s s' : Session) (sender : Bytes)
    → (mail s sender db).0 ≡ ok s'
    → (s' ≡ with_sender s sender) × MaySend db.tables s.require_auth sender s.auth_user
mail-MaySend db s s' sender e = (mail-Gives db.tables s sender).on_ok db s' refl e
