-- ===== src/Imap/Session.antt =====
-- Session of internal/imap/session.go: its state, Login, Select, Unselect and Close. The tracker of a
-- mailbox is the library's; the session only holds one or not.
use ghostmail.Prelude.{
  ℕ, ◌%◌, ◌^◌, Bool, true, false, ◌&&◌, not, Option, none, some, List, [], ◌∷◌, ◌++◌, map, equal,
  ltb, length, if◌then◌else◌, Bytes, codes,
}
use ghostmail.Result.{auth_required, invalid_credentials, no_mailbox, Result, ok, err}
use ghostmail.Text.{split_2}
use ghostmail.Text.Hex.{hex_decode}
use ghostmail.Sql.{Sql, pure, lift, or_raise, wrapping, attempted, ◌>>=◌}
use ghostmail.Crypto.Primitives.{Primitives}
use ghostmail.Crypto.Keys.{Json}
use ghostmail.Crypto.Service.{SessionKeys, authenticate}
use ghostmail.Storage.Schema.{Tables, User, Mailbox}
use ghostmail.Storage.Users.{get_user}
use ghostmail.Storage.Mailboxes.{get_mailbox, mailbox_message_count}

pub record Session : Type 0 where
  pub user : Option User
  pub session_keys : Option SessionKeys
  pub selected_mailbox : Option Mailbox
  pub tracked : Bool

-- Server.newSession
unfoldable pub new_session : Session
new_session = record { user = none; session_keys = none; selected_mailbox = none; tracked = false }

-- Close; the keys that it wipes are no longer reachable.
unfoldable close : Session → Session
close s = record { user = none; session_keys = none; selected_mailbox = none; tracked = false }

unfoldable unselect : Session → Session
unselect s = record s { selected_mailbox = none; tracked = false }

-- uint32(n)
abbrev pub u32 : ℕ → ℕ
u32 n = n % 2 ^ 32

-- Every error of Authenticate is ErrAuthFailed.
abbrev or_failed : Result SessionKeys → Result (Option SessionKeys)
or_failed (ok sk) = ok (some sk)
or_failed (err e) = err invalid_credentials

module _ (p : Primitives) (json : Json) where
  -- A user with encryption keys, or one of before.
  abbrev pub has_keys : User → Bool
  has_keys user =
      ltb 0 (length user.wrapped_private_key) && not (equal user.key_params (codes "{}"))

  abbrev key_login : User → Bytes → Option Bytes → Result (Option SessionKeys)
  key_login user password none = err invalid_credentials
  key_login user password (some auth_hash) = or_failed (
      authenticate p json password user.key_params auth_hash user.wrapped_private_key
        user.key_nonce)

  -- The keys that the password opens: `none` for a user without keys, whose stored password is
  -- compared as it is.
  unfoldable pub check_password : User → Bytes → Result (Option SessionKeys)
  check_password user password =
      if has_keys user
      then key_login user password (hex_decode user.password_hash)
      else if equal user.password_hash password
      then ok none
      else err invalid_credentials

  abbrev pub logged_in : Session → User → Option SessionKeys → Session
  logged_in s user none = record s { user = some user }
  logged_in s user (some sk) = record s { user = some user; session_keys = some sk }

  -- A login that fails leaves the session as it was.
  unfoldable pub login : Session → Bytes → Bytes → Sql Tables Session
  login s username password = do
    parts ← or_raise invalid_credentials (split_2 username b'@')
    found ← wrapping invalid_credentials (get_user parts.0 parts.1)
    user ← or_raise invalid_credentials found
    keys ← lift (check_password user password)
    pure (logged_in s user keys)

pub record SelectData : Type 0 where
  pub flags : List Bytes
  pub permanent_flags : List Bytes
  pub num_messages : ℕ
  pub uid_validity : ℕ
  pub uid_next : ℕ

unfoldable pub system_flags : List Bytes
system_flags = map codes ("\\Seen" ∷ "\\Answered" ∷ "\\Flagged" ∷ "\\Deleted" ∷ "\\Draft" ∷ [])

abbrev select_data : Mailbox → ℕ → SelectData
select_data mb count = record {
  flags = system_flags;
  permanent_flags = system_flags ++ codes "\\*" ∷ [];
  num_messages = u32 count;
  uid_validity = u32 mb.uid_validity;
  uid_next = u32 mb.uid_next;
}

-- The session is left changed by a Select that fails, so the result stands beside it.
abbrev select_counted : Session → Mailbox → Result ℕ → Session × Result SelectData
select_counted s mb (ok count) = (record s { tracked = true }, ok (select_data mb count))
select_counted s mb (err e) = (s, err e)

abbrev select_found : Session → Result (Option Mailbox) → Sql Tables (Session × Result SelectData)
select_found s (err e) = pure (s, err e)
select_found s (ok none) = pure (s, err no_mailbox)
select_found s (ok (some mb)) = do
  count ← attempted (mailbox_message_count mb.id)
  pure (select_counted (record s { selected_mailbox = some mb }) mb count)

abbrev select_as : Session → Bytes → Option User → Sql Tables (Session × Result SelectData)
select_as s mailbox none = pure (s, err auth_required)
select_as s mailbox (some user) = do
  found ← attempted (get_mailbox user.id mailbox)
  select_found (record s { tracked = false }) found

unfoldable pub select : Session → Bytes → Sql Tables (Session × Result SelectData)
select s mailbox = select_as s mailbox s.user
