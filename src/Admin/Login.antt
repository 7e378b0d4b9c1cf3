-- ===== src/Admin/Login.antt =====
-- The login and the sessions of internal/admin/server.go, past the rate limiter.
pub mod Tokens
pub mod StoredHash
use ghostmail.Prelude.{
  ℕ, ◌*◌, ◌-◌, Bool, true, false, ◌&&◌, not, Option, none, some, List, [], ◌∷◌, equal, ltb,
  if◌then◌else◌, Bytes, codes, ◌==◌, reverse,
}
use ghostmail.Result.{invalid_credentials, Result, ok, err}
use ghostmail.Text.Hex.{hex_encode, hex_decode}
use ghostmail.Sql.{lift, Sql, pure, raise, or_raise, ignoring, wrapping, ◌>>=◌, ◌>>◌}
use ghostmail.Sql.Rows.{find}
use ghostmail.Crypto.Primitives.{Primitives}
use ghostmail.Crypto.Keys.{Json, KeyParams, verify_password}
use ghostmail.Storage.Schema.{Tables, User, second}
use ghostmail.Storage.Users.{get_user, list_users}
use ghostmail.Storage.Audit.{log_audit}

-- What stands before and after the last '@'; `behind` is what was passed over.
unfoldable pub split_reversed : Bytes → Bytes → Option (Bytes × Bytes)
split_reversed [] behind = none
split_reversed (c ∷ s) behind = elim (c == b'@') [
  | true ↦ some (reverse s, behind)
  | false ↦ split_reversed s (c ∷ behind)
]

unfoldable pub split_addr : Bytes → Option (Bytes × Bytes)
split_addr addr = split_reversed (reverse addr) []

abbrev is_admin_named : Bytes → User → Bool
is_admin_named username u = equal u.username username && u.is_admin

abbrev address_pair : Option User → Option (Bytes × Bytes)
address_pair none = none
address_pair (some u) = some (u.username, u.domain)

-- The address, or that of the first admin of the plain name.
abbrev login_parts : Bytes → Option (Bytes × Bytes) → Sql Tables (Option (Bytes × Bytes))
login_parts username (some parts) = pure (some parts)
login_parts username none = do
  users ← ignoring [] list_users
  pure (address_pair (find (is_admin_named username) users))

abbrev params_or_zero : Option KeyParams → KeyParams
params_or_zero none = record { time = 0; memory = 0; threads = 0; salt = [] }
params_or_zero (some params) = params

-- The comparison with the stored text is for a hash that does not verify.
abbrev or_stored_text : User → Bytes → Result Bool → Result Bool
or_stored_text user password (ok verified) =
    if verified then ok true else ok (equal user.password_hash password)
or_stored_text user password (err e) = err e

module _ (p : Primitives) (json : Json) where
  -- mustUnmarshalParams
  abbrev must_unmarshal_params : Bytes → KeyParams
  must_unmarshal_params text = params_or_zero (json.unmarshal text)

  abbrev pub verifies_hash : User → Bytes → Option Bytes → Result Bool
  verifies_hash user password none = ok false
  verifies_hash user password (some auth_hash) =
      verify_password p password (must_unmarshal_params user.key_params) auth_hash

  -- The password verifies, or is the stored text itself.
  unfoldable pub accepts_password : User → Bytes → Result Bool
  accepts_password user password =
      or_stored_text user password (verifies_hash user password (hex_decode user.password_hash))

  -- handleLogin, up to the new session; the user name of the form is that of the session.
  unfoldable pub handle_login : ℕ → Bytes → Bytes → Sql Tables Bytes
  handle_login now username password = do
    found ← login_parts username (split_addr username)
    parts ← or_raise invalid_credentials found
    row ← wrapping invalid_credentials (get_user parts.0 parts.1)
    user ← or_raise invalid_credentials row
    (if user.is_admin then pure tt else raise invalid_credentials)
    accepted ← lift (accepts_password user password)
    (if accepted then pure tt else raise invalid_credentials)
    ignoring tt (log_audit username (codes "admin.login") [] now)
    pure username

pub record AdminSession : Type 0 where
  pub username : Bytes
  pub created_at : ℕ

-- The map of sessions by token.
abbrev pub Sessions : Type 0
Sessions = List (Bytes × AdminSession)

unfoldable pub lookup_session : Bytes → Sessions → Option AdminSession
lookup_session token [] = none
lookup_session token ((key, s) ∷ rest) =
    let other = lookup_session token rest in if equal key token then some s else other

unfoldable pub delete_session : Bytes → Sessions → Sessions
delete_session token [] = []
delete_session token ((key, s) ∷ rest) =
    let others = delete_session token rest in if equal key token then others else (key, s) ∷ others

-- createSession: the token is the hex text of 32 random bytes.
unfoldable pub create_session : Bytes → Bytes → ℕ → Sessions → Bytes × Sessions
create_session drawn username now sessions =
    let token = hex_encode drawn in
    (
      token,
      (token, record { username = username; created_at = now }) ∷ delete_session token sessions,
    )

abbrev pub session_ttl : ℕ
session_ttl = 4 * (3600 * second)

abbrev pub fresh : ℕ → Option AdminSession → Bool
fresh now none = false
fresh now (some s) = not (ltb session_ttl (now - s.created_at))

-- requireAuth: whether the handler runs.
unfoldable pub require_auth : ℕ → Option Bytes → Sessions → Bool
require_auth now none sessions = false
require_auth now (some token) sessions = fresh now (lookup_session token sessions)
