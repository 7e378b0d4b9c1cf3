-- ===== src/Webmail/Login.antt =====
-- internal/webmail/api_auth.go, and requireAuthAPI of internal/webmail/webmail.go.
use ghostmail.Prelude.{
  Bool, ℕ, Option, none, some, [], ◌∷◌, ◌==◌, ltb, equal, take, reverse, if◌then◌else◌, Bytes,
  codes,
}
use ghostmail.Result.{Error, refused, Result, ok, err}
use ghostmail.Text.{split_2, index, trim_space}
use ghostmail.Text.Hex.{hex_decode}
use ghostmail.Sql.{Db, Sql, pure, lift, or_raise, wrapping, raise, ◌>>=◌}
use ghostmail.Crypto.Primitives.{Primitives}
use ghostmail.Crypto.Keys.{Json, KeyParams, verify_password}
use ghostmail.Crypto.Service.{SessionKeys, authenticate}
use ghostmail.Storage.Schema.{Tables}
use ghostmail.Storage.Users.{get_user}
use ghostmail.RateLimit.{Float, Limiter, allow}
use ghostmail.Webmail.Sessions.{WebSession, SessionStore, create, delete, get_from_request}

-- The text before the last ':', or all of it.
unfoldable pub before_port : Bytes → Bytes → Bytes
before_port [] addr = addr
before_port (c ∷ s) addr =
    let earlier = before_port s addr in if c == b':' then reverse s else earlier

abbrev first_address : Bytes → Option ℕ → Bytes
first_address xff none = xff
first_address xff (some i) = if ltb 0 i then trim_space (take i xff) else xff

-- The first address of X-Forwarded-For, or else the peer's without the port.
unfoldable pub extract_ip : Bytes → Bytes → Bytes
extract_ip forwarded_for remote_addr =
    if equal forwarded_for []
    then before_port (reverse remote_addr) remote_addr
    else first_address forwarded_for (index forwarded_for (codes ","))

abbrev pub invalid : Error
invalid = refused 401 (codes "invalid credentials")

abbrev nonempty_hash : Option Bytes → Option Bytes
nonempty_hash none = none
nonempty_hash (some hash) = if equal hash [] then none else some hash

abbrev no_keys_if : Result Bool → Result (Option SessionKeys)
no_keys_if (ok verified) = if verified then ok none else err invalid
no_keys_if (err e) = err e

module _ (p : Primitives) (json : Json) where
  -- An account whose keys do not open has none, if the password is right.
  abbrev keys_or_none : Bytes → KeyParams → Bytes → Result SessionKeys → Result (Option SessionKeys)
  keys_or_none password params auth_hash (ok keys) = ok (some keys)
  keys_or_none password params auth_hash (err e) =
      no_keys_if (verify_password p password params auth_hash)

  -- handleAPILogin from the split of the address to the new session.
  unfoldable check_login : ℕ → Bytes → Bytes → Sql Tables WebSession
  check_login now email password = do
    parts ← or_raise invalid (split_2 email b'@')
    found ← wrapping invalid (get_user parts.0 parts.1)
    user ← or_raise invalid found
    auth_hash ← or_raise invalid (nonempty_hash (hex_decode user.password_hash))
    params ← or_raise invalid (json.unmarshal user.key_params)
    keys ← lift (
        keys_or_none password params auth_hash (
          authenticate p json password user.key_params auth_hash user.wrapped_private_key
            user.key_nonce))
    pure (record {
      user_id = user.id;
      username = user.username;
      domain = user.domain;
      is_admin = user.is_admin;
      keys = keys;
      created_at = now;
    })

record LoginRequest : Type 0 where
  pub email : Bytes
  pub password : Bytes

-- The two parts of Handler that a login changes.
record Handler (f : Float) : Type 0 where
  pub auth_limit : Limiter f
  pub sessions : SessionStore

module _ (f : Float) (p : Primitives) (json : Json) where
  -- The token of the cookie, or the refusal; no session is made for a login that fails.
  abbrev open_session : Bytes → Handler f → Result WebSession → Result Bytes × Handler f
  open_session drawn h (ok sess) =
      let (token, sessions) = create drawn sess h.sessions in
      (ok token, record h { sessions = sessions })
  open_session drawn h (err e) = (err e, h)

  abbrev login_checked :
      ℕ → Bytes → Handler f → Option LoginRequest → Db Tables → Result Bytes × Handler f × Db Tables
  login_checked now drawn h none db = (err (refused 400 (codes "invalid request body")), h, db)
  login_checked now drawn h (some req) db =
      let (r, db') = check_login p json now req.email req.password db in
      let (reply, h') = open_session drawn h r in (reply, h', db')

  -- The limiter is asked first, whatever the request.
  unfoldable handle_api_login :
      ℕ
      → Bytes
      → Bytes
      → Handler f
      → Option LoginRequest
      → Db Tables
      → Result Bytes × Handler f × Db Tables
  handle_api_login now drawn ip h decoded db =
      let (allowed, limit) = allow f ip now h.auth_limit in
      let h' : Handler f = record { auth_limit = limit; sessions = h.sessions } in
      if allowed
      then login_checked now drawn h' decoded db
      else (err (refused 429 (codes "too many login attempts")), h', db)

  abbrev pub forget : Option Bytes → SessionStore → SessionStore
  forget none ss = ss
  forget (some token) ss = delete token ss

  unfoldable handle_api_logout : Option Bytes → Handler f → Handler f
  handle_api_logout cookie h = record h { sessions = forget cookie h.sessions }

abbrev pub run_as : {A : Type 0} → Option WebSession → (WebSession → Sql Tables A) → Sql Tables A
run_as none handler = raise (refused 401 (codes "unauthorized"))
run_as (some sess) handler = handler sess

-- requireAuthAPI: the handler of a request runs for the session of its cookie.
unfoldable pub require_auth_api :
    {A : Type 0} → ℕ → Option Bytes → SessionStore → (WebSession → Sql Tables A) → Sql Tables A
require_auth_api now cookie ss handler = run_as (get_from_request now cookie ss) handler
