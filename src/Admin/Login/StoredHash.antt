-- ===== src/Admin/Login/StoredHash.antt =====
-- The stored hash as a password.
use ghostmail.Prelude.{
  Option, none, ◌<◌, ap, equal, false, Bool, ◌||◌, ◌==◌, if◌then◌else◌, arith, true, some, Bytes,
  equal_refl, ◌≡◌, refl, ℕ, [], codes,
}
use ghostmail.Result.{ok}
use ghostmail.Sql.{lift, healthy, pure, or_raise, query, statement, exec, ignoring, wrapping, ◌>>=◌}
use ghostmail.Sql.Rows.{find}
use ghostmail.Crypto.Primitives.{Primitives}
use ghostmail.Crypto.SafeMem.{constant_time_equal}
use ghostmail.Crypto.Keys.{derived_keys, Json, KeyParams, verify_password, derive_from_password}
use ghostmail.Text.Hex.{hex_decode}
use ghostmail.Storage.Schema.{Tables, User}
use ghostmail.Storage.Users.{is_named, get_user}
use ghostmail.Storage.Audit.{append_entry, log_audit}
use ghostmail.Admin.Login.{split_addr, accepts_password, verifies_hash, handle_login}

module _ (p : Primitives) (json : Json) where
  -- The stored hash is compared, or is no hex text.
  verifies_hash-ok :
      (user : User) (params : KeyParams) (password : Bytes) (o : Option Bytes)
      → json.unmarshal user.key_params ≡ some params
      → 0 < params.time
      → 0 < params.threads
      → (b : Bool) × (verifies_hash p json user password o ≡ ok b)
  unfolding verify_password derive_from_password
  verifies_hash-ok user params password none read timed threaded = (false, refl)
  verifies_hash-ok user params password (some auth_hash) read timed threaded =
      let apt : (params.time == 0) || (params.threads == 0) ≡ false = ground arith in
      (
        constant_time_equal (derived_keys p password params).auth_key auth_hash,
        rw read (rw apt refl),
      )

  accepts_password-stored :
      (user : User) (params : KeyParams)
      → json.unmarshal user.key_params ≡ some params
      → 0 < params.time
      → 0 < params.threads
      → accepts_password p json user user.password_hash ≡ ok true
  unfolding accepts_password
  accepts_password-stored user params read timed threaded =
      let (b, e) =
        verifies_hash-ok user params user.password_hash (hex_decode user.password_hash) read timed
          threaded in
      rw e (accepted b)
    where
      accepted :
          (b : Bool)
          → (if b then ok true else ok (equal user.password_hash user.password_hash)) ≡ ok true
      accepted true = refl
      accepted false = ap ok (equal_refl user.password_hash)

  -- On an engine that fails nothing, the login of an administrator whose key parameters can be read and
  -- ask for a time and threads of at least 1 accepts the text that the store has as the password's hash
  -- in place of the password, whatever the hash is of.
  pub handle_login-stored_hash :
      (now : ℕ) (username local domain : Bytes) (t : Tables) (user : User) (params : KeyParams)
      → split_addr username ≡ some (local, domain)
      → find (is_named local domain) t.users ≡ some user
      → user.is_admin ≡ true
      → json.unmarshal user.key_params ≡ some params
      → 0 < params.time
      → 0 < params.threads
      → handle_login p json now username user.password_hash (healthy t)
        ≡ (ok username, healthy (append_entry username (codes "admin.login") [] now t))
  unfolding handle_login get_user log_audit ignoring wrapping query exec statement or_raise pure
      lift ◌>>=◌
  handle_login-stored_hash now username local domain t user params split found admin read timed
        threaded =
      rw split (rw found (rw (accepts_password-stored user params read timed threaded, admin) refl))
