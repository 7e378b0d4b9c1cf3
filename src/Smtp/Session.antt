-- ===== src/Smtp/Session.antt =====
-- Session of internal/smtp/session.go: one connection. A call that is refused leaves the session as it
-- was; what it wrote to the store stays.
pub mod Uids
pub mod Authorization
pub mod Relay
pub mod Password
use ghostmail.Prelude.{
  ℕ, suc, ◌+◌, Bool, true, false, ◌&&◌, ◌||◌, not, Option, none, some, List, [], ◌∷◌, ◌++◌, ◌==◌,
  equal, if◌then◌else◌, Bytes, codes, take,
}
use ghostmail.Result.{
  Error, auth_required, not_authorized, invalid_credentials, invalid_address, delivery_failed,
  Result, ok, err,
}
use ghostmail.Text.{split_2, equal_fold}
use ghostmail.Sql.{lift, Sql, pure, raise, or_raise, wrapping, ◌>>=◌, ◌>>◌}
use ghostmail.Text.Hex.{hex_decode}
use ghostmail.Crypto.Primitives.{Primitives}
use ghostmail.Crypto.Keys.{Json, KeyParams, verify_password}
use ghostmail.Storage.Schema.{Tables, User, Alias}
use ghostmail.Storage.Users.{get_user}
use ghostmail.Storage.Aliases.{resolve_alias}
use ghostmail.Dkim.{
  Verification, verify_inbound, add_auth_results_header, strip_existing_auth_results,
}
use ghostmail.Smtp.Message.{extract_addr}
use ghostmail.Smtp.Delivery.{Env, deliver_message}

pub record Session : Type 0 where
  pub require_auth : Bool
  pub auth_user : Option User
  pub sender : Bytes
  pub recipients : List Bytes

-- NewSession; the submission servers require authentication, the inbound one does not.
abbrev pub new_session : Bool → Session
new_session require_auth = record {
  require_auth = require_auth;
  auth_user = none;
  sender = [];
  recipients = [];
}

module _ (p : Primitives) (json : Json) where
  abbrev pub verifies_with : Bytes → Bytes → Option KeyParams → Result Bool
  verifies_with password auth_hash none = ok false
  verifies_with password auth_hash (some params) = verify_password p password params auth_hash

  abbrev pub verifies_hash : User → Bytes → Option Bytes → Result Bool
  verifies_hash user password none = ok false
  verifies_hash user password (some auth_hash) =
      if equal auth_hash []
      then ok false
      else verifies_with password auth_hash (json.unmarshal user.key_params)

  unfoldable pub authenticate : Session → Bytes → Bytes → Sql Tables Session
  authenticate s username password = do
    parts ← or_raise invalid_address (split_2 username b'@')
    found ← wrapping invalid_credentials (get_user parts.0 parts.1)
    user ← or_raise invalid_credentials found
    verified ← lift (verifies_hash user password (hex_decode user.password_hash))
    if verified then pure (record s { auth_user = some user }) else raise invalid_credentials

abbrev pub address_of : User → Bytes
address_of user = user.username ++ (codes "@" ++ user.domain)

abbrev pub owns : User → Option Alias → Bool
owns user none = false
owns user (some a) = a.user_id == user.id

-- The sender is the user's own address, or an alias of the user's.
unfoldable pub authorize_sender : User → Bytes → Sql Tables (Unit {0})
authorize_sender user sender =
    if equal_fold (extract_addr sender) (address_of user) then pure tt else (do
      a ← wrapping not_authorized (resolve_alias (extract_addr sender))
      if owns user a then pure tt else raise not_authorized)

abbrev pub with_sender : Session → Bytes → Session
with_sender s sender = record s { sender = sender }

abbrev pub mail_as : Session → Bytes → Option User → Sql Tables Session
mail_as s sender none = if s.require_auth then raise auth_required else pure (with_sender s sender)
mail_as s sender (some user) = do authorize_sender user sender; pure (with_sender s sender)

unfoldable pub mail : Session → Bytes → Sql Tables Session
mail s sender = mail_as s sender s.auth_user

unfoldable pub rcpt : Session → Bytes → Session
rcpt s recipient = record s { recipients = s.recipients ++ recipient ∷ [] }

unfoldable pub reset : Session → Session
reset s = record s { sender = []; recipients = [] }

-- What Data takes from outside: an Env for the delivery to each recipient, by its position, the
-- server's limits and name, and the results of VerifyMessage.
pub record DataEnv : Type 0 where
  pub delivery : ℕ → Env
  pub max_message_size : ℕ
  pub hostname : Bytes
  pub verifications : Bytes → Option (List Verification)

abbrev pub is_anonymous : Session → Bool
is_anonymous s = elim s.auth_user [ none ↦ true | some user ↦ false ]

-- Of an unauthenticated message the old Authentication-Results go, and this server's come first.
unfoldable pub received : DataEnv → Session → Bytes → Bytes
received env s text =
    let data' = take env.max_message_size text in
    let stripped = strip_existing_auth_results data' in
    if not s.require_auth || is_anonymous s
    then add_auth_results_header stripped env.hostname (verify_inbound (env.verifications stripped))
    else data'

-- The loop over the recipients, which stops at the first that fails.
unfoldable pub deliver_all : DataEnv → Bytes → Bytes → ℕ → List Bytes → Sql Tables (Unit {0})
deliver_all env sender text i [] = pure tt
deliver_all env sender text i (recipient ∷ recipients) = do
  wrapping delivery_failed (deliver_message (env.delivery i) sender (extract_addr recipient) text)
  deliver_all env sender text (suc i) recipients

-- Data
unfoldable pub receive : DataEnv → Session → Bytes → Sql Tables (Unit {0})
receive env s text = deliver_all env s.sender (received env s text) 0 s.recipients
