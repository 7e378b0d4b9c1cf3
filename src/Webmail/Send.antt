-- ===== src/Webmail/Send.antt =====
-- handleSendMessage and parseRecipients of internal/webmail/api_message.go.
use ghostmail.Prelude.{
  ℕ, suc, ◌-◌, Bool, true, false, ◌||◌, Option, some, List, [], ◌∷◌, ◌++◌, ◌==◌, ltb, equal, take,
  drop, if◌then◌else◌, Bytes, codes,
}
use ghostmail.Result.{
  Error, refused, invalid_address, user_not_found, owner_not_found, delivery_failed, Result, ok,
  err,
}
use ghostmail.Text.{split, split_2, index, trim_space, to_lower}
use ghostmail.Sql.{Sql, pure, raise, attempted, ignoring, wrapping, or_raise, ◌>>=◌, ◌>>◌}
use ghostmail.Storage.Schema.{Tables, User, Alias}
use ghostmail.Storage.Users.{get_user, get_user_by_id}
use ghostmail.Storage.Domains.{is_local_domain}
use ghostmail.Storage.Aliases.{resolve_alias}
use ghostmail.Storage.Queue.{enqueue_message}
use ghostmail.Webmail.Sessions.{WebSession}
use ghostmail.Webmail.Compose.{
  ComposeRequest, Stamp, Env, build_rfc5322, deliver_local, store_sent_copy,
}

-- addr[idx+1 : end]
abbrev pub between : Bytes → Option ℕ → Option ℕ → Bytes
between addr (some idx) (some end) =
    if ltb idx end then take (end - suc idx) (drop (suc idx) addr) else addr
between addr i j = addr

-- "Name <email>" is the email.
unfoldable pub address_of : Bytes → Bytes
address_of part =
    let addr = trim_space part in
    to_lower (trim_space (between addr (index addr (codes "<")) (index addr (codes ">"))))

unfoldable pub addresses_of : List Bytes → List Bytes
addresses_of [] = []
addresses_of (part ∷ parts) =
    let addr = address_of part in
    let rest = addresses_of parts in if equal addr [] then rest else addr ∷ rest

unfoldable pub parse_recipients : Bytes → List Bytes
parse_recipients s = if equal s [] then [] else addresses_of (split s b',')

-- The address that the mail is from: an alias only of the user, whatever its state.
abbrev pub sender_address : WebSession → Bytes → Result (Option Alias) → Bytes
sender_address sess from_alias (ok (some a)) =
    if a.user_id == sess.user_id then from_alias else sess.username ++ (codes "@" ++ sess.domain)
sender_address sess from_alias r = sess.username ++ (codes "@" ++ sess.domain)

unfoldable pub from_address : WebSession → Bytes → Sql Tables Bytes
from_address sess from_alias =
    if equal from_alias []
    then pure (sess.username ++ (codes "@" ++ sess.domain))
    else attempted (resolve_alias from_alias) >>= λ found.
        pure (sender_address sess from_alias found)

-- The owner of an alias, whatever its state.
unfoldable pub owner_of_alias : Bytes → Sql Tables User
owner_of_alias rcpt = do
  found ← wrapping user_not_found (resolve_alias rcpt)
  a ← or_raise user_not_found found
  owner ← wrapping owner_not_found (get_user_by_id a.user_id)
  or_raise owner_not_found owner

abbrev pub user_or_owner : Bytes → Result (Option User) → Sql Tables User
user_or_owner rcpt (ok (some user)) = pure user
user_or_owner rcpt r = owner_of_alias rcpt

abbrev pub deliver_by : Env → Bytes → Bytes → Bytes × Bytes → Bytes → Bool → Sql Tables (Unit {0})
deliver_by env from_addr rcpt parts raw_message true = do
  found ← attempted (get_user parts.0 parts.1)
  user ← user_or_owner rcpt found
  deliver_local env user raw_message
deliver_by env from_addr rcpt parts raw_message false =
    wrapping delivery_failed (enqueue_message from_addr rcpt raw_message env.now)

-- One recipient; a look-up of the domain that fails finds none.
unfoldable pub deliver_to : Env → Bytes → Bytes → Bytes → Sql Tables (Unit {0})
deliver_to env from_addr rcpt raw_message = do
  parts ← or_raise invalid_address (split_2 rcpt b'@')
  is_local ← ignoring false (is_local_domain parts.1)
  deliver_by env from_addr rcpt parts raw_message is_local

abbrev pub error_of : Bytes → Result (Unit {0}) → List (Bytes × Error)
error_of rcpt (ok u) = []
error_of rcpt (err e) = (rcpt, e) ∷ []

-- The loop over the recipients, with the errors of those that were not reached. The deliveries are
-- numbered.
unfoldable pub deliver_each :
    (ℕ → Env) → ℕ → Bytes → Bytes → List Bytes → Sql Tables (List (Bytes × Error))
deliver_each envs i from_addr raw_message [] = pure []
deliver_each envs i from_addr raw_message (r ∷ rs) =
    let rcpt = trim_space r in
    let rest = deliver_each envs (suc i) from_addr raw_message rs in
    if equal rcpt [] then rest else (do
      outcome ← attempted (deliver_to (envs i) from_addr rcpt raw_message)
      errors ← rest
      pure (error_of rcpt outcome ++ errors))

-- What a request to send takes from outside; the Sent copy has a delivery of its own.
pub record SendEnv : Type 0 where
  pub stamp : Stamp
  pub hostname : Bytes
  pub delivery : ℕ → Env
  pub sent_copy : Env

abbrev pub all_recipients : ComposeRequest → List Bytes
all_recipients req =
    parse_recipients req.to ++ (parse_recipients req.cc ++ parse_recipients req.bcc)

-- The reply: the errors of the deliveries, none when it is ok.
unfoldable pub handle_send_message :
    SendEnv → WebSession → Option ComposeRequest → Sql Tables (List (Bytes × Error))
handle_send_message env sess decoded = do
  req ← or_raise (refused 400 (codes "invalid request")) decoded
  (if equal req.to [] || equal req.subject []
      then raise (refused 400 (codes "to and subject are required"))
      else pure tt)
  found ← wrapping (refused 500 (codes "sender not found")) (get_user sess.username sess.domain)
  sender ← or_raise (refused 500 (codes "sender not found")) found
  from_addr ← from_address sess req.from_alias
  let raw_message =
      build_rfc5322 env.stamp from_addr req.to req.cc req.subject req.body req.in_reply_to
        env.hostname
  errors ← deliver_each env.delivery 0 from_addr raw_message (all_recipients req)
  store_sent_copy env.sent_copy sender raw_message
  pure errors
