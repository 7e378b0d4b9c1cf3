-- ===== src/Examples/Mail.antt =====
-- The theorems on internal/smtp at the data of the parent module.
use ghostmail.Prelude.{
  ℕ, ◌≤◌, true, false, none, some, [], ◌∷◌, Bytes, codes, ◌≡◌, refl, arith, inl, equal, ◌==◌,
}
use ghostmail.Result.{ok}
use ghostmail.Text.{
  has_prefix, has_suffix, to_lower, trim_space, split_2, equal_fold, drop_while, is_space,
}
use ghostmail.Sql.{
  Db, healthy, or_raise, exec, query, statement, pure, raise, ignoring, wrapping, ◌>>=◌,
}
use ghostmail.Sql.Rows.{find, update, count}
use ghostmail.Crypto.Envelope.{decrypt_message}
use ghostmail.Storage.Schema.{Tables, User, Message, Alias}
use ghostmail.Storage.Users.{get_user_by_id}
use ghostmail.Storage.Aliases.{resolve_alias, increment_alias_count}
use ghostmail.Smtp.Message.{
  extract_addr, split_message, starts, rest_of, expiry_of_line, scan_positive, scan_digits,
}
use ghostmail.Smtp.Message.Split.{Divides, split_message-Divides}
use ghostmail.Smtp.Message.Expiry.{expiry_of_line_overflows}
use ghostmail.Smtp.Delivery.{seal_message, resolve_by_alias, admit_alias, has_expired, is_used_up}
use ghostmail.Smtp.Delivery.Admission.{Admits, resolve_by_alias-Admits}
use ghostmail.Smtp.Delivery.Sealing.{Drawn, sealed_body, seal_message-decrypt}
use ghostmail.Smtp.Session.{
  Session, new_session, DataEnv, received, receive, mail, with_sender, authorize_sender,
}
use ghostmail.Smtp.Session.Authorization.{MaySend, mail-MaySend}
use ghostmail.Smtp.Session.Relay.{IsForeign, enqueued, receive_foreign}
use ghostmail.Examples.{toy, toy-IsSound, draws, key_32, env, alice, letter, tables}

abbrev pub data_env : DataEnv
data_env = record {
  delivery = λ i. env;
  max_message_size = 1000;
  hostname = codes "mx.x.org";
  verifications = λ text. none;
}

abbrev pub text : Bytes
text = codes "Subject: hello\r\n\r\nhi"

-- A session of the server that asks for no authentication, to a user of this server.
abbrev pub inbound : Session
inbound = record (new_session false) {
  sender = codes "m@y.org";
  recipients = codes "<alice@x.org>" ∷ [];
}

-- The engine fails the third statement.
abbrev pub failing : Db Tables
failing = record { tables = tables; faults = false ∷ false ∷ true ∷ [] }

split_message_example : Divides text (split_message text)
split_message_example = split_message-Divides text

alias_resolves : (resolve_by_alias 5 (codes "a1@x.org") (healthy tables)).0 ≡ ok alice
unfolding resolve_by_alias resolve_alias admit_alias has_expired is_used_up get_user_by_id
    increment_alias_count or_raise exec ignoring wrapping query statement pure ◌>>=◌ find update
    equal
alias_resolves = refl

resolve_by_alias_example :
    (a : Alias) × Admits 5 (codes "a1@x.org") tables a
    × (find (λ (u : User). u.id == a.user_id) tables.users ≡ some alice)
resolve_by_alias_example =
    resolve_by_alias-Admits 5 (codes "a1@x.org") (healthy tables) alice alias_resolves

pub drawn : Drawn toy draws key_32
drawn = record {
  key = key_32;
  key_drawn = refl;
  key_length = refl;
  nonce = 1 ∷ [];
  nonce_drawn = refl;
  eph = key_32;
  eph_drawn = refl;
  key_nonce = 2 ∷ [];
  key_nonce_drawn = refl;
  shared = [];
  agreed = refl;
}

seal_message_example :
    (row : Message) × (seal_message env alice letter text ≡ ok row)
    × (decrypt_message toy (sealed_body row) key_32 ≡ ok text)
seal_message_example = seal_message-decrypt env alice letter text key_32 toy-IsSound refl refl drawn

-- A submission session of the user.
abbrev pub submission : Session
submission = record (new_session true) { auth_user = some alice }

own_alias :
    (mail submission (codes "<a1@x.org>") (healthy tables)).0
    ≡ ok (with_sender submission (codes "<a1@x.org>"))
unfolding mail authorize_sender resolve_alias wrapping query statement pure raise ◌>>=◌ find equal
    equal_fold extract_addr trim_space drop_while has_prefix has_suffix to_lower
own_alias = refl

mail_example :
    (with_sender submission (codes "<a1@x.org>") ≡ with_sender submission (codes "<a1@x.org>"))
    × MaySend tables true (codes "<a1@x.org>") (some alice)
mail_example =
    mail-MaySend (healthy tables) submission (with_sender submission (codes "<a1@x.org>"))
      (codes "<a1@x.org>") own_alias

own_address : MaySend tables true (codes "Alice@X.org") (some alice)
unfolding equal_fold equal extract_addr trim_space drop_while has_prefix has_suffix to_lower
own_address = inl refl

-- A session of the server that asks for no authentication, to a user of another server.
abbrev relayed : Session
relayed = record (new_session false) {
  sender = codes "m@y.org";
  recipients = codes "<bob@z.org>" ∷ [];
}

is_foreign : IsForeign tables.domains (codes "<bob@z.org>")
unfolding extract_addr trim_space drop_while has_prefix has_suffix to_lower split_2 count equal
is_foreign = (codes "bob", codes "z.org", refl, refl)

receive_foreign_example : receive data_env relayed text (healthy tables) ≡ (
  ok tt,
  healthy (
      enqueued data_env
        (codes "m@y.org")
        (received data_env relayed text)
        0
        (codes "<bob@z.org>" ∷ [])
        tables),
)
receive_foreign_example = receive_foreign data_env relayed text tables (is_foreign, tt)

abbrev three_centuries : Bytes
three_centuries = codes "X-GhostMail-Expires: 9300000000"

not_at : starts three_centuries (codes "x-ghostmail-expires-at:") ≡ false
unfolding has_prefix to_lower
not_at = refl

expires : starts three_centuries (codes "x-ghostmail-expires:") ≡ true
unfolding has_prefix to_lower
expires = refl

seconds_read : scan_positive (rest_of three_centuries 20) ≡ some 9300000000
unfolding scan_positive scan_digits trim_space drop_while is_space
seconds_read = refl

overflow_example : (t : ℕ) × (expiry_of_line (λ s. none) 5 three_centuries ≡ some t) × (t ≤ 5)
overflow_example =
    expiry_of_line_overflows (λ s. none) 5 9300000000 three_centuries not_at expires seconds_read
      (omega arith) (omega arith)
