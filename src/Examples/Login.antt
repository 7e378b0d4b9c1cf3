-- ===== src/Examples/Login.antt =====
-- The theorems on internal/crypto and on Login of internal/imap, at the data of the parent module.
use mathlib.Core.Path.{subst}
use ghostmail.Prelude.{
  false, Option, none, some, [], ◌∷◌, equal, Bytes, codes, ◌≡◌, refl, arith, All,
}
use ghostmail.Result.{ok}
use ghostmail.Text.{split_2}
use ghostmail.Sql.{healthy}
use ghostmail.Sql.Rows.{find}
use ghostmail.Storage.Users.{is_named}
use ghostmail.Crypto.SafeMem.{differences, constant_time_equal}
use ghostmail.Crypto.SafeMem.Comparison.{IsByte}
use ghostmail.Crypto.Envelope.{encrypt_aes_gcm, decrypt_aes_gcm}
use ghostmail.Crypto.Keys.{
  derived_keys, default_key_params, derive_from_password, derive_sub_key, KeyParams, Json,
  ReadsBack, hash_password,
}
use ghostmail.Crypto.Service.{
  Service, UserKeys, SessionKeys, Registration, register_user, authenticate,
  generate_x25519_keypair, wrap_private_key, unwrap_private_key,
}
use ghostmail.Crypto.Service.Login.{Registered, Opens, authenticate-hash}
use ghostmail.Storage.Schema.{Tables, User, Message}
use ghostmail.Smtp.Delivery.{seal_message}
use ghostmail.Smtp.Session.{authenticate as smtp_authenticate}
use ghostmail.Smtp.Session.Password.{authenticate-Opens}
use ghostmail.Admin.{enrolled}
use ghostmail.Imap.Session.{Session, new_session, login}
use ghostmail.Imap.Fetch.{message_data}
use ghostmail.Imap.Reading.{IsEnrolled, enrolled-IsEnrolled, login_reads_mail}
use ghostmail.Examples.{toy, toy-IsSound, key_32, env, letter, tables}
use ghostmail.Examples.Mail.{drawn, submission}

key_bytes : All IsByte key_32
key_bytes = omega arith

-- The fields in their order, after a byte that no empty object begins with.
abbrev read_params : Bytes → Option KeyParams
read_params (b ∷ time ∷ memory ∷ threads ∷ salt) =
    some (record { time = time; memory = memory; threads = threads; salt = salt })
read_params b = none

abbrev pub json : Json
json = record {
  marshal = λ kp. 49 ∷ kp.time ∷ kp.memory ∷ kp.threads ∷ kp.salt;
  unmarshal = read_params;
}

json-ReadsBack : ReadsBack json
unfolding equal
json-ReadsBack = record { marshal-object = λ kp. refl; unmarshal-marshal = λ kp. refl }

abbrev service : Service
service = record { argon2_time = 3; argon2_memory = 65536; argon2_threads = 4 }

abbrev registration : Registration
registration = record {
  salt = some (1 ∷ 2 ∷ []);
  private_key = some key_32;
  key_nonce = some (3 ∷ []);
}

registration-Registered : Registered registration key_32
registration-Registered = record {
  salt = 1 ∷ 2 ∷ [];
  salt_drawn = refl;
  key_drawn = refl;
  nonce = 3 ∷ [];
  nonce_drawn = refl;
}

-- What the registration makes.
abbrev keys : UserKeys
keys = record {
  public_key = key_32;
  wrapped_private_key = toy.seal key_32 (3 ∷ []) key_32;
  key_nonce = 3 ∷ [];
  auth_hash = key_32;
  key_params = 49 ∷ 3 ∷ 65536 ∷ 4 ∷ 1 ∷ 2 ∷ [];
  search_key = key_32;
}

abbrev session_keys : SessionKeys
session_keys = record { private_key = key_32; search_key = key_32 }

registered_keys : register_user toy json service registration (codes "secret") ≡ ok keys
unfolding register_user default_key_params generate_x25519_keypair wrap_private_key encrypt_aes_gcm
    derive_from_password derived_keys derive_sub_key
registered_keys = refl

keys_open :
    authenticate toy json
      (codes "secret")
      keys.key_params
      keys.auth_hash
      keys.wrapped_private_key
      keys.key_nonce
    ≡ ok session_keys
unfolding authenticate constant_time_equal derive_from_password derived_keys derive_sub_key
    differences unwrap_private_key decrypt_aes_gcm
keys_open = refl

authenticate_example :
    (params : KeyParams) × (json.unmarshal keys.key_params ≡ some params)
    × (hash_password toy (codes "secret") params ≡ ok keys.auth_hash)
authenticate_example =
    authenticate-hash toy toy-IsSound json (codes "secret") keys.key_params keys.auth_hash
      keys.wrapped_private_key keys.key_nonce session_keys key_bytes keys_open

-- The row that the panel stores of the user.
abbrev row : User
row = enrolled keys (codes "alice") (codes "x.org") false

abbrev one_user : Tables
one_user = record tables { users = row ∷ [] }

at_sign : split_2 (codes "alice@x.org") b'@' ≡ some (codes "alice", codes "x.org")
unfolding split_2
at_sign = refl

row_found : find (is_named (codes "alice") (codes "x.org")) one_user.users ≡ some row
unfolding find equal
row_found = refl

row-IsEnrolled :
    (k : UserKeys)
    → register_user toy json service registration (codes "secret") ≡ ok k
    → IsEnrolled toy json k row
row-IsEnrolled k e =
    let same : keys ≡ k = cc (registered_keys, e) in
    subst (λ x. IsEnrolled toy json x row) same
      (enrolled-IsEnrolled toy json keys (codes "alice") (codes "x.org") false)

login_reads_mail_example :
    (s : Session) × (m : Message) × (login toy json new_session
        (codes "alice@x.org")
        (codes "secret")
        (healthy one_user)
      ≡ (ok s, healthy one_user))
    × (seal_message env row letter (codes "hi") ≡ ok m)
    × (message_data toy s m ≡ codes "hi")
login_reads_mail_example =
    login_reads_mail json service registration (codes "secret") key_32 (codes "alice@x.org")
      (codes "alice") (codes "x.org") env (codes "hi") letter one_user row new_session toy-IsSound
      json-ReadsBack refl registration-Registered (omega arith) (omega arith) drawn at_sign
      row_found row-IsEnrolled

keys-Opens : Opens toy json (codes "secret") key_32 keys
unfolding equal
keys-Opens = record {
  owned = refl;
  opened = keys_open;
  bytes = key_bytes;
  tagged = omega arith;
  described = refl;
}

smtp_authenticate_example :
    smtp_authenticate toy json submission (codes "alice@x.org") (codes "secret") (healthy one_user)
    ≡ (ok (record submission { auth_user = some row }), healthy one_user)
smtp_authenticate_example =
    authenticate-Opens toy toy-IsSound json keys row (codes "secret") key_32 (codes "alice@x.org")
      (codes "alice") (codes "x.org") submission one_user keys-Opens
      (row-IsEnrolled keys registered_keys) at_sign row_found
