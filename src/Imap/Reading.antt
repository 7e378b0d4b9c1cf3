-- ===== src/Imap/Reading.antt =====
-- A user reads mail: registration, delivery, Login and Fetch together.
use ghostmail.Prelude.{
  Bool, ◌<◌, Bool, true, Option, some, Bytes, length, ltb, ◌≡◌, refl, ◌∙◌, arith, Bool-cases, inl,
  inr,
}
use ghostmail.Result.{Result, too_short, ok, err}
use ghostmail.Text.{split_2}
use ghostmail.Text.Hex.{hex_encode, hex_decode-hex_encode}
use ghostmail.Sql.{healthy, pure, lift, or_raise, query, statement, wrapping, ◌>>=◌}
use ghostmail.Sql.Rows.{find}
use ghostmail.Crypto.Primitives.{Primitives, IsSound}
use ghostmail.Crypto.Envelope.{Sealed, unwrap_message_key, decrypt_message}
use ghostmail.Crypto.Keys.{Json, ReadsBack}
use ghostmail.Crypto.Service.{Service, UserKeys, SessionKeys, Registration, register_user}
use ghostmail.Crypto.Service.Login.{Registered, Opens, register_user-Opens}
use ghostmail.Storage.Schema.{Tables, User, Message}
use ghostmail.Storage.Users.{is_named, get_user}
use ghostmail.Smtp.Delivery.{Env, seal_message}
use ghostmail.Smtp.Delivery.Sealing.{Drawn, sealed_body, seal_message-decrypt}
use ghostmail.Admin.{enrolled}
use ghostmail.Imap.Session.{Session, has_keys, check_password, login, logged_in}
use ghostmail.Imap.Fetch.{message_data}

-- What can be decrypted has a wrapped key.
wrapped_nonempty :
    (p : Primitives) (s : Sealed) (private_key text : Bytes)
    → decrypt_message p s private_key ≡ ok text
    → ltb 0 (length s.wrapped_key) ≡ true
unfolding decrypt_message unwrap_message_key
wrapped_nonempty p s private_key text e = elim (Bool-cases (ltb (length s.wrapped_key) 32)) [
  | inl short ↦ absurd (refused (rw short at e))
  | inr long ↦ ground arith
]
  where
    refused : ◌≡◌ {A = Result Bytes} (err too_short) (ok text) → ⊥
    refused r = cc

module _ (p : Primitives) (json : Json) where
  -- The row of a user of these keys, as the panel and the command line make it.
  pub record IsEnrolled (k : UserKeys) (user : User) : Type 0 where
    pub hash : user.password_hash ≡ hex_encode k.auth_hash
    pub public_key : user.public_key ≡ k.public_key
    pub wrapped : user.wrapped_private_key ≡ k.wrapped_private_key
    pub nonce : user.key_nonce ≡ k.key_nonce
    pub params : user.key_params ≡ k.key_params

  pub enrolled-IsEnrolled :
      (k : UserKeys) (username domain : Bytes) (is_admin : Bool)
      → IsEnrolled k (enrolled k username domain is_admin)
  enrolled-IsEnrolled k username domain is_admin = record {
    hash = refl;
    public_key = refl;
    wrapped = refl;
    nonce = refl;
    params = refl;
  }

  check_password-Opens :
      (k : UserKeys) (user : User) (password private_key : Bytes)
      → IsEnrolled k user
      → Opens p json password private_key k
      → check_password p json user password
        ≡ ok (some (record { private_key = private_key; search_key = k.search_key }))
  unfolding check_password
  check_password-Opens k user password private_key row opens =
      let keyed : has_keys p json user ≡ true =
        rw (row.wrapped, row.params) (ground (arith, opens.tagged, opens.described)) in
      rw keyed (
        rw (row.hash, hex_decode-hex_encode k.auth_hash opens.bytes)
          (rw (row.params, row.wrapped, row.nonce, opens.opened) refl))

  login-finds :
      (s : Session) (t : Tables) (username local domain password : Bytes) (user : User)
      (keys : Option SessionKeys)
      → split_2 username b'@' ≡ some (local, domain)
      → find (is_named local domain) t.users ≡ some user
      → check_password p json user password ≡ ok keys
      → login p json s username password (healthy t)
        ≡ (ok (logged_in p json s user keys), healthy t)
  unfolding login get_user query statement wrapping or_raise lift pure ◌>>=◌
  login-finds s t username local domain password user keys split found opened =
      rw split (rw found (rw opened refl))

  read_by_owner :
      (s : Session) (sk : SessionKeys) (user : User) (m : Message) (text : Bytes)
      → decrypt_message p (sealed_body m) sk.private_key ≡ ok text
      → message_data p (logged_in p json s user (some sk)) m ≡ text
  unfolding message_data
  read_by_owner s sk user m text e =
      rw (wrapped_nonempty p (sealed_body m) sk.private_key text e, e) refl

-- With every random draw made, and a time and threads of at least 1 for Argon2: a registration succeeds, and if the store has the row of a user with
-- its keys, Login with the registered password succeeds on an engine that fails nothing, mail to that
-- user is sealed, and what Fetch then sends of a row so sealed is the whole text.
pub login_reads_mail :
    (json : Json) (service : Service) (drawn : Registration)
    (password private_key username local domain : Bytes) (env : Env) (text : Bytes) (m : Message)
    (t : Tables) (user : User) (s : Session)
    → IsSound env.primitives
    → ReadsBack json
    → length private_key ≡ 32
    → Registered drawn private_key
    → 0 < service.argon2_time
    → 0 < service.argon2_threads
    → Drawn env.primitives env.body_draws private_key
    → split_2 username b'@' ≡ some (local, domain)
    → find (is_named local domain) t.users ≡ some user
    → ((k : UserKeys)
        → register_user env.primitives json service drawn password ≡ ok k
        → IsEnrolled env.primitives json k user)
    → (s' : Session) × (row : Message) × (login env.primitives json s username password (healthy t)
        ≡ (ok s', healthy t))
      × (seal_message env user m text ≡ ok row)
      × (message_data env.primitives s' row ≡ text)
login_reads_mail json service drawn password private_key username local domain env text m t user s
      sound back h32 made timed threaded sealing split found enrol =
    let (k, registered, opens) =
      register_user-Opens env.primitives sound json service drawn password private_key back made
        timed threaded in
    let row_of = enrol k registered in
    let sk : SessionKeys = record { private_key = private_key; search_key = k.search_key } in
    let (row, sealed, opened) =
      seal_message-decrypt env user m text private_key sound h32 (row_of.public_key ∙ opens.owned)
        sealing in
    (
      logged_in env.primitives json s user (some sk),
      row,
      login-finds env.primitives json s t username local domain password user (some sk) split found
          (check_password-Opens env.primitives json k user password private_key row_of opens),
      sealed,
      read_by_owner env.primitives json s sk user row text opened,
    )
