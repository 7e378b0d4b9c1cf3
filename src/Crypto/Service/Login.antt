-- ===== src/Crypto/Service/Login.antt =====
-- Who logs in, and with which keys.
use ghostmail.Prelude.{
  ◌⊎◌, ap, ◌||◌, ◌==◌, arith, equal, ◌<◌, some, true, false, Bytes, codes, length, All, equal_refl,
  equal_sound, ◌≡◌, refl, sym, ◌∙◌, Bool-cases, Option-cases, inl, inr, if◌then◌else◌,
}
use ghostmail.Result.{Error, panicked, ◌>>=◌, Result, ok, err, invalid_credentials}
use ghostmail.Crypto.Primitives.{Primitives, IsSound}
use ghostmail.Crypto.Envelope.RoundTrip.{decrypt_aes_gcm-encrypt}
use ghostmail.Crypto.SafeMem.{constant_time_equal}
use ghostmail.Crypto.SafeMem.Comparison.{IsByte, constant_time_equal-equal}
use ghostmail.Crypto.Keys.{
  derived_keys, KeyParams, Json, ReadsBack, default_key_params, derive_sub_key,
  derive_from_password, hash_password,
}
use ghostmail.Crypto.Service.{
  Service, UserKeys, SessionKeys, Registration, generate_x25519_keypair, wrap_private_key,
  unwrap_private_key, register_user, authenticate, open_keys,
}

-- The draws of a registration were made.
pub record Registered (drawn : Registration) (private_key : Bytes) : Type 0 where
  pub salt : Bytes
  pub salt_drawn : drawn.salt ≡ some salt
  pub key_drawn : drawn.private_key ≡ some private_key
  pub nonce : Bytes
  pub nonce_drawn : drawn.key_nonce ≡ some nonce

-- Keys as RegisterUser makes them for a private key: the password opens them, the hash is bytes, the
-- wrapped key has its tag, and the parameters are not the empty object.
pub record Opens (p : Primitives) (json : Json) (password private_key : Bytes) (k : UserKeys)
    : Type 0 where
  pub owned : k.public_key ≡ p.public_key private_key
  pub opened :
      authenticate p json password k.key_params k.auth_hash k.wrapped_private_key k.key_nonce
      ≡ ok (record { private_key = private_key; search_key = k.search_key })
  pub bytes : All IsByte k.auth_hash
  pub tagged : 0 < length k.wrapped_private_key
  pub described : equal k.key_params (codes "{}") ≡ false

module _ (p : Primitives) (sound : IsSound p) (json : Json) where
  auth_key-IsByte :
      (password : Bytes) (params : KeyParams) → All IsByte (derived_keys p password params).auth_key
  unfolding derived_keys derive_sub_key
  auth_key-IsByte password params = sound.bytes-hkdf _ _

  length-encryption_key :
      (password : Bytes) (params : KeyParams)
      → length (derived_keys p password params).encryption_key ≡ 32
  unfolding derived_keys derive_sub_key
  length-encryption_key password params = sound.length-hkdf _ _

  same_auth_key :
      (password : Bytes) (params : KeyParams)
      → constant_time_equal
          (derived_keys p password params).auth_key
          (derived_keys p password params).auth_key
        ≡ true
  same_auth_key password params =
      let bytes = auth_key-IsByte password params in
      constant_time_equal-equal _ _ bytes bytes ∙ equal_refl _

  derive_from_password-derived :
      (password : Bytes) (params : KeyParams)
      → 0 < params.time
      → 0 < params.threads
      → derive_from_password p password params ≡ ok (derived_keys p password params)
  unfolding derive_from_password
  derive_from_password-derived password params timed threaded =
      let apt : (params.time == 0) || (params.threads == 0) ≡ false = ground arith in rw apt refl

  pub unless_panicked :
      (password : Bytes) (params : KeyParams)
      → (derive_from_password p password params ≡ err panicked)
        ⊎ (derive_from_password p password params ≡ ok (derived_keys p password params))
  unfolding derive_from_password
  unless_panicked password params =
      elim (Bool-cases ((params.time == 0) || (params.threads == 0))) [
        | inl e ↦ inl (rw e refl)
        | inr e ↦ inr (rw e refl)
      ]

  -- With its draws made and parameters for which Argon2 does not panic, a registration makes keys whose public key is that of the private key drawn,
  -- and Authenticate with the same password opens them: it returns the private key and the search key.
  pub register_user-Opens :
      (s : Service) (drawn : Registration) (password private_key : Bytes)
      → ReadsBack json
      → Registered drawn private_key
      → 0 < s.argon2_time
      → 0 < s.argon2_threads
      → (k : UserKeys) × (register_user p json s drawn password ≡ ok k)
        × Opens p json password private_key k
  unfolding register_user default_key_params generate_x25519_keypair wrap_private_key authenticate
      unwrap_private_key
  register_user-Opens s drawn password private_key back made timed threaded =
      let params : KeyParams = record {
        time = s.argon2_time;
        memory = s.argon2_memory;
        threads = s.argon2_threads;
        salt = made.salt;
      } in
      let dk = derived_keys p password params in
      let derived = derive_from_password-derived password params timed threaded in
      let (sealed, unsealed) =
        decrypt_aes_gcm-encrypt p sound made.nonce dk.encryption_key private_key
          (length-encryption_key password params) in
      (
        record {
          public_key = p.public_key private_key;
          wrapped_private_key = p.seal dk.encryption_key made.nonce private_key;
          key_nonce = made.nonce;
          auth_hash = dk.auth_key;
          key_params = json.marshal params;
          search_key = dk.search_key;
        },
        rw (made.salt_drawn, made.key_drawn, made.nonce_drawn) (rw (derived, sealed) refl),
        record {
          owned = refl;
          opened =
              rw (back.unmarshal-marshal params, derived)
                (rw (same_auth_key password params) (rw unsealed refl));
          bytes = auth_key-IsByte password params;
          tagged = omega (arith, sound.length-seal dk.encryption_key made.nonce private_key);
          described = back.marshal-object params;
        },
      )

  opened_if_equal :
      (password stored wrapped nonce : Bytes) (params : KeyParams) (sk : SessionKeys)
      → (if constant_time_equal (derived_keys p password params).auth_key stored
          then open_keys p json (derived_keys p password params) wrapped nonce
          else err invalid_credentials)
        ≡ ok sk
      → All IsByte stored
      → (derived_keys p password params).auth_key ≡ stored
  opened_if_equal password stored wrapped nonce params sk e h =
      elim (Bool-cases (constant_time_equal (derived_keys p password params).auth_key stored)) [
        | inl same ↦
            equal_sound _ _
              (sym (constant_time_equal-equal _ _ (auth_key-IsByte password params) h) ∙ same)
        | inr other ↦ absurd (refused (rw other at e))
      ]
    where
      refused : ◌≡◌ {A = Result SessionKeys} (err invalid_credentials) (ok sk) → ⊥
      refused r = cc

  hashed_if_opened :
      (password stored wrapped nonce : Bytes) (params : KeyParams) (sk : SessionKeys)
      → ◌>>=◌ (derive_from_password p password params) (λ dk.
        if constant_time_equal dk.auth_key stored
        then open_keys p json dk wrapped nonce
        else err invalid_credentials)
        ≡ ok sk
      → All IsByte stored
      → hash_password p password params ≡ ok stored
  unfolding hash_password
  hashed_if_opened password stored wrapped nonce params sk opened h =
      elim (unless_panicked password params) [
        | inl stopped ↦ absurd (unread (rw stopped at opened))
        | inr derived ↦ rw derived (
            ap ok
              (opened_if_equal password stored wrapped nonce params sk (rw derived at opened) h))
      ]
    where
      unread : {e : Error} → ◌≡◌ {A = Result SessionKeys} (err e) (ok sk) → ⊥
      unread r = cc

  -- Authenticate returns keys only if the parameters can be read and the password hashes under them to
  -- the stored hash.
  pub authenticate-hash :
      (password key_params stored wrapped nonce : Bytes) (sk : SessionKeys)
      → All IsByte stored
      → authenticate p json password key_params stored wrapped nonce ≡ ok sk
      → (params : KeyParams) × (json.unmarshal key_params ≡ some params)
        × (hash_password p password params ≡ ok stored)
  unfolding authenticate
  authenticate-hash password key_params stored wrapped nonce sk h e =
      elim (Option-cases (json.unmarshal key_params)) [
        | inl none_read ↦ absurd (unread (rw none_read at e))
        | inr (params, read) ↦ (
          params,
          read,
          hashed_if_opened password stored wrapped nonce params sk (rw read at e) h,
        )
      ]
    where
      unread : {e : Error} → ◌≡◌ {A = Result SessionKeys} (err e) (ok sk) → ⊥
      unread r = cc
