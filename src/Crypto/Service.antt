-- ===== src/Crypto/Service.antt =====
-- internal/crypto/service.go, and the wrapping of private keys of envelope.go.
pub mod Login
use ghostmail.Prelude.{ℕ, Option, none, some, Bool, Bytes, if◌then◌else◌}
use ghostmail.Result.{crypto, invalid_credentials, Result, ok, err, ◌>>=◌}
use ghostmail.Crypto.Primitives.{Primitives}
use ghostmail.Crypto.Envelope.{or_error, encrypt_aes_gcm, decrypt_aes_gcm}
use ghostmail.Crypto.SafeMem.{wipe, constant_time_equal}
use ghostmail.Crypto.Keys.{KeyParams, Json, DerivedKeys, default_key_params, derive_from_password}

pub record Service : Type 0 where
  pub argon2_time : ℕ
  pub argon2_memory : ℕ
  pub argon2_threads : ℕ

pub record UserKeys : Type 0 where
  pub public_key : Bytes
  pub wrapped_private_key : Bytes
  pub key_nonce : Bytes
  pub auth_hash : Bytes
  pub key_params : Bytes
  pub search_key : Bytes

pub record SessionKeys : Type 0 where
  pub private_key : Bytes
  pub search_key : Bytes

-- The random values of one RegisterUser, in the order of their draws.
pub record Registration : Type 0 where
  pub salt : Option Bytes
  pub private_key : Option Bytes
  pub key_nonce : Option Bytes

module _ (p : Primitives) where
  -- GenerateX25519Keypair: the public and the private key.
  unfoldable pub generate_x25519_keypair : Option Bytes → Result (Bytes × Bytes)
  generate_x25519_keypair drawn = do priv ← or_error crypto drawn; ok (p.public_key priv, priv)

  unfoldable pub wrap_private_key : Option Bytes → Bytes → Bytes → Result (Bytes × Bytes)
  wrap_private_key nonce private_key encryption_key =
      encrypt_aes_gcm p nonce private_key encryption_key

  unfoldable pub unwrap_private_key : Bytes → Bytes → Bytes → Result Bytes
  unwrap_private_key wrapped nonce encryption_key = decrypt_aes_gcm p wrapped nonce encryption_key

  module _ (json : Json) where
    unfoldable pub register_user : Service → Registration → Bytes → Result UserKeys
    register_user s drawn password = do
      params ← default_key_params drawn.salt s.argon2_time s.argon2_memory s.argon2_threads
      dk ← derive_from_password p password params
      pair ← generate_x25519_keypair drawn.private_key
      wrapped ← wrap_private_key drawn.key_nonce pair.1 dk.encryption_key
      ok (record {
        public_key = pair.0;
        wrapped_private_key = wrapped.0;
        key_nonce = wrapped.1;
        auth_hash = dk.auth_key;
        key_params = json.marshal params;
        search_key = dk.search_key;
      })

    abbrev pub open_keys : DerivedKeys → Bytes → Bytes → Result SessionKeys
    open_keys dk wrapped_private_key key_nonce = do
      private_key ← unwrap_private_key wrapped_private_key key_nonce dk.encryption_key
      ok (record { private_key = private_key; search_key = dk.search_key })

    unfoldable pub authenticate : Bytes → Bytes → Bytes → Bytes → Bytes → Result SessionKeys
    authenticate password key_params stored_auth_hash wrapped_private_key key_nonce = do
      params ← or_error crypto (json.unmarshal key_params)
      dk ← derive_from_password p password params
      if constant_time_equal dk.auth_key stored_auth_hash
          then open_keys dk wrapped_private_key key_nonce
          else err invalid_credentials

-- Release
unfoldable release : SessionKeys → SessionKeys
release sk = record { private_key = wipe sk.private_key; search_key = wipe sk.search_key }
