-- ===== src/Crypto/Primitives.antt =====
-- The operations of crypto/aes, crypto/cipher, crypto/ecdh and golang.org/x/crypto that internal/crypto
-- calls. They are a parameter: a record of functions, and a record of what they are documented to do.
use ghostmail.Prelude.{ℕ, ◌+◌, ◌<◌, Option, some, Bytes, length, All, ◌≡◌}

pub record Primitives : Type 0 where
  -- gcm.Seal and gcm.Open under a key and a nonce, with no additional data.
  pub seal : Bytes → Bytes → Bytes → Bytes
  pub unseal : Bytes → Bytes → Bytes → Option Bytes
  -- X25519: the public key of a private key, and ECDH, which refuses a shared secret of zeros.
  pub public_key : Bytes → Bytes
  pub ecdh : Bytes → Bytes → Option Bytes
  -- HKDF-SHA256 of a secret and an info text, 32 bytes.
  pub hkdf : Bytes → Bytes → Bytes
  -- Argon2id: password, salt, time, memory and threads, 32 bytes. IDKey panics for no time and for no
  -- threads; it is asked for a time and threads of 1 and more.
  pub argon2 : Bytes → Bytes → ℕ → ℕ → ℕ → Bytes
  -- HMAC-SHA256 of a key and a text.
  pub hmac : Bytes → Bytes → Bytes

pub record IsSound (p : Primitives) : Type 0 where
  pub unseal-seal :
      (key nonce text : Bytes) → p.unseal key nonce (p.seal key nonce text) ≡ some text
  -- The tag of 16 bytes is appended.
  pub length-seal : (key nonce text : Bytes) → length (p.seal key nonce text) ≡ length text + 16
  pub ecdh_comm : (a b : Bytes) → p.ecdh a (p.public_key b) ≡ p.ecdh b (p.public_key a)
  pub length-public_key : (a : Bytes) → length (p.public_key a) ≡ 32
  pub length-hkdf : (secret info : Bytes) → length (p.hkdf secret info) ≡ 32
  -- A byte string holds bytes.
  pub bytes-hkdf : (secret info : Bytes) → All (λ c. c < 256) (p.hkdf secret info)
