-- ===== src/Crypto/Envelope.antt =====
-- internal/crypto/envelope.go. What rand.Read and GenerateKey draw is an input; `none` is their error.
pub mod RoundTrip
use ghostmail.Prelude.{
  ℕ, ◌<◌, Bool, true, false, ◌||◌, not, Option, none, some, List, [], ◌∷◌, ◌++◌, ◌==◌, ltb,
  if◌then◌else◌, Bytes, codes, length, length-append, take, drop, ◌≡◌, refl, ap, ◌∙◌, arith,
}
use ghostmail.Result.{Error, crypto, bad_key, bad_tag, too_short, Result, ok, err, ◌>>=◌}
use ghostmail.Crypto.Primitives.{Primitives, IsSound}

abbrev pub or_error : {A : Type 0} → Error → Option A → Result A
or_error e none = err e
or_error e (some a) = ok a

-- aes.NewCipher takes 16, 24 or 32 bytes.
abbrev is_aes_key : Bytes → Bool
is_aes_key key = (length key == 16) || (length key == 24) || (length key == 32)

-- NewPublicKey and NewPrivateKey of X25519 take 32 bytes.
abbrev x25519_key : Bytes → Result Bytes
x25519_key key = if length key == 32 then ok key else err bad_key

-- The random values of one EncryptMessage.
pub record Draws : Type 0 where
  pub message_key : Option Bytes
  pub body_nonce : Option Bytes
  pub ephemeral : Option Bytes
  pub key_nonce : Option Bytes

-- What EncryptMessage returns and DecryptMessage takes.
pub record Sealed : Type 0 where
  pub body_enc : Bytes
  pub body_nonce : Bytes
  pub wrapped_key : Bytes
  pub key_nonce : Bytes

module _ (p : Primitives) where
  -- Ciphertext and nonce.
  unfoldable pub encrypt_aes_gcm : Option Bytes → Bytes → Bytes → Result (Bytes × Bytes)
  encrypt_aes_gcm drawn plaintext key =
      if is_aes_key key
      then (do nonce ← or_error crypto drawn; ok (p.seal key nonce plaintext, nonce))
      else err bad_key

  unfoldable pub decrypt_aes_gcm : Bytes → Bytes → Bytes → Result Bytes
  decrypt_aes_gcm ciphertext nonce key =
      if is_aes_key key then or_error bad_tag (p.unseal key nonce ciphertext) else err bad_key

  -- Each plaintext with what is drawn for its nonce.
  unfoldable encrypt_multiple : List (Option Bytes × Bytes) → Bytes → Result (List (Bytes × Bytes))
  encrypt_multiple [] key = ok []
  encrypt_multiple ((drawn, plaintext) ∷ plaintexts) key = do
    field ← encrypt_aes_gcm drawn plaintext key
    fields ← encrypt_multiple plaintexts key
    ok (field ∷ fields)

  unfoldable pub wrapping_key : Bytes → Bytes
  wrapping_key shared = p.hkdf shared (codes "ghostmail-keywrap")

  -- The ephemeral public key stands before the encrypted message key.
  unfoldable pub wrap_message_key : Draws → Bytes → Bytes → Result (Bytes × Bytes)
  wrap_message_key d message_key recipient = do
    pub_key ← x25519_key recipient
    eph ← or_error crypto d.ephemeral
    shared ← or_error crypto (p.ecdh eph pub_key)
    sealed ← encrypt_aes_gcm d.key_nonce message_key (wrapping_key shared)
    ok (p.public_key eph ++ sealed.0, sealed.1)

  unfoldable pub unwrap_message_key : Bytes → Bytes → Bytes → Result Bytes
  unwrap_message_key wrapped nonce private_key =
      if ltb (length wrapped) 32 then err too_short else do
        eph_pub ← x25519_key (take 32 wrapped)
        priv ← x25519_key private_key
        shared ← or_error crypto (p.ecdh priv eph_pub)
        decrypt_aes_gcm (drop 32 wrapped) nonce (wrapping_key shared)

  unfoldable pub encrypt_message : Draws → Bytes → Bytes → Result Sealed
  encrypt_message d plaintext recipient = do
    message_key ← or_error crypto d.message_key
    body ← encrypt_aes_gcm d.body_nonce plaintext message_key
    wrapped ← wrap_message_key d message_key recipient
    ok (record {
      body_enc = body.0;
      body_nonce = body.1;
      wrapped_key = wrapped.0;
      key_nonce = wrapped.1;
    })

  unfoldable pub decrypt_message : Sealed → Bytes → Result Bytes
  decrypt_message s private_key = do
    message_key ← unwrap_message_key s.wrapped_key s.key_nonce private_key
    decrypt_aes_gcm s.body_enc s.body_nonce message_key
