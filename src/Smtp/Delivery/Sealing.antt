-- ===== src/Smtp/Delivery/Sealing.antt =====
-- The owner of the recipient's private key reads what deliverMessage stores.
use ghostmail.Prelude.{true, some, Bytes, ltb, length, ◌≡◌, refl, arith, Bool-cases, inl, inr}
use ghostmail.Result.{Result, ok, err}
use ghostmail.Crypto.Primitives.{Primitives, IsSound}
use ghostmail.Crypto.Envelope.{Draws, Sealed, decrypt_message}
use ghostmail.Crypto.Envelope.RoundTrip.{decrypt_message-encrypt_message}
use ghostmail.Storage.Schema.{User, Message}
use ghostmail.Smtp.Message.{split_message}
use ghostmail.Smtp.Delivery.{Env, with_headers, with_body, add_headers, seal_message}

-- What a reader decrypts of a row.
abbrev pub sealed_body : Message → Sealed
sealed_body m = record {
  body_enc = m.body_enc;
  body_nonce = m.body_nonce;
  wrapped_key = m.message_key_enc;
  key_nonce = m.message_key_nonce;
}

-- The random draws of a body were made, and X25519 accepts the ephemeral key.
pub record Drawn (p : Primitives) (d : Draws) (private_key : Bytes) : Type 0 where
  pub key : Bytes
  pub key_drawn : d.message_key ≡ some key
  pub key_length : length key ≡ 32
  pub nonce : Bytes
  pub nonce_drawn : d.body_nonce ≡ some nonce
  pub eph : Bytes
  pub eph_drawn : d.ephemeral ≡ some eph
  pub key_nonce : Bytes
  pub key_nonce_drawn : d.key_nonce ≡ some key_nonce
  pub shared : Bytes
  pub agreed : p.ecdh eph (p.public_key private_key) ≡ some shared

-- Encrypted headers leave the body alone.
sealed_body-with_headers :
    (r : Result Sealed) (m : Message) → sealed_body (with_headers r m) ≡ sealed_body m
sealed_body-with_headers (ok s) m = refl
sealed_body-with_headers (err e) m = refl

sealed_body-add_headers :
    (env : Env) (user : User) (headers : Bytes) (m : Message)
    → sealed_body (add_headers env user headers m) ≡ sealed_body m
sealed_body-add_headers env user headers m = elim (Bool-cases (ltb 0 (length headers))) [
  | inl e ↦ rw e (sealed_body-with_headers _ m)
  | inr e ↦ rw e refl
]

-- For a user whose public key belongs to a 32-byte private key, with the draws of the body made, a
-- message is sealed, and the private key decrypts the body of the row to the whole text, whether or
-- not the headers could be encrypted too.
pub seal_message-decrypt :
    (env : Env) (user : User) (m : Message) (text private_key : Bytes)
    → IsSound env.primitives
    → length private_key ≡ 32
    → user.public_key ≡ env.primitives.public_key private_key
    → Drawn env.primitives env.body_draws private_key
    → (row : Message) × (seal_message env user m text ≡ ok row)
      × (decrypt_message env.primitives (sealed_body row) private_key ≡ ok text)
unfolding seal_message
seal_message-decrypt env user m text private_key sound h32 owned d =
    let (s, sealed, opened) =
      decrypt_message-encrypt_message env.primitives sound env.body_draws text private_key d.key
        d.nonce d.eph d.key_nonce d.shared h32 d.key_drawn d.key_length d.nonce_drawn d.eph_drawn
        d.key_nonce_drawn d.agreed in
    let row = add_headers env user (split_message text).0 (with_body s m) in
    let nonempty : ltb 0 (length user.public_key) ≡ true =
      rw owned (ground (arith, sound.length-public_key private_key)) in
    (
      row,
      rw nonempty (rw owned (rw sealed refl)),
      rw (sealed_body-add_headers env user (split_message text).0 (with_body s m)) opened,
    )
