-- ===== src/Crypto/Envelope/RoundTrip.antt =====
-- Decryption undoes encryption, for the holder of the recipient's private key.
use ghostmail.Prelude.{
  ℕ, zero, suc, some, List, [], ◌∷◌, ◌++◌, Bytes, length, length-append, take, drop, ◌≡◌, refl, ap,
  arith,
}
use ghostmail.Result.{ok}
use ghostmail.Crypto.Primitives.{Primitives, IsSound}
use ghostmail.Crypto.Envelope.{
  Draws, Sealed, encrypt_aes_gcm, decrypt_aes_gcm, wrapping_key, wrap_message_key,
  unwrap_message_key, encrypt_message, decrypt_message,
}

pub take-append {ℓ} : {A : Type ℓ} (n : ℕ) (xs ys : List A) → length xs ≡ n → take n (xs ++ ys) ≡ xs
take-append zero [] ys e = refl
take-append zero (x ∷ xs) ys e = absurd (omega arith)
take-append (suc n) [] ys e = absurd (omega arith)
take-append (suc n) (x ∷ xs) ys e = ap (λ l. x ∷ l) (take-append n xs ys (omega arith))

drop-append {ℓ} : {A : Type ℓ} (n : ℕ) (xs ys : List A) → length xs ≡ n → drop n (xs ++ ys) ≡ ys
drop-append zero [] ys e = refl
drop-append zero (x ∷ xs) ys e = absurd (omega arith)
drop-append (suc n) [] ys e = absurd (omega arith)
drop-append (suc n) (x ∷ xs) ys e = drop-append n xs ys (omega arith)

module _ (p : Primitives) (sound : IsSound p) where
  pub decrypt_aes_gcm-encrypt :
      (nonce key text : Bytes)
      → length key ≡ 32
      → (encrypt_aes_gcm p (some nonce) text key ≡ ok (p.seal key nonce text, nonce))
        × (decrypt_aes_gcm p (p.seal key nonce text) nonce key ≡ ok text)
  unfolding encrypt_aes_gcm decrypt_aes_gcm
  decrypt_aes_gcm-encrypt nonce key text h = ground (arith, sound.unseal-seal key nonce text)

  module _ (key private_key eph nonce shared : Bytes) where
    abbrev wrapped : Bytes
    wrapped = p.public_key eph ++ p.seal (wrapping_key p shared) nonce key

    length-wrapping_key : length (wrapping_key p shared) ≡ 32
    unfolding wrapping_key
    length-wrapping_key = sound.length-hkdf shared _

    wrap_lem :
        (d : Draws)
        → d.ephemeral ≡ some eph
        → d.key_nonce ≡ some nonce
        → p.ecdh eph (p.public_key private_key) ≡ some shared
        → wrap_message_key p d key (p.public_key private_key) ≡ ok (wrapped, nonce)
    unfolding wrap_message_key
    wrap_lem d he hn hs =
        rw (he, hn)
          (ground (
            arith,
            sound.length-public_key private_key,
            hs,
            (decrypt_aes_gcm-encrypt nonce (wrapping_key p shared) key length-wrapping_key).0,
          ))

    unwrap_lem :
        length private_key ≡ 32
        → p.ecdh eph (p.public_key private_key) ≡ some shared
        → unwrap_message_key p wrapped nonce private_key ≡ ok key
    unfolding unwrap_message_key
    unwrap_lem hp hs =
        rw
          (
            take-append 32 (p.public_key eph) (p.seal (wrapping_key p shared) nonce key)
                (sound.length-public_key eph),
            drop-append 32 (p.public_key eph) (p.seal (wrapping_key p shared) nonce key)
                (sound.length-public_key eph),
          )
          (ground (
            arith,
            sound.length-public_key eph,
            length-append (p.public_key eph) (p.seal (wrapping_key p shared) nonce key),
            sound.ecdh_comm eph private_key,
            (decrypt_aes_gcm-encrypt nonce (wrapping_key p shared) key length-wrapping_key).1,
          ))

  -- A message encrypted for a user's public key, with every draw made and a shared secret that X25519
  -- does not refuse, is decrypted by that user's private key to the same text.
  pub decrypt_message-encrypt_message :
      (d : Draws) (text private_key key body_nonce eph key_nonce shared : Bytes)
      → length private_key ≡ 32
      → d.message_key ≡ some key
      → length key ≡ 32
      → d.body_nonce ≡ some body_nonce
      → d.ephemeral ≡ some eph
      → d.key_nonce ≡ some key_nonce
      → p.ecdh eph (p.public_key private_key) ≡ some shared
      → (s : Sealed) × (encrypt_message p d text (p.public_key private_key) ≡ ok s)
        × (decrypt_message p s private_key ≡ ok text)
  unfolding encrypt_message decrypt_message
  decrypt_message-encrypt_message d text private_key key body_nonce eph key_nonce shared hp hk hl hb
        he hn hs =
      (
        record {
          body_enc = p.seal key body_nonce text;
          body_nonce = body_nonce;
          wrapped_key = wrapped key private_key eph key_nonce shared;
          key_nonce = key_nonce;
        },
        rw (hk, hb)
            (ground (
              arith,
              (decrypt_aes_gcm-encrypt body_nonce key text hl).0,
              wrap_lem key private_key eph key_nonce shared d he hn hs,
            )),
        rw (unwrap_lem key private_key eph key_nonce shared hp hs)
            (decrypt_aes_gcm-encrypt body_nonce key text hl).1,
      )
