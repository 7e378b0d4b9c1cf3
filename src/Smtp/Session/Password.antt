-- ===== src/Smtp/Session/Password.antt =====
-- The password of a submission session.
use ghostmail.Prelude.{
  inl, inr, ap, ◌∷◌, some, true, false, [], equal, equal_refl, Bytes, length, All, ◌≡◌, refl, ◌∙◌,
  arith,
}
use ghostmail.Result.{Error, Result, ok, err}
use ghostmail.Text.{split_2}
use ghostmail.Text.Hex.{hex_decode, hex_decode-hex_encode}
use ghostmail.Sql.{lift, healthy, pure, or_raise, query, statement, wrapping, ◌>>=◌}
use ghostmail.Sql.Rows.{find}
use ghostmail.Crypto.Primitives.{Primitives, IsSound}
use ghostmail.Crypto.SafeMem.{constant_time_equal}
use ghostmail.Crypto.SafeMem.Comparison.{IsByte, constant_time_equal-equal}
use ghostmail.Crypto.Keys.{
  Json, KeyParams, derived_keys, derive_sub_key, hash_password, verify_password,
}
use ghostmail.Crypto.Service.{UserKeys}
use ghostmail.Crypto.Service.Login.{unless_panicked, Opens, authenticate-hash}
use ghostmail.Storage.Schema.{Tables, User}
use ghostmail.Storage.Users.{is_named, get_user}
use ghostmail.Smtp.Session.{Session, verifies_hash, authenticate}
use ghostmail.Imap.Reading.{IsEnrolled}

module _ (p : Primitives) (sound : IsSound p) (json : Json) where
  hash_password-nonempty :
      (password hash : Bytes) (params : KeyParams)
      → hash_password p password params ≡ ok hash
      → equal hash [] ≡ false
  unfolding hash_password derived_keys derive_sub_key equal
  hash_password-nonempty password hash params e =
      elim (unless_panicked p sound json password params) [
        | inl stopped ↦ absurd (unhashed (rw stopped at e))
        | inr derived ↦ nonempty hash (hashed (rw derived at e) (sound.length-hkdf _ _))
      ]
    where
      unhashed : {x : Error} → ◌≡◌ {A = Result Bytes} (err x) (ok hash) → ⊥
      unhashed r = cc

      hashed :
          {b : Bytes} → ◌≡◌ {A = Result Bytes} (ok b) (ok hash) → length b ≡ 32 → length hash ≡ 32
      hashed {b = b} r h = let same : b ≡ hash = cc in rw same at h

      nonempty : (b : Bytes) → length b ≡ 32 → equal b [] ≡ false
      nonempty [] e = absurd (omega arith)
      nonempty (c ∷ b) e = refl

  verify_password-hash :
      (password hash : Bytes) (params : KeyParams)
      → hash_password p password params ≡ ok hash
      → All IsByte hash
      → verify_password p password params hash ≡ ok true
  unfolding verify_password hash_password
  verify_password-hash password hash params e bytes =
      elim (unless_panicked p sound json password params) [
        | inl stopped ↦ absurd (unhashed (rw stopped at e))
        | inr derived ↦ rw derived (ap ok (compared (rw derived at e)))
      ]
    where
      unhashed : {x : Error} → ◌≡◌ {A = Result Bytes} (err x) (ok hash) → ⊥
      unhashed r = cc

      compared :
          {b : Bytes} → ◌≡◌ {A = Result Bytes} (ok b) (ok hash) → constant_time_equal b hash ≡ true
      compared {b = b} r =
          let same : b ≡ hash = cc in
          rw same (constant_time_equal-equal _ _ bytes bytes ∙ equal_refl _)

  verifies_hash-Opens :
      (k : UserKeys) (user : User) (password private_key : Bytes)
      → IsEnrolled p json k user
      → Opens p json password private_key k
      → verifies_hash p json user password (hex_decode user.password_hash) ≡ ok true
  verifies_hash-Opens k user password private_key row opens =
      let (params, read, hash) =
        authenticate-hash p sound json password k.key_params k.auth_hash k.wrapped_private_key
          k.key_nonce _ opens.bytes opens.opened in
      let filled : equal k.auth_hash [] ≡ false =
        hash_password-nonempty password k.auth_hash params hash in
      let verified : verify_password p password params k.auth_hash ≡ ok true =
        verify_password-hash password k.auth_hash params hash opens.bytes in
      rw (row.hash, row.params)
        (rw (hex_decode-hex_encode k.auth_hash opens.bytes) (rw filled (rw read verified)))

  -- If the store has the row of a user whose keys a password opens, the submission server accepts that
  -- password on an engine that fails nothing: the session is then that user's.
  pub authenticate-Opens :
      (k : UserKeys) (user : User) (password private_key username local domain : Bytes)
      (s : Session) (t : Tables)
      → Opens p json password private_key k
      → IsEnrolled p json k user
      → split_2 username b'@' ≡ some (local, domain)
      → find (is_named local domain) t.users ≡ some user
      → authenticate p json s username password (healthy t)
        ≡ (ok (record s { auth_user = some user }), healthy t)
  unfolding authenticate get_user wrapping query statement or_raise pure lift ◌>>=◌
  authenticate-Opens k user password private_key username local domain s t opens row split found =
      rw split (rw found (rw (verifies_hash-Opens k user password private_key row opens) refl))
