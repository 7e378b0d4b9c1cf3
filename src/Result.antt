-- ===== src/Result.antt =====
-- Errors of the whole program and results that carry them.
use ghostmail.Prelude.{ℕ, Bytes}

-- What a caller can tell apart: the engine's faults, a broken constraint, a row that is not there,
-- and the refusals of the layers above the store.
pub data Error : Type 0 where
  engine : Error
  constraint : Error
  no_rows : Error
  auth_required : Error
  invalid_credentials : Error
  not_authorized : Error
  invalid_address : Error
  user_not_found : Error
  alias_inactive : Error
  alias_expired : Error
  limit_reached : Error
  owner_not_found : Error
  no_inbox : Error
  crypto : Error
  delivery_failed : Error
  bad_key : Error
  bad_tag : Error
  too_short : Error
  not_selected : Error
  no_mailbox : Error
  is_inbox : Error
  not_found : Error
  disconnected : Error
  decryption_failed : Error
  invalid_request : Error
  -- A panic; the servers recover from it, and the request or the command fails.
  panicked : Error
  -- jsonError: the HTTP status and the message.
  refused : ℕ → Bytes → Error

pub data Result {ℓ} (A : Type ℓ) : Type ℓ where
  ok : A → Result A
  err : Error → Result A

infixl 5 ◌>>=◌
abbrev pub ◌>>=◌ {ℓ κ} : {A : Type ℓ} {B : Type κ} → Result A → (A → Result B) → Result B
ok a >>= f = f a
err e >>= f = err e
