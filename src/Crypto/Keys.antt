-- ===== src/Crypto/Keys.antt =====
-- internal/crypto/keys.go. JSON is a parameter, and so is what rand.Read draws; `none` is its error.
use ghostmail.Prelude.{
  if◌then◌else◌, ◌||◌, ◌==◌, ℕ, Option, some, Bool, false, equal, Bytes, codes, ◌≡◌,
}
use ghostmail.Result.{panicked, err, crypto, Result, ok, ◌>>=◌}
use ghostmail.Crypto.Primitives.{Primitives}
use ghostmail.Crypto.Envelope.{or_error}
use ghostmail.Crypto.SafeMem.{wipe, constant_time_equal}

pub record KeyParams : Type 0 where
  pub time : ℕ
  pub memory : ℕ
  pub threads : ℕ
  pub salt : Bytes

-- encoding/json on KeyParams: Marshal, and Unmarshal with `none` for its error.
pub record Json : Type 0 where
  pub marshal : KeyParams → Bytes
  pub unmarshal : Bytes → Option KeyParams

-- What was marshalled is read back, and four fields are not the empty object.
pub record ReadsBack (j : Json) : Type 0 where
  pub marshal-object : (kp : KeyParams) → equal (j.marshal kp) (codes "{}") ≡ false
  pub unmarshal-marshal : (kp : KeyParams) → j.unmarshal (j.marshal kp) ≡ some kp

-- DefaultKeyParams, of the salt that is drawn.
unfoldable pub default_key_params : Option Bytes → ℕ → ℕ → ℕ → Result KeyParams
default_key_params drawn time memory threads = do
  salt ← or_error crypto drawn
  ok (record { time = time; memory = memory; threads = threads; salt = salt })

pub record DerivedKeys : Type 0 where
  pub master_key : Bytes
  pub auth_key : Bytes
  pub encryption_key : Bytes
  pub search_key : Bytes

module _ (p : Primitives) where
  unfoldable pub derive_sub_key : Bytes → Bytes → Bytes
  derive_sub_key master_key info = p.hkdf master_key info

  -- HKDF gives 32 bytes without an error.
  unfoldable pub derived_keys : Bytes → KeyParams → DerivedKeys
  derived_keys password params =
      let master = p.argon2 password params.salt params.time params.memory params.threads in
      record {
        master_key = master;
        auth_key = derive_sub_key master (codes "ghostmail-auth");
        encryption_key = derive_sub_key master (codes "ghostmail-encryption");
        search_key = derive_sub_key master (codes "ghostmail-search");
      }

  -- argon2.IDKey panics for a time of 0 and for 0 threads.
  unfoldable pub derive_from_password : Bytes → KeyParams → Result DerivedKeys
  derive_from_password password params =
      if (params.time == 0) || (params.threads == 0)
      then err panicked
      else ok (derived_keys password params)

  unfoldable pub hash_password : Bytes → KeyParams → Result Bytes
  hash_password password params = do dk ← derive_from_password password params; ok dk.auth_key

  unfoldable pub verify_password : Bytes → KeyParams → Bytes → Result Bool
  verify_password password params stored_hash = do
    dk ← derive_from_password password params
    ok (constant_time_equal dk.auth_key stored_hash)

-- DerivedKeys.Release, of keys that are all there.
unfoldable released : DerivedKeys → DerivedKeys
released dk = record {
  master_key = wipe dk.master_key;
  auth_key = wipe dk.auth_key;
  encryption_key = wipe dk.encryption_key;
  search_key = wipe dk.search_key;
}

-- GenerateRandom, from what rand.Read draws.
unfoldable generate_random : Option Bytes → Result Bytes
generate_random drawn = or_error crypto drawn
