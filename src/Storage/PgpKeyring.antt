-- ===== src/Storage/PgpKeyring.antt =====
-- internal/storage/pgpkeyring.go
use ghostmail.Prelude.{
  ℕ, suc, Bool, ◌&&◌, not, Option, List, [], ◌∷◌, ◌++◌, ◌==◌, equal, any, if◌then◌else◌, Bytes,
}
use ghostmail.Result.{constraint, Result, ok, err}
use ghostmail.Sql.{Sql, pure, statement, query, exec, ◌>>=◌}
use ghostmail.Sql.Rows.{find, select, update, delete, count, order_by_text}
use ghostmail.Storage.Schema.{Tables, PgpKey, User, unix}

abbrev is_contact : ℕ → Bytes → PgpKey → Bool
is_contact user_id email k = (k.user_id == user_id) && equal k.email email

abbrev pub replaced : Bytes → Bytes → ℕ → PgpKey → PgpKey
replaced public_key fingerprint now k = record k {
  public_key = public_key;
  fingerprint = fingerprint;
  created_at = now;
}

abbrev append_key : ℕ → Bytes → Bytes → Bytes → ℕ → Tables → Tables
append_key user_id email public_key fingerprint now t = record t {
  pgp_keyring =
      t.pgp_keyring
      ++ record {
        id = suc t.last_pgp_key;
        user_id = user_id;
        email = email;
        public_key = public_key;
        fingerprint = fingerprint;
        trust_level = 0;
        created_at = now;
      }
        ∷ [];
  last_pgp_key = suc t.last_pgp_key;
}

-- INSERT INTO pgp_keyring, with its UNIQUE(user_id, email) and its reference to users.
unfoldable insert_key : ℕ → Bytes → Bytes → Bytes → ℕ → Tables → Result (Unit {0} × Tables)
insert_key user_id email public_key fingerprint now t =
    if any (is_contact user_id email) t.pgp_keyring
    then err constraint
    else if t.foreign_keys && not (any (λ (u : User). u.id == user_id) t.users)
    then err constraint
    else ok (tt, append_key user_id email public_key fingerprint now t)

-- The UPDATE, which says how many rows it changed.
unfoldable update_key : ℕ → Bytes → Bytes → Bytes → ℕ → Sql Tables ℕ
update_key user_id email public_key fingerprint now = statement λ t. ok (
  count (is_contact user_id email) t.pgp_keyring,
  record t {
    pgp_keyring =
        update (is_contact user_id email) (replaced public_key fingerprint now) t.pgp_keyring;
  },
)

unfoldable store_pgp_key : ℕ → Bytes → Bytes → Bytes → ℕ → Sql Tables (Unit {0})
store_pgp_key user_id email public_key fingerprint now = do
  affected ← update_key user_id email public_key fingerprint (unix now)
  if affected == 0
      then statement (insert_key user_id email public_key fingerprint (unix now))
      else pure tt

unfoldable get_pgp_key : ℕ → Bytes → Sql Tables (Option PgpKey)
get_pgp_key user_id email = query (λ t. find (is_contact user_id email) t.pgp_keyring)

-- LIMIT 1 without an order: the first row.
unfoldable pub lookup_pgp_key : Bytes → Sql Tables (Option PgpKey)
lookup_pgp_key email = query (λ t. find (λ k. equal k.email email) t.pgp_keyring)

-- ORDER BY email
unfoldable list_pgp_keys : ℕ → Sql Tables (List PgpKey)
list_pgp_keys user_id =
    query λ t. order_by_text (λ k. k.email) (select (λ k. k.user_id == user_id) t.pgp_keyring)

unfoldable delete_pgp_key : ℕ → Sql Tables (Unit {0})
delete_pgp_key id = exec (λ t. record t { pgp_keyring = delete (λ k. k.id == id) t.pgp_keyring })
