-- ===== src/Admin.antt =====
-- internal/admin: the handlers that write the store; Login has the sessions of the panel, Server the
-- limiters and what the pages read. Templates are left out; a redirect with an error is an `err`.
pub mod Login
pub mod Server
use ghostmail.Prelude.{
  ℕ, ◌*◌, ◌-◌, ◌+◌, Bool, true, false, ◌&&◌, ◌||◌, not, Option, none, some, List, [], ◌∷◌, ◌++◌,
  equal, ltb, if◌then◌else◌, Bytes, codes,
}
use ghostmail.Result.{Error, invalid_request, invalid_credentials, user_not_found, Result, ok, err}
use ghostmail.Text.Hex.{hex_encode, hex_decode}
use ghostmail.Sql.{Sql, pure, raise, lift, or_raise, ignoring, wrapping, ◌>>=◌, ◌>>◌}
use ghostmail.Sql.Rows.{find}
use ghostmail.Crypto.Primitives.{Primitives}
use ghostmail.Crypto.Keys.{Json, KeyParams, verify_password}
use ghostmail.Crypto.Service.{Service, UserKeys, Registration, register_user}
use ghostmail.Storage.Schema.{Tables, User, Domain, Alias, second}
use ghostmail.Storage.Users.{create_user, get_user, get_user_by_id, delete_user, list_users}
use ghostmail.Storage.Domains.{create_domain, delete_domain}
use ghostmail.Storage.Aliases.{delete_alias}
use ghostmail.Storage.Audit.{log_audit}
use ghostmail.Generator.{Generator, create}

-- The row that is made of a registration; the id and the times are the store's.
abbrev pub enrolled : UserKeys → Bytes → Bytes → Bool → User
enrolled keys username domain is_admin = record {
  id = 0;
  username = username;
  domain = domain;
  password_hash = hex_encode keys.auth_hash;
  public_key = keys.public_key;
  wrapped_private_key = keys.wrapped_private_key;
  key_nonce = keys.key_nonce;
  key_params = keys.key_params;
  pgp_public_key = [];
  pgp_private_key_enc = [];
  search_key = keys.search_key;
  is_admin = is_admin;
  created_at = 0;
  updated_at = 0;
  quota_bytes = 104857600;
}

-- What a handler takes from outside: the primitives, JSON, the service, and the clock.
pub record Env : Type 0 where
  pub primitives : Primitives
  pub json : Json
  pub service : Service
  pub now : ℕ

abbrev pub audit : ℕ → Bytes → Bytes → Sql Tables (Unit {0})
audit now action target = ignoring tt (log_audit (codes "admin") action target now)

-- handleCreateUser
unfoldable pub handle_create_user : Env → Registration → Bytes → Bytes → Bytes → Sql Tables ℕ
handle_create_user env drawn username domain password =
    if equal username [] || equal domain [] || equal password [] then raise invalid_request else (do
      keys ← lift (register_user env.primitives env.json env.service drawn password)
      id ← create_user (enrolled keys username domain false) env.now
      audit env.now (codes "user.create") (username ++ (codes "@" ++ domain))
      pure id)

-- handleDeleteUser; `none` is a text that is no number.
unfoldable pub handle_delete_user : ℕ → Option ℕ → Sql Tables (Unit {0})
handle_delete_user now id_text = do
  id ← or_raise invalid_request id_text
  found ← wrapping user_not_found (get_user_by_id id)
  user ← or_raise user_not_found found
  delete_user id
  audit now (codes "user.delete") (user.username ++ (codes "@" ++ user.domain))

abbrev plain_domain : Bytes → Bool → Domain
plain_domain name is_primary = record {
  id = 0;
  name = name;
  dkim_selector = [];
  dkim_private_key = [];
  dkim_public_key = [];
  is_primary = is_primary;
  created_at = 0;
}

-- handleCreateDomain
unfoldable handle_create_domain : ℕ → Bytes → Bool → Sql Tables (Unit {0})
handle_create_domain now name primary =
    if equal name []
    then raise invalid_request
    else (do create_domain (plain_domain name primary) now; audit now (codes "domain.add") name)

-- handleDeleteDomain, with the text of the id.
unfoldable handle_delete_domain : ℕ → Bytes → Option ℕ → Sql Tables (Unit {0})
handle_delete_domain now id_text parsed = do
  id ← or_raise invalid_request parsed
  delete_domain id
  audit now (codes "domain.delete") id_text

-- handleDeleteAlias, with the text of the id.
unfoldable pub handle_delete_alias : ℕ → Bytes → Option ℕ → Sql Tables (Unit {0})
handle_delete_alias now id_text parsed = do
  id ← or_raise invalid_request parsed
  delete_alias id
  audit now (codes "alias.delete") id_text

-- handleCreateAlias: an alias without an expiry and without a limit of messages.
unfoldable pub handle_create_alias :
    Generator → ℕ → Bytes → Option ℕ → Bytes → Bytes → Sql Tables Alias
handle_create_alias g now drawn parsed domain description = do
  user_id ← or_raise invalid_request parsed
  (if equal domain [] then raise invalid_request else pure tt)
  a ← create g now drawn user_id domain description 0 0
  audit now (codes "alias.create") a.address
  pure a
