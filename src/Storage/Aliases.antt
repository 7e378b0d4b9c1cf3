-- ===== src/Storage/Aliases.antt =====
-- internal/storage/aliases.go
use ghostmail.Prelude.{
  ℕ, suc, ◌+◌, Bool, false, ◌&&◌, not, Option, List, [], ◌∷◌, ◌++◌, reverse, ◌==◌, equal, any,
  if◌then◌else◌, Bytes,
}
use ghostmail.Result.{constraint, ok, err}
use ghostmail.Sql.{Sql, statement, query, exec}
use ghostmail.Sql.Rows.{find, select, update, delete, order_by}
use ghostmail.Storage.Schema.{Tables, Alias, User, unix}

abbrev pub has_address : Bytes → Alias → Bool
has_address address a = equal a.address address

abbrev pub has_alias_id : ℕ → Alias → Bool
has_alias_id id a = a.id == id

abbrev pub append_alias : Alias → ℕ → Tables → Tables
append_alias a now t = record t {
  aliases =
      t.aliases
      ++ record a { id = suc t.last_alias; message_count = 0; created_at = unix now } ∷ [];
  last_alias = suc t.last_alias;
}

-- INSERT INTO aliases, with its UNIQUE address and its reference to users.
unfoldable pub create_alias : Alias → ℕ → Sql Tables ℕ
create_alias a now = statement λ t.
    if any (has_address a.address) t.aliases
    then err constraint
    else if t.foreign_keys && not (any (λ (u : User). u.id == a.user_id) t.users)
    then err constraint
    else ok (suc t.last_alias, append_alias a now t)

unfoldable pub resolve_alias : Bytes → Sql Tables (Option Alias)
resolve_alias address = query (λ t. find (has_address address) t.aliases)

abbrev pub bump_count : Alias → Alias
bump_count a = record a { message_count = a.message_count + 1 }

unfoldable pub increment_alias_count : ℕ → Sql Tables (Unit {0})
increment_alias_count id =
    exec λ t. record t { aliases = update (has_alias_id id) bump_count t.aliases }

-- ORDER BY created_at DESC; the order of aliases of one second is the engine's.
unfoldable pub list_aliases : ℕ → Sql Tables (List Alias)
list_aliases user_id =
    query λ t. reverse (order_by (λ a. a.created_at) (select (λ a. a.user_id == user_id) t.aliases))

unfoldable pub delete_alias : ℕ → Sql Tables (Unit {0})
delete_alias id = exec (λ t. record t { aliases = delete (has_alias_id id) t.aliases })

abbrev pub deactivated : Alias → Alias
deactivated a = record a { is_active = false }

unfoldable pub deactivate_alias : ℕ → Sql Tables (Unit {0})
deactivate_alias id =
    exec λ t. record t { aliases = update (has_alias_id id) deactivated t.aliases }
