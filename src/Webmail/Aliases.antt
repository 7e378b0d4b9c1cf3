-- ===== src/Webmail/Aliases.antt =====
-- internal/webmail/api_alias.go. The number of the path is what strconv reads of it, 0 for what it does
-- not read; a negative one, which no row has, is left out.
use ghostmail.Prelude.{
  ℕ, Bool, Option, none, List, [], ◌==◌, map, equal, any, if◌then◌else◌, Bytes, codes,
}
use mathlib.Core.Option
use ghostmail.Result.{refused}
use ghostmail.Sql.{Sql, pure, ignoring, wrapping, or_raise, ◌>>=◌, ◌>>◌}
use ghostmail.Storage.Schema.{Tables, Alias}
use ghostmail.Storage.Aliases.{list_aliases, delete_alias}
use ghostmail.Generator.{Generator, create}
use ghostmail.Webmail.{json_error}
use ghostmail.Webmail.Sessions.{WebSession}

pub record AliasInfo : Type 0 where
  pub id : ℕ
  pub address : Bytes
  pub domain : Bytes
  pub description : Bytes
  pub is_active : Bool
  pub message_count : ℕ
  pub max_messages : Option ℕ
  pub expires_at : Option Bytes
  pub created_at : Bytes

module _ (format_time : Bytes → ℕ → Bytes) where
  unfoldable pub alias_info : Alias → AliasInfo
  alias_info a = record {
    id = a.id;
    address = a.address;
    domain = a.domain;
    description = a.description;
    is_active = a.is_active;
    message_count = a.message_count;
    max_messages = a.max_messages;
    expires_at = Option.map (format_time (codes "2006-01-02T15:04:05Z07:00")) a.expires_at;
    created_at = format_time (codes "2006-01-02 15:04") a.created_at;
  }

  unfoldable pub handle_list_aliases : WebSession → Sql Tables (List AliasInfo)
  handle_list_aliases sess = do
    aliases ← wrapping (refused 500 (codes "failed to list aliases")) (list_aliases sess.user_id)
    pure (map alias_info aliases)

  -- The reply to a new alias leaves out the limits.
  abbrev new_alias_info : Alias → AliasInfo
  new_alias_info a = record {
    id = a.id;
    address = a.address;
    domain = a.domain;
    description = a.description;
    is_active = a.is_active;
    message_count = 0;
    max_messages = none;
    expires_at = none;
    created_at = format_time (codes "2006-01-02 15:04") a.created_at;
  }

  abbrev unless_given : Bytes → Bytes → Bytes
  unless_given value other = if equal value [] then other else value

  -- The description and the domain of the request; an error of the generator is the text of a 400.
  unfoldable pub handle_create_alias :
      Generator → Bytes → ℕ → Bytes → WebSession → Option (Bytes × Bytes) → Sql Tables AliasInfo
  handle_create_alias g default_domain now drawn sess decoded = do
    req ← or_raise (refused 400 (codes "invalid request")) decoded
    let domain = unless_given (unless_given req.1 default_domain) sess.domain
    a ← create g now drawn sess.user_id domain req.0 0 0
    pure (new_alias_info a)

unfoldable pub handle_delete_alias : WebSession → ℕ → Sql Tables (Unit {0})
handle_delete_alias sess id = do
  (if id == 0 then json_error (codes "invalid alias id") 400 else pure tt)
  aliases ← ignoring [] (list_aliases sess.user_id)
  (if any (λ a. a.id == id) aliases then pure tt else json_error (codes "alias not found") 404)
  wrapping (refused 500 (codes "failed to delete alias")) (delete_alias id)
