-- ===== src/Generator.antt =====
-- internal/alias/generator.go. The base32 encoding is a parameter; the clock and what the random source
-- draws are inputs.
pub mod Limit
use ghostmail.Prelude.{
  ℕ, Bool, true, false, not, Option, none, some, List, [], ◌∷◌, ◌++◌, leb, ltb, take, length,
  if◌then◌else◌, Bytes, codes,
}
use ghostmail.Result.{
  invalid_address, alias_inactive, alias_expired, limit_reached, owner_not_found,
}
use ghostmail.Text.{split_2, to_lower}
use ghostmail.Sql.{Sql, pure, raise, or_raise, ignoring, wrapping, ◌>>=◌, ◌>>◌}
use ghostmail.Storage.Schema.{Tables, Alias, User, unix}
use ghostmail.Storage.Users.{get_user, get_user_by_id}
use ghostmail.Storage.Aliases.{
  create_alias, resolve_alias, increment_alias_count, list_aliases, deactivate_alias,
}
use ghostmail.Smtp.Message.{add_duration}
use ghostmail.Smtp.Delivery.{has_expired, is_used_up}
use ghostmail.Expiry.{is_positive}

-- MaxPerUser is the limit, and encode is base32 without padding.
pub record Generator : Type 0 where
  pub max_per_user : ℕ
  pub encode : Bytes → Bytes

abbrev plain_alias : ℕ → Bytes → Bytes → Bytes → Alias
plain_alias user_id address domain description = record {
  id = 0;
  user_id = user_id;
  address = address;
  domain = domain;
  description = description;
  is_active = true;
  expires_at = none;
  message_count = 0;
  max_messages = none;
  created_at = 0;
}

-- The id and the time that CreateAlias sets.
abbrev pub stored : Alias → ℕ → ℕ → Alias
stored a now id = record a { id = id; created_at = unix now }

-- Twelve characters of the encoding of eight random bytes.
unfoldable pub generate_address : Generator → Bytes → Bytes → Bytes
generate_address g drawn domain = take 12 (to_lower (g.encode drawn)) ++ codes "@" ++ domain

-- ListAliases and the check of the limit.
unfoldable pub check_limit : Generator → ℕ → Sql Tables (Unit {0})
check_limit g user_id = do
  existing ← list_aliases user_id
  if leb g.max_per_user (length existing) then raise limit_reached else pure tt

abbrev expiring : ℕ → ℕ → ℕ → Alias → Alias
expiring now ttl max_messages a = record a {
  expires_at = if is_positive ttl then some (unix (add_duration now ttl)) else none;
  max_messages = if ltb 0 max_messages then some max_messages else none;
}

-- The time to live is a time.Duration; a greatest number of messages of 0 is none.
unfoldable pub create : Generator → ℕ → Bytes → ℕ → Bytes → Bytes → ℕ → ℕ → Sql Tables Alias
create g now drawn user_id domain description ttl max_messages = do
  check_limit g user_id
  let a =
      expiring now ttl max_messages
        (plain_alias user_id (generate_address g drawn domain) domain description)
  id ← create_alias a now
  pure (stored a now id)

unfoldable pub generate_custom : Generator → ℕ → ℕ → Bytes → Bytes → Bytes → Sql Tables Alias
generate_custom g now user_id local_part domain description = do
  check_limit g user_id
  let a = plain_alias user_id (local_part ++ codes "@" ++ domain) domain description
  id ← create_alias a now
  pure (stored a now id)

-- The checks of Resolve; a refusal for age or number deactivates the alias first.
unfoldable pub validate : ℕ → Alias → Sql Tables (Unit {0})
validate now a =
    if not a.is_active
    then raise alias_inactive
    else if has_expired now a
    then (ignoring tt (deactivate_alias a.id) >> raise alias_expired)
    else if is_used_up a
    then (ignoring tt (deactivate_alias a.id) >> raise limit_reached)
    else ignoring tt (increment_alias_count a.id)

-- The owner of an alias, or no user at all.
abbrev pub resolve_found : ℕ → Option Alias → Sql Tables (Option User × Bool)
resolve_found now none = pure (none, false)
resolve_found now (some a) = do
  validate now a
  owner ← wrapping owner_not_found (get_user_by_id a.user_id)
  user ← or_raise owner_not_found owner
  pure (some user, true)

abbrev pub resolve_alias_of : ℕ → Bytes → Option User → Sql Tables (Option User × Bool)
resolve_alias_of now address (some user) = pure (some user, false)
resolve_alias_of now address none = do found ← resolve_alias address; resolve_found now found

-- The user, and whether by an alias; the flag that stands beside an error is dropped.
unfoldable pub resolve : ℕ → Bytes → Sql Tables (Option User × Bool)
resolve now address = do
  parts ← or_raise invalid_address (split_2 address b'@')
  user ← get_user parts.0 parts.1
  resolve_alias_of now address user
