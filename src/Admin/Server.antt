-- ===== src/Admin/Server.antt =====
-- The requests of internal/admin/server.go around the login: the limiters, the sessions and the pages
-- that count.
use ghostmail.Prelude.{
  ◌++◌, map, ℕ, ◌+◌, Bool, Option, none, some, List, [], ◌∷◌, ◌==◌, equal, length, reverse,
  if◌then◌else◌, Bytes, codes,
}
use ghostmail.Result.{refused, Result, ok, err}
use ghostmail.Sql.{Db, Sql, pure, ignoring, ◌>>=◌}
use ghostmail.Crypto.Primitives.{Primitives}
use ghostmail.Crypto.Keys.{Json}
use ghostmail.Storage.Schema.{AuditEntry, QueueItem, Alias, Tables, User, Domain}
use ghostmail.Storage.Users.{list_users, user_count}
use ghostmail.Storage.Domains.{list_domains}
use ghostmail.Storage.Aliases.{list_aliases}
use ghostmail.Storage.Audit.{list_audit_log}
use ghostmail.Storage.Queue.{dequeue_messages, queue_size}
use ghostmail.RateLimit.{Float, Limiter, allow}
use ghostmail.Admin.Login.{Sessions, create_session, delete_session, handle_login}

-- The text before the last byte of that code, from the end; all of it where there is none.
unfoldable pub before_last : ℕ → Bytes → Bytes → Bytes
before_last code [] whole = whole
before_last code (c ∷ s) whole =
    let earlier = before_last code s whole in if c == code then reverse s else earlier

-- All but the last address of X-Forwarded-For, or else the peer's without the port.
unfoldable pub extract_ip : Bytes → Bytes → Bytes
extract_ip forwarded_for remote_addr =
    if equal forwarded_for []
    then before_last b':' (reverse remote_addr) remote_addr
    else before_last b',' (reverse forwarded_for) forwarded_for

module _ (f : Float) where
  pub record Panel : Type 0 where
    pub req_limiter : Limiter f
    pub auth_limiter : Limiter f
    pub sessions : Sessions

  -- rateLimitMiddleware: whether the request goes on.
  unfoldable rate_limit : Bytes → ℕ → Panel → Bool × Panel
  rate_limit ip now s =
      let (allowed, limiter) = allow f ip now s.req_limiter in
      (allowed, record s { req_limiter = limiter })

  module _ (p : Primitives) (json : Json) where
    abbrev pub logged_in : ℕ → Bytes → Panel → Result Bytes → Result Bytes × Panel
    logged_in now drawn s (ok username) =
        let (token, sessions) = create_session drawn username now s.sessions in
        (ok token, record s { sessions = sessions })
    logged_in now drawn s (err e) = (err e, s)

    -- handleLogin with its limiter: the token of the new session.
    unfoldable login_request :
        ℕ → Bytes → Bytes → Bytes → Bytes → Panel → Db Tables → Result Bytes × Panel × Db Tables
    login_request now drawn ip username password s db =
        let (allowed, limiter) = allow f ip now s.auth_limiter in
        let s' : Panel = record s { auth_limiter = limiter } in
        if allowed
        then (let (r, db') = handle_login p json now username password db in
            let (reply, s'') = logged_in now drawn s' r in (reply, s'', db'))
        else (err (refused 200 (codes "Too many login attempts. Please wait.")), s', db)

  abbrev pub forget : Option Bytes → Sessions → Sessions
  forget none sessions = sessions
  forget (some token) sessions = delete_session token sessions

  unfoldable handle_logout : Option Bytes → Panel → Panel
  handle_logout cookie s = record s { sessions = forget cookie s.sessions }

-- handleHealth: the number of users in its answer.
unfoldable handle_health : Sql Tables ℕ
handle_health = ignoring 0 user_count

-- The numbers of the dashboard that are read from the store.
record DashboardData : Type 0 where
  pub user_count : ℕ
  pub domain_count : ℕ
  pub alias_count : ℕ
  pub queue_size : ℕ

-- The loop over the users; a list that fails is empty.
unfoldable count_aliases : ℕ → List User → Sql Tables ℕ
count_aliases alias_count [] = pure alias_count
count_aliases alias_count (u ∷ users) = do
  aliases ← ignoring [] (list_aliases u.id)
  count_aliases (alias_count + length aliases) users

unfoldable handle_dashboard : Sql Tables DashboardData
handle_dashboard = do
  users ← ignoring 0 user_count
  domains ← ignoring [] list_domains
  queued ← ignoring 0 queue_size
  listed ← ignoring [] list_users
  aliases ← count_aliases 0 listed
  pure (record {
    user_count = users;
    domain_count = length domains;
    alias_count = aliases;
    queue_size = queued;
  })

-- handleUsers
unfoldable handle_users : Sql Tables (List User × List Domain)
handle_users = do
  users ← ignoring [] list_users
  domains ← ignoring [] list_domains
  pure (users, domains)

-- handleDomains
unfoldable handle_domains : Sql Tables (List Domain)
handle_domains = ignoring [] list_domains

record AliasWithOwner : Type 0 where
  pub alias : Alias
  pub owner_name : Bytes

abbrev owned_by : User → Alias → AliasWithOwner
owned_by u a = record { alias = a; owner_name = u.username ++ (codes "@" ++ u.domain) }

-- The loops of handleAliases.
unfoldable all_aliases : List User → Sql Tables (List AliasWithOwner)
all_aliases [] = pure []
all_aliases (u ∷ users) = do
  aliases ← ignoring [] (list_aliases u.id)
  rest ← all_aliases users
  pure (map (owned_by u) aliases ++ rest)

unfoldable handle_aliases : Sql Tables (List AliasWithOwner × List User × List Domain)
handle_aliases = do
  users ← ignoring [] list_users
  domains ← ignoring [] list_domains
  aliases ← all_aliases users
  pure (aliases, users, domains)

-- The items that are due; reading them takes none up.
unfoldable handle_queue : ℕ → Sql Tables (List QueueItem)
handle_queue now = ignoring [] (dequeue_messages 100 now)

unfoldable handle_audit : Sql Tables (List AuditEntry)
handle_audit = ignoring [] (list_audit_log 100)
