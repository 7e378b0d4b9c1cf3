-- ===== src/Webmail/Effects.antt =====
-- What the handlers that change no message of the user's own keep: sending, searching and aliases.
use ghostmail.Prelude.{ℕ, suc, Bool, true, false, Option, none, some, List, [], ◌∷◌, equal, Bytes}
use ghostmail.Result.{Result, ok, err}
use ghostmail.Text.{trim_space}
use ghostmail.Sql.{Sql, pure, ◌>>◌}
use ghostmail.Sql.Keeps.{
  Keeps, Keeps-bind, Keeps-if, Keeps-pure, Keeps-wrapping, Keeps-attempted, keeps_rules,
}
use ghostmail.Crypto.Service.{SessionKeys}
use ghostmail.Storage.Schema.{Tables, User, Mailbox, Message, Alias}
use ghostmail.Storage.Mailboxes.{get_mailbox, list_mailboxes, mailbox_message_count}
use ghostmail.Storage.Messages.{
  store_message, list_messages_paginated, mailbox_unread_count, get_message_by_id,
}
use ghostmail.Storage.Users.{get_user, get_user_by_id}
use ghostmail.Storage.Domains.{is_local_domain}
use ghostmail.Storage.Aliases.{resolve_alias, list_aliases, create_alias, delete_alias}
use ghostmail.Storage.Queue.{enqueue_message}
use ghostmail.Storage.SearchIndex.{
  SearchToken, store_search_tokens, search_by_token, unless_empty, narrow, search_by_tokens,
  intersect,
}
use ghostmail.Generator.{Generator, check_limit, create}
use ghostmail.Webmail.{json_error}
use ghostmail.Webmail.Sessions.{WebSession}
use ghostmail.Webmail.Mailboxes.{
  Formats, mailbox_infos, handle_list_mailboxes, handle_list_messages,
}
use ghostmail.Webmail.Compose.{Env, ComposeRequest, index_tokens, deliver_local, store_sent_copy}
use ghostmail.Webmail.Send.{
  SendEnv, from_address, owner_of_alias, user_or_owner, deliver_by, deliver_to, deliver_each,
  handle_send_message,
}
use ghostmail.Webmail.Search.{Found, SearchRequest, collect, search_terms, handle_search}
use ghostmail.Webmail.Aliases.{handle_list_aliases, handle_create_alias, handle_delete_alias}

-- The methods of the store that these handlers change it with keep `P`.
pub record IsStable (P : Tables → Type 0) : Type 0 where
  pub stores : (m : Message) → Keeps P (store_message m)
  pub indexes : (id : ℕ) (tokens : List SearchToken) → Keeps P (store_search_tokens id tokens)
  pub enqueues :
      (sender recipient text : Bytes) (now : ℕ)
      → Keeps P (enqueue_message sender recipient text now)
  pub adds_alias : (a : Alias) (now : ℕ) → Keeps P (create_alias a now)
  pub drops_alias : (id : ℕ) → Keeps P (delete_alias id)

module _ {P : Tables → Type 0} (stable : IsStable P) where
  index_tokens-Keeps :
      (env : Env) (user : User) (id : ℕ) (text : Bytes) → Keeps P (index_tokens env user id text)
  unfolding index_tokens
  index_tokens-Keeps env user id text =
      let indexes = stable.indexes in search (keeps_rules, indexes) depth 8

  deliver_local-Keeps :
      (env : Env) (user : User) (text : Bytes) → Keeps P (deliver_local env user text)
  unfolding deliver_local get_mailbox
  deliver_local-Keeps env user text =
      let stores = stable.stores in search (keeps_rules, stores, index_tokens-Keeps) depth 14

  store_sent_copy-Keeps :
      (env : Env) (user : User) (text : Bytes) → Keeps P (store_sent_copy env user text)
  unfolding store_sent_copy get_mailbox
  store_sent_copy-Keeps env user text =
      let stores = stable.stores in search (keeps_rules, stores) depth 14

  owner_of_alias-Keeps : (rcpt : Bytes) → Keeps P (owner_of_alias rcpt)
  unfolding owner_of_alias resolve_alias get_user_by_id
  owner_of_alias-Keeps rcpt = search keeps_rules depth 12

  user_or_owner-Keeps : (rcpt : Bytes) (r : Result (Option User)) → Keeps P (user_or_owner rcpt r)
  user_or_owner-Keeps rcpt (ok (some user)) = Keeps-pure user
  user_or_owner-Keeps rcpt (ok none) = owner_of_alias-Keeps rcpt
  user_or_owner-Keeps rcpt (err e) = owner_of_alias-Keeps rcpt

  deliver_by-Keeps :
      (env : Env) (from_addr rcpt : Bytes) (parts : Bytes × Bytes) (text : Bytes) (is_local : Bool)
      → Keeps P (deliver_by env from_addr rcpt parts text is_local)
  unfolding get_user
  deliver_by-Keeps env from_addr rcpt parts text true =
      search (keeps_rules, user_or_owner-Keeps, deliver_local-Keeps) depth 12
  deliver_by-Keeps env from_addr rcpt parts text false =
      Keeps-wrapping _ _ (stable.enqueues from_addr rcpt text env.now)

  deliver_to-Keeps :
      (env : Env) (from_addr rcpt text : Bytes) → Keeps P (deliver_to env from_addr rcpt text)
  unfolding deliver_to is_local_domain
  deliver_to-Keeps env from_addr rcpt text = search (keeps_rules, deliver_by-Keeps) depth 12

  deliver_each-Keeps :
      (envs : ℕ → Env) (i : ℕ) (from_addr text : Bytes) (rs : List Bytes)
      → Keeps P (deliver_each envs i from_addr text rs)
  unfolding deliver_each
  deliver_each-Keeps envs i from_addr text [] = Keeps-pure []
  deliver_each-Keeps envs i from_addr text (r ∷ rs) =
      let rest = deliver_each-Keeps envs (suc i) from_addr text rs in
      let reached = deliver_to-Keeps (envs i) from_addr (trim_space r) text in
      Keeps-if (equal (trim_space r) []) _ _ (λ _. rest)
        (λ _.
          Keeps-bind _ _ (Keeps-attempted _ reached)
            λ outcome. Keeps-bind _ _ rest λ errors. Keeps-pure _)

  from_address-Keeps :
      (sess : WebSession) (from_alias : Bytes) → Keeps P (from_address sess from_alias)
  unfolding from_address resolve_alias
  from_address-Keeps sess from_alias = search keeps_rules depth 10

  pub handle_send_message-Keeps :
      (env : SendEnv) (sess : WebSession) (body : Option ComposeRequest)
      → Keeps P (handle_send_message env sess body)
  unfolding handle_send_message get_user
  handle_send_message-Keeps env sess body =
      search (keeps_rules, from_address-Keeps, deliver_each-Keeps, store_sent_copy-Keeps) depth 20

module _ {P : Tables → Type 0} where
  -- A reply that is not looked at.
  pub answered : {A : Type 0} (s : Sql Tables A) → Keeps P s → Keeps P (s >> pure tt)
  answered s k = Keeps-bind _ _ k (λ a. Keeps-pure tt)

  narrow-Keeps : (hashes : List Bytes) (results : List ℕ) → Keeps P (narrow results hashes)
  unfolding narrow search_by_token
  narrow-Keeps [] results = Keeps-pure results
  narrow-Keeps (hash ∷ hashes) results =
      Keeps-bind _ _ (search keeps_rules)
        λ found. rest (intersect results found) (narrow-Keeps hashes)
    where
      rest :
          (rs : List ℕ)
          → ((xs : List ℕ) → Keeps P (narrow xs hashes))
          → Keeps P (unless_empty (λ xs. narrow xs hashes) rs)
      rest [] k = Keeps-pure []
      rest (x ∷ xs) k = k (x ∷ xs)

  pub search_by_tokens-Keeps : (hashes : List Bytes) → Keeps P (search_by_tokens hashes)
  unfolding search_by_tokens search_by_token
  search_by_tokens-Keeps [] = Keeps-pure []
  search_by_tokens-Keeps (hash ∷ hashes) =
      Keeps-bind _ _ (search keeps_rules) (λ results. narrow-Keeps hashes results)

  module _ (env : Formats) (sess : WebSession) where
    collect-Keeps :
        (mailboxes : List Mailbox) (filter : ℕ) (ids : List ℕ) (results : List Found)
        → Keeps P (collect env sess mailboxes filter results ids)
    unfolding collect get_message_by_id
    collect-Keeps mailboxes filter [] results = Keeps-pure results
    collect-Keeps mailboxes filter (id ∷ ids) results =
        Keeps-bind _ _ (search keeps_rules) λ msg.
          let later = collect-Keeps mailboxes filter ids in search (keeps_rules, later) depth 6

    search_terms-Keeps :
        (req : SearchRequest) (keys : SessionKeys) (terms : List Bytes)
        → Keeps P (search_terms env sess req keys terms)
    unfolding list_mailboxes
    search_terms-Keeps req keys [] = Keeps-pure []
    search_terms-Keeps req keys (term ∷ terms) =
        search (keeps_rules, search_by_tokens-Keeps, collect-Keeps) depth 12

    pub handle_search-Keeps : (body : Option SearchRequest) → Keeps P (handle_search env sess body)
    unfolding handle_search json_error
    handle_search-Keeps body = search (keeps_rules, search_terms-Keeps) depth 14

    mailbox_infos-Keeps : (mbs : List Mailbox) → Keeps P (mailbox_infos mbs)
    unfolding mailbox_infos mailbox_message_count mailbox_unread_count
    mailbox_infos-Keeps [] = Keeps-pure []
    mailbox_infos-Keeps (mb ∷ mbs) = Keeps-bind _ _ (search keeps_rules) λ total.
        Keeps-bind _ _ (search keeps_rules)
          λ unread. Keeps-bind _ _ (mailbox_infos-Keeps mbs) λ rest. Keeps-pure _

    pub handle_list_mailboxes-Keeps : Keeps P (handle_list_mailboxes sess)
    unfolding handle_list_mailboxes list_mailboxes
    handle_list_mailboxes-Keeps = search (keeps_rules, mailbox_infos-Keeps) depth 10

    pub handle_list_messages-Keeps :
        (name : Bytes) (page limit : ℕ) → Keeps P (handle_list_messages env sess name page limit)
    unfolding handle_list_messages get_mailbox list_messages_paginated mailbox_message_count
    handle_list_messages-Keeps name page limit = search keeps_rules depth 14

    pub handle_list_aliases-Keeps : Keeps P (handle_list_aliases env.format_time sess)
    unfolding handle_list_aliases list_aliases
    handle_list_aliases-Keeps = search keeps_rules depth 10

module _ {P : Tables → Type 0} (stable : IsStable P) (sess : WebSession) where
  pub handle_create_alias-Keeps :
      (format_time : Bytes → ℕ → Bytes) (g : Generator) (default_domain : Bytes) (now : ℕ)
      (drawn : Bytes) (body : Option (Bytes × Bytes))
      → Keeps P (handle_create_alias format_time g default_domain now drawn sess body)
  unfolding handle_create_alias create check_limit list_aliases
  handle_create_alias-Keeps format_time g default_domain now drawn body =
      let adds = stable.adds_alias in search (keeps_rules, adds) depth 16

  pub handle_delete_alias-Keeps : (id : ℕ) → Keeps P (handle_delete_alias sess id)
  unfolding handle_delete_alias list_aliases json_error
  handle_delete_alias-Keeps id =
      let drops = stable.drops_alias in search (keeps_rules, drops) depth 14
