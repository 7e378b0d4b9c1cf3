-- ===== src/Smtp/Session/Uids.antt =====
-- A session keeps the invariant of the UIDs, whatever the engine fails.
use ghostmail.Prelude.{ℕ, suc, Bool, true, false, Option, none, some, List, [], ◌∷◌, ◌++◌, Bytes}
use ghostmail.Sql.{Db}
use ghostmail.Sql.Keeps.{
  Keeps, HoldsAfter, HoldsAfter-guard, Keeps-exec, Keeps-statement, Keeps-bind, keeps_rules,
}
use ghostmail.Storage.Schema.{Tables, User}
use ghostmail.Storage.Mailboxes.{get_mailbox}
use ghostmail.Storage.Users.{get_user, get_user_by_id}
use ghostmail.Storage.Domains.{is_local_domain}
use ghostmail.Storage.Aliases.{resolve_alias, deactivate_alias, increment_alias_count}
use ghostmail.Storage.Queue.{enqueue_message}
use ghostmail.Storage.SearchIndex.{
  SearchToken, token_row, insert_token, insert_tokens, store_search_tokens,
}
use ghostmail.Storage.Uids.{UidsInRange}
use ghostmail.Storage.Uids.Operations.{store_message-UidsInRange}
use ghostmail.Smtp.Delivery.{
  Env, admit_alias, resolve_by_alias, or_alias, resolve_recipient, index_message, deliver_to_user,
  deliver_by, deliver_message,
}
use ghostmail.Smtp.Session.{Session, DataEnv, received, deliver_all, receive}

insert_token-UidsInRange :
    (id : ℕ) (tok : SearchToken) (t : Tables)
    → UidsInRange t
    → HoldsAfter UidsInRange (insert_token id tok t)
unfolding insert_token
insert_token-UidsInRange id tok t v =
    let kept : UidsInRange (record t { search_tokens = t.search_tokens ++ token_row id tok ∷ [] }) =
      record { placed = v.placed; distinct = v.distinct } in
    search (HoldsAfter-guard, kept)

insert_tokens-UidsInRange :
    (id : ℕ) (ts : List SearchToken) → Keeps UidsInRange (insert_tokens id ts)
unfolding insert_tokens
insert_tokens-UidsInRange id [] = search keeps_rules
insert_tokens-UidsInRange id (tok ∷ ts) =
    Keeps-bind _ _ (Keeps-statement _ (insert_token-UidsInRange id tok))
      (λ u. insert_tokens-UidsInRange id ts)

pub store_search_tokens-UidsInRange :
    (id : ℕ) (ts : List SearchToken) → Keeps UidsInRange (store_search_tokens id ts)
unfolding store_search_tokens
store_search_tokens-UidsInRange id [] = search keeps_rules
store_search_tokens-UidsInRange id (tok ∷ ts) =
    search (keeps_rules, insert_tokens-UidsInRange) depth 12

deactivate_alias-UidsInRange : (id : ℕ) → Keeps UidsInRange (deactivate_alias id)
unfolding deactivate_alias
deactivate_alias-UidsInRange id =
    Keeps-exec _ (λ t v. record { placed = v.placed; distinct = v.distinct })

increment_alias_count-UidsInRange : (id : ℕ) → Keeps UidsInRange (increment_alias_count id)
unfolding increment_alias_count
increment_alias_count-UidsInRange id =
    Keeps-exec _ (λ t v. record { placed = v.placed; distinct = v.distinct })

pub enqueue_message-UidsInRange :
    (sender recipient text : Bytes) (now : ℕ)
    → Keeps UidsInRange (enqueue_message sender recipient text now)
unfolding enqueue_message
enqueue_message-UidsInRange sender recipient text now =
    Keeps-exec _ (λ t v. record { placed = v.placed; distinct = v.distinct })

resolve_by_alias-UidsInRange :
    (now : ℕ) (address : Bytes) → Keeps UidsInRange (resolve_by_alias now address)
unfolding resolve_by_alias admit_alias resolve_alias get_user_by_id
resolve_by_alias-UidsInRange now address =
    search (keeps_rules, deactivate_alias-UidsInRange, increment_alias_count-UidsInRange) depth 14

or_alias-UidsInRange :
    (now : ℕ) (address : Bytes) (o : Option User) → Keeps UidsInRange (or_alias now address o)
or_alias-UidsInRange now address none = resolve_by_alias-UidsInRange now address
or_alias-UidsInRange now address (some user) = search keeps_rules

index_message-UidsInRange :
    (env : Env) (user : User) (id : ℕ) (text : Bytes)
    → Keeps UidsInRange (index_message env user id text)
unfolding index_message
index_message-UidsInRange env user id text =
    search (keeps_rules, store_search_tokens-UidsInRange) depth 8

deliver_to_user-UidsInRange :
    (env : Env) (user : User) (text : Bytes) → Keeps UidsInRange (deliver_to_user env user text)
unfolding deliver_to_user get_mailbox
deliver_to_user-UidsInRange env user text =
    search (keeps_rules, store_message-UidsInRange, index_message-UidsInRange) depth 14

deliver_by-UidsInRange :
    (env : Env) (sender recipient local domain text : Bytes) (is_local : Bool)
    → Keeps UidsInRange (deliver_by env sender recipient local domain text is_local)
unfolding resolve_recipient get_user
deliver_by-UidsInRange env sender recipient local domain text false =
    enqueue_message-UidsInRange sender recipient text env.now
deliver_by-UidsInRange env sender recipient local domain text true =
    search (keeps_rules, or_alias-UidsInRange, deliver_to_user-UidsInRange) depth 12

pub deliver_message-UidsInRange :
    (env : Env) (sender recipient text : Bytes)
    → Keeps UidsInRange (deliver_message env sender recipient text)
unfolding deliver_message is_local_domain
deliver_message-UidsInRange env sender recipient text =
    search (keeps_rules, deliver_by-UidsInRange) depth 10

deliver_all-UidsInRange :
    (env : DataEnv) (sender text : Bytes) (i : ℕ) (rs : List Bytes)
    → Keeps UidsInRange (deliver_all env sender text i rs)
unfolding deliver_all
deliver_all-UidsInRange env sender text i [] = search keeps_rules
deliver_all-UidsInRange env sender text i (r ∷ rs) =
    Keeps-bind _ _ (search (keeps_rules, deliver_message-UidsInRange))
      (λ u. deliver_all-UidsInRange env sender text (suc i) rs)

-- From tables with the UIDs in range, the DATA command of a session, to any recipients and with any
-- statements failed by the engine, leaves tables with the UIDs in range.
pub receive-UidsInRange :
    (env : DataEnv) (s : Session) (text : Bytes) (db : Db Tables)
    → UidsInRange db.tables
    → UidsInRange (receive env s text db).1.tables
unfolding receive
receive-UidsInRange env s text db h =
    (deliver_all-UidsInRange env s.sender (received env s text) 0 s.recipients).at db h
