-- ===== src/Examples/Store.antt =====
-- The theorems on internal/storage and internal/crypto at the data of the parent module.
use ghostmail.Prelude.{
  ℕ, true, false, List, [], ◌∷◌, ◌||◌, ◌&&◌, Bytes, codes, ◌≡◌, ◌<◌, refl, inr, arith, equal, All,
  all, ◌==◌,
}
use ghostmail.Result.{engine, ok, err}
use ghostmail.Sql.{Db, healthy, rollback_on_error, or_raise, exec, query, statement, pure, ◌>>=◌}
use ghostmail.Sql.Rows.{find, update, delete}
use ghostmail.Storage.Schema.{Tables, User}
use ghostmail.Storage.Messages.{store_message, insert_message, delete_message}
use ghostmail.Storage.Mailboxes.{next_uid, delete_messages, insert_mailbox}
use ghostmail.Storage.Users.{create_user, default_mailboxes, create_mailboxes, insert_user}
use ghostmail.Storage.Users.Creation.{HasMailbox, create_user-HasMailboxes}
use ghostmail.Storage.SearchIndex.{
  SearchToken, member, store_search_tokens, search_by_tokens, tokens_contain, insert_tokens,
  insert_token,
}
use ghostmail.Storage.SearchIndex.Conjunction.{carries, search_by_tokens_conjunction}
use ghostmail.Storage.SearchIndex.Stored.{store_search_tokens-carries}
use ghostmail.Storage.Uids.{UidsInRange}
use ghostmail.Storage.History.{Call, stores, deletes, perform, run}
use ghostmail.Storage.History.Ascending.{store_message_ascending}
use ghostmail.Examples.{alice, letter, tables}

pub tables-UidsInRange : UidsInRange tables
tables-UidsInRange = record {
  placed = ((omega arith, (inr (omega arith), tt)), tt);
  distinct = (omega arith, tt, tt);
}

abbrev some_calls : List Call
some_calls = deletes 1 ∷ stores letter ∷ []

-- An engine that fails the second statement.
abbrev failing : Db Tables
failing = record { tables = tables; faults = false ∷ true ∷ [] }

abbrev after_first : Db Tables
after_first = (store_message letter (healthy tables)).1

first_uid : (store_message letter (healthy tables)).0 ≡ ok (2, 2)
unfolding store_message next_uid rollback_on_error or_raise exec query statement pure ◌>>=◌ find
    update insert_message
first_uid = refl

second_uid : (store_message letter (run (deletes 2 ∷ []) after_first)).0 ≡ ok (3, 3)
unfolding store_message next_uid rollback_on_error or_raise exec query statement pure ◌>>=◌ find
    update insert_message run perform delete_message delete_messages delete
second_uid = refl

store_message_ascending_example : 2 < 3
store_message_ascending_example =
    store_message_ascending letter letter (deletes 2 ∷ []) (healthy tables) 2 2 3 3
      tables-UidsInRange refl first_uid second_uid

search_example :
    (found : List ℕ) × (search_by_tokens (codes "hello" ∷ codes "bye" ∷ []) (healthy tables)
      ≡ (ok found, healthy tables))
    × ((x : ℕ) → member x found ≡ all (carries tables x) (codes "hello" ∷ codes "bye" ∷ []))
search_example = search_by_tokens_conjunction tables (codes "hello") (codes "bye" ∷ [])

abbrev bye : List SearchToken
bye = record { hash = codes "bye"; field = 3 } ∷ []

store_tokens_example :
    (u : Tables) × (store_search_tokens 1 bye (healthy tables) ≡ (ok tt, healthy u))
    × ((x : ℕ) (hash : Bytes)
        → carries u x hash ≡ (carries tables x hash || (tokens_contain bye hash && (1 == x))))
store_tokens_example = store_search_tokens-carries 1 bye tables refl

abbrev bob : User
bob = record alice { username = codes "bob" }

bob_made : (create_user bob 7 (healthy tables)).0 ≡ ok 2
unfolding create_user create_mailboxes default_mailboxes insert_user insert_mailbox
    rollback_on_error query statement pure ◌>>=◌ equal
bob_made = refl

create_user_example :
    All (λ mb. HasMailbox 2 mb.0 (create_user bob 7 (healthy tables)).1.tables) default_mailboxes
create_user_example = create_user-HasMailboxes bob 7 (healthy tables) 2 bob_made

-- The engine fails the insertion of a mailbox.
abbrev failing_late : Db Tables
failing_late = record { tables = tables; faults = false ∷ false ∷ false ∷ true ∷ [] }

bob_fails : (create_user bob 7 failing_late).0 ≡ err engine
unfolding create_user create_mailboxes default_mailboxes insert_user insert_mailbox
    rollback_on_error query statement pure ◌>>=◌ equal
bob_fails = refl

tokens_fail : (store_search_tokens 1 bye failing_late).0 ≡ err engine
unfolding store_search_tokens insert_tokens insert_token rollback_on_error query statement pure
    ◌>>=◌
tokens_fail = refl
