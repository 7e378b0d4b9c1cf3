-- ===== src/Storage/Transactions.antt =====
-- The methods of internal/storage that run their statements in a transaction.
use ghostmail.Prelude.{ℕ, List, [], ◌∷◌, ◌≡◌, refl}
use ghostmail.Result.{Error, Result, ok, err}
use ghostmail.Sql.{Db, Sql, pure, settle, rollback_on_error}
use ghostmail.Storage.Schema.{Tables, User}
use ghostmail.Storage.Users.{create_user}
use ghostmail.Storage.SearchIndex.{SearchToken, store_search_tokens}

module _ {A : Type 0} where
  settle-restores :
      (t : Tables) (r : Result A) (db : Db Tables) (e : Error)
      → (settle t (r, db)).0 ≡ err e
      → (settle t (r, db)).1.tables ≡ t
  settle-restores t (ok a) db e h = cc
  settle-restores t (err x) db e h = refl

  rollback-restores :
      (m : Sql Tables A) (db : Db Tables) (e : Error)
      → (rollback_on_error m db).0 ≡ err e
      → (rollback_on_error m db).1.tables ≡ db.tables
  unfolding rollback_on_error
  rollback-restores m db e h = settle-restores db.tables (m db).0 (m db).1 e h

-- A CreateUser that fails, at whichever of its statements, leaves the tables as they were: no user
-- without mailboxes, no mailbox without its user.
pub create_user-restores :
    (u : User) (now : ℕ) (db : Db Tables) (e : Error)
    → (create_user u now db).0 ≡ err e
    → (create_user u now db).1.tables ≡ db.tables
unfolding create_user
create_user-restores u now db e h = rollback-restores _ db e h

-- A StoreSearchTokens that fails, at whichever token, leaves the tables as they were.
store_search_tokens-restores :
    (id : ℕ) (ts : List SearchToken) (db : Db Tables) (e : Error)
    → (store_search_tokens id ts db).0 ≡ err e
    → (store_search_tokens id ts db).1.tables ≡ db.tables
unfolding store_search_tokens pure
store_search_tokens-restores id [] db e h = cc
store_search_tokens-restores id (tok ∷ ts) db e h = rollback-restores _ db e h
