-- ===== src/Storage/SearchIndex.antt =====
-- internal/storage/searchindex.go
pub mod Conjunction
pub mod Stored
use ghostmail.Prelude.{
  ℕ, suc, ◌+◌, Bool, true, false, ◌&&◌, ◌||◌, not, Option, none, some, List, [], ◌∷◌, ◌++◌, map,
  ◌==◌, equal, any, if◌then◌else◌, Bytes,
}
use ghostmail.Result.{Error, constraint, Result, ok, err}
use ghostmail.Sql.{Sql, pure, statement, query, exec, rollback_on_error, ◌>>=◌, ◌>>◌}
use ghostmail.Sql.Rows.{select, delete}
use ghostmail.Storage.Schema.{Tables, TokenRow, Message}

-- SearchToken
pub record SearchToken : Type 0 where
  pub hash : Bytes
  pub field : ℕ

abbrev pub token_row : ℕ → SearchToken → TokenRow
token_row message_id tok = record {
  message_id = message_id;
  token_hash = tok.hash;
  field = tok.field;
}

-- INSERT INTO search_tokens, with its reference to messages.
unfoldable pub insert_token : ℕ → SearchToken → Tables → Result (Unit {0} × Tables)
insert_token message_id tok t =
    if t.foreign_keys && not (any (λ (m : Message). m.id == message_id) t.messages)
    then err constraint
    else ok (tt, record t { search_tokens = t.search_tokens ++ token_row message_id tok ∷ [] })

unfoldable pub insert_tokens : ℕ → List SearchToken → Sql Tables (Unit {0})
insert_tokens message_id [] = pure tt
insert_tokens message_id (tok ∷ tokens) = do
  statement (insert_token message_id tok)
  insert_tokens message_id tokens

-- Begin and Prepare, the inserts, and Commit.
unfoldable pub store_search_tokens : ℕ → List SearchToken → Sql Tables (Unit {0})
store_search_tokens message_id [] = pure tt
store_search_tokens message_id (tok ∷ tokens) =
    rollback_on_error (do
      query (λ t. tt)
      query (λ t. tt)
      insert_tokens message_id (tok ∷ tokens)
      query (λ t. tt))

abbrev pub member : ℕ → List ℕ → Bool
member x = any (λ y. y == x)

-- SELECT DISTINCT: the first of each id.
unfoldable pub distinct : List ℕ → List ℕ → List ℕ
distinct seen [] = []
distinct seen (x ∷ xs) =
    let new = x ∷ distinct (x ∷ seen) xs in
    let old = distinct seen xs in if member x seen then old else new

-- `none` is the negative field, which stands for every field.
unfoldable pub matches_token : Bytes → Option ℕ → TokenRow → Bool
matches_token token_hash none k = equal k.token_hash token_hash
matches_token token_hash (some field) k = equal k.token_hash token_hash && (k.field == field)

abbrev pub ids_with : Bytes → Option ℕ → Tables → List ℕ
ids_with token_hash field t =
    distinct [] (map (λ k. k.message_id) (select (matches_token token_hash field) t.search_tokens))

unfoldable pub search_by_token : Bytes → Option ℕ → Sql Tables (List ℕ)
search_by_token token_hash field = query (ids_with token_hash field)

unfoldable pub intersect : List ℕ → List ℕ → List ℕ
intersect a b = select (λ v. member v b) a

-- `if len(results) == 0 { return nil, nil }`, and the rounds that remain.
abbrev pub unless_empty : (List ℕ → Sql Tables (List ℕ)) → List ℕ → Sql Tables (List ℕ)
unless_empty rest [] = pure []
unless_empty rest (x ∷ xs) = rest (x ∷ xs)

-- The loop over tokenHashes[1:], which stops at an empty intersection.
unfoldable pub narrow : List ℕ → List Bytes → Sql Tables (List ℕ)
narrow results [] = pure results
narrow results (hash ∷ hashes) = do
  found ← search_by_token hash none
  unless_empty (λ rs. narrow rs hashes) (intersect results found)

unfoldable pub search_by_tokens : List Bytes → Sql Tables (List ℕ)
search_by_tokens [] = pure []
search_by_tokens (hash ∷ hashes) = do results ← search_by_token hash none; narrow results hashes

unfoldable pub delete_search_tokens : ℕ → Sql Tables (Unit {0})
delete_search_tokens message_id =
    exec λ t. record t { search_tokens = delete (λ k. k.message_id == message_id) t.search_tokens }

unfoldable pub tokens_contain : List SearchToken → Bytes → Bool
tokens_contain tokens hash = any (λ tok. equal tok.hash hash) tokens
