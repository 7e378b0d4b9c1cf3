-- ===== src/Storage/SearchIndex/Stored.antt =====
-- What StoreSearchTokens stores, the searches find.
use ghostmail.Prelude.{
  ℕ, Bool, true, false, ◌&&◌, ◌||◌, none, List, [], ◌∷◌, ◌++◌, append-nil, append_assoc, Bytes, ◌≡◌,
  refl, ap, ◌∙◌, arith, any, any-append, map, ◌==◌,
}
use ghostmail.Result.{ok}
use ghostmail.Sql.{pure, query, statement, rollback_on_error, ◌>>=◌, healthy}
use ghostmail.Storage.Schema.{Tables, TokenRow, Message}
use ghostmail.Storage.SearchIndex.{
  SearchToken, token_row, insert_token, insert_tokens, store_search_tokens, matches_token,
  tokens_contain,
}
use ghostmail.Storage.SearchIndex.Conjunction.{carries}

abbrev with_tokens : ℕ → List SearchToken → Tables → Tables
with_tokens id ts t = record t { search_tokens = t.search_tokens ++ map (token_row id) ts }

&&-false : (b : Bool) → (b && false) ≡ false
&&-false b = ground arith

module _ (id : ℕ) where
  with_token : SearchToken → Tables → Tables
  with_token tok t = record t { search_tokens = t.search_tokens ++ token_row id tok ∷ [] }

  insert_token_lem :
      (tok : SearchToken) (t : Tables)
      → any (λ (m : Message). m.id == id) t.messages ≡ true
      → insert_token id tok t ≡ ok (tt, with_token tok t)
  unfolding insert_token with_token
  insert_token_lem tok t h = rw (h, &&-false) refl

  insert_tokens_lem :
      (ts : List SearchToken) (t : Tables)
      → any (λ (m : Message). m.id == id) t.messages ≡ true
      → insert_tokens id ts (healthy t) ≡ (ok tt, healthy (with_tokens id ts t))
  unfolding insert_tokens with_token statement pure ◌>>=◌
  insert_tokens_lem [] t h = rw (append-nil t.search_tokens) refl
  insert_tokens_lem (tok ∷ ts) t h = rw (insert_token_lem tok t h) (
      insert_tokens_lem ts (with_token tok t) h
      ∙ ap (λ rows. (ok tt, healthy (record t { search_tokens = rows })))
          (append_assoc t.search_tokens (token_row id tok ∷ []) (map (token_row id) ts)))

  row_matches :
      (x : ℕ) (hash : Bytes) (ts : List SearchToken)
      → any
          (λ (k : TokenRow). matches_token hash none k && (k.message_id == x))
          (map (token_row id) ts)
        ≡ (tokens_contain ts hash && (id == x))
  unfolding tokens_contain matches_token
  row_matches x hash [] = refl
  row_matches x hash (tok ∷ ts) = ground (arith, row_matches x hash ts)

  store_lem :
      (ts : List SearchToken) (t : Tables)
      → any (λ (m : Message). m.id == id) t.messages ≡ true
      → store_search_tokens id ts (healthy t) ≡ (ok tt, healthy (with_tokens id ts t))
  unfolding store_search_tokens rollback_on_error query statement pure ◌>>=◌
  store_lem [] t h = rw (append-nil t.search_tokens) refl
  store_lem (tok ∷ ts) t h = rw (insert_tokens_lem (tok ∷ ts) t h) refl

  -- With an engine that fails no statement, for a message that is stored, StoreSearchTokens succeeds,
  -- and then a message carries a token exactly if it did before or if it is this message and the token
  -- is one of those given.
  pub store_search_tokens-carries :
      (ts : List SearchToken) (t : Tables)
      → any (λ (m : Message). m.id == id) t.messages ≡ true
      → (u : Tables) × (store_search_tokens id ts (healthy t) ≡ (ok tt, healthy u))
        × ((x : ℕ) (hash : Bytes)
            → carries u x hash ≡ (carries t x hash || (tokens_contain ts hash && (id == x))))
  store_search_tokens-carries ts t h = (
    with_tokens id ts t,
    store_lem ts t h,
    λ x hash.
        any-append _ t.search_tokens _ ∙ ap (λ b. carries t x hash || b) (row_matches x hash ts),
  )
