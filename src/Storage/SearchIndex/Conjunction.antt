-- ===== src/Storage/SearchIndex/Conjunction.antt =====
-- SearchByTokens finds the messages that carry every token.
use ghostmail.Prelude.{
  ℕ, Bool, false, ◌&&◌, ◌||◌, none, List, [], ◌∷◌, Bytes, ◌≡◌, refl, ap, ◌∙◌, sym, arith, any, all,
  map, ◌==◌, Bool-cases, inl, inr,
}
use ghostmail.Result.{ok}
use ghostmail.Sql.{Sql, pure, query, statement, ◌>>=◌, healthy}
use ghostmail.Sql.Rows.{select}
use ghostmail.Storage.Schema.{Tables, TokenRow}
use ghostmail.Storage.SearchIndex.{
  member, distinct, matches_token, ids_with, search_by_token, intersect, narrow, search_by_tokens,
}

-- The message has a row with that token, in some field.
abbrev pub carries : Tables → ℕ → Bytes → Bool
carries t id hash =
    any (λ (k : TokenRow). matches_token hash none k && (k.message_id == id)) t.search_tokens

member-distinct :
    (x : ℕ) (seen xs : List ℕ)
    → (member x (distinct seen xs) || member x seen) ≡ (member x xs || member x seen)
unfolding distinct
member-distinct x seen [] = refl
member-distinct x seen (y ∷ xs) = elim (Bool-cases (member y seen)) [
  | inl e ↦ rw e (grind (arith, member-distinct x seen xs))
  | inr e ↦ rw e (ground (arith, member-distinct x (y ∷ seen) xs))
]

member-ids :
    (x : ℕ) (hash : Bytes) (ks : List TokenRow)
    → member x (map (λ k. k.message_id) (select (matches_token hash none) ks))
      ≡ any (λ (k : TokenRow). matches_token hash none k && (k.message_id == x)) ks
unfolding select
member-ids x hash [] = refl
member-ids x hash (k ∷ ks) = elim (Bool-cases (matches_token hash none k)) [
  | inl e ↦ rw e (ap (λ b. (k.message_id == x) || b) (member-ids x hash ks))
  | inr e ↦ rw e (member-ids x hash ks)
]

member-select : (x : ℕ) (p : ℕ → Bool) (xs : List ℕ) → member x (select p xs) ≡ (member x xs && p x)
unfolding select
member-select x p [] = refl
member-select x p (y ∷ xs) = elim (Bool-cases (p y)) [
  | inl e ↦ rw e (grind (arith, member-select x p xs))
  | inr e ↦ rw e (grind (arith, member-select x p xs))
]

or_false : (a b : Bool) → (a || false) ≡ (b || false) → a ≡ b
or_false a b e = ground arith

ids_with-carries :
    (t : Tables) (x : ℕ) (hash : Bytes) → member x (ids_with hash none t) ≡ carries t x hash
ids_with-carries t x hash =
    or_false _ _ (member-distinct x [] _) ∙ member-ids x hash t.search_tokens

-- A run that fails no statement returns the ids in `rs` that carry each of the tokens.
record Narrowed (t : Tables) (rs : List ℕ) (hashes : List Bytes) (m : Sql Tables (List ℕ))
    : Type 0 where
  pub found : List ℕ
  pub returned : m (healthy t) ≡ (ok found, healthy t)
  pub exact : (x : ℕ) → member x found ≡ (member x rs && all (carries t x) hashes)

module _ (t : Tables) where
  intersect-carries :
      (x : ℕ) (hash : Bytes) (rs is : List ℕ)
      → intersect rs (ids_with hash none t) ≡ is
      → member x is ≡ (member x rs && carries t x hash)
  unfolding intersect
  intersect-carries x hash rs is e =
      ap (member x) (sym e)
      ∙ member-select x _ rs
      ∙ ap (λ b. member x rs && b) (ids_with-carries t x hash)

  narrow_next :
      (hash : Bytes) (hashes : List Bytes) (rs is : List ℕ)
      → intersect rs (ids_with hash none t) ≡ is
      → Narrowed t is hashes (narrow is hashes)
      → Narrowed t rs (hash ∷ hashes) (narrow rs (hash ∷ hashes))
  unfolding narrow search_by_token query statement pure ◌>>=◌
  narrow_next hash hashes rs [] e n = record {
    found = [];
    returned = rw e refl;
    exact = λ x. ground (arith, intersect-carries x hash rs [] e);
  }
  narrow_next hash hashes rs (i ∷ is) e n = record {
    found = n.found;
    returned = rw e n.returned;
    exact = λ x. ground (arith, n.exact x, intersect-carries x hash rs (i ∷ is) e);
  }

  narrow-Narrowed : (hashes : List Bytes) (rs : List ℕ) → Narrowed t rs hashes (narrow rs hashes)
  unfolding narrow pure
  narrow-Narrowed [] rs = record { found = rs; returned = refl; exact = λ x. ground arith }
  narrow-Narrowed (hash ∷ hashes) rs =
      narrow_next hash hashes rs _ refl
        (narrow-Narrowed hashes (intersect rs (ids_with hash none t)))

  -- With an engine that fails no statement, SearchByTokens of one token or more changes nothing and
  -- returns the ids of exactly the messages that carry every one of the tokens.
  pub search_by_tokens_conjunction :
      (hash : Bytes) (hashes : List Bytes)
      → (found : List ℕ) × (search_by_tokens (hash ∷ hashes) (healthy t) ≡ (ok found, healthy t))
        × ((x : ℕ) → member x found ≡ all (carries t x) (hash ∷ hashes))
  unfolding search_by_tokens search_by_token query statement ◌>>=◌
  search_by_tokens_conjunction hash hashes =
      let n = narrow-Narrowed hashes (ids_with hash none t) in
      (n.found, n.returned, λ x. rw (← ids_with-carries t x hash) (n.exact x))
