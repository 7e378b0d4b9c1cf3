-- ===== src/Sql/Members.antt =====
-- Which rows a table has, and what an UPDATE and a DELETE leave of them.
use ghostmail.Prelude.{
  Bool, true, false, List, [], ◌∷◌, ◌++◌, ◌≡◌, refl, ◌⊎◌, inl, inr, arith, if◌then◌else◌, All,
  All-map, Bool-cases, some,
}
use ghostmail.Sql.Rows.{select, find, update, delete}

module _ {A : Type 0} where
  -- The row stands in the list.
  abbrev pub Has : A → List A → Type 0
  Has x [] = ⊥
  Has x (y ∷ ys) = (x ≡ y) ⊎ Has x ys

  pub All-Has : (xs : List A) → All (λ x. Has x xs) xs
  All-Has [] = tt
  All-Has (x ∷ xs) = (inl refl, All-map _ _ xs (λ y h. inr h) (All-Has xs))

  pub Has-All : (P : A → Type 0) (x : A) (xs : List A) → Has x xs → All P xs → P x
  Has-All P x [] h a = absurd h
  Has-All P x (y ∷ ys) (inl e) a = rw e a.0
  Has-All P x (y ∷ ys) (inr h) a = Has-All P x ys h a.1

  pub Has-append : (x : A) (xs ys : List A) → Has x xs → Has x (xs ++ ys)
  Has-append x [] ys h = absurd h
  Has-append x (y ∷ xs) ys (inl e) = inl e
  Has-append x (y ∷ xs) ys (inr h) = inr (Has-append x xs ys h)

  pub Has-append_right : (x : A) (xs ys : List A) → Has x ys → Has x (xs ++ ys)
  Has-append_right x [] ys h = h
  Has-append_right x (y ∷ xs) ys h = inr (Has-append_right x xs ys h)

  -- A row that the WHERE clause passes over stays.
  pub Has-update :
      (p : A → Bool) (f : A → A) (x : A) (xs : List A)
      → p x ≡ false
      → Has x xs
      → Has x (update p f xs)
  unfolding update
  Has-update p f x [] e h = absurd h
  Has-update p f x (y ∷ ys) e (inl same) = inl (rw (← same, e) refl)
  Has-update p f x (y ∷ ys) e (inr h) = inr (Has-update p f x ys e h)

  pub Has-delete :
      (p : A → Bool) (x : A) (xs : List A) → p x ≡ false → Has x xs → Has x (delete p xs)
  unfolding delete
  Has-delete p x [] e h = absurd h
  Has-delete p x (y ∷ ys) e (inl same) = rw (← same, e) (inl refl)
  Has-delete p x (y ∷ ys) e (inr h) = elim (Bool-cases (p y)) [
    | inl gone ↦ rw gone (Has-delete p x ys e h)
    | inr kept ↦ rw kept (inr (Has-delete p x ys e h))
  ]

  -- A row that a query returns is a row of the table that fits.
  pub Has-select :
      (p : A → Bool) (x : A) (xs : List A) → Has x (select p xs) → Has x xs × (p x ≡ true)
  unfolding select
  Has-select p x [] h = absurd h
  Has-select p x (y ∷ ys) h = elim (Bool-cases (p y)) [
    | inl fits ↦ chosen fits (Has-select p x ys) (rw fits at h)
    | inr other ↦ let (stays, e) = Has-select p x ys (rw other at h) in (inr stays, e)
  ]
    where
      chosen :
          p y ≡ true
          → (Has x (select p ys) → Has x ys × (p x ≡ true))
          → (x ≡ y) ⊎ Has x (select p ys)
          → Has x (y ∷ ys) × (p x ≡ true)
      chosen fits rest (inl e) = (inl e, rw e fits)
      chosen fits rest (inr k) = let (stays, e) = rest k in (inr stays, e)

  pub find-Has : (p : A → Bool) (x : A) (xs : List A) → find p xs ≡ some x → Has x xs × (p x ≡ true)
  unfolding find
  find-Has p x [] e = cc
  find-Has p x (y ∷ ys) e = elim (Bool-cases (p y)) [
    | inl fits ↦ let same : x ≡ y = ground arith in (inl same, rw same fits)
    | inr other ↦ let (stays, fits) = find-Has p x ys (ground arith) in (inr stays, fits)
  ]

  -- Every row after an UPDATE, from what it does to each row.
  pub All-updated :
      (P : A → Type 0) (p : A → Bool) (f : A → A) (xs : List A)
      → All (λ x. P (if p x then f x else x)) xs
      → All P (update p f xs)
  unfolding update
  All-updated P p f [] h = tt
  All-updated P p f (x ∷ xs) h = (h.0, All-updated P p f xs h.1)

  -- Every row after a DELETE fails its WHERE clause.
  pub All-remaining : (p : A → Bool) (xs : List A) → All (λ x. p x ≡ false) (delete p xs)
  unfolding delete
  All-remaining p [] = tt
  All-remaining p (x ∷ xs) = elim (Bool-cases (p x)) [
    | inl gone ↦ rw gone (All-remaining p xs)
    | inr kept ↦ rw kept (kept, All-remaining p xs)
  ]

  pub All-both : (P Q : A → Type 0) (xs : List A) → All P xs → All Q xs → All (λ x. P x × Q x) xs
  All-both P Q [] h k = tt
  All-both P Q (x ∷ xs) h k = ((h.0, k.0), All-both P Q xs h.1 k.1)
