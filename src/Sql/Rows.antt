-- ===== src/Sql/Rows.antt =====
-- Tables as lists of rows in the order of their ids, and what the clauses of a statement do with them.
use ghostmail.Prelude.{
  ℕ, ◌+◌, Bool, true, false, ◌&&◌, ◌||◌, Option, none, some, List, [], ◌∷◌, arith, ltb, leb, ◌==◌,
  if◌then◌else◌, if_both, suc, ◌≡◌, ◌≤◌, refl, ◌++◌, length, Bytes, All, Bool-cases, inl, inr,
}

module _ {ℓ} {A : Type ℓ} where
  -- SELECT … WHERE, for every row.
  unfoldable pub select : (A → Bool) → List A → List A
  select p [] = []
  select p (x ∷ xs) = let rest = select p xs in if p x then x ∷ rest else rest

  -- QueryRow: the first row.
  unfoldable pub find : (A → Bool) → List A → Option A
  find p [] = none
  find p (x ∷ xs) = let rest = find p xs in if p x then some x else rest

  -- UPDATE … SET … WHERE.
  unfoldable pub update : (A → Bool) → (A → A) → List A → List A
  update p f [] = []
  update p f (x ∷ xs) = (if p x then f x else x) ∷ update p f xs

  -- DELETE … WHERE.
  unfoldable pub delete : (A → Bool) → List A → List A
  delete p [] = []
  delete p (x ∷ xs) = let rest = delete p xs in if p x then rest else x ∷ rest

  -- SELECT COUNT(*) … WHERE.
  unfoldable pub count : (A → Bool) → List A → ℕ
  count p [] = 0
  count p (x ∷ xs) = (if p x then 1 else 0) + count p xs

  unfoldable pub insert_by : (A → ℕ) → A → List A → List A
  insert_by key x [] = x ∷ []
  insert_by key x (y ∷ ys) =
      let rest = insert_by key x ys in if leb (key x) (key y) then x ∷ y ∷ ys else y ∷ rest

  -- ORDER BY a number; rows with one key keep their order.
  unfoldable pub order_by : (A → ℕ) → List A → List A
  unfolding insert_by
  order_by key [] = []
  order_by key (x ∷ xs) = insert_by key x (order_by key xs)

-- The order of texts by their bytes.
unfoldable pub text_leb : Bytes → Bytes → Bool
text_leb [] t = true
text_leb (c ∷ s) [] = false
text_leb (c ∷ s) (d ∷ t) = ltb c d || ((c == d) && text_leb s t)

module _ {ℓ} {A : Type ℓ} where
  insert_by_text : (A → Bytes) → A → List A → List A
  unfolding text_leb
  insert_by_text key x [] = x ∷ []
  insert_by_text key x (y ∷ ys) =
      let rest = insert_by_text key x ys in
      if text_leb (key x) (key y) then x ∷ y ∷ ys else y ∷ rest

  -- ORDER BY a text; rows with one key keep their order.
  unfoldable pub order_by_text : (A → Bytes) → List A → List A
  unfolding insert_by_text
  order_by_text key [] = []
  order_by_text key (x ∷ xs) = insert_by_text key x (order_by_text key xs)

module _ {ℓ κ} {A : Type ℓ} (P : A → Type κ) where
  pub All-delete : (p : A → Bool) (xs : List A) → All P xs → All P (delete p xs)
  unfolding delete
  All-delete p [] h = tt
  All-delete p (x ∷ xs) h = ground (arith, All-delete p xs h.1)

  pub All-update :
      (p : A → Bool) (f : A → A) (xs : List A)
      → ((x : A) → P x → P (f x))
      → All P xs
      → All P (update p f xs)
  unfolding update
  All-update p f [] k h = tt
  All-update p f (x ∷ xs) k (h, hs) = elim (Bool-cases (p x)) [
    | inl e ↦ rw e (k x h, All-update p f xs k hs)
    | inr e ↦ rw e (h, All-update p f xs k hs)
  ]

  pub All-select : (p : A → Bool) (xs : List A) → All P xs → All P (select p xs)
  unfolding select
  All-select p [] h = tt
  All-select p (x ∷ xs) h = ground (arith, All-select p xs h.1)

  insert_by_text-All :
      (key : A → Bytes) (x : A) (xs : List A) → P x → All P xs → All P (insert_by_text key x xs)
  unfolding insert_by_text
  insert_by_text-All key x [] h hs = (h, tt)
  insert_by_text-All key x (y ∷ ys) h (k, hs) =
      if_both (All P) (text_leb (key x) (key y)) (λ _. (h, (k, hs)))
        (λ _. (k, insert_by_text-All key x ys h hs))

  -- Sorting keeps what holds of every row.
  pub All-order_by_text : (key : A → Bytes) (xs : List A) → All P xs → All P (order_by_text key xs)
  unfolding order_by_text
  All-order_by_text key [] h = tt
  All-order_by_text key (x ∷ xs) (h, hs) =
      insert_by_text-All key x _ h (All-order_by_text key xs hs)

  pub insert_by-All :
      (key : A → ℕ) (x : A) (xs : List A) → P x → All P xs → All P (insert_by key x xs)
  unfolding insert_by
  insert_by-All key x [] h hs = (h, tt)
  insert_by-All key x (y ∷ ys) h (k, hs) =
      if_both (All P) (leb (key x) (key y)) (λ _. (h, (k, hs)))
        (λ _. (k, insert_by-All key x ys h hs))

  pub All-order_by : (key : A → ℕ) (xs : List A) → All P xs → All P (order_by key xs)
  unfolding order_by
  All-order_by key [] h = tt
  All-order_by key (x ∷ xs) (h, hs) = insert_by-All key x _ h (All-order_by key xs hs)

module _ {ℓ} {A : Type ℓ} where
  insert_by-length :
      (key : A → ℕ) (x : A) (xs : List A) → length (insert_by key x xs) ≡ suc (length xs)
  unfolding insert_by
  insert_by-length key x [] = refl
  insert_by-length key x (y ∷ ys) = ground (arith, insert_by-length key x ys)

  -- ORDER BY loses no row and makes none.
  pub order_by-length : (key : A → ℕ) (xs : List A) → length (order_by key xs) ≡ length xs
  unfolding order_by
  order_by-length key [] = refl
  order_by-length key (x ∷ xs) =
      omega (arith, insert_by-length key x (order_by key xs), order_by-length key xs)

  pub select-length : (p : A → Bool) (xs : List A) → length (select p xs) ≡ count p xs
  unfolding select count
  select-length p [] = refl
  select-length p (x ∷ xs) = ground (arith, select-length p xs)

  pub count-append : (p : A → Bool) (xs ys : List A) → count p (xs ++ ys) ≡ count p xs + count p ys
  unfolding count
  count-append p [] ys = omega arith
  count-append p (x ∷ xs) ys = omega (arith, count-append p xs ys)

  -- An UPDATE of other columns.
  pub count-update :
      (p q : A → Bool) (f : A → A) (xs : List A)
      → ((x : A) → p (f x) ≡ p x)
      → count p (update q f xs) ≡ count p xs
  unfolding count update
  count-update p q f [] same = refl
  count-update p q f (x ∷ xs) same = ground (arith, same x, count-update p q f xs same)

  pub count-delete : (p q : A → Bool) (xs : List A) → count p (delete q xs) ≤ count p xs
  unfolding count delete
  count-delete p q [] = omega arith
  count-delete p q (x ∷ xs) = ground (arith, count-delete p q xs)
