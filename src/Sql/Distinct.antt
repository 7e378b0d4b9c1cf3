-- ===== src/Sql/Distinct.antt =====
-- Rows with ids of their own, and what SELECT, ORDER BY and LIMIT make of them.
use ghostmail.Prelude.{
  ℕ, zero, suc, Bool, List, [], ◌∷◌, take, leb, ◌≢◌, sym, All, Bool-cases, inl, inr, if_both,
}
use ghostmail.Sql.Rows.{select, order_by, insert_by, insert_by-All, All-order_by, All-select}

pub take-All : {A : Type 0} (P : A → Type 0) (n : ℕ) (q : List A) → All P q → All P (take n q)
take-All P zero q h = tt
take-All P (suc n) [] h = tt
take-All P (suc n) (i ∷ q) (h, hs) = (h, take-All P n q hs)

module _ {A : Type 0} (id : A → ℕ) where
  abbrev pub DistinctBy : List A → Type 0
  DistinctBy [] = Unit {0}
  DistinctBy (x ∷ xs) = All (λ y. id y ≢ id x) xs × DistinctBy xs

  pub DistinctBy-select : (p : A → Bool) (q : List A) → DistinctBy q → DistinctBy (select p q)
  unfolding select
  DistinctBy-select p [] d = tt
  DistinctBy-select p (i ∷ q) (d, ds) = elim (Bool-cases (p i)) [
    | inl fits ↦ rw fits (All-select (λ j. id j ≢ id i) p q d, DistinctBy-select p q ds)
    | inr out ↦ rw out (DistinctBy-select p q ds)
  ]

  DistinctBy-insert_by :
      (key : A → ℕ) (i : A) (q : List A)
      → All (λ j. id j ≢ id i) q
      → DistinctBy q
      → DistinctBy (insert_by key i q)
  unfolding insert_by
  DistinctBy-insert_by key i [] h d = (tt, tt)
  DistinctBy-insert_by key i (j ∷ q) (h, hs) (d, ds) =
      if_both DistinctBy (leb (key i) (key j)) (λ _. ((h, hs), (d, ds)))
        (λ _. (
          insert_by-All (λ k. id k ≢ id j) key i q (λ e. h (sym e)) d,
          DistinctBy-insert_by key i q hs ds,
        ))

  pub DistinctBy-order_by : (key : A → ℕ) (q : List A) → DistinctBy q → DistinctBy (order_by key q)
  unfolding order_by
  DistinctBy-order_by key [] d = tt
  DistinctBy-order_by key (i ∷ q) (d, ds) =
      DistinctBy-insert_by key i (order_by key q) (All-order_by (λ j. id j ≢ id i) key q d)
        (DistinctBy-order_by key q ds)

  pub DistinctBy-take : (n : ℕ) (q : List A) → DistinctBy q → DistinctBy (take n q)
  DistinctBy-take zero q d = tt
  DistinctBy-take (suc n) [] d = tt
  DistinctBy-take (suc n) (i ∷ q) (d, ds) = (take-All _ n q d, DistinctBy-take n q ds)
