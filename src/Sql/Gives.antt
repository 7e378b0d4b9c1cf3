-- ===== src/Sql/Gives.antt =====
-- What a method returns, if it returns, one rule for each way to build a method.
use ghostmail.Prelude.{
  Bool, true, false, Option, none, some, List, [], ◌∷◌, ◌≡◌, refl, if◌then◌else◌,
}
use ghostmail.Result.{Error, Result, ok, err}
use ghostmail.Sql.{
  Db, Sql, pure, raise, lift, or_raise, statement, statement_at, query, exec, rollback_on_error,
  attempt, settle, ignoring, or_else, wrapping, blame, continue, ◌>>=◌,
}

-- From tables that satisfy `P`, a value that `m` returns and the tables it leaves satisfy `Q`.
pub record Gives {T A : Type 0} (P : T → Type 0) (m : Sql T A) (Q : A → T → Type 0) : Type 0 where
  pub on_ok : (db : Db T) (a : A) → P db.tables → (m db).0 ≡ ok a → Q a (m db).1.tables

abbrev pub ReturnsIn : {T A : Type 0} → (A → T → Type 0) → Result (A × T) → Type 0
ReturnsIn Q (ok (a, t)) = Q a t
ReturnsIn Q (err e) = Unit {0}

-- A constraint that is checked first.
pub ReturnsIn-guard :
    {T A : Type 0} (Q : A → T → Type 0) (broken : Bool) (e : Error) (r : Result (A × T))
    → ReturnsIn Q r
    → ReturnsIn Q (if broken then err e else r)
ReturnsIn-guard Q true e r h = tt
ReturnsIn-guard Q false e r h = h

-- A value that is returned, put in place of another that it equals.
value_of : {A : Type 0} → A → Result A → A
value_of d (ok a) = a
value_of d (err e) = d

module _ {T A : Type 0} (Q : A → T → Type 0) where
  same_value : (a b : A) (t : T) → ◌≡◌ {A = Result A} (ok a) (ok b) → Q a t → Q b t
  unfolding value_of
  same_value a b t e h = rw (← ap_value) h
    where
      ap_value : a ≡ b
      ap_value = λ i. value_of a (e i)

  attempt_gives :
      (r : Result (A × T)) (db : Db T) (b : A)
      → ReturnsIn Q r
      → (attempt r db).0 ≡ ok b
      → Q b (attempt r db).1.tables
  attempt_gives (ok (a, t)) db b h e = same_value a b t e h
  attempt_gives (err x) db b h e = cc

  statement_at_gives :
      (faults : List Bool) (f : T → Result (A × T)) (db : Db T) (b : A)
      → ReturnsIn Q (f db.tables)
      → (statement_at faults f db).0 ≡ ok b
      → Q b (statement_at faults f db).1.tables
  statement_at_gives [] f db b h e = attempt_gives (f db.tables) db b h e
  statement_at_gives (true ∷ rest) f db b h e = cc
  statement_at_gives (false ∷ rest) f db b h e =
      attempt_gives (f db.tables) (record db { faults = rest }) b h e

  settle_gives :
      (t : T) (r : Result A) (db : Db T) (b : A)
      → ((a : A) → r ≡ ok a → Q a db.tables)
      → (settle t (r, db)).0 ≡ ok b
      → Q b (settle t (r, db)).1.tables
  settle_gives t (ok a) db b h e = h b e
  settle_gives t (err x) db b h e = cc

  or_else_gives :
      (a : A) (r : Result A) (db : Db T) (b : A)
      → ((t : T) → Q a t)
      → ((c : A) → r ≡ ok c → Q c db.tables)
      → (or_else a (r, db)).0 ≡ ok b
      → Q b (or_else a (r, db)).1.tables
  or_else_gives a (ok c) db b d h e = h b e
  or_else_gives a (err x) db b d h e = same_value a b db.tables e (d db.tables)

  blame_gives :
      (x : Error) (r : Result A) (db : Db T) (b : A)
      → ((a : A) → r ≡ ok a → Q a db.tables)
      → (blame x (r, db)).0 ≡ ok b
      → Q b (blame x (r, db)).1.tables
  blame_gives x (ok a) db b h e = h b e
  blame_gives x (err y) db b h e = cc

module _ {T A : Type 0} {P : T → Type 0} {Q : A → T → Type 0} where
  pub Gives-pure : (a : A) → ((t : T) → P t → Q a t) → Gives P (pure a) Q
  unfolding pure
  Gives-pure a h = record { on_ok = λ db b p e. same_value Q a b db.tables e (h db.tables p) }

  pub Gives-raise : (x : Error) → Gives P (raise x) Q
  unfolding raise
  Gives-raise x = record { on_ok = λ db b p e. cc }

  pub Gives-lift : (r : Result A) → ((t : T) (a : A) → r ≡ ok a → P t → Q a t) → Gives P (lift r) Q
  unfolding lift
  Gives-lift r h = record { on_ok = λ db b p e. h db.tables b e p }

  pub Gives-or_raise :
      (e : Error) (o : Option A)
      → ((t : T) (a : A) → o ≡ some a → P t → Q a t)
      → Gives P (or_raise e o) Q
  unfolding or_raise
  Gives-or_raise e none h = Gives-raise e
  Gives-or_raise e (some a) h = Gives-pure a (λ t p. h t a refl p)

  pub Gives-statement :
      (f : T → Result (A × T)) → ((t : T) → P t → ReturnsIn Q (f t)) → Gives P (statement f) Q
  unfolding statement
  Gives-statement f h = record {
    on_ok = λ db b p e. statement_at_gives Q db.faults f db b (h db.tables p) e;
  }

  pub Gives-query : (f : T → A) → ((t : T) → P t → Q (f t) t) → Gives P (query f) Q
  unfolding query
  Gives-query f h = Gives-statement _ h

  pub Gives-rollback : (m : Sql T A) → Gives P m Q → Gives P (rollback_on_error m) Q
  unfolding rollback_on_error
  Gives-rollback m g = record {
    on_ok = λ db b p e.
        let (r, db') = m db in settle_gives Q db.tables r db' b (λ a e'. g.on_ok db a p e') e;
  }

  pub Gives-wrapping : (x : Error) (m : Sql T A) → Gives P m Q → Gives P (wrapping x m) Q
  unfolding wrapping
  Gives-wrapping x m g = record {
    on_ok =
        λ db b p e. let (r, db') = m db in blame_gives Q x r db' b (λ a e'. g.on_ok db a p e') e;
  }

  -- The value in place of an error must do at any tables.
  pub Gives-ignoring :
      (a : A) (m : Sql T A) → ((t : T) → Q a t) → Gives P m Q → Gives P (ignoring a m) Q
  unfolding ignoring
  Gives-ignoring a m d g = record {
    on_ok = λ db b p e.
        let (r, db') = m db in or_else_gives Q a r db' b d (λ c e'. g.on_ok db c p e') e;
  }

  pub Gives-if :
      (b : Bool) (m n : Sql T A)
      → (b ≡ true → Gives P m Q)
      → (b ≡ false → Gives P n Q)
      → Gives P (if b then m else n) Q
  Gives-if true m n gm gn = gm refl
  Gives-if false m n gm gn = gn refl

-- What the tables at the start say may be used from then on.
pub Gives-from :
    {T A : Type 0} {P R : T → Type 0} {Q : A → T → Type 0} {C : Type 0} (m : Sql T A)
    → ((t : T) → P t → C × R t)
    → (C → Gives R m Q)
    → Gives P m Q
Gives-from m h g = record {
  on_ok = λ db b p e. (g (h db.tables p).0).on_ok db b (h db.tables p).1 e;
}

pub Gives-exec :
    {T : Type 0} {P : T → Type 0} {Q : Unit {0} → T → Type 0} (f : T → T)
    → ((t : T) → P t → Q tt (f t))
    → Gives P (exec f) Q
unfolding exec
Gives-exec f h = Gives-statement _ h

module _ {T A B : Type 0} (R : B → T → Type 0) where
  continue_gives :
      (r : Result A) (f : A → Sql T B) (db : Db T) (b : B)
      → ((a : A) → r ≡ ok a → (f a db).0 ≡ ok b → R b (f a db).1.tables)
      → (continue r f db).0 ≡ ok b
      → R b (continue r f db).1.tables
  continue_gives (ok a) f db b h e = h a refl e
  continue_gives (err x) f db b h e = cc

module _ {T A B : Type 0} {P : T → Type 0} {Q : A → T → Type 0} {R : B → T → Type 0} where
  pub Gives-bind :
      (m : Sql T A) (f : A → Sql T B)
      → Gives P m Q
      → ((a : A) → Gives (Q a) (f a) R)
      → Gives P (m >>= f) R
  unfolding ◌>>=◌
  Gives-bind m f g k = record {
    on_ok = λ db b p e.
        let (r, db') = m db in
        continue_gives R r f db' b (λ a e'. (k a).on_ok db' b (g.on_ok db a p e')) e;
  }

-- A value that is there.
pub Gives-or_raise_some :
    {T A B : Type 0} {P : T → Type 0} {R : B → T → Type 0} (e : Error) (o : Option A) (a : A)
    (f : A → Sql T B)
    → o ≡ some a
    → Gives P (f a) R
    → Gives P (or_raise e o >>= f) R
unfolding or_raise pure ◌>>=◌
Gives-or_raise_some e o a f there g = rw there (record { on_ok = g.on_ok })

pub Gives-weaken :
    {T A : Type 0} {P : T → Type 0} {Q R : A → T → Type 0} (m : Sql T A)
    → Gives P m Q
    → ((a : A) (t : T) → Q a t → R a t)
    → Gives P m R
Gives-weaken m g w = record { on_ok = λ db a p e. w a _ (g.on_ok db a p e) }
