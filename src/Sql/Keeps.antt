-- ===== src/Sql/Keeps.antt =====
-- Invariants of the tables, one rule for each way to build a method.
use ghostmail.Prelude.{
  Bool, true, false, Option, none, some, List, [], ◌∷◌, ◌≡◌, refl, if◌then◌else◌,
}
use ghostmail.Result.{Error, Result, ok, err}
use ghostmail.Sql.Gives.{Gives}
use ghostmail.Sql.{
  Db, Sql, pure, raise, lift, or_raise, statement, statement_at, query, exec, rollback_on_error,
  ignoring, wrapping, attempted, attempt, settle, or_else, blame, continue, ◌>>=◌,
}

-- `m` keeps `P`, whether it returns, fails by itself or is failed by the engine.
pub record Keeps {T A : Type 0} (P : T → Type 0) (m : Sql T A) : Type 0 where
  pub at : (db : Db T) → P db.tables → P (m db).1.tables

abbrev pub HoldsAfter : {T A : Type 0} → (T → Type 0) → Result (A × T) → Type 0
HoldsAfter P (ok (a, t)) = P t
HoldsAfter P (err e) = Unit {0}

module _ {T A : Type 0} (P : T → Type 0) where
  -- A constraint that is checked first.
  pub HoldsAfter-guard :
      (broken : Bool) (e : Error) (r : Result (A × T))
      → HoldsAfter P r
      → HoldsAfter P (if broken then err e else r)
  HoldsAfter-guard true e r h = tt
  HoldsAfter-guard false e r h = h

  attempt_keeps :
      (r : Result (A × T)) (db : Db T) → P db.tables → HoldsAfter P r → P (attempt r db).1.tables
  attempt_keeps (ok (a, t)) db h k = k
  attempt_keeps (err e) db h k = h

  pub statement_at_keeps :
      (faults : List Bool) (f : T → Result (A × T)) (db : Db T)
      → P db.tables
      → HoldsAfter P (f db.tables)
      → P (statement_at faults f db).1.tables
  statement_at_keeps [] f db h k = attempt_keeps (f db.tables) db h k
  statement_at_keeps (true ∷ rest) f db h k = h
  statement_at_keeps (false ∷ rest) f db h k =
      attempt_keeps (f db.tables) (record db { faults = rest }) h k

  settle_keeps :
      (t : T) (r : Result A) (db : Db T) → P t → P db.tables → P (settle t (r, db)).1.tables
  settle_keeps t (ok a) db h k = k
  settle_keeps t (err e) db h k = h

module _ {T A B : Type 0} (P : T → Type 0) where
  pub continue_keeps :
      (r : Result A) (f : A → Sql T B) (db : Db T)
      → P db.tables
      → ((a : A) → r ≡ ok a → P (f a db).1.tables)
      → P (continue r f db).1.tables
  continue_keeps (ok a) f db h k = k a refl
  continue_keeps (err e) f db h k = h

module _ {T A : Type 0} {P : T → Type 0} where
  pub Keeps-pure : (a : A) → Keeps P (pure a)
  unfolding pure
  Keeps-pure a = record { at = λ db h. h }

  pub Keeps-raise : (e : Error) → Keeps P (raise {A = A} e)
  unfolding raise
  Keeps-raise e = record { at = λ db h. h }

  pub Keeps-lift : (r : Result A) → Keeps P (lift r)
  unfolding lift
  Keeps-lift r = record { at = λ db h. h }

  pub Keeps-or_raise : (e : Error) (o : Option A) → Keeps P (or_raise e o)
  unfolding or_raise
  Keeps-or_raise e none = Keeps-raise e
  Keeps-or_raise e (some a) = Keeps-pure a

  pub Keeps-statement :
      (f : T → Result (A × T)) → ((t : T) → P t → HoldsAfter P (f t)) → Keeps P (statement f)
  unfolding statement
  Keeps-statement f k = record {
    at = λ db h. statement_at_keeps P db.faults f db h (k db.tables h);
  }

  pub Keeps-query : (f : T → A) → Keeps P (query f)
  unfolding query
  Keeps-query f = Keeps-statement _ (λ t h. h)

  pub Keeps-rollback : (m : Sql T A) → Keeps P m → Keeps P (rollback_on_error m)
  unfolding rollback_on_error
  Keeps-rollback m k = record {
    at = λ db h. let (r, db') = m db in settle_keeps P db.tables r db' h (k.at db h);
  }

  pub Keeps-ignoring : (a : A) (m : Sql T A) → Keeps P m → Keeps P (ignoring a m)
  unfolding ignoring
  Keeps-ignoring a m k = record {
    at = λ db h. let (r, db') = m db in or_else_keeps r db' (k.at db h);
  }
    where
      or_else_keeps : (r : Result A) (db : Db T) → P db.tables → P (or_else a (r, db)).1.tables
      or_else_keeps (ok b) db h = h
      or_else_keeps (err e) db h = h

  pub Keeps-wrapping : (e : Error) (m : Sql T A) → Keeps P m → Keeps P (wrapping e m)
  unfolding wrapping
  Keeps-wrapping e m k = record {
    at = λ db h. let (r, db') = m db in blame_keeps r db' (k.at db h);
  }
    where
      blame_keeps : (r : Result A) (db : Db T) → P db.tables → P (blame e (r, db)).1.tables
      blame_keeps (ok b) db h = h
      blame_keeps (err e') db h = h

  pub Keeps-if :
      (test : Bool) (held otherwise : Sql T A)
      → (test ≡ true → Keeps P held)
      → (test ≡ false → Keeps P otherwise)
      → Keeps P (if test then held else otherwise)
  Keeps-if true held otherwise kh ko = kh refl
  Keeps-if false held otherwise kh ko = ko refl

pub Keeps-attempted :
    {T A : Type 0} {P : T → Type 0} (m : Sql T A) → Keeps P m → Keeps P (attempted m)
unfolding attempted
Keeps-attempted m k = record { at = λ db h. k.at db h }

pub Keeps-exec :
    {T : Type 0} {P : T → Type 0} (f : T → T) → ((t : T) → P t → P (f t)) → Keeps P (exec f)
unfolding exec
Keeps-exec f k = Keeps-statement _ k

module _ {T A B : Type 0} {P : T → Type 0} where
  pub Keeps-bind :
      (first : Sql T A) (next : A → Sql T B)
      → Keeps P first
      → ((a : A) → Keeps P (next a))
      → Keeps P (first >>= next)
  unfolding ◌>>=◌
  Keeps-bind first next kept each = record {
    at = λ db h.
        let (r, db') = first db in
        let kept_here = kept.at db h in
        continue_keeps P r next db' kept_here (λ a _. (each a).at db' kept_here);
  }

module _ {T A : Type 0} {P : T → Type 0} {Q : A → T → Type 0} where
  -- What a method keeps, it also gives.
  pub Keeps-Gives :
      {R : T → Type 0} (m : Sql T A)
      → Keeps R m
      → ((t : T) → P t → R t)
      → ((a : A) (t : T) → R t → Q a t)
      → Gives P m Q
  Keeps-Gives m k w h = record { on_ok = λ db b p e. h b _ (k.at db (w db.tables p)) }

pub Keeps-both :
    {T A : Type 0} {P Q : T → Type 0} (m : Sql T A)
    → Keeps P m
    → Keeps Q m
    → Keeps (λ t. P t × Q t) m
Keeps-both m k l = record { at = λ db h. (k.at db h.0, l.at db h.1) }

pub ruleset keeps_rules = (
  Keeps-pure, Keeps-raise, Keeps-lift, Keeps-or_raise, Keeps-query, Keeps-rollback, Keeps-ignoring,
  Keeps-wrapping, Keeps-attempted, Keeps-if, Keeps-bind,
)
