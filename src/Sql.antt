-- ===== src/Sql.antt =====
-- database/sql as internal/storage uses it: statements over some tables, run one after the other.
-- The engine may fail any statement; which ones is the list `faults`, an input of every run.
pub mod Rows
pub mod Gives
pub mod Keeps
pub mod Leads
pub mod Members
pub mod Distinct
use ghostmail.Prelude.{Bool, true, false, Option, none, some, List, [], ◌∷◌, ◌≡◌, refl}
use ghostmail.Result.{Error, engine, Result, ok, err}

-- `true` in `faults` fails the statement whose turn it is; past the end of the list none fails.
pub record Db (T : Type 0) : Type 0 where
  pub tables : T
  pub faults : List Bool

abbrev pub Sql : Type 0 → Type 0 → Type 0
Sql T A = Db T → Result A × Db T

module _ {T A : Type 0} where
  unfoldable pub pure : A → Sql T A
  pure a db = (ok a, db)

  unfoldable pub raise : Error → Sql T A
  raise e db = (err e, db)

  -- A computation outside the store.
  unfoldable pub lift : Result A → Sql T A
  lift r db = (r, db)

  -- A row that must be there.
  unfoldable pub or_raise : Error → Option A → Sql T A
  or_raise e none = raise e
  or_raise e (some a) = pure a

  abbrev pub attempt : Result (A × T) → Db T → Result A × Db T
  attempt (ok (a, t)) db = (ok a, record db { tables = t })
  attempt (err e) db = (err e, db)

  abbrev pub statement_at : List Bool → (T → Result (A × T)) → Db T → Result A × Db T
  statement_at [] f db = attempt (f db.tables) db
  statement_at (true ∷ rest) f db = (err engine, record db { faults = rest })
  statement_at (false ∷ rest) f db = attempt (f db.tables) (record db { faults = rest })

  -- One statement: a function of the tables, unless the engine fails it.
  unfoldable pub statement : (T → Result (A × T)) → Sql T A
  statement f db = statement_at db.faults f db

  -- A query changes no table.
  unfoldable pub query : (T → A) → Sql T A
  query f = statement (λ t. ok (f t, t))

  abbrev pub settle : T → Result A × Db T → Result A × Db T
  settle t (ok a, db) = (ok a, db)
  settle t (err e, db) = (err e, record db { tables = t })

  -- tx := db.Begin(), the statements and tx.Commit(): the rollback restores the tables.
  unfoldable pub rollback_on_error : Sql T A → Sql T A
  rollback_on_error m db = settle db.tables (m db)

  -- The caller drops the error: what was done stays done.
  abbrev pub or_else : A → Result A × Db T → Result A × Db T
  or_else a (ok b, db) = (ok b, db)
  or_else a (err e, db) = (ok a, db)

  unfoldable pub ignoring : A → Sql T A → Sql T A
  ignoring a m db = or_else a (m db)

  -- A Go caller that turns any error into one of its own.
  abbrev pub blame : Error → Result A × Db T → Result A × Db T
  blame e (ok a, db) = (ok a, db)
  blame e (err e', db) = (err e, db)

  unfoldable pub wrapping : Error → Sql T A → Sql T A
  wrapping e m db = blame e (m db)

-- The caller looks at the error.
unfoldable pub attempted : {T A : Type 0} → Sql T A → Sql T (Result A)
attempted m db = let (r, db') = m db in (ok r, db')

-- An UPDATE, INSERT or DELETE that breaks no constraint and whose result is not read.
unfoldable pub exec : {T : Type 0} → (T → T) → Sql T (Unit {0})
exec f = statement (λ t. ok (tt, f t))

module _ {T A B : Type 0} where
  abbrev pub continue : Result A → (A → Sql T B) → Sql T B
  continue (ok a) f db = f a db
  continue (err e) f db = (err e, db)

  infixl 5 ◌>>=◌ ◌>>◌
  unfoldable pub ◌>>=◌ : Sql T A → (A → Sql T B) → Sql T B
  ◌>>=◌ m f db = let (r, db') = m db in continue r f db'

  abbrev pub ◌>>◌ : Sql T A → Sql T B → Sql T B
  m >> n = m >>= λ _. n

-- The tables with an engine that fails no statement.
abbrev pub healthy : {T : Type 0} → T → Db T
healthy t = record { tables = t; faults = [] }
