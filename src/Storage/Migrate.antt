-- ===== src/Storage/Migrate.antt =====
-- migrate of internal/storage/schema.go, over tables of any kind. A migration's text is what it does to
-- the tables; the table schema_version stands beside them.
pub mod Resumed
use ghostmail.Prelude.{ℕ, zero, suc, Option, none, some, List, [], ◌∷◌, drop, leb, if◌then◌else◌}
use ghostmail.Result.{Result, ok, err}
use ghostmail.Sql.{Sql, pure, statement, query, exec, rollback_on_error, ◌>>=◌, ◌>>◌}

-- The rows of schema_version; `none` before the table is there.
pub record Versioned (T : Type 0) : Type 0 where
  pub versions : Option (List ℕ)
  pub tables : T

abbrev pub or_empty : Option (List ℕ) → Option (List ℕ)
or_empty none = some []
or_empty (some rows) = some rows

-- COALESCE(MAX(version), 0)
abbrev pub greatest : List ℕ → ℕ
greatest [] = 0
greatest (v ∷ vs) = let m = greatest vs in if leb m v then v else m

abbrev pub version_of : Option (List ℕ) → ℕ
version_of none = 0
version_of (some rows) = greatest rows

abbrev pub with_row : ℕ → Option (List ℕ) → Option (List ℕ)
with_row v none = none
with_row v (some rows) = some (v ∷ rows)

module _ {T : Type 0} where
  -- CREATE TABLE IF NOT EXISTS
  abbrev pub with_versions : Versioned T → Versioned T
  with_versions s = record s { versions = or_empty s.versions }

  abbrev pub set_tables : Versioned T → Result T → Result (Unit {0} × Versioned T)
  set_tables s (ok t) = ok (tt, record s { tables = t })
  set_tables s (err e) = err e

  -- One transaction of the loop, at index i.
  unfoldable pub apply_migration : ℕ → (T → Result T) → Sql (Versioned T) (Unit {0})
  apply_migration i migration = rollback_on_error (do
    statement (λ s. set_tables s (migration s.tables))
    exec (λ s. record s { versions = some [] })
    exec (λ s. record s { versions = with_row (suc i) s.versions }))

  unfoldable pub migrate_from : ℕ → List (T → Result T) → Sql (Versioned T) (Unit {0})
  migrate_from i [] = pure tt
  migrate_from i (migration ∷ rest) = do apply_migration i migration; migrate_from (suc i) rest

  unfoldable pub migrate : List (T → Result T) → Sql (Versioned T) (Unit {0})
  migrate migrations = do
    exec with_versions
    version ← query (λ s. version_of s.versions)
    migrate_from version (drop version migrations)
