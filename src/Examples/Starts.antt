-- ===== src/Examples/Starts.antt =====
-- The theorem on migrate, with two migrations that add a column each.
use ghostmail.Prelude.{ℕ, true, false, none, List, [], ◌∷◌, ◌≡◌, refl}
use ghostmail.Result.{Result, ok}
use ghostmail.Sql.{healthy}
use ghostmail.Storage.Migrate.{Versioned, migrate}
use ghostmail.Storage.Migrate.Resumed.{apply_all, restarts, migrate_resumes}

abbrev two_columns : List (List ℕ → Result (List ℕ))
two_columns = (λ t. ok (1 ∷ t)) ∷ (λ t. ok (2 ∷ t)) ∷ []

-- The first start fails in the second migration, the second start in its first statement.
migrate_resumes_example :
    (s : Versioned (List ℕ)) × (migrate two_columns (
        healthy
          (restarts two_columns 2 (record {
            tables = record { versions = none; tables = [] };
            faults = false ∷ false ∷ false ∷ false ∷ false ∷ false ∷ true ∷ true ∷ [];
          })).1.tables)
      ≡ (ok tt, healthy s))
    × (s.tables ≡ 2 ∷ 1 ∷ [])
unfolding apply_all
migrate_resumes_example =
    migrate_resumes two_columns [] (2 ∷ 1 ∷ []) 2
      (false ∷ false ∷ false ∷ false ∷ false ∷ false ∷ true ∷ true ∷ []) refl
