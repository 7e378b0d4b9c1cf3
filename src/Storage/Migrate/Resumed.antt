-- ===== src/Storage/Migrate/Resumed.antt =====
-- Starts of the server that fail in between leave what a later start goes on from.
use ghostmail.Prelude.{
  ℕ, zero, suc, Option, none, some, List, [], ◌∷◌, Bool, drop, ◌≡◌, refl, arith,
}
use ghostmail.Result.{Result, ok, err}
use ghostmail.Sql.{
  Db, Sql, healthy, pure, statement, query, exec, rollback_on_error, ignoring, ◌>>=◌, ◌>>◌,
}
use ghostmail.Sql.Gives.{
  Gives, Gives-bind, Gives-statement, Gives-exec, Gives-query, Gives-rollback, Gives-weaken,
  ReturnsIn,
}
use ghostmail.Sql.Keeps.{Keeps, Keeps-exec, Keeps-pure, Keeps-bind, Keeps-ignoring, Keeps-query}
use ghostmail.Sql.Leads.{Keeps-bind_gives, Leads, Leads-bind_gives, Leads-Keeps, Leads-rollback}
use ghostmail.Storage.Migrate.{
  Versioned, or_empty, version_of, with_row, with_versions, set_tables, apply_migration,
  migrate_from, migrate,
}

module _ {T : Type 0} where
  -- The migrations of a list, each once and in order.
  unfoldable pub apply_all : List (T → Result T) → T → Result T
  apply_all [] t = ok t
  apply_all (m ∷ ms) t = elim (m t) [ ok t' ↦ apply_all ms t' | err e ↦ err e ]

  -- The server is started `starts` times; what a failed start reports is dropped.
  unfoldable pub restarts : List (T → Result T) → ℕ → Sql (Versioned T) (Unit {0})
  restarts ms zero = pure tt
  restarts ms (suc starts) = do ignoring tt (migrate ms); restarts ms starts

  drop-suc :
      (i : ℕ) (ms : List (T → Result T)) (m : T → Result T) (rest : List (T → Result T))
      → drop i ms ≡ m ∷ rest
      → drop (suc i) ms ≡ rest
  drop-suc zero [] m rest e = absurd cc
  drop-suc zero (x ∷ ms) m rest e = cc
  drop-suc (suc i) [] m rest e = absurd cc
  drop-suc (suc i) (x ∷ ms) m rest e = drop-suc i ms m rest e

  module _ (ms : List (T → Result T)) (final : T) where
    -- Before index i of the loop: what is left leads to the final tables.
    pub record At (i : ℕ) (rest : List (T → Result T)) (s : Versioned T) : Type 0 where
      pub version : version_of s.versions ≡ i
      pub left : drop i ms ≡ rest
      pub leads : apply_all rest s.tables ≡ ok final

    pub record IsResumable (s : Versioned T) : Type 0 where
      pub index : ℕ
      pub at : At index (drop index ms) s

    At-IsResumable :
        (i : ℕ) (rest : List (T → Result T)) (s : Versioned T) → At i rest s → IsResumable s
    At-IsResumable i rest s h = record {
      index = i;
      at = record { version = h.version; left = refl; leads = rw h.left h.leads };
    }

    -- The tables are those of the next index already; its row is not there yet.
    abbrev Applied : ℕ → List (T → Result T) → Versioned T → Type 0
    Applied i rest s = (drop (suc i) ms ≡ rest) × (apply_all rest s.tables ≡ ok final)

    set_tables-Applied :
        (i : ℕ) (m : T → Result T) (rest : List (T → Result T)) (s : Versioned T) (r : Result T)
        → m s.tables ≡ r
        → At i (m ∷ rest) s
        → ReturnsIn (λ (u : Unit {0}) s'. Applied i rest s') (set_tables s r)
    unfolding apply_all
    set_tables-Applied i m rest s (ok t) e h = (drop-suc i ms m rest h.left, rw e at h.leads)
    set_tables-Applied i m rest s (err x) e h = tt

    abbrev Cleared : ℕ → List (T → Result T) → Versioned T → Type 0
    Cleared i rest s = (s.versions ≡ some []) × Applied i rest s

    -- The statements of one transaction.
    transaction-At :
        (i : ℕ) (m : T → Result T) (rest : List (T → Result T))
        → Gives
            (At i (m ∷ rest))
            (statement (λ s. set_tables s (m s.tables))
              >> (exec (λ s. record s { versions = some [] })
                  >> exec (λ s. record s { versions = with_row (suc i) s.versions })))
            (λ _ s. At (suc i) rest s)
    transaction-At i m rest =
        Gives-bind {Q = λ _ s. Applied i rest s} _ _
          (Gives-statement _ (λ s h. set_tables-Applied i m rest s (m s.tables) refl h))
          λ _. Gives-bind {Q = λ _ s. Cleared i rest s} _ _ (Gives-exec _ (λ s h. (refl, h))) λ _.
            Gives-exec _ (λ s h. record { version = counted s h.0; left = h.1.0; leads = h.1.1 })
      where
        counted :
            (s : Versioned T)
            → s.versions ≡ some []
            → version_of (with_row (suc i) s.versions) ≡ suc i
        counted s e = rw e (ground arith)

    apply_migration-At :
        (i : ℕ) (m : T → Result T) (rest : List (T → Result T))
        → Gives (At i (m ∷ rest)) (apply_migration i m) (λ _ s. At (suc i) rest s)
    unfolding apply_migration
    apply_migration-At i m rest = Gives-rollback _ (transaction-At i m rest)

    apply_migration-Leads :
        (i : ℕ) (m : T → Result T) (rest : List (T → Result T))
        → Leads (At i (m ∷ rest)) (apply_migration i m) IsResumable
    unfolding apply_migration
    apply_migration-Leads i m rest =
        Leads-rollback _
          (Gives-weaken _ (transaction-At i m rest) (λ _ s h. At-IsResumable (suc i) rest s h))
          (λ s h. At-IsResumable i (m ∷ rest) s h)

    migrate_from-Leads :
        (rest : List (T → Result T)) (i : ℕ) → Leads (At i rest) (migrate_from i rest) IsResumable
    unfolding migrate_from
    migrate_from-Leads [] i = Leads-Keeps _ (Keeps-pure _) (λ s h. At-IsResumable i [] s h)
    migrate_from-Leads (m ∷ rest) i =
        Leads-bind_gives _ _ (apply_migration-Leads i m rest) (apply_migration-At i m rest)
          (λ _. migrate_from-Leads rest (suc i))

    with_versions-IsResumable : (s : Versioned T) → IsResumable s → IsResumable (with_versions s)
    with_versions-IsResumable s h = record {
      index = h.index;
      at = record { version = kept s.versions h.at.version; left = refl; leads = h.at.leads };
    }
      where
        kept : (v : Option (List ℕ)) → version_of v ≡ h.index → version_of (or_empty v) ≡ h.index
        kept none e = e
        kept (some rows) e = e

    migrate-IsResumable : Keeps IsResumable (migrate ms)
    unfolding migrate
    migrate-IsResumable = Keeps-bind _ _ (Keeps-exec _ with_versions-IsResumable) λ _.
        Keeps-bind_gives {Q = λ v s. At v (drop v ms) s} _ _ (Keeps-query _)
          (Gives-query _
            (λ s h. record { version = refl; left = refl; leads = rw h.at.version h.at.leads }))
          λ v. record { at = λ db h. (migrate_from-Leads (drop v ms) v).at db h.1 }

    restarts-IsResumable : (starts : ℕ) → Keeps IsResumable (restarts ms starts)
    unfolding restarts
    restarts-IsResumable zero = Keeps-pure _
    restarts-IsResumable (suc starts) =
        Keeps-bind _ _ (Keeps-ignoring _ _ migrate-IsResumable) λ _. restarts-IsResumable starts

    abbrev Finishes : Result (Unit {0}) × Db (Versioned T) → Type 0
    Finishes r = (s : Versioned T) × (r ≡ (ok tt, healthy s)) × (s.tables ≡ final)

    apply_migration-healthy :
        (i : ℕ) (m : T → Result T) (s : Versioned T) (t : T)
        → m s.tables ≡ ok t
        → apply_migration i m (healthy s)
          ≡ (ok tt, healthy (record { versions = some (suc i ∷ []); tables = t }))
    unfolding apply_migration rollback_on_error statement exec ◌>>=◌
    apply_migration-healthy i m s t e = rw e refl

    migrate_from-healthy :
        (rest : List (T → Result T)) (i : ℕ) (s : Versioned T)
        → apply_all rest s.tables ≡ ok final
        → Finishes (migrate_from i rest (healthy s))
    unfolding migrate_from apply_all pure ◌>>=◌
    migrate_from-healthy [] i s h = (s, refl, cc)
    migrate_from-healthy (m ∷ rest) i s h =
        next (m s.tables) refl (λ s' e. migrate_from-healthy rest (suc i) s' e)
      where
        next :
            (r : Result T)
            → m s.tables ≡ r
            → ((s' : Versioned T)
                → apply_all rest s'.tables ≡ ok final
                → Finishes (migrate_from (suc i) rest (healthy s')))
            → Finishes (migrate_from i (m ∷ rest) (healthy s))
        next (ok t) e k = rw (apply_migration-healthy i m s t e) (k _ (rw e at h))
        next (err x) e k = absurd (let h' = rw e at h in cc)

    migrate-healthy : (s : Versioned T) → IsResumable s → Finishes (migrate ms (healthy s))
    unfolding migrate exec query statement ◌>>=◌
    migrate-healthy s h =
        migrate_from-healthy _ _ _ (rw (counted s.versions) (rw h.at.version h.at.leads))
      where
        counted : (v : Option (List ℕ)) → version_of (or_empty v) ≡ version_of v
        counted none = refl
        counted (some rows) = refl

-- However often the server was started before and whichever statements the engine failed then, a start
-- on an engine that fails nothing returns without an error and leaves the tables that all the
-- migrations, each once and in order, make of the first ones, if none of them fails there.
pub migrate_resumes :
    {T : Type 0} (ms : List (T → Result T)) (first final : T) (starts : ℕ) (faults : List Bool)
    → apply_all ms first ≡ ok final
    → (s : Versioned T) × (migrate ms (
          healthy
            (restarts ms starts (record {
              tables = record { versions = none; tables = first };
              faults = faults;
            })).1.tables)
        ≡ (ok tt, healthy s))
      × (s.tables ≡ final)
migrate_resumes ms first final starts faults all = migrate-healthy ms final _ (
    (restarts-IsResumable ms final starts).at _
      (record { index = 0; at = record { version = refl; left = refl; leads = all } }))
