-- ===== src/Sql/Leads.antt =====
-- From a property of the tables to another, one rule for each way to build a method.
use ghostmail.Prelude.{◌≡◌, refl}
use ghostmail.Result.{Result, ok, err}
use ghostmail.Sql.Gives.{Gives}
use ghostmail.Sql.{Db, Sql, statement, rollback_on_error, settle, ◌>>=◌}
use ghostmail.Sql.Keeps.{Keeps, continue_keeps, statement_at_keeps, HoldsAfter}

-- From tables that satisfy `P` to tables that satisfy `Q`, whatever the outcome.
pub record Leads {T A : Type 0} (P : T → Type 0) (m : Sql T A) (Q : T → Type 0) : Type 0 where
  pub at : (db : Db T) → P db.tables → Q (m db).1.tables

module _ {T A : Type 0} {P Q : T → Type 0} where
  pub Leads-statement :
      (f : T → Result (A × T))
      → ((t : T) → P t → Q t)
      → ((t : T) → P t → HoldsAfter Q (f t))
      → Leads P (statement f) Q
  unfolding statement
  Leads-statement f w k = record {
    at = λ db h. statement_at_keeps Q db.faults f db (w db.tables h) (k db.tables h);
  }

module _ {T A B : Type 0} {P Q : T → Type 0} where
  pub Leads-bind :
      (m : Sql T A) (f : A → Sql T B)
      → Leads P m Q
      → ((a : A) → Keeps Q (f a))
      → Leads P (m >>= f) Q
  unfolding ◌>>=◌
  Leads-bind m f km kf = record {
    at = λ db h.
        let (r, db') = m db in
        continue_keeps Q r f db' (km.at db h) (λ a _. (kf a).at db' (km.at db h));
  }

module _ {T A B : Type 0} {P : T → Type 0} where
  -- The rest of the method may use what `m` returned.
  pub Keeps-bind_gives :
      {Q : A → T → Type 0} (m : Sql T A) (f : A → Sql T B)
      → Keeps P m
      → Gives P m Q
      → ((a : A) → Leads (λ t. P t × Q a t) (f a) P)
      → Keeps P (m >>= f)
  unfolding ◌>>=◌
  Keeps-bind_gives m f km g kf = record {
    at = λ db h.
        let (r, db') = m db in
        continue_keeps P r f db' (km.at db h) (λ a e. (kf a).at db' (km.at db h, g.on_ok db a h e));
  }

module _ {T A B : Type 0} {P Q : T → Type 0} {R : A → T → Type 0} where
  -- Once `m` has returned, the rest starts from `R`.
  pub Leads-bind_gives :
      (m : Sql T A) (f : A → Sql T B)
      → Leads P m Q
      → Gives P m R
      → ((a : A) → Leads (R a) (f a) Q)
      → Leads P (m >>= f) Q
  unfolding ◌>>=◌
  Leads-bind_gives m f km g kf = record {
    at = λ db h.
        let (r, db') = m db in
        continue_keeps Q r f db' (km.at db h) (λ a e. (kf a).at db' (g.on_ok db a h e));
  }

module _ {T A : Type 0} {P Q : T → Type 0} where
  pub Leads-Keeps : (m : Sql T A) → Keeps P m → ((t : T) → P t → Q t) → Leads P m Q
  Leads-Keeps m k w = record { at = λ db h. w _ (k.at db h) }

  -- A transaction that fails leaves the tables as they were.
  pub Leads-rollback :
      (m : Sql T A)
      → Gives P m (λ _ t. Q t)
      → ((t : T) → P t → Q t)
      → Leads P (rollback_on_error m) Q
  unfolding rollback_on_error
  Leads-rollback m g w = record {
    at = λ db h. let (r, db') = m db in settled r db' db (λ a e. g.on_ok db a h e) (w db.tables h);
  }
    where
      settled :
          (r : Result A) (db' db : Db T)
          → ((a : A) → r ≡ ok a → Q db'.tables)
          → Q db.tables
          → Q (settle db.tables (r, db')).1.tables
      settled (ok a) db' db done undone = done a refl
      settled (err e) db' db done undone = undone

pub Leads-weaken :
    {T A : Type 0} {P Q R : T → Type 0} (m : Sql T A)
    → Leads P m Q
    → ((t : T) → Q t → R t)
    → Leads P m R
Leads-weaken m k w = record { at = λ db h. w _ (k.at db h) }
