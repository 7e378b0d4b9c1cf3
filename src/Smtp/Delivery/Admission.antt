-- ===== src/Smtp/Delivery/Admission.antt =====
-- The checks of deliverMessage on an alias.
use ghostmail.Prelude.{
  Option, none, ◌*◌, ◌≤◌, ◌<◌, ltb, leb, Option-cases, inl, inr, ℕ, Bool, true, false, some, Bytes,
  not, ◌≡◌, refl, ◌∙◌, arith, ◌==◌,
}
use ghostmail.Result.{ok}
use ghostmail.Sql.{Db}
use ghostmail.Sql.Gives.{
  Gives, Gives-raise, Gives-query, Gives-or_raise, Gives-bind, Gives-wrapping, Gives-if, Gives-from,
}
use ghostmail.Sql.Keeps.{Keeps, Keeps-exec, Keeps-Gives, Keeps-ignoring}
use ghostmail.Sql.Rows.{find}
use ghostmail.Storage.Schema.{second, Tables, User, Alias}
use ghostmail.Storage.Users.{get_user_by_id}
use ghostmail.Storage.Aliases.{has_address, resolve_alias, increment_alias_count}
use ghostmail.Smtp.Delivery.{has_expired, is_used_up, admit_alias, resolve_by_alias}

not-false : (b : Bool) → not b ≡ false → b ≡ true
not-false true e = refl
not-false false e = ground arith

-- At `now`, in nanoseconds, a moment in seconds has not passed.
abbrev NotPast : ℕ → Option ℕ → Type 0
NotPast now none = Unit {0}
NotPast now (some t) = now ≤ t * 1000000000

-- A count that a limit allows to grow.
abbrev Below : ℕ → Option ℕ → Type 0
Below n none = Unit {0}
Below n (some limit) = n < limit

has_expired-NotPast : (now : ℕ) (a : Alias) → has_expired now a ≡ false → NotPast now a.expires_at
unfolding has_expired
has_expired-NotPast now a e = elim (Option-cases a.expires_at) [
  | inl never ↦ rw never tt
  | inr (t, at) ↦ rw at (later t (rw at at e))
]
  where
    later : (t : ℕ) → ltb (t * second) now ≡ false → now ≤ t * 1000000000
    later t e = ground arith

is_used_up-Below : (a : Alias) → is_used_up a ≡ false → Below a.message_count a.max_messages
unfolding is_used_up
is_used_up-Below a e = elim (Option-cases a.max_messages) [
  | inl unlimited ↦ rw unlimited tt
  | inr (n, limit) ↦ rw limit (below n (rw limit at e))
]
  where
    below : (n : ℕ) → leb n a.message_count ≡ false → a.message_count < n
    below n e = ground arith

-- In the tables `t` the alias of that address is one that takes mail at the time `now`.
pub record Admits (now : ℕ) (address : Bytes) (t : Tables) (a : Alias) : Type 0 where
  pub found : find (has_address address) t.aliases ≡ some a
  pub active : a.is_active ≡ true
  pub unexpired : NotPast now a.expires_at
  pub unused : Below a.message_count a.max_messages

module _ (now : ℕ) (address : Bytes) (t : Tables) where
  -- The users are those of `t`.
  abbrev SameUsers : Tables → Type 0
  SameUsers u = u.users ≡ t.users

  increment-SameUsers : (id : ℕ) → Keeps SameUsers (increment_alias_count id)
  unfolding increment_alias_count
  increment-SameUsers id = Keeps-exec _ (λ u h. h)

  admit_alias-Admits :
      (a : Alias)
      → find (has_address address) t.aliases ≡ some a
      → Gives (λ u. u ≡ t) (admit_alias now a) (λ _ u. Admits now address t a × SameUsers u)
  unfolding admit_alias
  admit_alias-Admits a h =
      Gives-if _ _ _ (λ e. Gives-raise _)
        λ active.
          Gives-if _ _ _ (λ e. Gives-raise _)
            λ unexpired.
              Gives-if _ _ _
                (λ e.
                  Gives-bind {Q = λ _ _. Unit {0}} _ _ (record { on_ok = λ db b p e. tt })
                    (λ u. Gives-raise _))
                λ unused.
                  Keeps-Gives {R = SameUsers} _ (Keeps-ignoring _ _ (increment-SameUsers a.id))
                    (λ u e. rw e refl)
                    (λ _ u same. (
                      record {
                        found = h;
                        active = not-false _ active;
                        unexpired = has_expired-NotPast now a unexpired;
                        unused = is_used_up-Below a unused;
                      },
                      same,
                    ))

  resolve_by_alias-Gives :
      Gives
        (λ u. u ≡ t)
        (resolve_by_alias now address)
        (λ user _.
          (a : Alias) × Admits now address t a
          × (find (λ (u : User). u.id == a.user_id) t.users ≡ some user))
  unfolding resolve_by_alias resolve_alias get_user_by_id
  resolve_by_alias-Gives =
      Gives-bind {Q = λ o u. (u ≡ t) × (find (has_address address) t.aliases ≡ o)} _ _
        (Gives-query _ (λ u e. (e, rw e refl)))
        λ o.
          Gives-bind {Q = λ a u. (u ≡ t) × (find (has_address address) t.aliases ≡ some a)} _ _
            (Gives-or_raise _ _ (λ u a e h. (h.0, h.1 ∙ e)))
            λ a.
              Gives-from {R = λ u. u ≡ t} _ (λ u h. (h.1, h.0))
                λ found.
                  Gives-bind {Q = λ _ u. Admits now address t a × SameUsers u} _ _
                    (admit_alias-Admits a found)
                    λ _.
                      Gives-from {R = SameUsers} _ (λ u h. h)
                        λ admits.
                          Gives-bind {Q = λ o u. find (λ (v : User). v.id == a.user_id) t.users ≡ o}
                            _ _ (Gives-wrapping _ _ (Gives-query _ (λ u same. rw same refl)))
                            λ o. Gives-or_raise _ _ (λ u user e h. (a, admits, h ∙ e))

-- If the SMTP server's look-up by alias at the time `now` returns a user, whatever statements the engine fails, the
-- tables it started from have an alias of that address that is active, that had not expired and whose
-- message limit was not reached, and the user is the first with the id that the alias names.
pub resolve_by_alias-Admits :
    (now : ℕ) (address : Bytes) (db : Db Tables) (user : User)
    → (resolve_by_alias now address db).0 ≡ ok user
    → (a : Alias) × Admits now address db.tables a
      × (find (λ (u : User). u.id == a.user_id) db.tables.users ≡ some user)
resolve_by_alias-Admits now address db user e =
    (resolve_by_alias-Gives now address db.tables).on_ok db user refl e
