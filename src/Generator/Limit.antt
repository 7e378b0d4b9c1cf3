-- ===== src/Generator/Limit.antt =====
-- No history of calls takes a user past the limit of aliases.
use ghostmail.Prelude.{
  ℕ, ◌≤◌, ◌<◌, Bool, Option, none, some, List, [], ◌∷◌, ◌++◌, ◌==◌, ==_iff, reverse, leb, length,
  length-append, Bytes, ◌≡◌, refl, ◌∙◌, arith, Bool-cases, inl, inr,
}
use mathlib.Core.List.{reverse-append}
use ghostmail.Result.{limit_reached}
use ghostmail.Sql.{Db, Sql, exec, pure, ◌>>=◌, ◌>>◌}
use ghostmail.Sql.Gives.{Gives, Gives-query, Gives-bind, Gives-if, Gives-pure, Gives-raise}
use ghostmail.Sql.Keeps.{Keeps, HoldsAfter-guard, Keeps-pure, Keeps-exec, Keeps-bind, keeps_rules}
use ghostmail.Sql.Leads.{Leads, Keeps-bind_gives, Leads-statement, Leads-bind}
use ghostmail.Sql.Rows.{
  count, select, update, order_by, order_by-length, select-length, count-append, count-update,
  count-delete,
}
use ghostmail.Storage.Schema.{Tables, Alias, User}
use ghostmail.Storage.Users.{get_user, get_user_by_id}
use ghostmail.Storage.Aliases.{
  has_alias_id, append_alias, bump_count, deactivated, create_alias, list_aliases, delete_alias,
  deactivate_alias, increment_alias_count, resolve_alias,
}
use ghostmail.Generator.{
  Generator, check_limit, create, generate_custom, validate, resolve_found, resolve_alias_of,
  resolve,
}

abbrev pub belongs_to : ℕ → Alias → Bool
belongs_to user_id a = a.user_id == user_id

reverse-length : {A : Type 0} (xs : List A) → length (reverse xs) ≡ length xs
reverse-length [] = refl
reverse-length (x ∷ xs) =
    rw (reverse-append (x ∷ []) xs)
      (omega (arith, length-append (reverse xs) (x ∷ []), reverse-length xs))

-- The length of what ListAliases returns.
listed-length :
    (user_id : ℕ) (rows : List Alias)
    → length (reverse (order_by (λ a. a.created_at) (select (belongs_to user_id) rows)))
      ≡ count (belongs_to user_id) rows
listed-length user_id rows =
    reverse-length (order_by (λ a. a.created_at) (select (belongs_to user_id) rows))
    ∙ order_by-length _ (select (belongs_to user_id) rows)
    ∙ select-length (belongs_to user_id) rows

module _ (g : Generator) where
  -- No user has more aliases than the limit.
  pub record WithinLimit (t : Tables) : Type 0 where
    pub within : (user_id : ℕ) → count (belongs_to user_id) t.aliases ≤ g.max_per_user

  -- There is room for one more alias of the user.
  abbrev HasRoom : ℕ → Tables → Type 0
  HasRoom user_id t = WithinLimit t × (count (belongs_to user_id) t.aliases < g.max_per_user)

  grown :
      (a b : Alias) (rows : List Alias) (user_id : ℕ)
      → b.user_id ≡ a.user_id
      → ((u : ℕ) → count (belongs_to u) rows ≤ g.max_per_user)
      → count (belongs_to a.user_id) rows < g.max_per_user
      → count (belongs_to user_id) (rows ++ b ∷ []) ≤ g.max_per_user
  unfolding count
  grown a b rows user_id same within room = elim (Bool-cases (a.user_id == user_id)) [
    | inl e ↦
        ground (arith, count-append (belongs_to user_id) rows (b ∷ []), room_of ((==_iff _ _).0 e))
    | inr e ↦ ground (arith, count-append (belongs_to user_id) rows (b ∷ []), within user_id)
  ]
    where
      room_of : a.user_id ≡ user_id → count (belongs_to user_id) rows < g.max_per_user
      room_of e = rw (← e) room

  append_alias-WithinLimit :
      (a : Alias) (now : ℕ) (t : Tables) → HasRoom a.user_id t → WithinLimit (append_alias a now t)
  append_alias-WithinLimit a now t (v, room) = record {
    within = λ user_id. grown a _ t.aliases user_id refl v.within room;
  }

  create_alias-Leads :
      (a : Alias) (now : ℕ) → Leads (HasRoom a.user_id) (create_alias a now) WithinLimit
  unfolding create_alias
  create_alias-Leads a now =
      Leads-statement _ (λ t h. h.0)
        λ t h. let kept = append_alias-WithinLimit a now t h in search (HoldsAfter-guard, kept)

  check_limit-HasRoom :
      (user_id : ℕ) → Gives WithinLimit (check_limit g user_id) (λ _ t. HasRoom user_id t)
  unfolding check_limit list_aliases
  check_limit-HasRoom user_id =
      Gives-bind
        {Q = λ rows t. WithinLimit t × (length rows ≡ count (belongs_to user_id) t.aliases)} _ _
        (Gives-query _ (λ t v. (v, listed-length user_id t.aliases)))
        λ rows.
          Gives-if (leb g.max_per_user (length rows)) _ _ (λ full. Gives-raise limit_reached)
            (λ room. Gives-pure _ (λ t h. (h.0, ground (arith, h.1))))

  check_limit-Keeps : (user_id : ℕ) → Keeps WithinLimit (check_limit g user_id)
  unfolding check_limit list_aliases
  check_limit-Keeps user_id = search keeps_rules

  -- CreateAlias behind the check.
  checked-Keeps :
      {B : Type 0} (a : Alias) (now : ℕ) (f : ℕ → Sql Tables B)
      → ((id : ℕ) → Keeps WithinLimit (f id))
      → Keeps WithinLimit (check_limit g a.user_id >> (create_alias a now >>= f))
  checked-Keeps a now f k =
      Keeps-bind_gives {Q = λ _ t. HasRoom a.user_id t} _ _ (check_limit-Keeps a.user_id)
        (check_limit-HasRoom a.user_id)
        λ u. record { at = λ db h. (Leads-bind _ f (create_alias-Leads a now) k).at db h.1 }

  update-Keeps :
      (q : Alias → Bool) (f : Alias → Alias)
      → ((a : Alias) → (f a).user_id ≡ a.user_id)
      → Keeps WithinLimit (exec (λ t. record t { aliases = update q f t.aliases }))
  update-Keeps q f same = Keeps-exec _ λ t v. record {
    within =
        λ u. rw (count-update (belongs_to u) q f t.aliases (λ a. rw (same a) refl)) (v.within u);
  }

  deactivate_alias-Keeps : (id : ℕ) → Keeps WithinLimit (deactivate_alias id)
  unfolding deactivate_alias
  deactivate_alias-Keeps id = update-Keeps _ deactivated (λ a. refl)

  increment_alias_count-Keeps : (id : ℕ) → Keeps WithinLimit (increment_alias_count id)
  unfolding increment_alias_count
  increment_alias_count-Keeps id = update-Keeps _ bump_count (λ a. refl)

  delete_alias-Keeps : (id : ℕ) → Keeps WithinLimit (delete_alias id)
  unfolding delete_alias
  delete_alias-Keeps id = Keeps-exec _ λ t v. record {
    within =
        λ u. omega (arith, count-delete (belongs_to u) (has_alias_id id) t.aliases, v.within u);
  }

  validate-Keeps : (now : ℕ) (a : Alias) → Keeps WithinLimit (validate now a)
  unfolding validate
  validate-Keeps now a =
      search (keeps_rules, deactivate_alias-Keeps, increment_alias_count-Keeps) depth 10

  resolve_found-Keeps :
      (now : ℕ) (found : Option Alias) → Keeps WithinLimit (resolve_found now found)
  unfolding get_user_by_id
  resolve_found-Keeps now none = Keeps-pure _
  resolve_found-Keeps now (some a) = search (keeps_rules, validate-Keeps) depth 10

  resolve_alias_of-Keeps :
      (now : ℕ) (address : Bytes) (user : Option User)
      → Keeps WithinLimit (resolve_alias_of now address user)
  unfolding resolve_alias
  resolve_alias_of-Keeps now address (some user) = Keeps-pure _
  resolve_alias_of-Keeps now address none = search (keeps_rules, resolve_found-Keeps) depth 10

  resolve-Keeps : (now : ℕ) (address : Bytes) → Keeps WithinLimit (resolve now address)
  unfolding resolve get_user
  resolve-Keeps now address = search (keeps_rules, resolve_alias_of-Keeps) depth 10

  -- A call of the generator, or of DeleteAlias, by which users give aliases back.
  pub data Call : Type 0 where
    creates : ℕ → Bytes → ℕ → Bytes → Bytes → ℕ → ℕ → Call
    customs : ℕ → ℕ → Bytes → Bytes → Bytes → Call
    resolves : ℕ → Bytes → Call
    deletes : ℕ → Call

  pub perform : Call → Sql Tables (Unit {0})
  perform (creates now drawn user_id domain description ttl most) =
      create g now drawn user_id domain description ttl most >> pure tt
  perform (customs now user_id local_part domain description) =
      generate_custom g now user_id local_part domain description >> pure tt
  perform (resolves now address) = resolve now address >> pure tt
  perform (deletes id) = delete_alias id

  perform-Keeps : (c : Call) → Keeps WithinLimit (perform c)
  unfolding perform create generate_custom
  perform-Keeps (creates now drawn user_id domain description ttl most) =
      Keeps-bind _ _ (checked-Keeps _ now _ (λ id. Keeps-pure _)) (λ a. Keeps-pure tt)
  perform-Keeps (customs now user_id local_part domain description) =
      Keeps-bind _ _ (checked-Keeps _ now _ (λ id. Keeps-pure _)) (λ a. Keeps-pure tt)
  perform-Keeps (resolves now address) =
      Keeps-bind _ _ (resolve-Keeps now address) (λ a. Keeps-pure tt)
  perform-Keeps (deletes id) = delete_alias-Keeps id

  -- Calls one after the other; one that fails ends only itself.
  pub run_calls : List Call → Db Tables → Db Tables
  run_calls [] db = db
  run_calls (c ∷ cs) db = run_calls cs (perform c db).1

-- If no user has more aliases than the limit, none has after any sequence of calls that create aliases
-- through the generator, resolve addresses and delete aliases, whichever statements the engine fails.
pub run_calls-WithinLimit :
    (g : Generator) (cs : List (Call g)) (db : Db Tables)
    → WithinLimit g db.tables
    → WithinLimit g (run_calls g cs db).tables
unfolding run_calls
run_calls-WithinLimit g [] db h = h
run_calls-WithinLimit g (c ∷ cs) db h = run_calls-WithinLimit g cs _ ((perform-Keeps g c).at db h)
