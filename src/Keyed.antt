-- ===== src/Keyed.antt =====
-- Go maps from texts: pairs of a key and a value, one for each key.
use ghostmail.Prelude.{
  Bool, false, Option, none, some, List, [], ◌∷◌, equal, equal_refl, equal_sound, Bytes,
  if◌then◌else◌, ◌≡◌, refl, ◌∙◌, Bool-cases, inl, inr, All, sym,
}

module _ {ℓ} {V : Type ℓ} where
  -- m[key]
  unfoldable pub get : Bytes → List (Bytes × V) → Option V
  get key [] = none
  get key ((k, v) ∷ rest) = let other = get key rest in if equal k key then some v else other

  -- The entries that `dropped` names leave the map; `for key, v := range m { if … delete(m, key) }`.
  unfoldable pub without : (Bytes → V → Bool) → List (Bytes × V) → List (Bytes × V)
  without dropped [] = []
  without dropped ((k, v) ∷ rest) =
      let others = without dropped rest in if dropped k v then others else (k, v) ∷ others

  -- delete(m, key)
  abbrev pub remove : Bytes → List (Bytes × V) → List (Bytes × V)
  remove key = without (λ k v. equal k key)

  -- m[key] = v
  unfoldable pub put : Bytes → V → List (Bytes × V) → List (Bytes × V)
  put key v entries = (key, v) ∷ remove key entries

  -- The value of a key that the test passes over.
  abbrev pub unless_dropped : (V → Bool) → Option V → Option V
  unless_dropped dropped none = none
  unless_dropped dropped (some v) = if dropped v then none else some v

  pub get-remove : (key : Bytes) (entries : List (Bytes × V)) → get key (remove key entries) ≡ none
  unfolding get without
  get-remove key [] = refl
  get-remove key ((k, v) ∷ rest) = elim (Bool-cases (equal k key)) [
    | inl e ↦ rw e (get-remove key rest)
    | inr e ↦ rw (e, get) (rw e (get-remove key rest))
  ]

  pub get-remove_other :
      (key other : Bytes) (entries : List (Bytes × V))
      → equal other key ≡ false
      → get key (remove other entries) ≡ get key entries
  unfolding get without
  get-remove_other key other [] e = refl
  get-remove_other key other ((k, v) ∷ rest) e = elim (Bool-cases (equal k other)) [
    | inl gone ↦ rw gone (
        get-remove_other key other rest e
        ∙ (let same = equal_sound k other gone in rw (same, e) refl))
    | inr stays ↦ rw stays (elim (Bool-cases (equal k key)) [
      | inl hit ↦ rw hit refl
      | inr miss ↦ rw miss (get-remove_other key other rest e)
    ])
  ]

  pub get-put :
      (key : Bytes) (v : V) (entries : List (Bytes × V)) → get key (put key v entries) ≡ some v
  unfolding get put
  get-put key v entries = rw (equal_refl key) refl

  pub get-put_other :
      (key other : Bytes) (v : V) (entries : List (Bytes × V))
      → equal other key ≡ false
      → get key (put other v entries) ≡ get key entries
  unfolding get put
  get-put_other key other v entries e = rw e (get-remove_other key other entries e)

module _ {ℓ} {V : Type ℓ} where
  abbrev IsOther : Bytes → Bytes × V → Type 0
  IsOther key e = equal e.0 key ≡ false

  -- One entry for each key.
  abbrev pub IsMap : List (Bytes × V) → Type 0
  IsMap [] = Unit {0}
  IsMap ((k, v) ∷ rest) = All (IsOther k) rest × IsMap rest

  get-IsOther :
      (key : Bytes) (entries : List (Bytes × V))
      → All (IsOther key) entries
      → get key entries ≡ none
  unfolding get
  get-IsOther key [] h = refl
  get-IsOther key ((k, v) ∷ rest) (e, h) = rw e (get-IsOther key rest h)

  without-All :
      (P : Bytes × V → Type 0) (dropped : Bytes → V → Bool) (entries : List (Bytes × V))
      → All P entries
      → All P (without dropped entries)
  unfolding without
  without-All P dropped [] h = tt
  without-All P dropped ((k, v) ∷ rest) (e, h) = elim (Bool-cases (dropped k v)) [
    | inl gone ↦ rw gone (without-All P dropped rest h)
    | inr stays ↦ rw stays (e, without-All P dropped rest h)
  ]

  pub without-IsMap :
      (dropped : Bytes → V → Bool) (entries : List (Bytes × V))
      → IsMap entries
      → IsMap (without dropped entries)
  unfolding without
  without-IsMap dropped [] h = tt
  without-IsMap dropped ((k, v) ∷ rest) (e, h) = elim (Bool-cases (dropped k v)) [
    | inl gone ↦ rw gone (without-IsMap dropped rest h)
    | inr stays ↦ rw stays (without-All (IsOther k) dropped rest e, without-IsMap dropped rest h)
  ]

  remove-IsOther :
      (key : Bytes) (entries : List (Bytes × V)) → All (IsOther key) (remove key entries)
  unfolding without
  remove-IsOther key [] = tt
  remove-IsOther key ((k, v) ∷ rest) = elim (Bool-cases (equal k key)) [
    | inl gone ↦ rw gone (remove-IsOther key rest)
    | inr stays ↦ rw stays (stays, remove-IsOther key rest)
  ]

  pub put-IsMap :
      (key : Bytes) (v : V) (entries : List (Bytes × V)) → IsMap entries → IsMap (put key v entries)
  unfolding put
  put-IsMap key v entries h = (remove-IsOther key entries, without-IsMap _ entries h)

  -- In a map, an entry that stays is found as before, and one that was dropped is not found.
  pub get-without :
      (dropped : Bytes → V → Bool) (key : Bytes) (entries : List (Bytes × V))
      → IsMap entries
      → get key (without dropped entries) ≡ unless_dropped (dropped key) (get key entries)
  unfolding get without
  get-without dropped key [] h = refl
  get-without dropped key ((k, v) ∷ rest) (e, h) =
      let ih = get-without dropped key rest h in
      elim (Bool-cases (equal k key)) [
        | inr miss ↦ elim (Bool-cases (dropped k v)) [
          | inl gone ↦ rw (gone, miss) ih
          | inr stays ↦ rw (stays, miss) ih
        ]
        | inl hit ↦
            let same = equal_sound k key hit in
            elim (Bool-cases (dropped k v)) [
              | inl gone ↦
                  rw (gone, hit)
                    (get-IsOther key (without dropped rest)
                        (without-All (IsOther key) dropped rest (rw same at e))
                      ∙ sym (rw (← same, gone) refl))
              | inr stays ↦ rw (stays, hit) (rw (← same, stays) refl)
            ]
      ]
