-- ===== src/Storage/Flags/Laws.antt =====
-- What a client that reads flags by HasFlag sees of AddFlag and RemoveFlag.
use ghostmail.Prelude.{
  List, [], ◌∷◌, ◌++◌, Bool, true, false, ◌&&◌, ◌||◌, not, Bytes, equal, equal_iff, equal_refl, any,
  any-append, if◌then◌else◌, ◌≡◌, refl, ap, inl, inr, arith, Bool-cases, All,
}
use ghostmail.Text.{fields, fields_from, equal_fold, to_lower}
use ghostmail.Text.Words.{IsWord, fields-IsWord, fields-append, fields-join, fields-words}
use ghostmail.Storage.Flags.{has_flag, add_flag, remove_flag, without_flag}

equal_fold_refl : (s : Bytes) → equal_fold s s ≡ true
unfolding equal_fold
equal_fold_refl s = equal_refl (to_lower s)

-- The words after AddFlag: the same, with the flag at the end if none matched it.
fields-add_flag :
    (flags flag : Bytes)
    → IsWord flag
    → fields (add_flag flags flag)
      ≡ (if has_flag flags flag then fields flags else fields flags ++ flag ∷ [])
unfolding add_flag
fields-add_flag [] flag h = unfold has_flag fields fields_from equal in fields-IsWord flag h
fields-add_flag (c ∷ flags) flag h = elim (Bool-cases (has_flag (c ∷ flags) flag)) [
  | inl e ↦ rw e
  | inr e ↦ rw e (unfold equal in fields-append (c ∷ flags) flag h)
]

-- EqualFold is an equivalence, so equal words match the same words.
equal_fold_cong : (f g h : Bytes) → equal_fold f g ≡ true → equal_fold f h ≡ equal_fold g h
unfolding equal_fold
equal_fold_cong f g h e = ap (λ t. equal t (to_lower h)) ((equal_iff _ _).0 e)

equal_fold_cong_right : (f g h : Bytes) → equal_fold f g ≡ true → equal_fold h f ≡ equal_fold h g
unfolding equal_fold
equal_fold_cong_right f g h e = ap (λ t. equal (to_lower h) t) ((equal_iff _ _).0 e)

abbrev matches : Bytes → List Bytes → Bool
matches flag = any (λ f. equal_fold f flag)

matches-cong : (ws : List Bytes) (f g : Bytes) → equal_fold f g ≡ true → matches f ws ≡ matches g ws
matches-cong [] f g e = refl
matches-cong (w ∷ ws) f g e = cc (equal_fold_cong_right f g w e, matches-cong ws f g e)

matches-without_flag :
    (ws : List Bytes) (flag other : Bytes)
    → matches other (without_flag ws flag) ≡ (matches other ws && not (equal_fold flag other))
unfolding without_flag
matches-without_flag [] flag other = refl
matches-without_flag (w ∷ ws) flag other = ground (
  arith,
  matches-without_flag ws flag other,
  equal_fold_cong w flag other,
  equal_fold_cong_right flag other w,
)

without_flag-IsWord :
    (ws : List Bytes) (flag : Bytes) → All IsWord ws → All IsWord (without_flag ws flag)
unfolding without_flag
without_flag-IsWord [] flag h = tt
without_flag-IsWord (w ∷ ws) flag (h, hs) = ground (arith, without_flag-IsWord ws flag hs)

fields-remove_flag :
    (flags flag : Bytes) → fields (remove_flag flags flag) ≡ without_flag (fields flags) flag
unfolding remove_flag
fields-remove_flag flags flag =
    fields-join _ (without_flag-IsWord (fields flags) flag (fields-words flags))

matches_after_add :
    (ws : List Bytes) (flag other : Bytes) (found : Bool)
    → matches flag ws ≡ found
    → matches other (if found then ws else ws ++ flag ∷ [])
      ≡ (matches other ws || equal_fold flag other)
matches_after_add ws flag other true e = ground (arith, matches-cong ws flag other)
matches_after_add ws flag other false e = rw any-append (ground (arith, matches-cong ws flag other))

-- After AddFlag of a word, HasFlag finds that word in any case, and every other flag exactly if it
-- found it before.
has_flag-add_flag :
    (flags flag other : Bytes)
    → IsWord flag
    → has_flag (add_flag flags flag) other ≡ (has_flag flags other || equal_fold flag other)
unfolding has_flag
has_flag-add_flag flags flag other h =
    rw (fields-add_flag flags flag h) (matches_after_add (fields flags) flag other _ refl)

-- After RemoveFlag, HasFlag finds no flag of the same letters, and every other flag exactly if it
-- found it before.
has_flag-remove_flag :
    (flags flag other : Bytes)
    → has_flag (remove_flag flags flag) other
      ≡ (has_flag flags other && not (equal_fold flag other))
unfolding has_flag
has_flag-remove_flag flags flag other =
    rw fields-remove_flag (matches-without_flag (fields flags) flag other)
