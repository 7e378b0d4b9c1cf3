-- ===== src/Text/Words.antt =====
-- How strings.Fields splits what strings.Join and the flag functions build.
use ghostmail.Prelude.{
  ℕ, true, false, List, [], ◌∷◌, ◌++◌, append_assoc, append-nil, ◌≡◌, ◌≢◌, refl, ap, ◌∙◌, inl, inr,
  Bytes, codes, Bool-cases, All, All-append,
}
use ghostmail.Text.{is_space, flush, fields_from, fields, join}

-- A text that strings.Fields keeps whole.
abbrev NoSpace : Bytes → Type 0
NoSpace = All (λ c. is_space c ≡ false)

abbrev pub IsWord : Bytes → Type 0
IsWord w = (w ≢ []) × NoSpace w

flush-append : (word : Bytes) (xs ys : List Bytes) → flush word (xs ++ ys) ≡ flush word xs ++ ys
flush-append [] xs ys = refl
flush-append (c ∷ word) xs ys = refl

flush-ne-nil : (w : Bytes) (ws : List Bytes) → w ≢ [] → flush w ws ≡ w ∷ ws
flush-ne-nil [] ws h = absurd (h refl)
flush-ne-nil (c ∷ w) ws h = refl

fields_from-space : (word t : Bytes) → fields_from word (32 ∷ t) ≡ flush word (fields_from [] t)
unfolding fields_from is_space
fields_from-space word t = refl

fields_from-true :
    (word : Bytes) (c : ℕ) (s : Bytes)
    → is_space c ≡ true
    → fields_from word (c ∷ s) ≡ flush word (fields_from [] s)
unfolding fields_from
fields_from-true word c s e = rw (e, fields_from)

fields_from-false :
    (word : Bytes) (c : ℕ) (s : Bytes)
    → is_space c ≡ false
    → fields_from word (c ∷ s) ≡ fields_from (word ++ c ∷ []) s
unfolding fields_from
fields_from-false word c s e = rw (e, fields_from)

-- A space between two texts ends the word before it.
fields_from-append :
    (word s t : Bytes) → fields_from word (s ++ (32 ∷ t)) ≡ fields_from word s ++ fields_from [] t
fields_from-append word [] t =
    fields_from-space word t ∙ unfold fields_from in flush-append word [] (fields_from [] t)
fields_from-append word (c ∷ s) t = elim (Bool-cases (is_space c)) [
  | inl e ↦
      rw (step_true e s, step_true e (s ++ (32 ∷ t)))
        (ap (flush word) (fields_from-append [] s t) ∙ flush-append word _ _)
  | inr e ↦
      rw (step_false e s, step_false e (s ++ (32 ∷ t))) (fields_from-append (word ++ c ∷ []) s t)
]
  where
    step_true :
        is_space c ≡ true → (u : Bytes) → fields_from word (c ∷ u) ≡ flush word (fields_from [] u)
    step_true e u = fields_from-true word c u e

    step_false :
        is_space c ≡ false → (u : Bytes) → fields_from word (c ∷ u) ≡ fields_from (word ++ c ∷ []) u
    step_false e u = fields_from-false word c u e

fields_from-NoSpace : (word s : Bytes) → NoSpace s → fields_from word s ≡ flush (word ++ s) []
unfolding fields_from
fields_from-NoSpace word [] h = rw append-nil
fields_from-NoSpace word (c ∷ s) (h, hs) =
    rw (h, fields_from)
      (fields_from-NoSpace (word ++ c ∷ []) s hs
        ∙ ap (λ w. flush w []) (append_assoc word (c ∷ []) s))

pub fields-IsWord : (w : Bytes) → IsWord w → fields w ≡ w ∷ []
unfolding fields
fields-IsWord w (ne, h) = fields_from-NoSpace [] w h ∙ flush-ne-nil w [] ne

-- Appending a space and a word appends the word.
fields-space : (s t : Bytes) → fields (s ++ (32 ∷ t)) ≡ fields s ++ fields t
unfolding fields
fields-space = fields_from-append []

-- Appending a space and a word appends the word.
pub fields-append : (s w : Bytes) → IsWord w → fields (s ++ (32 ∷ w)) ≡ fields s ++ w ∷ []
fields-append s w h = rw (fields-space, fields-IsWord w h)

-- Words joined by spaces are split into the same words.
pub fields-join : (ws : List Bytes) → All IsWord ws → fields (join ws (codes " ")) ≡ ws
unfolding join
fields-join [] h = unfold fields fields_from in refl
fields-join (w ∷ []) (h, _) = fields-IsWord w h
fields-join (w ∷ v ∷ ws) (h, hs) = rw (fields-space, fields-IsWord w h, fields-join (v ∷ ws) hs)

NoSpace-append_one : (w : Bytes) (c : ℕ) → NoSpace w → is_space c ≡ false → NoSpace (w ++ c ∷ [])
NoSpace-append_one w c h e = All-append (λ d. is_space d ≡ false) w (c ∷ []) h (e, tt)

flush-IsWord : (w : Bytes) (ws : List Bytes) → NoSpace w → All IsWord ws → All IsWord (flush w ws)
flush-IsWord [] ws h hs = hs
flush-IsWord (c ∷ w) ws h hs = ((cc, h), hs)

fields_from-IsWord : (word s : Bytes) → NoSpace word → All IsWord (fields_from word s)
unfolding fields_from
fields_from-IsWord word [] h = flush-IsWord word [] h tt
fields_from-IsWord word (c ∷ s) h = elim (Bool-cases (is_space c)) [
  | inl e ↦ rw (e, fields_from) (flush-IsWord word _ h (fields_from-IsWord [] s tt))
  | inr e ↦
      rw (e, fields_from) (fields_from-IsWord (word ++ c ∷ []) s (NoSpace-append_one word c h e))
]

-- Every part of strings.Fields is a word.
pub fields-words : (s : Bytes) → All IsWord (fields s)
unfolding fields
fields-words s = fields_from-IsWord [] s tt
