-- ===== src/Smtp/Message/Split.antt =====
-- Where a message divides into headers and body.
use ghostmail.Prelude.{
  ℕ, zero, suc, ◌+◌, true, Option, none, some, [], ◌∷◌, ◌++◌, Bytes, codes, length, take, drop, ◌≡◌,
  ◌⊎◌, inl, inr, refl, ap, ◌∙◌, arith, Bool-cases,
}
use mathlib.Core.Path.{subst}
use mathlib.Core.Option
use native.Mathlib.Numerals.{unary_clauses}
use ghostmail.Text.{index, has_prefix}
use ghostmail.Smtp.Message.{split_at, split_message}

-- A prefix is where the text begins.
has_prefix-drop : (s p : Bytes) → has_prefix s p ≡ true → p ++ drop (length p) s ≡ s
unfolding has_prefix
has_prefix-drop s [] h = refl
has_prefix-drop [] (d ∷ p) h = ground arith
has_prefix-drop (c ∷ s) (d ∷ p) h = grind (arith, has_prefix-drop s p)

drop-drop : (i n : ℕ) (s : Bytes) → drop (i + n) s ≡ drop n (drop i s)
drop-drop zero n s = ap (λ k. drop k s) (omega arith)
drop-drop (suc i) zero [] = simp unary_clauses
drop-drop (suc i) (suc n) [] = simp unary_clauses
drop-drop (suc i) n (c ∷ s) =
    let shifted : suc i + n ≡ suc (i + n) = omega arith in
    ap (λ k. drop k (c ∷ s)) shifted ∙ drop-drop i n s

-- The text around the first occurrence, if there is one.
abbrev Splits : Bytes → Bytes → Option ℕ → Type 0
Splits s p none = Unit {0}
Splits s p (some i) = take i s ++ (p ++ drop (length p) (drop i s)) ≡ s

shift-Splits :
    (c : ℕ) (s p : Bytes) (o : Option ℕ) → Splits s p o → Splits (c ∷ s) p (Option.map suc o)
shift-Splits c s p none h = tt
shift-Splits c s p (some i) h = ap (λ l. c ∷ l) h

index-Splits : (s p : Bytes) → Splits s p (index s p)
unfolding index
index-Splits [] p = elim (Bool-cases (has_prefix [] p)) [
  | inl h ↦ rw h (has_prefix-drop [] p h)
  | inr h ↦ rw h tt
]
index-Splits (c ∷ s) p = elim (Bool-cases (has_prefix (c ∷ s) p)) [
  | inl h ↦ rw h (has_prefix-drop (c ∷ s) p h)
  | inr h ↦ rw h (shift-Splits c s p (index s p) (index-Splits s p))
]

-- A text and the two parts that it is divided into.
abbrev pub Divides : Bytes → Bytes × Bytes → Type 0
Divides text (headers, body) =
    (headers ++ (codes "\r\n\r\n" ++ body) ≡ text)
    ⊎ ((headers ++ (codes "\n\n" ++ body) ≡ text) × (index text (codes "\r\n\r\n") ≡ none))
    ⊎ ((headers ≡ text)
        × (body ≡ [])
        × (index text (codes "\r\n\r\n") ≡ none)
        × (index text (codes "\n\n") ≡ none))

found_splits :
    (s p : Bytes) (i : ℕ) → index s p ≡ some i → take i s ++ (p ++ drop (i + length p) s) ≡ s
found_splits s p i e = rw drop-drop (subst (Splits s p) e (index-Splits s p))

Divides-split_at :
    (text : Bytes) (crlf lf : Option ℕ)
    → index text (codes "\r\n\r\n") ≡ crlf
    → index text (codes "\n\n") ≡ lf
    → Divides text (split_at text crlf lf)
Divides-split_at text (some i) lf e e' = inl (found_splits text (codes "\r\n\r\n") i e)
Divides-split_at text none (some i) e e' = inr (inl (found_splits text (codes "\n\n") i e', e))
Divides-split_at text none none e e' = inr (inr (refl, refl, e, e'))

-- The headers and the body are the whole text but the blank line between them: a CRLF CRLF, or else
-- an LF LF, where the text has no CRLF CRLF, or else all of the text is headers.
pub split_message-Divides : (text : Bytes) → Divides text (split_message text)
unfolding split_message
split_message-Divides text = Divides-split_at text _ _ refl refl
