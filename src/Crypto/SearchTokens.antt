-- ===== src/Crypto/SearchTokens.antt =====
-- internal/crypto/searchindex.go, over ASCII texts.
use ghostmail.Prelude.{
  ℕ, Bool, true, false, ◌&&◌, ◌||◌, List, [], ◌∷◌, ◌++◌, map, ◌==◌, ltb, leb, equal, any,
  if◌then◌else◌, Bytes, codes, length, ◌≡◌, refl,
}
use ghostmail.Text.{to_lower, trim_space, flush}
use ghostmail.Crypto.Primitives.{Primitives}

pub record SearchToken : Type 0 where
  pub token_hash : Bytes
  pub field : ℕ

abbrev pub in_range : ℕ → ℕ → ℕ → Bool
in_range lo hi c = leb lo c && leb c hi

-- A letter, a digit, '@' or '.'.
unfoldable pub is_term_char : ℕ → Bool
is_term_char c =
    in_range b'a' b'z' c
    || in_range b'A' b'Z' c
    || in_range b'0' b'9' c
    || (c == b'@')
    || (c == b'.')

-- strings.FieldsFunc at the characters that `keep` refuses.
unfoldable pub fields_func : (ℕ → Bool) → Bytes → Bytes → List Bytes
fields_func keep word [] = flush word []
fields_func keep word (c ∷ s) = elim (keep c) [
  | true ↦ fields_func keep (word ++ c ∷ []) s
  | false ↦ flush word (fields_func keep [] s)
]

unfoldable pub normalize : Bytes → Bytes
normalize s = trim_space (to_lower s)

unfoldable pub stop_words : List Bytes
stop_words = map codes (
    "the" ∷ "a" ∷ "an" ∷ "is" ∷ "are" ∷ "was" ∷ "were" ∷ "be" ∷ "been" ∷ "being" ∷ "have" ∷ "has"
    ∷ "had" ∷ "do" ∷ "does" ∷ "did" ∷ "will" ∷ "would" ∷ "could" ∷ "should" ∷ "may" ∷ "might"
    ∷ "shall" ∷ "can" ∷ "to" ∷ "of" ∷ "in" ∷ "for" ∷ "on" ∷ "with" ∷ "at" ∷ "by" ∷ "from" ∷ "as"
    ∷ "it" ∷ "its" ∷ "this" ∷ "that" ∷ "or" ∷ "and" ∷ "but" ∷ "if" ∷ "not" ∷ [])

unfoldable pub is_stop_word : Bytes → Bool
is_stop_word w = any (λ s. equal s w) stop_words

-- A word that the loop passes over, before it looks at `seen`.
unfoldable pub is_skipped : Bytes → Bool
is_skipped w = equal w [] || ltb (length w) 2 || is_stop_word w

-- The loop over the words; `seen` has the terms of the result so far.
unfoldable pub collect_terms : List Bytes → List Bytes → List Bytes
collect_terms seen [] = []
collect_terms seen (w ∷ words) =
    let term = normalize w in
    let new = term ∷ collect_terms (term ∷ seen) words in
    let old = collect_terms seen words in
    if is_skipped term || any (λ s. equal s term) seen then old else new

unfoldable pub tokenize : Bytes → List Bytes
tokenize text = collect_terms [] (fields_func is_term_char [] (to_lower text))

abbrev pub same_token : SearchToken → SearchToken → Bool
same_token a b = equal a.token_hash b.token_hash && (a.field == b.field)

unfoldable pub dedup : List SearchToken → List SearchToken → List SearchToken
dedup seen [] = []
dedup seen (t ∷ tokens) =
    let new = t ∷ dedup (t ∷ seen) tokens in
    let old = dedup seen tokens in if any (same_token t) seen then old else new

module _ (p : Primitives) (search_key : Bytes) where
  unfoldable pub compute_token_hash : Bytes → Bytes
  compute_token_hash term = p.hmac search_key term

  abbrev pub field_tokens : ℕ → Bytes → List SearchToken
  field_tokens field text =
      map (λ term. record { token_hash = compute_token_hash term; field = field }) (tokenize text)

  -- FieldSubject to FieldBody are 0 to 3.
  unfoldable pub generate_search_tokens : Bytes → Bytes → Bytes → Bytes → List SearchToken
  generate_search_tokens subject sender recipient body = dedup [] (
      field_tokens 0 subject
      ++ (field_tokens 1 sender ++ (field_tokens 2 recipient ++ field_tokens 3 body)))

  unfoldable pub compute_search_query : Bytes → Bytes
  compute_search_query term = compute_token_hash (normalize term)

tokenize_test :
    tokenize (codes "The Report, for alice@example.com (a report)")
    ≡ codes "report" ∷ codes "alice@example.com" ∷ []
unfolding tokenize fields_func is_term_char collect_terms normalize is_skipped is_stop_word
    stop_words to_lower trim_space equal
tokenize_test = refl
