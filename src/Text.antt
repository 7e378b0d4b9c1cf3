-- ===== src/Text.antt =====
-- The functions of Go's strings and bytes packages that the code calls, over bytes. Case mapping and
-- white space are those of ASCII.
pub mod Words
pub mod Hex
use ghostmail.Prelude.{
  ℕ, suc, ◌+◌, Bool, true, false, ◌&&◌, ◌||◌, not, Option, none, some, List, [], ◌∷◌, ◌++◌, map,
  reverse, ltb, leb, ◌==◌, equal, if◌then◌else◌, Bytes, codes, ◌≡◌, refl,
}
use mathlib.Core.Option

unfoldable pub lower : ℕ → ℕ
lower c = if leb b'A' c && leb c b'Z' then c + 32 else c

-- strings.ToLower
unfoldable pub to_lower : Bytes → Bytes
unfolding lower
to_lower = map lower

-- strings.EqualFold
unfoldable pub equal_fold : Bytes → Bytes → Bool
unfolding to_lower equal
equal_fold s t = equal (to_lower s) (to_lower t)

-- strings.HasPrefix, bytes.HasPrefix
unfoldable pub has_prefix : Bytes → Bytes → Bool
has_prefix s [] = true
has_prefix [] (d ∷ p) = false
has_prefix (c ∷ s) (d ∷ p) = (c == d) && has_prefix s p

-- strings.HasSuffix
unfoldable pub has_suffix : Bytes → Bytes → Bool
unfolding has_prefix
has_suffix s p = has_prefix (reverse s) (reverse p)

unfoldable pub is_space : ℕ → Bool
is_space c = (leb 9 c && leb c 13) || (c == 32)

unfoldable pub drop_while : (ℕ → Bool) → Bytes → Bytes
drop_while p [] = []
drop_while p (c ∷ s) = if p c then drop_while p s else c ∷ s

-- strings.TrimSpace
unfoldable pub trim_space : Bytes → Bytes
unfolding drop_while is_space
trim_space s = reverse (drop_while is_space (reverse (drop_while is_space s)))

-- strings.TrimRight(s, "\r")
unfoldable pub trim_right_cr : Bytes → Bytes
unfolding drop_while
trim_right_cr s = reverse (drop_while (λ c. c == 13) (reverse s))

-- bytes.Index, strings.Index: where the first occurrence begins.
unfoldable pub index : Bytes → Bytes → Option ℕ
unfolding has_prefix
index [] p = if has_prefix [] p then some 0 else none
index (c ∷ s) p = if has_prefix (c ∷ s) p then some 0 else Option.map suc (index s p)

-- strings.Contains, bytes.Contains
unfoldable pub contains : Bytes → Bytes → Bool
unfolding index
contains s p = elim (index s p) [ none ↦ false | some i ↦ true ]

-- strings.SplitN(s, sep, 2) at a one-byte separator; `none` when it returns a single part.
unfoldable pub split_2 : Bytes → ℕ → Option (Bytes × Bytes)
split_2 [] sep = none
split_2 (c ∷ s) sep =
    if c == sep then some ([], s) else Option.map (λ p. (c ∷ p.0, p.1)) (split_2 s sep)

prepend : ℕ → List Bytes → List Bytes
prepend c [] = (c ∷ []) ∷ []
prepend c (p ∷ ps) = (c ∷ p) ∷ ps

-- strings.Split at a one-byte separator.
unfoldable pub split : Bytes → ℕ → List Bytes
unfolding prepend
split [] sep = [] ∷ []
split (c ∷ s) sep = let parts = split s sep in if c == sep then [] ∷ parts else prepend c parts

-- strings.Join
unfoldable pub join : List Bytes → Bytes → Bytes
join [] sep = []
join (p ∷ []) sep = p
join (p ∷ q ∷ ps) sep = p ++ (sep ++ join (q ∷ ps) sep)

-- A word that a white space ends; no word is empty.
abbrev pub flush : Bytes → List Bytes → List Bytes
flush [] words = words
flush (c ∷ s) words = (c ∷ s) ∷ words

unfoldable pub fields_from : Bytes → Bytes → List Bytes
fields_from word [] = flush word []
fields_from word (c ∷ s) = elim (is_space c) [
  | true ↦ flush word (fields_from [] s)
  | false ↦ fields_from (word ++ c ∷ []) s
]

-- strings.Fields
unfoldable pub fields : Bytes → List Bytes
fields s = fields_from [] s

fields_test : fields (codes " a  bc ") ≡ codes "a" ∷ codes "bc" ∷ []
unfolding fields fields_from is_space
fields_test = refl

trim_test : trim_space (codes "  a b \r\n") ≡ codes "a b"
unfolding trim_space
trim_test = refl

split_test : split (codes "a@@b") b'@' ≡ codes "a" ∷ [] ∷ codes "b" ∷ []
unfolding split
split_test = refl

suffix_test : has_suffix (codes "<a>") (codes ">") ≡ true
unfolding has_suffix
suffix_test = refl
