-- ===== src/Crypto/SafeMem/Comparison.antt =====
-- ConstantTimeEqual decides equality of byte strings.
use ghostmail.Prelude.{
  ℕ, zero, suc, ◌<◌, Bool, true, false, ◌&&◌, Bytes, [], ◌∷◌, ◌==◌, ==_iff, ltb, not, equal,
  equal_sound, length, All, ◌≡◌, refl, ap, ◌∙◌, arith, Bool-cases, inl, inr,
}
use Prim.Native.Nat.{bit_or, bit_xor}
use ghostmail.Crypto.SafeMem.{differences, constant_time_equal}

abbrev pub IsByte : ℕ → Type 0
IsByte c = c < 256

-- The test holds of every pair of bytes: read off by evaluation.
column_holds : (ℕ → Bool) → ℕ → Bool
column_holds test zero = true
column_holds test (suc top) = column_holds test top && test top

table_holds : (ℕ → ℕ → Bool) → Bool
table_holds test = column_holds (λ c. column_holds (test c) 256) 256

column_holds-at :
    (test : ℕ → Bool) (top c : ℕ) → c < top → column_holds test top ≡ true → test c ≡ true
unfolding column_holds
column_holds-at test zero c below e = absurd (omega arith)
column_holds-at test (suc top) c below e = elim (Bool-cases (c == top)) [
  | inl last ↦ rw ((==_iff c top).0 last) (ground arith)
  | inr earlier ↦ column_holds-at test top c (ground arith) (ground arith)
]

table_holds-at :
    (test : ℕ → ℕ → Bool) (c d : ℕ)
    → IsByte c
    → IsByte d
    → table_holds test ≡ true
    → test c d ≡ true
unfolding table_holds
table_holds-at test c d hc hd e = column_holds-at _ 256 d hd (column_holds-at _ 256 c hc e)

-- Two tests with one outcome.
abbrev agree : Bool → Bool → Bool
agree true q = q
agree false q = not q

agree_eq : (p q : Bool) → agree p q ≡ true → p ≡ q
agree_eq true q e = ground arith
agree_eq false q e = ground arith

xor_right : ℕ → ℕ → Bool
xor_right c d = ltb (bit_xor c d) 256 && agree (bit_xor c d == 0) (c == d)

or_right : ℕ → ℕ → Bool
or_right r x = ltb (bit_or r x) 256 && agree (bit_or r x == 0) ((r == 0) && (x == 0))

xor_table : table_holds xor_right ≡ true
unfolding table_holds column_holds xor_right
xor_table = refl

or_table : table_holds or_right ≡ true
unfolding table_holds column_holds or_right
or_table = refl

xor-zero : (c d : ℕ) → IsByte c → IsByte d → IsByte (bit_xor c d) × ((bit_xor c d == 0) ≡ (c == d))
unfolding xor_right
xor-zero c d hc hd =
    let entry = table_holds-at xor_right c d hc hd xor_table in
    (ground arith, agree_eq _ _ (ground arith))

or-zero :
    (r x : ℕ)
    → IsByte r
    → IsByte x
    → IsByte (bit_or r x) × ((bit_or r x == 0) ≡ ((r == 0) && (x == 0)))
unfolding or_right
or-zero r x hr hx =
    let entry = table_holds-at or_right r x hr hx or_table in
    (ground arith, agree_eq _ _ (ground arith))

differences-zero :
    (r : ℕ) (a b : Bytes)
    → IsByte r
    → All IsByte a
    → All IsByte b
    → length a ≡ length b
    → (differences r a b == 0) ≡ ((r == 0) && equal a b)
unfolding differences equal
differences-zero r [] [] hr ha hb e = ground arith
differences-zero r [] (d ∷ b) hr ha hb e = absurd (omega arith)
differences-zero r (c ∷ a) [] hr ha hb e = absurd (omega arith)
differences-zero r (c ∷ a) (d ∷ b) hr (hc, ha) (hd, hb) e =
    let (small, same) = xor-zero c d hc hd in
    let (fits, joined) = or-zero r (bit_xor c d) hr small in
    differences-zero (bit_or r (bit_xor c d)) a b fits ha hb (omega arith)
    ∙ rw (joined, same) (ground arith)

-- On byte strings ConstantTimeEqual is equality.
pub constant_time_equal-equal :
    (a b : Bytes) → All IsByte a → All IsByte b → constant_time_equal a b ≡ equal a b
unfolding constant_time_equal
constant_time_equal-equal a b ha hb = elim (Bool-cases (length a == length b)) [
  | inl e ↦ rw e (differences-zero 0 a b (omega arith) ha hb ((==_iff _ _).0 e))
  | inr e ↦ rw e (unequal (equal a b) refl e)
]
  where
    unequal : (q : Bool) → equal a b ≡ q → (length a == length b) ≡ false → false ≡ q
    unequal true h e = let same = ap length (equal_sound a b h) in ground arith
    unequal false h e = refl
