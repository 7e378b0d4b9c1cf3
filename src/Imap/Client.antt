-- ===== src/Imap/Client.antt =====
-- What a client makes of the sequence numbers of EXPUNGE responses: RFC 3501 has it remove the message
-- at each number from its list, one after the other.
pub mod Moved
pub mod Expunged
use ghostmail.Prelude.{
  ℕ, suc, ◌+◌, ◌≤◌, ◌<◌, Bool, true, false, ◌&&◌, List, [], ◌∷◌, ◌++◌, ◌==◌, ltb, leb, length,
  if◌then◌else◌, All, ◌≡◌, refl, ap, ◌∙◌, arith, Bool-cases, inl, inr,
}
use ghostmail.Sql.Rows.{select, order_by, count}
use ghostmail.Storage.Schema.{Tables, Message}
use ghostmail.Storage.Mailboxes.{in_mailbox}

-- The messages of a mailbox in the order of their sequence numbers.
abbrev pub view : ℕ → Tables → List Message
view mailbox_id t = order_by (λ m. m.uid) (select (in_mailbox mailbox_id) t.messages)

module _ {A : Type 0} where
  -- The client's list begins after sequence number `before`.
  unfoldable pub expunge_one : ℕ → ℕ → List A → List A
  expunge_one before n [] = []
  expunge_one before n (x ∷ xs) =
      let rest = expunge_one (suc before) n xs in if n == before + 1 then xs else x ∷ rest

  unfoldable pub apply_expunges : ℕ → List ℕ → List A → List A
  apply_expunges before [] xs = xs
  apply_expunges before (n ∷ ns) xs = apply_expunges before ns (expunge_one before n xs)

  pub apply_expunges-append :
      (before : ℕ) (ns ks : List ℕ) (xs : List A)
      → apply_expunges before (ns ++ ks) xs ≡ apply_expunges before ks (apply_expunges before ns xs)
  unfolding apply_expunges
  apply_expunges-append before [] ks xs = refl
  apply_expunges-append before (n ∷ ns) ks xs =
      apply_expunges-append before ns ks (expunge_one before n xs)

  -- Numbers past the first leave the first message.
  pub apply_expunges-cons :
      (before : ℕ) (ns : List ℕ) (x : A) (xs : List A)
      → All (λ n. before + 1 < n) ns
      → apply_expunges before ns (x ∷ xs) ≡ x ∷ apply_expunges (suc before) ns xs
  unfolding apply_expunges expunge_one
  apply_expunges-cons before [] x xs h = refl
  apply_expunges-cons before (n ∷ ns) x xs (h, hs) =
      rw (differs h) (apply_expunges-cons before ns x (expunge_one (suc before) n xs) hs)
    where
      differs : before + 1 < n → (n == before + 1) ≡ false
      differs k = ground arith

  expunge_one-length :
      (before n top : ℕ) (xs : List A)
      → before + length xs ≤ top
      → length xs ≤ length (expunge_one before n xs) + (if ltb 0 n && leb n top then 1 else 0)
  unfolding expunge_one
  expunge_one-length before n top [] h = omega arith
  expunge_one-length before n top (x ∷ xs) h =
      ground (arith, expunge_one-length (suc before) n top xs)

  expunge_one-short : (before n : ℕ) (xs : List A) → length (expunge_one before n xs) ≤ length xs
  unfolding expunge_one
  expunge_one-short before n [] = omega arith
  expunge_one-short before n (x ∷ xs) = ground (arith, expunge_one-short (suc before) n xs)

  -- No more messages go than there are numbers in the range of the list.
  pub apply_expunges-length :
      (ns : List ℕ) (top : ℕ) (xs : List A)
      → length xs ≤ top
      → length xs ≤ length (apply_expunges 0 ns xs) + count (λ n. ltb 0 n && leb n top) ns
  unfolding apply_expunges count
  apply_expunges-length [] top xs h = omega arith
  apply_expunges-length (n ∷ ns) top xs h = omega (
    arith,
    expunge_one-length 0 n top xs (omega arith),
    apply_expunges-length ns top (expunge_one 0 n xs) (omega (arith, expunge_one-short 0 n xs)),
  )
