-- ===== src/Imap/Client/Expunged.antt =====
-- The sequence numbers of EXPUNGE leave a client with messages that are gone.
use ghostmail.Prelude.{
  ◌⊎◌, ℕ, suc, ◌+◌, ◌-◌, ◌*◌, ◌≤◌, ◌<◌, ◌^◌, Bool, true, false, ◌&&◌, none, some, List, [], ◌∷◌,
  ◌++◌, reverse, ltb, leb, length, if◌then◌else◌, All, ◌≡◌, refl, ap, ◌∙◌, arith, Bool-cases, inl,
  inr,
}
use mathlib.Core.List.{reverse-append}
use mathlib.Core.Path.{subst}
use ghostmail.Result.{ok}
use ghostmail.Sql.{Db, pure, or_raise}
use ghostmail.Sql.Gives.{Gives, Gives-pure, Gives-query, Gives-bind}
use ghostmail.Sql.Rows.{count}
use ghostmail.Storage.Schema.{Tables, Mailbox, Message}
use ghostmail.Storage.Messages.{list_messages}
use ghostmail.Imap.Session.{Session}
use ghostmail.Imap.Moving.{is_deleted, expunge_number, positions_from, expunge_each, expunge}
use ghostmail.Imap.Entries.{reverse-All, positions-All}
use ghostmail.Imap.Client.{view, apply_expunges, apply_expunges-length}

-- The numbers that are written for entries that all go.
numbers_from : ℕ → List (ℕ × Message) → List ℕ
numbers_from deleted [] = []
numbers_from deleted (e ∷ es) = expunge_number e.0 deleted ∷ numbers_from (suc deleted) es

-- The entries go down from below `hi` to `lo`.
abbrev GoesDown : ℕ → ℕ → List (ℕ × Message) → Type 0
GoesDown hi lo [] = hi ≡ lo
GoesDown hi lo (e ∷ es) = (hi ≡ suc e.0) × GoesDown e.0 lo es

GoesDown-append :
    (hi mid lo : ℕ) (es fs : List (ℕ × Message))
    → GoesDown hi mid es
    → GoesDown mid lo fs
    → GoesDown hi lo (es ++ fs)
GoesDown-append hi mid lo [] fs h k = rw h k
GoesDown-append hi mid lo (e ∷ es) fs (h, hs) k = (h, GoesDown-append e.0 mid lo es fs hs k)

positions-GoesDown :
    (i : ℕ) (msgs : List Message) → GoesDown (i + length msgs) i (reverse (positions_from i msgs))
unfolding positions_from
positions-GoesDown i [] = omega arith
positions-GoesDown i (m ∷ msgs) = rw (reverse-append ((i, m) ∷ []) (positions_from (suc i) msgs)) (
    GoesDown-append _ (suc i) i (reverse (positions_from (suc i) msgs)) ((i, m) ∷ [])
      (rw (shift i (length msgs)) (positions-GoesDown (suc i) msgs)) (refl, refl))
  where
    shift : (a b : ℕ) → a + suc b ≡ suc a + b
    shift a b = omega arith

all_positions-GoesDown :
    (msgs : List Message) → GoesDown (length msgs) 0 (reverse (positions_from 0 msgs))
all_positions-GoesDown msgs =
    subst (λ k. GoesDown k 0 (reverse (positions_from 0 msgs))) (from_zero (length msgs))
      (positions-GoesDown 0 msgs)
  where
    from_zero : (n : ℕ) → 0 + n ≡ n
    from_zero n = omega arith

one_at_most : (b : Bool) → (if b then 1 else 0) ≤ 1
one_at_most b = ground arith

past_deleted :
    (i deleted top : ℕ)
    → i < deleted
    → i + deleted < top
    → top < 2 ^ 31
    → (expunge_number i deleted ≡ 0) ⊎ (top < expunge_number i deleted)
past_deleted i deleted top h k small = omega arith

out_of_range : (n top : ℕ) → (n ≡ 0) ⊎ (top < n) → (ltb 0 n && leb n top) ≡ false
out_of_range n top h = ground arith

-- Only about half of the numbers lie in the range of the list.
numbers-in_range :
    (top hi deleted : ℕ) (es : List (ℕ × Message))
    → hi ≤ top
    → hi + deleted ≤ top
    → top < 2 ^ 31
    → GoesDown hi 0 es
    → 2 * count (λ n. ltb 0 n && leb n top) (numbers_from deleted es) ≤ hi - deleted + 1
unfolding numbers_from count
numbers-in_range top hi deleted [] h k small g = omega arith
numbers-in_range top hi deleted (e ∷ es) h k small (g, gs) =
    let ih = numbers-in_range top e.0 (suc deleted) es (omega arith) (omega arith) small gs in
    elim (Bool-cases (leb deleted e.0)) [
      | inl t ↦ omega (arith, one_at_most _, reached t)
      | inr f ↦
          rw
            (out_of_range (expunge_number e.0 deleted) top
              (past_deleted e.0 deleted top (passed f) (omega arith) small))
            (omega (arith, passed f))
    ]
  where
    reached : leb deleted e.0 ≡ true → deleted ≤ e.0
    reached t = ground arith

    passed : leb deleted e.0 ≡ false → e.0 < deleted
    passed f = ground arith

expunge_each-numbers :
    (writes : ℕ → Bool) (deleted : ℕ) (es : List (ℕ × Message))
    → All (λ e. is_deleted e.1 ≡ true) es
    → Gives
        (λ _. Unit {0})
        (expunge_each none writes deleted es)
        (λ numbers _. numbers ≡ numbers_from deleted es)
unfolding expunge_each numbers_from
expunge_each-numbers writes deleted [] h = Gives-pure _ (λ t _. refl)
expunge_each-numbers writes deleted (e ∷ es) (h, hs) =
    rw (h, expunge_each)
      (Gives-bind {Q = λ _ _. Unit {0}} _ _ (record { on_ok = λ db b p q. tt })
        λ _.
          Gives-bind {Q = λ _ _. Unit {0}} _ _ (record { on_ok = λ db b p q. tt })
            λ _.
              Gives-bind {Q = λ numbers _. numbers ≡ numbers_from (suc deleted) es} _ _
                (expunge_each-numbers writes (suc deleted) es hs)
                λ numbers. Gives-pure _ (λ t k. ap (λ l. expunge_number e.0 deleted ∷ l) k))

expunge-numbers :
    (s : Session) (writes : ℕ → Bool) (mb : Mailbox) (t : Tables)
    → s.selected_mailbox ≡ some mb
    → All (λ m. is_deleted m ≡ true) (view mb.id t)
    → Gives
        (λ u. u ≡ t)
        (expunge s none writes)
        (λ numbers _. numbers ≡ numbers_from 0 (reverse (positions_from 0 (view mb.id t))))
unfolding expunge list_messages or_raise pure
expunge-numbers s writes mb t e gone = rw e (
    Gives-bind {Q = λ b u. (b ≡ mb) × (u ≡ t)} _ _ (Gives-pure mb (λ u h. (refl, h))) λ b.
      Gives-bind {Q = λ msgs _. msgs ≡ view mb.id t} _ _ (Gives-query _ (λ u h. rw (h.0, h.1) refl))
        λ msgs. record {
          on_ok = λ db numbers same r.
              (expunge_each-numbers writes 0 _
                  (reverse-All _ _ (positions-All _ 0 msgs (rw same gone)))).on_ok
                db numbers tt r
              ∙ ap (λ l. numbers_from 0 (reverse (positions_from 0 l))) same;
        })

-- If EXPUNGE of a mailbox in which every message has \Deleted succeeds, a client that removes the
-- messages at the numbers it is sent keeps at least (n - 1) / 2 of n messages, if there are fewer than
-- 2 ^ 31.
pub expunge-client_keeps :
    (s : Session) (writes : ℕ → Bool) (mb : Mailbox) (db : Db Tables) (numbers : List ℕ)
    → s.selected_mailbox ≡ some mb
    → All (λ m. is_deleted m ≡ true) (view mb.id db.tables)
    → length (view mb.id db.tables) < 2 ^ 31
    → (expunge s none writes db).0 ≡ ok numbers
    → length (view mb.id db.tables)
      ≤ 2 * length (apply_expunges 0 numbers (view mb.id db.tables)) + 1
expunge-client_keeps s writes mb db numbers selected gone small e =
    let told = (expunge-numbers s writes mb db.tables selected gone).on_ok db numbers refl e in
    let msgs = view mb.id db.tables in
    let going = reverse (positions_from 0 msgs) in
    let few =
      numbers-in_range (length msgs) (length msgs) 0 going (omega arith) (omega arith) small
        (all_positions-GoesDown msgs) in
    let bound = apply_expunges-length (numbers_from 0 going) (length msgs) msgs (omega arith) in
    rw told (omega arith)
