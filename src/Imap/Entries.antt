-- ===== src/Imap/Entries.antt =====
-- The lists of numbered messages that the commands of internal/imap/fetch.go go through keep what
-- holds of every message.
use ghostmail.Prelude.{
  ℕ, suc, ◌+◌, leb, List, [], ◌∷◌, reverse, All, All-append, Bool-cases, inl, inr,
}
use mathlib.Core.List.{reverse-append}
use ghostmail.Storage.Schema.{Message}
use ghostmail.Imap.Session.{u32}
use ghostmail.Imap.Fetch.{NumSet, in_set, resolve_from}
use ghostmail.Imap.Moving.{positions_from, insert_descending, descending}

pub reverse-All :
    (P : ℕ × Message → Type 0) (es : List (ℕ × Message)) → All P es → All P (reverse es)
reverse-All P [] h = tt
reverse-All P (e ∷ es) (h, hs) =
    rw (reverse-append (e ∷ []) es)
      (All-append P (reverse es) (e ∷ []) (reverse-All P es hs) (h, tt))

pub positions-All :
    (P : Message → Type 0) (i : ℕ) (msgs : List Message)
    → All P msgs
    → All (λ e. P e.1) (positions_from i msgs)
unfolding positions_from
positions-All P i [] h = tt
positions-All P i (m ∷ msgs) (h, hs) = (h, positions-All P (suc i) msgs hs)

insert_descending-All :
    (P : ℕ × Message → Type 0) (x : ℕ × Message) (es : List (ℕ × Message))
    → P x
    → All P es
    → All P (insert_descending x es)
unfolding insert_descending
insert_descending-All P x [] h hs = (h, tt)
insert_descending-All P x (e ∷ es) h (k, hs) = elim (Bool-cases (leb e.0 x.0)) [
  | inl t ↦ rw t (h, (k, hs))
  | inr f ↦ rw f (k, insert_descending-All P x es h hs)
]

pub descending-All :
    (P : ℕ × Message → Type 0) (es : List (ℕ × Message)) → All P es → All P (descending es)
unfolding descending
descending-All P [] h = tt
descending-All P (e ∷ es) (h, hs) =
    insert_descending-All P e (descending es) h (descending-All P es hs)

pub resolve_from-All :
    (P : Message → Type 0) (set : NumSet) (i : ℕ) (msgs : List Message)
    → All P msgs
    → All (λ e. P e.1) (resolve_from set i msgs)
unfolding resolve_from
resolve_from-All P set i [] h = tt
resolve_from-All P set i (x ∷ msgs) (h, hs) =
    let rest = resolve_from-All P set (suc i) msgs hs in
    elim (Bool-cases (in_set set (u32 (i + 1)) x)) [ inl e ↦ rw e (h, rest) | inr e ↦ rw e rest ]
