-- ===== src/Imap/Client/Moved.antt =====
-- The sequence numbers of MOVE tell the client the truth.
use ghostmail.Prelude.{
  ℕ, suc, ◌+◌, ◌<◌, ◌^◌, Bool, true, false, some, List, [], ◌∷◌, ◌++◌, map, ◌==◌, leb, length,
  if◌then◌else◌, All, All-map, ◌≡◌, refl, ap, ◌∙◌, arith, Bool-cases, inl, inr,
}
use ghostmail.Result.{ok}
use ghostmail.Sql.{pure, or_raise, Db}
use ghostmail.Sql.Gives.{Gives, Gives-pure, Gives-query, Gives-bind}
use ghostmail.Storage.Schema.{Tables, Mailbox, Message}
use ghostmail.Storage.Messages.{list_messages}
use ghostmail.Imap.Session.{Session, u32}
use ghostmail.Imap.Fetch.{NumSet, in_set, resolve_from, resolve_num_set}
use ghostmail.Imap.Moving.{insert_descending, descending, remove_each, expunge_source}
use ghostmail.Imap.Entries.{descending-All}
use ghostmail.Imap.Client.{
  view, expunge_one, apply_expunges, apply_expunges-append, apply_expunges-cons,
}

-- The messages that a set does not name, from position i on.
pub unnamed_from : NumSet → ℕ → List Message → List Message
unnamed_from set i [] = []
unnamed_from set i (m ∷ msgs) =
    let rest = unnamed_from set (suc i) msgs in if in_set set (i + 1) m then rest else m ∷ rest

abbrev numbers_of : List (ℕ × Message) → List ℕ
numbers_of = map (λ e. e.0)

insert_descending-last :
    (x : ℕ × Message) (es : List (ℕ × Message))
    → All (λ e. x.0 < e.0) es
    → insert_descending x es ≡ es ++ x ∷ []
unfolding insert_descending
insert_descending-last x [] h = refl
insert_descending-last x (e ∷ es) (h, hs) =
    rw (earlier h) (ap (λ l. e ∷ l) (insert_descending-last x es hs))
  where
    earlier : x.0 < e.0 → leb e.0 x.0 ≡ false
    earlier k = ground arith

u32-small : (n : ℕ) → n < 2 ^ 32 → u32 n ≡ n
u32-small n h = omega arith

-- Entries from position i on have numbers past i.
resolve_from-past :
    (set : NumSet) (i : ℕ) (msgs : List Message)
    → i + length msgs < 2 ^ 32
    → All (λ e. i < e.0) (resolve_from set i msgs)
unfolding resolve_from
resolve_from-past set i [] h = tt
resolve_from-past set i (m ∷ msgs) h =
    let rest =
      All-map (λ e. suc i < e.0) (λ e. i < e.0) (resolve_from set (suc i) msgs) (λ e k. omega arith)
        (resolve_from-past set (suc i) msgs (omega arith)) in
    elim (Bool-cases (in_set set (u32 (i + 1)) m)) [
      | inl t ↦ rw t (omega arith, rest)
      | inr f ↦ rw f rest
    ]

map-numbers-All :
    (k : ℕ) (es : List (ℕ × Message)) → All (λ e. k < e.0) es → All (λ n. k < n) (numbers_of es)
map-numbers-All k [] h = tt
map-numbers-All k (e ∷ es) (h, hs) = (h, map-numbers-All k es hs)

map-append_one :
    (es : List (ℕ × Message)) (x : ℕ × Message)
    → numbers_of (es ++ x ∷ []) ≡ numbers_of es ++ x.0 ∷ []
map-append_one [] x = refl
map-append_one (e ∷ es) x = ap (λ l. e.0 ∷ l) (map-append_one es x)

drop_first :
    (i : ℕ) (m : Message) (msgs : List Message) → apply_expunges i ((i + 1) ∷ []) (m ∷ msgs) ≡ msgs
unfolding apply_expunges expunge_one
drop_first i m msgs = rw (same i) refl
  where
    same : (n : ℕ) → (n + 1 == n + 1) ≡ true
    same n = ground arith

client_sees :
    (set : NumSet) (i : ℕ) (msgs : List Message)
    → i + length msgs < 2 ^ 32
    → apply_expunges i (numbers_of (descending (resolve_from set i msgs))) msgs
      ≡ unnamed_from set i msgs
unfolding unnamed_from resolve_from descending
client_sees set i [] h = unfold apply_expunges in refl
client_sees set i (m ∷ msgs) h =
    let later =
      descending-All (λ e. suc i < e.0) _ (resolve_from-past set (suc i) msgs (omega arith)) in
    let passed = map-numbers-All (suc i) (descending (resolve_from set (suc i) msgs)) later in
    let kept =
      apply_expunges-cons i (numbers_of (descending (resolve_from set (suc i) msgs))) m msgs
        (All-map (λ n. suc i < n) (λ n. i + 1 < n) _ (λ n k. omega arith) passed) in
    let ih = client_sees set (suc i) msgs (omega arith) in
    rw (u32-small (i + 1) (omega arith)) (elim (Bool-cases (in_set set (i + 1) m)) [
      | inl t ↦ rw t (
          rw
            (insert_descending-last (i + 1, m) (descending (resolve_from set (suc i) msgs))
              (All-map (λ e. suc i < e.0) (λ e. i + 1 < e.0) _ (λ e k. omega arith) later))
            (rw (map-append_one (descending (resolve_from set (suc i) msgs)) (i + 1, m)) (
              apply_expunges-append i _ ((i + 1) ∷ []) (m ∷ msgs)
              ∙ ap (apply_expunges i ((i + 1) ∷ [])) (kept ∙ ap (λ l. m ∷ l) ih)
              ∙ drop_first i m (unnamed_from set (suc i) msgs))))
      | inr f ↦ rw f (kept ∙ ap (λ l. m ∷ l) ih)
    ])

remove_each-numbers :
    (writes : ℕ → Bool) (es : List (ℕ × Message))
    → Gives (λ _. Unit {0}) (remove_each writes es) (λ numbers _. numbers ≡ numbers_of es)
unfolding remove_each
remove_each-numbers writes [] = Gives-pure _ (λ t _. refl)
remove_each-numbers writes (e ∷ es) =
    Gives-bind {Q = λ _ _. Unit {0}} _ _ (record { on_ok = λ db b p q. tt })
      λ _.
        Gives-bind {Q = λ _ _. Unit {0}} _ _ (record { on_ok = λ db b p q. tt })
          λ _.
            Gives-bind {Q = λ numbers _. numbers ≡ numbers_of es} _ _
              (remove_each-numbers writes es) λ numbers. Gives-pure _ (λ t h. ap (λ l. e.0 ∷ l) h)

module _ (s : Session) (set : NumSet) (writes : ℕ → Bool) (mb : Mailbox) (t : Tables) where
  abbrev Told : List ℕ → Type 0
  Told numbers = numbers ≡ numbers_of (descending (resolve_num_set (view mb.id t) set))

  expunge_source-Told :
      s.selected_mailbox ≡ some mb
      → Gives (λ u. u ≡ t) (expunge_source s set writes) (λ numbers _. Told numbers)
  unfolding expunge_source list_messages or_raise pure
  expunge_source-Told e = rw e (
      Gives-bind {Q = λ b u. (b ≡ mb) × (u ≡ t)} _ _ (Gives-pure mb (λ u h. (refl, h))) λ b.
        Gives-bind {Q = λ msgs _. msgs ≡ view mb.id t} _ _
          (Gives-query _ (λ u h. rw (h.0, h.1) refl))
          λ msgs. record {
            on_ok = λ db numbers same r.
                (remove_each-numbers writes (descending (resolve_num_set msgs set))).on_ok db
                  numbers tt r
                ∙ ap (λ l. numbers_of (descending (resolve_num_set l set))) same;
          })

-- If the second half of MOVE succeeds, whatever statements the engine fails, a client that removes the
-- messages at the numbers it is sent keeps exactly those of its mailbox that the set does not name, in
-- their order, as long as the mailbox has fewer than 2 ^ 32 messages.
pub expunge_source-client :
    (s : Session) (set : NumSet) (writes : ℕ → Bool) (mb : Mailbox) (db : Db Tables)
    (numbers : List ℕ)
    → s.selected_mailbox ≡ some mb
    → length (view mb.id db.tables) < 2 ^ 32
    → (expunge_source s set writes db).0 ≡ ok numbers
    → apply_expunges 0 numbers (view mb.id db.tables) ≡ unnamed_from set 0 (view mb.id db.tables)
unfolding resolve_num_set
expunge_source-client s set writes mb db numbers selected small e =
    let told = (expunge_source-Told s set writes mb db.tables selected).on_ok db numbers refl e in
    ap (λ ns. apply_expunges 0 ns (view mb.id db.tables)) told
    ∙ client_sees set 0 (view mb.id db.tables) (omega arith)
