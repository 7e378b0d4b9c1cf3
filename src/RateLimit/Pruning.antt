-- ===== src/RateLimit/Pruning.antt =====
-- Whether the rounds of cleanupLoop change any answer of a limiter.
use ghostmail.Prelude.{
  if_both, ℕ, ◌+◌, ◌-◌, ◌*◌, ◌≤◌, ◌<◌, ◌^◌, Bool, true, false, Option, none, some, List, [], ◌∷◌,
  ltb, equal, equal_sound, if◌then◌else◌, Bytes, ◌≡◌, refl, sym, ap, ◌∙◌, arith, Bool-cases, inl,
  inr,
}
use ghostmail.Keyed.{
  get, put, unless_dropped, IsMap, put-IsMap, without-IsMap, get-put, get-put_other, get-without,
}
use ghostmail.RateLimit.{
  Float, Bucket, Limiter, IsExact, minute, earned, capped, bucket_or_new, refilled, spend, kept,
  allow, prune, new,
}

-- A request of a key, or a round of cleanupLoop, at a time.
pub data Step : Type 0 where
  asks : Bytes → ℕ → Step
  cleans : ℕ → Step

abbrev time_of : Step → ℕ
time_of (asks key now) = now
time_of (cleans now) = now

-- The clock does not go back.
abbrev Ascends : ℕ → List Step → Type 0
Ascends last [] = Unit {0}
Ascends last (s ∷ ss) = (last ≤ time_of s) × Ascends (time_of s) ss

-- The same requests, and no rounds.
pub requests_only : List Step → List Step
requests_only [] = []
requests_only (asks key now ∷ ss) = asks key now ∷ requests_only ss
requests_only (cleans now ∷ ss) = requests_only ss

module _ (f : Float) where
  -- The answers to the requests, in their order.
  pub answers : List Step → Limiter f → List Bool
  answers [] l = []
  answers (asks key now ∷ ss) l = let (allowed, l') = allow f key now l in allowed ∷ answers ss l'
  answers (cleans now ∷ ss) l = answers ss (prune f now l)

  -- A sum of what is left and of what more than ten minutes bring exceeds the burst, and what is left
  -- is never negative.
  pub record Refills (l : Limiter f) : Type 0 where
    pub full : f.at_least (f.of_int l.burst) (f.of_int 0) ≡ true
    pub grows :
        (v : f.Value) (e : ℕ)
        → f.at_least v (f.of_int 0) ≡ true
        → f.at_least (f.add v (earned f l e)) (f.of_int 0) ≡ true
    pub spends :
        (v : f.Value)
        → f.at_least v (f.of_int 1) ≡ true
        → f.at_least (f.sub v (f.of_int 1)) (f.of_int 0) ≡ true
    pub fills :
        (v : f.Value) (e : ℕ)
        → f.at_least v (f.of_int 0) ≡ true
        → 10 * minute < e
        → f.exceeds (f.add v (earned f l e)) (f.of_int l.burst) ≡ true

  abbrev IsWhole : Option (Bucket f) → Type 0
  IsWhole none = Unit {0}
  IsWhole (some b) = f.at_least b.tokens (f.of_int 0) ≡ true

  -- One limiter's bucket of a key, and the other's, which no round has dropped.
  abbrev Matches : ℕ → Option (Bucket f) → Option (Bucket f) → Type 0
  Matches now o none = o ≡ none
  Matches now none (some b) = b.last_check + 10 * minute < now
  Matches now (some a) (some b) = a ≡ b

module _ (f : Float) (exact : IsExact f) (l : Limiter f) (refills : Refills f l)
    (timed : 0 < l.interval) (rated : l.rate ≤ 2 ^ 53) (small : l.burst ≤ 2 ^ 53) where
  abbrev Buckets : Type 0
  Buckets = List (Bytes × Bucket f)

  abbrev holding : Buckets → Limiter f
  holding bs = record l { buckets = bs }

  record Agrees (now : ℕ) (bs cs : Buckets) : Type 0 where
    pruned : IsMap bs
    matching : (key : Bytes) → Matches f now (get key bs) (get key cs)
    whole : (key : Bytes) → IsWhole f (get key cs)

  -- A bucket that is new and one that was not asked for in ten minutes are as full as each other.
  refilled-new : (now : ℕ) → refilled f l now (bucket_or_new f l now none) ≡ f.of_int l.burst
  unfolding refilled earned
  refilled-new now =
      let none_left : now - now ≡ 0 = omega arith in
      rw (none_left, earned, exact.no_time, exact.div-none l.interval timed)
        (rw (exact.mul-none l.rate rated) (
          rw (exact.add-none l.burst small) (
            rw (exact.exceeds-ltb l.burst l.burst small small)
              (let even : ltb l.burst l.burst ≡ false = ground arith in rw even refl))))

  refilled-stale :
      (now : ℕ) (b : Bucket f)
      → f.at_least b.tokens (f.of_int 0) ≡ true
      → b.last_check + 10 * minute < now
      → refilled f l now b ≡ f.of_int l.burst
  unfolding refilled
  refilled-stale now b h late =
      rw (refills.fills b.tokens (now - b.last_check) h (omega (arith, late))) refl

  Matches-refilled :
      (now : ℕ) (o o' : Option (Bucket f))
      → IsWhole f o'
      → Matches f now o o'
      → refilled f l now (bucket_or_new f l now o) ≡ refilled f l now (bucket_or_new f l now o')
  Matches-refilled now o none h m = rw m refl
  Matches-refilled now none (some b) h m = refilled-new now ∙ sym (refilled-stale now b h m)
  Matches-refilled now (some a) (some b) h m = rw m refl

  Matches-later :
      (now later : ℕ) (o o' : Option (Bucket f))
      → now ≤ later
      → Matches f now o o'
      → Matches f later o o'
  Matches-later now later o none le m = m
  Matches-later now later none (some b) le m = omega (arith, le, m)
  Matches-later now later (some a) (some b) le m = m

  Matches-dropped :
      (now : ℕ) (o o' : Option (Bucket f))
      → Matches f now o o'
      → Matches f now (unless_dropped (λ b. ltb b.last_check (now - 10 * minute)) o) o'
  Matches-dropped now o none m = rw m refl
  Matches-dropped now none (some b) m = m
  Matches-dropped now (some a) (some b) m =
      elim (Bool-cases (ltb a.last_check (now - 10 * minute))) [
        | inr stays ↦ rw stays m
        | inl gone ↦ rw gone (rw m at (late gone))
      ]
    where
      late : ltb a.last_check (now - 10 * minute) ≡ true → a.last_check + 10 * minute < now
      late gone = ground arith

  -- After a request both limiters hold the same bucket of its key.
  Agrees-put :
      (now later : ℕ) (bs cs : Buckets) (key : Bytes) (b : Bucket f)
      → now ≤ later
      → f.at_least b.tokens (f.of_int 0) ≡ true
      → Agrees now bs cs
      → Agrees later (put key b bs) (put key b cs)
  Agrees-put now later bs cs key b le h a = record {
    pruned = put-IsMap key b bs a.pruned;
    matching = λ k. elim (Bool-cases (equal key k)) [
      | inl hit ↦
          let same = equal_sound key k hit in rw (← same, get-put key b bs, get-put key b cs) refl
      | inr miss ↦
          rw (get-put_other k key b bs miss, get-put_other k key b cs miss)
            (Matches-later now later (get k bs) (get k cs) le (a.matching k))
    ];
    whole = λ k. elim (Bool-cases (equal key k)) [
      | inl hit ↦ let same = equal_sound key k hit in rw (← same, get-put key b cs) h
      | inr miss ↦ rw (get-put_other k key b cs miss) (a.whole k)
    ];
  }

  refilled-IsWhole :
      (now : ℕ) (o : Option (Bucket f))
      → IsWhole f o
      → f.at_least (refilled f l now (bucket_or_new f l now o)) (f.of_int 0) ≡ true
  unfolding refilled
  refilled-IsWhole now none h = at_full (f.of_int l.burst) refills.full
    where
      at_full :
          (v : f.Value)
          → f.at_least v (f.of_int 0) ≡ true
          → f.at_least (capped f l (f.add v (earned f l (now - now)))) (f.of_int 0) ≡ true
      at_full v h =
          if_both (λ x. f.at_least x (f.of_int 0) ≡ true)
            (f.exceeds (f.add v (earned f l (now - now))) (f.of_int l.burst)) (λ _. refills.full)
            (λ _. refills.grows v (now - now) h)
  refilled-IsWhole now (some b) h =
      if_both (λ x. f.at_least x (f.of_int 0) ≡ true)
        (f.exceeds (f.add b.tokens (earned f l (now - b.last_check))) (f.of_int l.burst))
        (λ _. refills.full) (λ _. refills.grows b.tokens (now - b.last_check) h)

  -- What is left of so many tokens after a request.
  abbrev left_of : f.Value → f.Value
  left_of v = if f.at_least v (f.of_int 1) then f.sub v (f.of_int 1) else v

  left_of-IsWhole :
      (v : f.Value) → f.at_least v (f.of_int 0) ≡ true → f.at_least (left_of v) (f.of_int 0) ≡ true
  left_of-IsWhole v h =
      if_both (λ x. f.at_least x (f.of_int 0) ≡ true) (f.at_least v (f.of_int 1))
        (λ some_left. refills.spends v some_left) (λ _. h)

  spend-left_of :
      (bs : Buckets) (key : Bytes) (now : ℕ) (v : f.Value)
      → spend f (holding bs) key now v
        ≡ (f.at_least v (f.of_int 1), kept f (holding bs) key now (left_of v))
  spend-left_of bs key now v = elim (Bool-cases (f.at_least v (f.of_int 1))) [
    | inl some_left ↦ rw some_left refl
    | inr none_left ↦ rw none_left refl
  ]

  allow-left_of :
      (bs : Buckets) (key : Bytes) (now : ℕ)
      → (let v = refilled f l now (bucket_or_new f l now (get key bs)) in
          allow f key now (holding bs)
          ≡ (f.at_least v (f.of_int 1), kept f (holding bs) key now (left_of v)))
  unfolding allow refilled earned
  allow-left_of bs key now = spend-left_of bs key now _

  answers-Agrees :
      (last : ℕ) (ss : List Step) (bs cs : Buckets)
      → Ascends last ss
      → Agrees last bs cs
      → answers f ss (holding bs) ≡ answers f (requests_only ss) (holding cs)
  unfolding answers requests_only prune
  answers-Agrees last [] bs cs h a = refl
  answers-Agrees last (cleans now ∷ ss) bs cs (le, h) a = answers-Agrees now ss _ cs h (record {
    pruned = without-IsMap _ bs a.pruned;
    matching = λ k. rw (get-without (λ key b. ltb b.last_check (now - 10 * minute)) k bs a.pruned) (
        Matches-dropped now (get k bs) (get k cs)
          (Matches-later last now (get k bs) (get k cs) le (a.matching k)));
    whole = a.whole;
  })
  answers-Agrees last (asks key now ∷ ss) bs cs (le, h) a =
      let v = refilled f l now (bucket_or_new f l now (get key cs)) in
      let filled = refilled-IsWhole now (get key cs) (a.whole key) in
      let same =
        Matches-refilled now (get key bs) (get key cs) (a.whole key)
          (Matches-later last now (get key bs) (get key cs) le (a.matching key)) in
      rw (allow-left_of bs key now, allow-left_of cs key now)
        (rw same (
          ap (λ rest. f.at_least v (f.of_int 1) ∷ rest)
            (answers-Agrees now ss _ _ h (
              Agrees-put last now bs cs key (record { tokens = left_of v; last_check = now }) le
                (left_of-IsWhole v filled) a))))

-- The rounds of cleanupLoop, wherever they stand among the requests, change no answer of a limiter that
-- starts with no buckets, while the clock does not go back. The arithmetic is exact on whole numbers up
-- to 2 ^ 53, the interval is positive, the rate and the burst are at most 2 ^ 53, sums and differences
-- of tokens are not negative, and more than ten minutes bring more tokens than the burst.
pub answers-requests_only :
    (f : Float) (rate burst interval : ℕ) (ss : List Step)
    → IsExact f
    → Refills f (new f rate burst interval)
    → 0 < interval
    → rate ≤ 2 ^ 53
    → burst ≤ 2 ^ 53
    → Ascends 0 ss
    → answers f ss (new f rate burst interval)
      ≡ answers f (requests_only ss) (new f rate burst interval)
unfolding new
answers-requests_only f rate burst interval ss exact refills timed rated small h =
    answers-Agrees f exact (new f rate burst interval) refills timed rated small 0 ss [] [] h
      (record {
        pruned = tt;
        matching = λ key. unfold get in refl;
        whole = λ key. unfold get in tt;
      })
