-- ===== src/RateLimit/Burst.antt =====
-- How many requests of one instant a limiter lets through.
use ghostmail.Prelude.{
  ℕ, ◌+◌, ◌-◌, ◌≤◌, ◌<◌, ◌^◌, true, false, ◌&&◌, none, List, [], ◌∷◌, leb, ltb, equal, equal_sound,
  if◌then◌else◌, Bytes, ◌≡◌, refl, ap, ◌∙◌, arith, Bool-cases, inl, inr,
}
use ghostmail.Keyed.{get, get-put, get-put_other}
use ghostmail.RateLimit.{Float, Limiter, IsExact, earned, bucket_or_new, refilled, kept, allow}

-- How many there are of one key.
pub requests : Bytes → List Bytes → ℕ
requests key [] = 0
requests key (k ∷ ks) = (if equal k key then 1 else 0) + requests key ks

abbrev pub at_most : ℕ → ℕ → ℕ
at_most bound n = if leb n bound then n else bound

module _ (f : Float) where
  -- Requests of one instant, in their order: how many of one key are let through.
  pub admitted : Bytes → ℕ → List Bytes → Limiter f → ℕ
  admitted key now [] l = 0
  admitted key now (k ∷ ks) l =
      let (allowed, l') = allow f k now l in
      (if equal k key && allowed then 1 else 0) + admitted key now ks l'

module _ (f : Float) (exact : IsExact f) where
  -- The bucket of a key that has so many tokens left at this instant.
  abbrev pub Holds : ℕ → Limiter f → Bytes → ℕ → Type 0
  Holds now l key n =
      bucket_or_new f l now (get key l.buckets) ≡ record { tokens = f.of_int n; last_check = now }

  module _ (now : ℕ) (l : Limiter f) (timed : 0 < l.interval) (rated : l.rate ≤ 2 ^ 53)
      (small : l.burst ≤ 2 ^ 53) where
    earned-no_time : (b : ℕ) → earned f l (b - b) ≡ f.of_int 0
    unfolding earned
    earned-no_time b =
        let none_left : b - b ≡ 0 = omega arith in
        rw (none_left, earned, exact.no_time, exact.div-none l.interval timed)
          (exact.mul-none l.rate rated)

    refilled-now :
        (n : ℕ)
        → n ≤ l.burst
        → refilled f l now (record { tokens = f.of_int n; last_check = now }) ≡ f.of_int n
    unfolding refilled
    refilled-now n h =
        rw (earned-no_time now, exact.add-none n (omega (arith, small, h)))
          (rw (exact.exceeds-ltb n l.burst (omega (arith, small, h)) small)
            (let under : ltb l.burst n ≡ false = ground (arith, h) in rw under refl))

    allow-Holds :
        (key : Bytes) (n : ℕ)
        → n ≤ l.burst
        → Holds now l key n
        → allow f key now l ≡ (leb 1 n, kept f l key now (f.of_int (n - 1)))
    unfolding allow
    allow-Holds key n h e = rw e (
        rw (refilled-now n h) (
          rw (exact.at_least-leb n 1 (omega (arith, small, h)) (omega arith))
            (elim (Bool-cases (leb 1 n)) [
              | inl some_left ↦ rw some_left (
                  ap (λ v. (true, kept f l key now v))
                    (exact.sub-one n (ground arith) (omega (arith, small, h))))
              | inr none_left ↦
                  rw none_left (let zero_left : n - 1 ≡ n = ground arith in rw zero_left refl)
            ])))

  -- What a request of one key leaves for that key, and for another.
  kept-Holds :
      (now : ℕ) (l : Limiter f) (key : Bytes) (n : ℕ)
      → Holds now (kept f l key now (f.of_int n)) key n
  kept-Holds now l key n =
      ap (bucket_or_new f l now)
        (get-put key (record { tokens = f.of_int n; last_check = now }) l.buckets)

  other-Holds :
      (now : ℕ) (l : Limiter f) (key other : Bytes) (n : ℕ) (v : f.Value)
      → equal other key ≡ false
      → Holds now l key n
      → Holds now (kept f l other now v) key n
  other-Holds now l key other n v e h =
      ap (bucket_or_new f l now)
        (get-put_other key other (record { tokens = v; last_check = now }) l.buckets e)
      ∙ h

  allow-Holds_other :
      (now : ℕ) (l : Limiter f) (key other : Bytes) (n : ℕ)
      → equal other key ≡ false
      → Holds now l key n
      → Holds now (allow f other now l).1 key n
  unfolding allow
  allow-Holds_other now l key other n e h =
      let tokens = refilled f l now (bucket_or_new f l now (get other l.buckets)) in
      elim (Bool-cases (f.at_least tokens (f.of_int 1))) [
        | inl some_left ↦ rw some_left (other-Holds now l key other n _ e h)
        | inr none_left ↦ rw none_left (other-Holds now l key other n _ e h)
      ]

  allow-IsSame :
      (now : ℕ) (l : Limiter f) (key : Bytes)
      → ((allow f key now l).1.burst ≡ l.burst)
        × ((allow f key now l).1.rate ≡ l.rate)
        × ((allow f key now l).1.interval ≡ l.interval)
  unfolding allow
  allow-IsSame now l key =
      let tokens = refilled f l now (bucket_or_new f l now (get key l.buckets)) in
      elim (Bool-cases (f.at_least tokens (f.of_int 1))) [
        | inl some_left ↦ rw some_left (refl, refl, refl)
        | inr none_left ↦ rw none_left (refl, refl, refl)
      ]

  admitted-left :
      (now : ℕ) (key : Bytes) (ks : List Bytes) (l : Limiter f) (n : ℕ)
      → 0 < l.interval
      → l.rate ≤ 2 ^ 53
      → l.burst ≤ 2 ^ 53
      → n ≤ l.burst
      → Holds now l key n
      → admitted f key now ks l ≡ at_most n (requests key ks)
  unfolding admitted requests
  admitted-left now key [] l n timed rated small h e = ground arith
  admitted-left now key (k ∷ ks) l n timed rated small h e = elim (Bool-cases (equal k key)) [
    | inl hit ↦
        let step : allow f k now l ≡ (leb 1 n, kept f l key now (f.of_int (n - 1))) =
          rw (equal_sound k key hit) (allow-Holds now l timed rated small key n h e) in
        let rest =
          admitted-left now key ks (kept f l key now (f.of_int (n - 1))) (n - 1) timed rated small
            (omega (arith, h)) (kept-Holds now l key (n - 1)) in
        rw (step, hit, rest) (ground arith)
    | inr miss ↦
        let (b, r, i) = allow-IsSame now l k in
        let rest =
          admitted-left now key ks (allow f k now l).1 n (rw i timed) (rw r rated) (rw b small)
            (rw b h) (allow-Holds_other now l key k n miss e) in
        rw miss (ground (arith, rest))
  ]

-- Of the requests of one instant, from any addresses in any order, a limiter that has no bucket for an
-- address lets through as many of that address as there are, or `burst` where there are more; the other
-- addresses' requests do not count. The arithmetic is exact on whole numbers up to 2 ^ 53, the interval
-- is positive, and the rate and the burst are at most 2 ^ 53.
pub admitted-burst :
    (f : Float) (l : Limiter f) (key : Bytes) (now : ℕ) (ks : List Bytes)
    → IsExact f
    → 0 < l.interval
    → l.rate ≤ 2 ^ 53
    → l.burst ≤ 2 ^ 53
    → get key l.buckets ≡ none
    → admitted f key now ks l ≡ at_most l.burst (requests key ks)
admitted-burst f l key now ks exact timed rated small absent =
    admitted-left f exact now key ks l l.burst timed rated small (omega arith)
      (ap (bucket_or_new f l now) absent)
