-- ===== src/RateLimit.antt =====
-- internal/ratelimit/ratelimit.go. The operations of float64 are a parameter; the clock is an input
-- and never goes back.
pub mod Burst
pub mod Pruning
use ghostmail.Prelude.{
  ℕ, ◌-◌, ◌*◌, ◌≤◌, ◌<◌, Bool, true, false, Option, none, some, List, [], ltb, leb, if◌then◌else◌,
  Bytes, ◌≡◌, ◌^◌,
}
use ghostmail.Keyed.{get, put, remove, without}
use ghostmail.Storage.Schema.{second}

-- float64: float64(n), Duration.Seconds, the operators, `>` and `>=`.
pub record Float : Type 1 where
  pub Value : Type 0
  pub of_int : ℕ → Value
  pub seconds : ℕ → Value
  pub add : Value → Value → Value
  pub sub : Value → Value → Value
  pub mul : Value → Value → Value
  pub div : Value → Value → Value
  pub exceeds : Value → Value → Bool
  pub at_least : Value → Value → Bool

pub record Bucket (f : Float) : Type 0 where
  pub tokens : f.Value
  pub last_check : ℕ

pub record Limiter (f : Float) : Type 0 where
  pub buckets : List (Bytes × Bucket f)
  pub rate : ℕ
  pub burst : ℕ
  pub interval : ℕ

abbrev pub minute : ℕ
minute = 60 * second

module _ (f : Float) where
  -- New; cleanupLoop runs beside it.
  unfoldable pub new : ℕ → ℕ → ℕ → Limiter f
  new rate burst interval = record { buckets = []; rate = rate; burst = burst; interval = interval }

  -- The tokens that a time brings.
  unfoldable pub earned : Limiter f → ℕ → f.Value
  earned l elapsed = f.mul (f.div (f.seconds elapsed) (f.seconds l.interval)) (f.of_int l.rate)

  abbrev pub capped : Limiter f → f.Value → f.Value
  capped l tokens = if f.exceeds tokens (f.of_int l.burst) then f.of_int l.burst else tokens

  abbrev pub bucket_or_new : Limiter f → ℕ → Option (Bucket f) → Bucket f
  bucket_or_new l now none = record { tokens = f.of_int l.burst; last_check = now }
  bucket_or_new l now (some b) = b

  -- The tokens of a bucket at a request.
  unfoldable pub refilled : Limiter f → ℕ → Bucket f → f.Value
  refilled l now b = capped l (f.add b.tokens (earned l (now - b.last_check)))

  abbrev pub kept : Limiter f → Bytes → ℕ → f.Value → Limiter f
  kept l key now tokens = record l {
    buckets = put key (record { tokens = tokens; last_check = now }) l.buckets;
  }

  abbrev pub spend : Limiter f → Bytes → ℕ → f.Value → Bool × Limiter f
  spend l key now tokens =
      if f.at_least tokens (f.of_int 1)
      then (true, kept l key now (f.sub tokens (f.of_int 1)))
      else (false, kept l key now tokens)

  -- Allow
  unfoldable pub allow : Bytes → ℕ → Limiter f → Bool × Limiter f
  allow key now l = spend l key now (refilled l now (bucket_or_new l now (get key l.buckets)))

  unfoldable pub reset : Bytes → Limiter f → Limiter f
  reset key l = record l { buckets = remove key l.buckets }

  -- One round of cleanupLoop.
  unfoldable pub prune : ℕ → Limiter f → Limiter f
  prune now l = record l {
    buckets = without (λ key b. ltb b.last_check (now - 10 * minute)) l.buckets;
  }

  -- The limiters of the SMTP and IMAP servers, of the logins and of the panel.
  unfoldable new_smtp_limiter : Limiter f
  unfolding new
  new_smtp_limiter = new 30 10 minute

  unfoldable new_imap_limiter : Limiter f
  unfolding new
  new_imap_limiter = new 60 20 minute

  unfoldable new_auth_limiter : Limiter f
  unfolding new
  new_auth_limiter = new 5 5 minute

  unfoldable new_admin_limiter : Limiter f
  unfolding new
  new_admin_limiter = new 30 15 minute

-- What IEEE 754 says of whole numbers that a float64 holds, and of nothing at all divided.
pub record IsExact (f : Float) : Type 0 where
  pub no_time : f.seconds 0 ≡ f.of_int 0
  pub div-none : (d : ℕ) → 0 < d → f.div (f.of_int 0) (f.seconds d) ≡ f.of_int 0
  pub mul-none : (n : ℕ) → n ≤ 2 ^ 53 → f.mul (f.of_int 0) (f.of_int n) ≡ f.of_int 0
  pub add-none : (n : ℕ) → n ≤ 2 ^ 53 → f.add (f.of_int n) (f.of_int 0) ≡ f.of_int n
  pub sub-one : (n : ℕ) → 0 < n → n ≤ 2 ^ 53 → f.sub (f.of_int n) (f.of_int 1) ≡ f.of_int (n - 1)
  pub exceeds-ltb :
      (m n : ℕ) → m ≤ 2 ^ 53 → n ≤ 2 ^ 53 → f.exceeds (f.of_int m) (f.of_int n) ≡ ltb n m
  pub at_least-leb :
      (m n : ℕ) → m ≤ 2 ^ 53 → n ≤ 2 ^ 53 → f.at_least (f.of_int m) (f.of_int n) ≡ leb n m
