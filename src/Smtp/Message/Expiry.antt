-- ===== src/Smtp/Message/Expiry.antt =====
-- The time that an X-GhostMail-Expires line names.
use ghostmail.Prelude.{
  ℕ, ◌*◌, ◌^◌, ◌≤◌, ◌<◌, true, false, Option, some, Bytes, codes, ◌≡◌, refl, arith,
}
use ghostmail.Storage.Schema.{second}
use ghostmail.Smtp.Message.{starts, rest_of, duration, add_duration, scan_positive, expiry_of_line}

module _ (parse_rfc3339 : Bytes → Option ℕ) (now n : ℕ) (line : Bytes) where
  expiry_lem :
      starts line (codes "x-ghostmail-expires-at:") ≡ false
      → starts line (codes "x-ghostmail-expires:") ≡ true
      → scan_positive (rest_of line 20) ≡ some n
      → expiry_of_line parse_rfc3339 now line ≡ some (add_duration now (duration (n * second)))
  unfolding expiry_of_line
  expiry_lem not_at expires read = rw (not_at, expires, read) refl

  -- With a number of seconds that overflows into the sign, `n` * 10 ^ 9 from 2 ^ 63 up to 2 ^ 64, the line
  -- names a time that is not after now.
  pub expiry_of_line_overflows :
      starts line (codes "x-ghostmail-expires-at:") ≡ false
      → starts line (codes "x-ghostmail-expires:") ≡ true
      → scan_positive (rest_of line 20) ≡ some n
      → 2 ^ 63 ≤ n * second
      → n * second < 2 ^ 64
      → (t : ℕ) × (expiry_of_line parse_rfc3339 now line ≡ some t) × (t ≤ now)
  unfolding add_duration
  expiry_of_line_overflows not_at expires read low high =
      (_, expiry_lem not_at expires read, ground arith)
