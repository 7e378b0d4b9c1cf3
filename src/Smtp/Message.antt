-- ===== src/Smtp/Message.antt =====
-- The functions of internal/smtp/session.go that read a message's text.
pub mod Expiry
pub mod Split
use ghostmail.Prelude.{
  ℕ, suc, ◌+◌, ◌-◌, ◌*◌, ◌%◌, ◌^◌, Bool, true, false, ◌&&◌, ◌||◌, not, Option, none, some, List, [],
  ◌∷◌, ◌++◌, ◌==◌, ltb, leb, equal, if◌then◌else◌, Bytes, codes, length, take, drop, map, ◌≡◌, refl,
}
use mathlib.Core.Option
use ghostmail.Text.{index, split, trim_right_cr, trim_space, to_lower, has_prefix, has_suffix, join}
use ghostmail.Storage.Schema.{second}

-- s[1 : len(s)-1]
abbrev inner : Bytes → Bytes
inner s = take (length s - 2) (drop 1 s)

-- No text of one byte has both brackets, so the slice is in range.
unfoldable pub extract_addr : Bytes → Bytes
extract_addr s =
    let t = trim_space s in
    to_lower (if has_prefix t (codes "<") && has_suffix t (codes ">") then inner t else t)

-- Headers and body, without the blank line between them.
-- Where the two separators first stand.
abbrev pub split_at : Bytes → Option ℕ → Option ℕ → Bytes × Bytes
split_at text (some i) lf = (take i text, drop (i + 4) text)
split_at text none (some i) = (take i text, drop (i + 2) text)
split_at text none none = (text, [])

unfoldable pub split_message : Bytes → Bytes × Bytes
split_message text = split_at text (index text (codes "\r\n\r\n")) (index text (codes "\n\n"))

-- strings.Split(…, "\n") with the "\r" at the end of each line taken off.
unfoldable pub lines_of : Bytes → List Bytes
lines_of text = map trim_right_cr (split text b'\n')

abbrev pub starts : Bytes → Bytes → Bool
starts line name = has_prefix (to_lower line) name

abbrev pub rest_of : Bytes → ℕ → Bytes
rest_of line n = trim_space (drop n line)

pub record HeaderFields : Type 0 where
  pub subject : Bytes
  pub sender : Bytes
  pub recipient : Bytes

-- One round of the loop: a later line of one name replaces an earlier one.
unfoldable pub read_field : HeaderFields → Bytes → HeaderFields
read_field h line =
    if starts line (codes "subject:")
    then record h { subject = rest_of line 8 }
    else if starts line (codes "from:")
    then record h { sender = rest_of line 5 }
    else if starts line (codes "to:")
    then record h { recipient = rest_of line 3 }
    else h

unfoldable pub read_fields : HeaderFields → List Bytes → HeaderFields
read_fields h [] = h
read_fields h (line ∷ lines) = read_fields (read_field h line) lines

unfoldable pub extract_header_fields : Bytes → HeaderFields
extract_header_fields headers =
    read_fields (record { subject = []; sender = []; recipient = [] }) (lines_of headers)

-- A time.Duration of n nanoseconds is the 64-bit word n % 2 ^ 64; the upper half is negative.
abbrev pub duration : ℕ → ℕ
duration n = n % 2 ^ 64

-- now.Add(d); times before 1970 are 0.
unfoldable pub add_duration : ℕ → ℕ → ℕ
add_duration now d = if ltb d (2 ^ 63) then now + d else now - (2 ^ 64 - d)

abbrev is_digit : ℕ → Bool
is_digit c = leb b'0' c && leb c b'9'

-- The digits that fmt.Sscanf reads for %d after the sign, and their value behind `n`.
unfoldable pub scan_digits : ℕ → Bytes → ℕ
scan_digits n [] = n
scan_digits n (c ∷ s) =
    let more = scan_digits (n * 10 + (c - b'0')) s in if is_digit c then more else n

-- A positive int64 that Sscanf reads at the head of a trimmed text; `none` is its error, or a number
-- that is not positive. A minus sign leads to no positive number.
unfoldable pub scan_positive : Bytes → Option ℕ
scan_positive [] = none
scan_positive (c ∷ s) =
    let n = scan_digits 0 (if c == b'+' then s else c ∷ s) in
    if ltb 0 n && ltb n (2 ^ 63) then some n else none

module _ (parse_rfc3339 : Bytes → Option ℕ) (now : ℕ) where
  -- What one header line says, if it is one of the two and its value parses.
  unfoldable pub expiry_of_line : Bytes → Option ℕ
  expiry_of_line line =
      if starts line (codes "x-ghostmail-expires-at:")
      then parse_rfc3339 (rest_of line 23)
      else if starts line (codes "x-ghostmail-expires:")
      then Option.map (λ seconds. add_duration now (duration (seconds * second)))
          (scan_positive (rest_of line 20))
      else none

  unfoldable pub first_expiry : List Bytes → Option ℕ
  first_expiry [] = none
  first_expiry (line ∷ lines) = elim (expiry_of_line line) [
    | some t ↦ some t
    | none ↦ first_expiry lines
  ]

  unfoldable pub parse_expiry_header : Bytes → Option ℕ
  parse_expiry_header text = first_expiry (lines_of (split_message text).0)

addr_test : extract_addr (codes " <Bob@Example.COM> ") ≡ codes "bob@example.com"
unfolding extract_addr trim_space has_prefix has_suffix to_lower
addr_test = refl

expiry_test :
    parse_expiry_header (λ s. none) 5 (codes "To: a\nX-GhostMail-Expires: 3600\n\nbody")
    ≡ some (3600 * second + 5)
unfolding parse_expiry_header first_expiry expiry_of_line scan_positive scan_digits add_duration
    lines_of split_message index split trim_right_cr trim_space has_prefix to_lower
expiry_test = refl
