-- ===== src/Webmail/Headers.antt =====
-- How internal/webmail reads a message: splitMessage, parseHeaderFields and parseHeaderField.
pub mod Agreement
use ghostmail.Prelude.{
  ℕ, suc, Bool, true, false, ◌&&◌, Option, none, some, List, [], ◌∷◌, ◌++◌, ◌==◌, drop, length, map,
  if◌then◌else◌, Bytes, codes,
}
use mathlib.Core.Option
use ghostmail.Text.{split, trim_right_cr, trim_space, to_lower, has_prefix}

-- The test of the first loop at one place: "\r\n\r\n" stands there.
abbrev pub crlf_blank : Bytes → Bool
crlf_blank (a ∷ b ∷ c ∷ d ∷ rest) = (a == 13) && ((b == 10) && ((c == 13) && (d == 10)))
crlf_blank s = false

-- The test of the second loop: "\n\n" stands there.
abbrev pub lf_blank : Bytes → Bool
lf_blank (a ∷ b ∷ rest) = (a == 10) && (b == 10)
lf_blank s = false

abbrev pub behind : ℕ → Bytes × Bytes → Bytes × Bytes
behind c (headers, body) = (c ∷ headers, body)

-- A loop over the places of the text: what stands before and after the first blank line.
unfoldable pub split_where : (Bytes → Bool) → ℕ → Bytes → Option (Bytes × Bytes)
split_where blank width [] = none
split_where blank width (c ∷ text) =
    let later = Option.map (behind c) (split_where blank width text) in
    if blank (c ∷ text) then some ([], drop width (c ∷ text)) else later

abbrev pub first_split : Bytes → Option (Bytes × Bytes) → Option (Bytes × Bytes) → Bytes × Bytes
first_split text (some parts) lf = parts
first_split text none (some parts) = parts
first_split text none none = (text, [])

unfoldable pub split_message : Bytes → Bytes × Bytes
split_message text = first_split text (split_where crlf_blank 4 text) (split_where lf_blank 2 text)

pub record Fields : Type 0 where
  pub sender : Bytes
  pub recipient : Bytes
  pub subject : Bytes

abbrev value_at : ℕ → Bytes → Bytes
value_at n line = trim_space (drop n line)

-- One round of the loop.
unfoldable pub parse_line : Bytes → Fields → Fields
parse_line line fields =
    let lower = to_lower line in
    if has_prefix lower (codes "subject:")
    then record fields { subject = value_at 8 line }
    else if has_prefix lower (codes "from:")
    then record fields { sender = value_at 5 line }
    else if has_prefix lower (codes "to:")
    then record fields { recipient = value_at 3 line }
    else fields

unfoldable pub parse_lines : List Bytes → Fields → Fields
parse_lines [] fields = fields
parse_lines (line ∷ lines) fields = parse_lines lines (parse_line (trim_right_cr line) fields)

unfoldable pub parse_header_fields : Bytes → Fields
parse_header_fields header_data =
    parse_lines (split header_data b'\n') (record { sender = []; recipient = []; subject = [] })

unfoldable pub first_value : Bytes → List Bytes → Bytes
first_value prefix [] = []
first_value prefix (line ∷ lines) =
    let line' = trim_right_cr line in
    let later = first_value prefix lines in
    if has_prefix (to_lower line') prefix then value_at (length prefix) line' else later

unfoldable pub parse_header_field : Bytes → Bytes → Bytes
parse_header_field header_data field =
    first_value (to_lower field ++ codes ":") (split header_data b'\n')
