-- ===== src/Webmail/Headers/Agreement.antt =====
-- The webmail and the SMTP server read a message the same way.
use ghostmail.Prelude.{
  ℕ, suc, ◌+◌, Bool, Option, none, some, List, [], ◌∷◌, take, drop, Bytes, codes, ◌≡◌, refl, ap,
  ◌∙◌, arith, Bool-cases, inl, inr, map,
}
use mathlib.Core.Option
use ghostmail.Text.{index, has_prefix, split, trim_right_cr, to_lower}
use ghostmail.Smtp.Message.{
  split_at, read_field, read_fields, lines_of, extract_header_fields, HeaderFields,
}
use ghostmail.Smtp.Message as SmtpMessage
use ghostmail.Webmail.Headers.{
  crlf_blank, lf_blank, behind, split_where, first_split, split_message, Fields, parse_line,
  parse_lines, parse_header_fields,
}

has_prefix-crlf_blank : (s : Bytes) → has_prefix s (codes "\r\n\r\n") ≡ crlf_blank s
unfolding has_prefix
has_prefix-crlf_blank [] = refl
has_prefix-crlf_blank (a ∷ []) = ground arith
has_prefix-crlf_blank (a ∷ b ∷ []) = ground arith
has_prefix-crlf_blank (a ∷ b ∷ c ∷ []) = ground arith
has_prefix-crlf_blank (a ∷ b ∷ c ∷ d ∷ s) = ground arith

has_prefix-lf_blank : (s : Bytes) → has_prefix s (codes "\n\n") ≡ lf_blank s
unfolding has_prefix
has_prefix-lf_blank [] = refl
has_prefix-lf_blank (a ∷ []) = ground arith
has_prefix-lf_blank (a ∷ b ∷ s) = ground arith

abbrev cut : ℕ → Bytes → ℕ → Bytes × Bytes
cut width text i = (take i text, drop (i + width) text)

module _ (blank : Bytes → Bool) (c : ℕ) (p : Bytes) (width : ℕ)
    (same : (s : Bytes) → has_prefix s (c ∷ p) ≡ blank s) where
  behind-cut :
      (d : ℕ) (text : Bytes) (o : Option ℕ)
      → Option.map (behind d) (Option.map (cut width text) o)
        ≡ Option.map (cut width (d ∷ text)) (Option.map suc o)
  behind-cut d text none = refl
  behind-cut d text (some i) = let e : suc i + width ≡ suc (i + width) = omega arith in rw e refl

  -- The loop stops where strings.Index does.
  split_where-index :
      (text : Bytes)
      → split_where blank width text ≡ Option.map (cut width text) (index text (c ∷ p))
  unfolding split_where index has_prefix
  split_where-index [] = refl
  split_where-index (d ∷ text) = elim (Bool-cases (blank (d ∷ text))) [
    | inl here ↦
        let none_before : 0 + width ≡ width = omega arith in
        rw here (rw (same (d ∷ text), here) (rw none_before refl))
    | inr later ↦ rw later (
        rw (same (d ∷ text), later)
          (ap (Option.map (behind d)) (split_where-index text)
            ∙ behind-cut d text (index text (c ∷ p))))
  ]

-- Where the two loops of splitMessage find a blank line, or not.
first_split-split_at :
    (text : Bytes) (crlf lf : Option ℕ)
    → first_split text (Option.map (cut 4 text) crlf) (Option.map (cut 2 text) lf)
      ≡ split_at text crlf lf
first_split-split_at text (some i) lf = refl
first_split-split_at text none (some i) = refl
first_split-split_at text none none = refl

split_message-split_message : (text : Bytes) → split_message text ≡ SmtpMessage.split_message text
unfolding split_message SmtpMessage.split_message
split_message-split_message text =
    rw
      (
        split_where-index crlf_blank 13 (10 ∷ 13 ∷ 10 ∷ []) 4 has_prefix-crlf_blank text,
        split_where-index lf_blank 10 (10 ∷ []) 2 has_prefix-lf_blank text,
      )
      (first_split-split_at text (index text (codes "\r\n\r\n")) (index text (codes "\n\n")))

-- The fields of the one struct as the other.
abbrev pub fields_of : HeaderFields → Fields
fields_of h = record { sender = h.sender; recipient = h.recipient; subject = h.subject }

parse_line-read_field :
    (line : Bytes) (h : HeaderFields)
    → parse_line line (fields_of h) ≡ fields_of (read_field h line)
unfolding parse_line read_field
parse_line-read_field line h = elim (Bool-cases (has_prefix (to_lower line) (codes "subject:"))) [
  | inl e ↦ rw e refl
  | inr e ↦ rw e (elim (Bool-cases (has_prefix (to_lower line) (codes "from:"))) [
    | inl e ↦ rw e refl
    | inr e ↦ rw e (elim (Bool-cases (has_prefix (to_lower line) (codes "to:"))) [
      | inl e ↦ rw e refl
      | inr e ↦ rw e refl
    ])
  ])
]

parse_lines-read_fields :
    (lines : List Bytes) (h : HeaderFields)
    → parse_lines lines (fields_of h) ≡ fields_of (read_fields h (map trim_right_cr lines))
unfolding parse_lines read_fields
parse_lines-read_fields [] h = refl
parse_lines-read_fields (line ∷ lines) h =
    rw (parse_line-read_field (trim_right_cr line) h)
      (parse_lines-read_fields lines (read_field h (trim_right_cr line)))

-- The webmail and the SMTP server divide every text into the same headers and body, and read the same
-- sender, recipient and subject in every block of headers.
pub headers-agreement :
    (text headers : Bytes)
    → (split_message text ≡ SmtpMessage.split_message text)
      × (parse_header_fields headers ≡ fields_of (extract_header_fields headers))
unfolding parse_header_fields extract_header_fields lines_of
headers-agreement text headers = (
  split_message-split_message text,
  parse_lines-read_fields (split headers b'\n')
      (record { sender = []; recipient = []; subject = [] }),
)
