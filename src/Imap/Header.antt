-- ===== src/Imap/Header.antt =====
-- internal/imap/header.go. The library's ReadHeader and Get are a parameter: what Get returns of the
-- header bytes, [] where the bytes cannot be read or the header is not there.
use ghostmail.Prelude.{
  Option, none, some, [], ◌++◌, ℕ, Bool, not, equal, take, if◌then◌else◌, Bytes, codes,
}
use ghostmail.Text.{index, contains, has_suffix, to_lower}

abbrev up_to : Bytes → Option ℕ → Option ℕ → Bytes
up_to text (some i) lf = take i text
up_to text none (some i) = take i text
up_to text none none = text

-- The bytes that parseMessageHeader hands to ReadHeader.
unfoldable pub header_bytes : Bytes → Bytes
header_bytes text =
    let header = up_to text (index text (codes "\r\n\r\n")) (index text (codes "\n\n")) in
    (if has_suffix header (codes "\r\n") then header else header ++ codes "\r\n") ++ codes "\r\n"

module _ (get : Bytes → Bytes → Bytes) where
  unfoldable pub get_header_value : Bytes → Bytes → Bytes
  get_header_value text key = get (header_bytes text) key

  unfoldable pub header_contains_value : Bytes → Bytes → Bytes → Bool
  header_contains_value text key value =
      let header_value = get_header_value text key in
      if equal value []
      then not (equal header_value [])
      else contains (to_lower header_value) (to_lower value)
