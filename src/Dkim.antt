-- ===== src/Dkim.antt =====
-- internal/dkim/verifier.go. The signature check itself is go-msgauth's, and its results an argument.
pub mod Signer
use ghostmail.Prelude.{
  ℕ, Bool, true, false, ◌||◌, Option, none, some, List, [], ◌∷◌, ◌++◌, ◌==◌, equal, if◌then◌else◌,
  Bytes, codes, take, drop, map, ◌≡◌, refl,
}
use ghostmail.Text.{index, split, trim_right_cr, to_lower, has_prefix, join}

pub record AuthResult : Type 0 where
  pub dkim : Bytes
  pub spf : Bytes
  pub dmarc : Bytes
  pub domain : Bytes

-- A signature's domain, and whether it verified.
pub record Verification : Type 0 where
  pub domain : Bytes
  pub valid : Bool

abbrev pub unchecked : AuthResult
unchecked = record { dkim = codes "none"; spf = codes "none"; dmarc = codes "none"; domain = [] }

-- `none` is an error of VerifyMessage.
unfoldable pub verify_inbound : Option (List Verification) → AuthResult
verify_inbound none = unchecked
verify_inbound (some []) = unchecked
verify_inbound (some (v ∷ vs)) = record unchecked {
  domain = v.domain;
  dkim = if v.valid then codes "pass" else codes "fail";
}

abbrev pub part : Bytes → Bytes → List Bytes
part name value = if equal value (codes "none") then [] else (name ++ value) ∷ []

abbrev pub dkim_part : AuthResult → List Bytes
dkim_part auth =
    if equal auth.dkim (codes "none")
    then []
    else (codes "dkim="
        ++ (auth.dkim ++ (if equal auth.domain [] then [] else codes " header.d=" ++ auth.domain)))
      ∷ []

abbrev pub or_none : List Bytes → List Bytes
or_none [] = codes "none" ∷ []
or_none (p ∷ ps) = p ∷ ps

unfoldable pub format_auth_results_header : Bytes → AuthResult → Bytes
format_auth_results_header hostname auth =
    codes "Authentication-Results: "
    ++ (hostname
        ++ (codes "; "
            ++ join
                (or_none (
                  dkim_part auth
                  ++ (part (codes "spf=") auth.spf ++ part (codes "dmarc=") auth.dmarc)))
                (codes "; ")))

unfoldable pub add_auth_results_header : Bytes → Bytes → AuthResult → Bytes
add_auth_results_header message hostname auth =
    format_auth_results_header hostname auth ++ (codes "\r\n" ++ message)

abbrev pub is_folded : Bytes → Bool
is_folded [] = false
is_folded (c ∷ line) = (c == 32) || (c == 9)

-- `if current != "" { result = append(result, current) }`
abbrev pub finish : Bytes → List Bytes → List Bytes
finish [] lines = lines
finish (c ∷ line) lines = (c ∷ line) ∷ lines

-- The loop of splitFoldedHeaders, over lines whose "\r" is off, with `current`.
unfoldable pub unfold_lines : Bytes → List Bytes → List Bytes
unfold_lines current [] = finish current []
unfold_lines current ([] ∷ lines) = unfold_lines current lines
unfold_lines current ((c ∷ line) ∷ lines) = elim (is_folded (c ∷ line)) [
  | true ↦ unfold_lines (current ++ (codes "\r\n" ++ (c ∷ line))) lines
  | false ↦ finish current (unfold_lines (c ∷ line) lines)
]

unfoldable pub split_folded_headers : Bytes → List Bytes
split_folded_headers text = unfold_lines [] (map trim_right_cr (split text b'\n'))

abbrev pub is_auth_results : Bytes → Bool
is_auth_results line = has_prefix (to_lower line) (codes "authentication-results:")

unfoldable pub keep_others : List Bytes → List Bytes
keep_others [] = []
keep_others (line ∷ lines) =
    let kept = keep_others lines in if is_auth_results line then kept else line ∷ kept

-- Where the headers end: at the first "\r\n\r\n", or else at the first "\n\n".
unfoldable pub header_end : Bytes → Option ℕ
header_end message = elim (index message (codes "\r\n\r\n")) [
  | some i ↦ some i
  | none ↦ index message (codes "\n\n")
]

abbrev pub strip_at : Bytes → Option ℕ → Bytes
strip_at message none = message
strip_at message (some i) =
    join (keep_others (split_folded_headers (take i message))) (codes "\r\n") ++ drop i message

unfoldable pub strip_existing_auth_results : Bytes → Bytes
strip_existing_auth_results message = strip_at message (header_end message)

spoofed_test :
    strip_existing_auth_results
      (codes "Authentication-Results: x;\r\n dkim=pass\r\nSubject: a\r\n\r\nhi")
    ≡ codes "Subject: a\r\n\r\nhi"
unfolding strip_existing_auth_results header_end index has_prefix split_folded_headers unfold_lines
    keep_others split trim_right_cr to_lower join
spoofed_test = refl
