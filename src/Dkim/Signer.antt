-- ===== src/Dkim/Signer.antt =====
-- internal/dkim/signer.go. Keys, PEM, DER, base64 and the making of a signature are the libraries'.
use ghostmail.Prelude.{
  Option, none, some, List, [], ◌∷◌, ◌++◌, ◌==◌, ◌⊎◌, inl, inr, equal, length, map, if◌then◌else◌,
  Bytes, codes, ◌≡◌, refl,
}
use ghostmail.Result.{crypto, bad_key, Result, ok, err, ◌>>=◌}
use ghostmail.Text.{join}
use ghostmail.Crypto.Envelope.{or_error}

-- SignedHeaders
abbrev signed_headers : List Bytes
signed_headers =
    codes "From"
    ∷ codes "To"
    ∷ codes "Subject"
    ∷ codes "Date"
    ∷ codes "Message-ID"
    ∷ codes "MIME-Version"
    ∷ codes "Content-Type"
    ∷ codes "Content-Transfer-Encoding"
    ∷ codes "Reply-To"
    ∷ codes "Cc"
    ∷ codes "In-Reply-To"
    ∷ codes "References"
    ∷ []

-- A key that PKCS #8 holds, RSA or not.
data AnyKey (K : Type 0) : Type 0 where
  rsa_key : K → AnyKey K
  other_key : AnyKey K

-- The libraries over the keys of both algorithms; `none` is an error.
record KeyLib : Type 1 where
  pub RsaKey : Type 0
  pub decode_pem : Bytes → Option Bytes
  pub parse_pkcs1 : Bytes → Option RsaKey
  pub parse_pkcs8 : Bytes → Option (AnyKey RsaKey)
  pub marshal_pkcs1 : RsaKey → Bytes
  pub marshal_pkix : RsaKey → Option Bytes
  pub encode_pem : Bytes → Bytes → Bytes
  pub base_64 : Bytes → Bytes

data Algorithm : Type 0 where
  rsa ed25519 : Algorithm

record Signer (K : Type 0) : Type 0 where
  pub domain : Bytes
  pub selector : Bytes
  pub key : K ⊎ Bytes
  pub algorithm : Algorithm

module _ (l : KeyLib) where
  abbrev as_rsa : Option (AnyKey l.RsaKey) → Result l.RsaKey
  as_rsa none = err bad_key
  as_rsa (some (rsa_key key)) = ok key
  as_rsa (some other_key) = err bad_key

  -- PKCS #1, or else PKCS #8.
  abbrev parse_key : Bytes → Option l.RsaKey → Result l.RsaKey
  parse_key der none = as_rsa (l.parse_pkcs8 der)
  parse_key der (some key) = ok key

  unfoldable new_rsa_signer : Bytes → Bytes → Bytes → Result (Signer l.RsaKey)
  new_rsa_signer domain selector private_key_pem = do
    der ← or_error bad_key (l.decode_pem private_key_pem)
    key ← parse_key der (l.parse_pkcs1 der)
    ok (record { domain = domain; selector = selector; key = inl key; algorithm = rsa })

  unfoldable new_ed25519_signer : Bytes → Bytes → Bytes → Result (Signer l.RsaKey)
  new_ed25519_signer domain selector private_key =
      if length private_key == 64
      then ok (record {
        domain = domain;
        selector = selector;
        key = inr private_key;
        algorithm = ed25519;
      })
      else err bad_key

  -- Sign, over dkim.Sign of a domain, a selector, a key and the names of the headers.
  unfoldable sign :
      (Bytes → Bytes → l.RsaKey ⊎ Bytes → List Bytes → Bytes → Option Bytes)
      → Signer l.RsaKey
      → Bytes
      → Result Bytes
  sign dkim_sign s message =
      or_error crypto (dkim_sign s.domain s.selector s.key signed_headers message)

  -- GenerateRSAKey, from the key that was drawn: the PEM text and the record of the DNS.
  unfoldable generate_rsa_key : Option l.RsaKey → Result (Bytes × Bytes)
  generate_rsa_key drawn = do
    key ← or_error crypto drawn
    public_der ← or_error bad_key (l.marshal_pkix key)
    ok (
      l.encode_pem (codes "RSA PRIVATE KEY") (l.marshal_pkcs1 key),
      codes "v=DKIM1; k=rsa; p=" ++ l.base_64 public_der,
    )

  -- GenerateEd25519Key, from the two keys that were drawn.
  unfoldable generate_ed25519_key : Option (Bytes × Bytes) → Result (Bytes × Bytes)
  generate_ed25519_key drawn = do
    keys ← or_error crypto drawn
    ok (keys.1, codes "v=DKIM1; k=ed25519; p=" ++ l.base_64 keys.0)

  unfoldable parse_dkim_public_key_pem : Bytes → Result Bytes
  parse_dkim_public_key_pem private_key_pem = do
    der ← or_error bad_key (l.decode_pem private_key_pem)
    key ← or_error bad_key (l.parse_pkcs1 der)
    public_der ← or_error bad_key (l.marshal_pkix key)
    ok (l.base_64 public_der)

abbrev quoted : Bytes → Bytes → Bytes
quoted name value = name ++ (codes "  IN  TXT  \"" ++ (value ++ codes "\""))

unfoldable format_dns_record : Bytes → Bytes → Bytes → Bytes
format_dns_record selector domain value =
    quoted (selector ++ (codes "._domainkey." ++ domain)) value

unfoldable format_spf_record : Bytes → Bytes
format_spf_record domain = quoted domain (codes "v=spf1 mx a -all")

unfoldable format_dmarc_record : Bytes → Bytes → Bytes
format_dmarc_record domain report_email =
    let policy = codes "v=DMARC1; p=reject; sp=reject; adkim=s; aspf=s" in
    quoted (codes "_dmarc." ++ domain)
      (if equal report_email [] then policy else policy ++ (codes "; rua=mailto:" ++ report_email))

-- A signature's domain and the text of its error.
abbrev summary_part : Bytes × Option Bytes → Bytes
summary_part (domain, none) = domain ++ codes ": pass"
summary_part (domain, some e) = domain ++ (codes ": fail (" ++ (e ++ codes ")"))

unfoldable verification_summary : List (Bytes × Option Bytes) → Bytes
verification_summary [] = codes "none"
verification_summary (v ∷ vs) = join (map summary_part (v ∷ vs)) (codes "; ")

spf_test : format_spf_record (codes "x.org") ≡ codes "x.org  IN  TXT  \"v=spf1 mx a -all\""
unfolding format_spf_record
spf_test = refl
