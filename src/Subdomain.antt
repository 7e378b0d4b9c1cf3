-- ===== src/Subdomain.antt =====
-- internal/subdomain/service.go. What the random source draws and the clock are inputs.
use ghostmail.Prelude.{
  ℕ, Bool, true, false, ◌&&◌, ◌||◌, not, Option, none, some, [], ◌++◌, ◌==◌, all, ltb, leb, length,
  if◌then◌else◌, Bytes, codes, ◌≡◌, refl,
}
use ghostmail.Result.{crypto, constraint, invalid_request, Result, ok, err}
use ghostmail.Text.{to_lower, trim_space, has_prefix, has_suffix}
use ghostmail.Text.Hex.{hex_encode}
use ghostmail.Sql.{Sql, pure, raise, lift, ignoring, ◌>>=◌, ◌>>◌}
use ghostmail.Storage.Schema.{Tables, Domain}
use ghostmail.Storage.Domains.{get_domain, create_domain}

record Allocation : Type 0 where
  pub id : ℕ
  pub subdomain : Bytes
  pub fqdn : Bytes
  pub owner_email : Bytes
  pub server_id : Bytes
  pub created_at : ℕ
  pub expires_at : Option ℕ
  pub active : Bool

-- The hex text of three random bytes.
unfoldable generate_subdomain : Option Bytes → Result Bytes
generate_subdomain none = err crypto
generate_subdomain (some drawn) = ok (hex_encode drawn)

module _ (parent_domain : Bytes) where
  unfoldable fqdn_of : Bytes → Bytes
  fqdn_of sub = sub ++ (codes "." ++ parent_domain)

  unfoldable format_email : Bytes → Bytes → Bytes
  format_email username subdomain =
      username ++ (codes "@" ++ (subdomain ++ (codes "." ++ parent_domain)))

  abbrev shared_domain : Bytes → Domain
  shared_domain sub = record {
    id = 0;
    name = fqdn_of sub;
    dkim_selector = [];
    dkim_private_key = [];
    dkim_public_key = [];
    is_primary = true;
    created_at = 0;
  }

  abbrev allocation : Bytes → Bytes → ℕ → Allocation
  allocation sub admin_username now = record {
    id = 0;
    subdomain = sub;
    fqdn = fqdn_of sub;
    owner_email = admin_username ++ (codes "@" ++ fqdn_of sub);
    server_id = [];
    created_at = now;
    expires_at = none;
    active = true;
  }

  -- A name that is taken is drawn once more, and then not looked up.
  abbrev drawn_again : Bytes → Option Bytes → Option Domain → Result Bytes
  drawn_again sub drawn none = ok sub
  drawn_again sub drawn (some existing) = generate_subdomain drawn

  -- Allocate; the password is not used.
  unfoldable allocate : ℕ → Option Bytes → Option Bytes → Bytes → Sql Tables Allocation
  allocate now first second_draw admin_username = do
    sub ← lift (generate_subdomain first)
    existing ← ignoring none (get_domain (fqdn_of sub))
    sub' ← lift (drawn_again sub second_draw existing)
    id ← create_domain (shared_domain sub') now
    pure (allocation sub' admin_username now)

  abbrev is_label_char : ℕ → Bool
  is_label_char c = (leb b'a' c && leb c b'z') || (leb b'0' c && leb c b'9') || (c == b'-')

  -- The three checks of a name in lower case.
  unfoldable is_label : Bytes → Bool
  is_label name =
      not (ltb (length name) 2 || ltb 63 (length name))
      && all is_label_char name
      && not (has_prefix name (codes "-") || has_suffix name (codes "-"))

  abbrev refuse_taken : Option Domain → Sql Tables (Unit {0})
  refuse_taken none = pure tt
  refuse_taken (some existing) = raise constraint

  -- GenerateCustomSubdomain
  unfoldable generate_custom_subdomain : ℕ → Bytes → Bytes → Sql Tables Allocation
  generate_custom_subdomain now text admin_username = do
    let name = to_lower (trim_space text)
    (if is_label name then pure tt else raise invalid_request)
    existing ← ignoring none (get_domain (fqdn_of name))
    refuse_taken existing
    id ← create_domain (shared_domain name) now
    pure (allocation name admin_username now)

email_test : format_email (codes "x.org") (codes "bob") (codes "a1") ≡ codes "bob@a1.x.org"
unfolding format_email
email_test = refl

label_test : is_label (codes "x.org") (codes "-a") ≡ false
unfolding is_label has_prefix has_suffix
label_test = refl
