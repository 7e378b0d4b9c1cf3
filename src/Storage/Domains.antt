-- ===== src/Storage/Domains.antt =====
-- internal/storage/domains.go
use ghostmail.Prelude.{
  ℕ, suc, Bool, Option, List, [], ◌∷◌, ◌++◌, map, ◌==◌, ltb, equal, any, if◌then◌else◌, Bytes,
}
use ghostmail.Result.{constraint, ok, err}
use ghostmail.Sql.{Sql, statement, query, exec}
use ghostmail.Sql.Rows.{find, delete, count, order_by_text}
use ghostmail.Storage.Schema.{Tables, Domain, unix}

abbrev pub has_name : Bytes → Domain → Bool
has_name name d = equal d.name name

-- INSERT INTO domains, with its UNIQUE name.
unfoldable pub create_domain : Domain → ℕ → Sql Tables ℕ
create_domain d now = statement λ t.
    if any (has_name d.name) t.domains
    then err constraint
    else ok (
      suc t.last_domain,
      record t {
        domains = t.domains ++ record d { id = suc t.last_domain; created_at = unix now } ∷ [];
        last_domain = suc t.last_domain;
      },
    )

unfoldable pub get_domain : Bytes → Sql Tables (Option Domain)
get_domain name = query (λ t. find (has_name name) t.domains)

-- The columns that ListDomains asks for: not the private key.
abbrev pub listed_domain : Domain → Domain
listed_domain d = record d { dkim_private_key = [] }

-- ORDER BY name
unfoldable pub list_domains : Sql Tables (List Domain)
list_domains = query (λ t. map listed_domain (order_by_text (λ d. d.name) t.domains))

unfoldable pub delete_domain : ℕ → Sql Tables (Unit {0})
delete_domain id = exec (λ t. record t { domains = delete (λ d. d.id == id) t.domains })

unfoldable pub is_local_domain : Bytes → Sql Tables Bool
is_local_domain name = query (λ t. ltb 0 (count (has_name name) t.domains))
