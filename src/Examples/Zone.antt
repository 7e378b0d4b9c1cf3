-- ===== src/Examples/Zone.antt =====
-- The theorem on internal/dns, with a provider that is a list of records.
use ghostmail.Prelude.{
  ℕ, Bool, true, false, List, [], ◌∷◌, ◌&&◌, ◌==◌, any, map, equal_refl, equal, ap, Bytes, codes,
  ◌≡◌, refl, arith, All, Bool-cases, inl, inr,
}
use ghostmail.Result.{Result, ok, err}
use ghostmail.Text.{equal_fold, to_lower, lower}
use ghostmail.Sql.Rows.{select}
use ghostmail.Dns.{
  RecordType, a, aaaa, mx, txt, cname, DnsRecord, Provider, exists, required_records, setup_all,
  setup_each, setup_one,
}
use ghostmail.Dns.Setup.{IsListed, IsStore, has_failed, setup_all_twice}

abbrev rank : RecordType → ℕ
rank t = elim t [ a ↦ 0 | aaaa ↦ 1 | mx ↦ 2 | txt ↦ 3 | cname ↦ 4 ]

abbrev is_of : RecordType → Bytes → DnsRecord → Bool
is_of type name r = (rank r.type == rank type) && equal r.name name

-- A zone that lists its records of a type and a name.
abbrev zone : Provider
zone = record {
  State = List DnsRecord;
  create_record = λ domain rec s. (ok (codes "1"), rec ∷ s);
  list_records = λ domain type name s. (ok (select (is_of type name) s), s);
}

equal_fold_refl : (s : Bytes) → equal_fold s s ≡ true
unfolding equal_fold
equal_fold_refl s = equal_refl (to_lower s)

records_of : Result (List DnsRecord) → List DnsRecord
records_of (ok rs) = rs
records_of (err e) = []

abbrev has_value : DnsRecord → List DnsRecord → Bool
has_value rec rs = any (λ e. equal_fold e.value rec.value) rs

added :
    (s : List DnsRecord) (rec : DnsRecord)
    → has_value rec (select (is_of rec.type rec.name) s) ≡ true
    → IsListed zone (codes "x.org") s rec
added s rec h = record {
  existing = select (is_of rec.type rec.name) s;
  listed = refl;
  has_value = h;
}

lists_itself :
    (rec : DnsRecord) (s : List DnsRecord)
    → has_value rec (select (is_of rec.type rec.name) (rec ∷ s)) ≡ true
unfolding select
lists_itself rec s =
    let named : is_of rec.type rec.name rec ≡ true =
      let same = equal_refl rec.name in ground (arith, same) in
    let same = equal_fold_refl rec.value in rw named (ground (arith, same))

lists_still :
    (other rec : DnsRecord) (s : List DnsRecord)
    → has_value rec (select (is_of rec.type rec.name) s) ≡ true
    → has_value rec (select (is_of rec.type rec.name) (other ∷ s)) ≡ true
unfolding select
lists_still other rec s h = elim (Bool-cases (is_of rec.type rec.name other)) [
  | inl e ↦ rw e (ground (arith, h))
  | inr e ↦ rw e h
]

zone-IsStore : (recs : List DnsRecord) → IsStore zone (codes "x.org") recs
unfolding records_of
zone-IsStore recs = record {
  lists_created = λ rec id s s' there e.
      let grown : (rec ∷ s) ≡ s' = ap (λ r. r.1) e in
      rw (← grown) (added (rec ∷ s) rec (lists_itself rec s));
  keeps = λ other rec s here there h.
      let whole : select (is_of rec.type rec.name) s ≡ h.existing =
        ap (λ r. records_of r.0) h.listed in
      added (other ∷ s) rec (lists_still other rec s (rw whole h.has_value));
  list_only = λ rec s there. refl;
}

abbrev required : List DnsRecord
required = required_records (codes "x.org") [] (codes "192.0.2.1") []

abbrev first_run : List DnsRecord
first_run = (setup_all zone (codes "x.org") [] (codes "192.0.2.1") [] []).1

no_failure :
    All
      (λ r. has_failed zone (codes "x.org") r ≡ false)
      (setup_all zone (codes "x.org") [] (codes "192.0.2.1") [] []).0
unfolding setup_all setup_each setup_one required_records has_failed equal_fold equal to_lower lower
    select
no_failure = (refl, (refl, (refl, (refl, tt))))

setup_all_example :
    All (IsListed zone (codes "x.org") first_run) required
    × (setup_all zone (codes "x.org") [] (codes "192.0.2.1") [] first_run
        ≡ (map exists required, first_run))
setup_all_example =
    setup_all_twice zone (codes "x.org") [] (codes "192.0.2.1") [] [] (zone-IsStore required)
      no_failure
