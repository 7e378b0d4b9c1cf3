-- ===== src/Dns.antt =====
-- internal/dns/provider.go and internal/dns/detect.go. A provider is its methods over a state of its
-- own, and the look-ups of the net package are inputs.
pub mod Setup
use ghostmail.Prelude.{
  ℕ, Bool, true, false, ◌&&◌, ◌||◌, Option, none, some, List, [], ◌∷◌, ◌++◌, map, any, equal,
  if◌then◌else◌, Bytes, codes, length, take, ◌-◌,
}
use ghostmail.Result.{Error, not_found, Result, ok, err}
use ghostmail.Text.{equal_fold, has_prefix, has_suffix, contains, to_lower, join}

pub data RecordType : Type 0 where
  a aaaa mx txt cname : RecordType

pub record DnsRecord : Type 0 where
  pub type : RecordType
  pub name : Bytes
  pub value : Bytes
  pub priority : ℕ
  pub ttl : ℕ

-- The methods that SetupAll calls.
pub record Provider : Type 1 where
  pub State : Type 0
  pub create_record : Bytes → DnsRecord → State → Result Bytes × State
  pub list_records : Bytes → RecordType → Bytes → State → Result (List DnsRecord) × State

abbrev hostname_or_mail : Bytes → Bytes → Bytes
hostname_or_mail hostname domain = if equal hostname [] then codes "mail." ++ domain else hostname

abbrev an_hour : ℕ
an_hour = 3600

abbrev text_record : Bytes → Bytes → DnsRecord
text_record name value = record {
  type = txt;
  name = name;
  value = value;
  priority = 0;
  ttl = an_hour;
}

unfoldable pub required_records : Bytes → Bytes → Bytes → Bytes → List DnsRecord
required_records domain hostname server_ip dkim_record =
    let host = hostname_or_mail hostname domain in
    (record { type = a; name = host; value = server_ip; priority = 0; ttl = an_hour }
      ∷ record { type = mx; name = domain; value = host; priority = 10; ttl = an_hour }
      ∷ text_record domain (codes "v=spf1 mx a -all")
      ∷ text_record (codes "_dmarc." ++ domain)
          (codes "v=DMARC1; p=reject; sp=reject; adkim=s; aspf=s")
      ∷ [])
    ++ (if equal dkim_record []
        then []
        else text_record (codes "ghostmail._domainkey." ++ domain) dkim_record ∷ [])

-- SetupResult, by its status.
pub data SetupResult : Type 0 where
  created : DnsRecord → Bytes → SetupResult
  exists : DnsRecord → SetupResult
  failed : DnsRecord → Error → SetupResult

module _ (p : Provider) where
  abbrev pub same_value : DnsRecord → DnsRecord → Bool
  same_value rec e = equal_fold e.value rec.value

  abbrev pub creation : DnsRecord → Result Bytes × p.State → SetupResult × p.State
  creation rec (ok id, s) = (created rec id, s)
  creation rec (err e, s) = (failed rec e, s)

  abbrev pub unless_listed :
      Bytes → DnsRecord → Result (List DnsRecord) × p.State → SetupResult × p.State
  unless_listed domain rec (err e, s) = (failed rec e, s)
  unless_listed domain rec (ok existing, s) =
      if any (same_value rec) existing
      then (exists rec, s)
      else creation rec (p.create_record domain rec s)

  -- One round of the loop.
  unfoldable pub setup_one : Bytes → DnsRecord → p.State → SetupResult × p.State
  setup_one domain rec s = unless_listed domain rec (p.list_records domain rec.type rec.name s)

  unfoldable pub setup_each : Bytes → List DnsRecord → p.State → List SetupResult × p.State
  setup_each domain [] s = ([], s)
  setup_each domain (rec ∷ recs) s =
      let (result, s') = setup_one domain rec s in
      let (results, s'') = setup_each domain recs s' in (result ∷ results, s'')

  -- SetupAll
  unfoldable pub setup_all : Bytes → Bytes → Bytes → Bytes → p.State → List SetupResult × p.State
  setup_all domain hostname server_ip dkim_record =
      setup_each domain (required_records domain hostname server_ip dkim_record)

-- The look-ups: the addresses of a host, the mail hosts and the texts of a name, [] for an error.
record Lookups : Type 0 where
  pub hosts : Bytes → List Bytes
  pub mail_hosts : Bytes → List Bytes
  pub texts : Bytes → List Bytes

record VerifyResult : Type 0 where
  pub type : RecordType
  pub name : Bytes
  pub passed : Bool

-- strings.TrimSuffix(s, ".")
unfoldable trim_dot : Bytes → Bytes
trim_dot s = if has_suffix s (codes ".") then take (length s - 1) s else s

-- VerifyAll, without the details that it prints.
unfoldable verify_all : Lookups → Bytes → Bytes → Bytes → List VerifyResult
verify_all net domain hostname server_ip =
    let host = hostname_or_mail hostname domain in
    let dmarc = codes "_dmarc." ++ domain in
    let dkim = codes "ghostmail._domainkey." ++ domain in
    record { type = a; name = host; passed = any (λ ip. equal ip server_ip) (net.hosts host) }
    ∷ record {
      type = mx;
      name = domain;
      passed = any (λ h. equal (trim_dot h) host) (net.mail_hosts domain);
    }
    ∷ record {
      type = txt;
      name = domain ++ codes " (SPF)";
      passed = any (λ t. has_prefix t (codes "v=spf1")) (net.texts domain);
    }
    ∷ record {
      type = txt;
      name = dmarc ++ codes " (DMARC)";
      passed = any (λ t. has_prefix t (codes "v=DMARC1")) (net.texts dmarc);
    }
    ∷ record {
      type = txt;
      name = dkim ++ codes " (DKIM)";
      passed = any (λ t. contains t (codes "p=")) (net.texts dkim);
    }
    ∷ []

-- knownProviders
unfoldable known_providers : List (Bytes × List Bytes)
known_providers =
    (codes "cloudflare", codes ".ns.cloudflare.com" ∷ [])
    ∷ (codes "digitalocean", codes ".digitalocean.com" ∷ [])
    ∷ (codes "route53", codes ".awsdns-" ∷ [])
    ∷ (codes "namecheap", codes ".registrar-servers.com" ∷ [])
    ∷ (codes "google", codes ".googledomains.com" ∷ codes ".google.com" ∷ [])
    ∷ (codes "godaddy", codes ".domaincontrol.com" ∷ [])
    ∷ (codes "hetzner", codes ".hetzner.com" ∷ [])
    ∷ (codes "vultr", codes ".vultr.com" ∷ [])
    ∷ (codes "linode", codes ".linode.com" ∷ [])
    ∷ (codes "porkbun", codes ".porkbun.com" ∷ [])
    ∷ (codes "vercel", codes ".vercel-dns.com" ∷ [])
    ∷ []

-- The first provider of which the host has a pattern.
unfoldable provider_of : Bytes → List (Bytes × List Bytes) → Option Bytes
provider_of host [] = none
provider_of host ((name, patterns) ∷ providers) =
    let later = provider_of host providers in
    if any (λ pattern. contains host pattern) patterns then some name else later

-- The loops of DetectProvider over the name servers.
unfoldable detect_provider : List Bytes → Option Bytes
detect_provider [] = none
detect_provider (ns ∷ nameservers) = elim (provider_of (to_lower (trim_dot ns)) known_providers) [
  | some name ↦ some name
  | none ↦ detect_provider nameservers
]
