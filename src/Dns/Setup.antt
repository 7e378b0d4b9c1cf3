-- ===== src/Dns/Setup.antt =====
-- SetupAll run twice.
use ghostmail.Prelude.{
  Bool, true, false, List, [], ◌∷◌, map, any, Bytes, ◌≡◌, refl, ap, All, Bool-cases, inl, inr,
}
use ghostmail.Result.{Result, ok, err}
use ghostmail.Text.{equal_fold}
use ghostmail.Sql.Members.{Has, All-Has}
use ghostmail.Dns.{
  DnsRecord, Provider, SetupResult, created, exists, failed, same_value, creation, unless_listed,
  setup_one, setup_each, required_records, setup_all,
}

module _ (p : Provider) (domain : Bytes) where
  -- A listing of the record's type and name succeeds and has its value, up to the letters' case.
  pub record IsListed (s : p.State) (rec : DnsRecord) : Type 0 where
    pub existing : List DnsRecord
    pub listed : p.list_records domain rec.type rec.name s ≡ (ok existing, s)
    pub has_value : any (λ e. equal_fold e.value rec.value) existing ≡ true

  -- Of these records a provider lists what it was made to create, keeps it when it creates another of
  -- them, and changes nothing by a listing.
  pub record IsStore (recs : List DnsRecord) : Type 0 where
    pub lists_created :
        (rec : DnsRecord) (id : Bytes) (s s' : p.State)
        → Has rec recs
        → p.create_record domain rec s ≡ (ok id, s')
        → IsListed s' rec
    pub keeps :
        (other rec : DnsRecord) (s : p.State)
        → Has other recs
        → Has rec recs
        → IsListed s rec
        → IsListed (p.create_record domain other s).1 rec
    pub list_only :
        (rec : DnsRecord) (s : p.State)
        → Has rec recs
        → (p.list_records domain rec.type rec.name s).1 ≡ s

  unfoldable pub has_failed : SetupResult → Bool
  has_failed (created rec id) = false
  has_failed (exists rec) = false
  has_failed (failed rec e) = true

  -- A record that is listed is left as it is.
  setup_one-IsListed :
      (rec : DnsRecord) (s : p.State) → IsListed s rec → setup_one p domain rec s ≡ (exists rec, s)
  unfolding setup_one
  setup_one-IsListed rec s h = rw h.listed (rw h.has_value refl)

  setup_each-IsListed :
      (recs : List DnsRecord) (s : p.State)
      → All (IsListed s) recs
      → setup_each p domain recs s ≡ (map exists recs, s)
  unfolding setup_each
  setup_each-IsListed [] s hs = refl
  setup_each-IsListed (rec ∷ recs) s (h, hs) =
      rw (setup_one-IsListed rec s h) (rw (setup_each-IsListed recs s hs) refl)

  module _ (required : List DnsRecord) (store : IsStore required) where
    creation-IsListed :
        (rec : DnsRecord) (r : Result Bytes) (s s' : p.State)
        → Has rec required
        → p.create_record domain rec s ≡ (r, s')
        → has_failed (creation p rec (r, s')).0 ≡ false
        → IsListed (creation p rec (r, s')).1 rec
    unfolding has_failed
    creation-IsListed rec (ok id) s s' h e done = store.lists_created rec id s s' h e
    creation-IsListed rec (err x) s s' h e done = absurd cc

    creation-keeps :
        (rec other : DnsRecord) (r : Result Bytes × p.State)
        → IsListed r.1 rec
        → IsListed (creation p other r).1 rec
    creation-keeps rec other (ok id, s) h = h
    creation-keeps rec other (err e, s) h = h

    -- What a listing of the same state leads to.
    unless_listed-IsListed :
        (rec : DnsRecord) (r : Result (List DnsRecord)) (s : p.State)
        → Has rec required
        → p.list_records domain rec.type rec.name s ≡ (r, s)
        → has_failed (unless_listed p domain rec (r, s)).0 ≡ false
        → IsListed (unless_listed p domain rec (r, s)).1 rec
    unfolding has_failed
    unless_listed-IsListed rec (err x) s h e done = absurd cc
    unless_listed-IsListed rec (ok existing) s h e done =
        elim (Bool-cases (any (same_value p rec) existing)) [
          | inl found ↦ rw found (record { existing = existing; listed = e; has_value = found })
          | inr missing ↦ rw missing (
              creation-IsListed rec (p.create_record domain rec s).0 s
                (p.create_record domain rec s).1 h refl (rw missing at done))
        ]

    unless_listed-keeps :
        (rec other : DnsRecord) (r : Result (List DnsRecord)) (s : p.State)
        → Has other required
        → Has rec required
        → IsListed s rec
        → IsListed (unless_listed p domain other (r, s)).1 rec
    unless_listed-keeps rec other (err x) s here there h = h
    unless_listed-keeps rec other (ok existing) s here there h =
        elim (Bool-cases (any (same_value p other) existing)) [
          | inl found ↦ rw found h
          | inr missing ↦ rw missing (
              creation-keeps rec other (p.create_record domain other s)
                (store.keeps other rec s here there h))
        ]

    listing :
        (rec : DnsRecord) (s : p.State)
        → Has rec required
        → p.list_records domain rec.type rec.name s
          ≡ ((p.list_records domain rec.type rec.name s).0, s)
    listing rec s h =
        ap (λ t. ((p.list_records domain rec.type rec.name s).0, t)) (store.list_only rec s h)

    setup_each-keeps :
        (rec : DnsRecord) (recs : List DnsRecord) (s : p.State)
        → Has rec required
        → All (λ x. Has x required) recs
        → IsListed s rec
        → IsListed (setup_each p domain recs s).1 rec
    unfolding setup_each setup_one
    setup_each-keeps rec [] s there all h = h
    setup_each-keeps rec (other ∷ recs) s there (here, all) h =
        setup_each-keeps rec recs _ there all
          (rw (listing other s here) (unless_listed-keeps rec other _ s here there h))

    setup_each-done :
        (recs : List DnsRecord) (s : p.State)
        → All (λ x. Has x required) recs
        → All (λ r. has_failed r ≡ false) (setup_each p domain recs s).0
        → All (IsListed (setup_each p domain recs s).1) recs
    unfolding setup_each setup_one
    setup_each-done [] s all done = tt
    setup_each-done (rec ∷ recs) s (here, all) (one, done) = (
      setup_each-keeps rec recs _ here all (
          rw (listing rec s here) (
            unless_listed-IsListed rec _ s here (listing rec s here)
              (rw (listing rec s here) at one))),
      setup_each-done recs _ all done,
    )

-- With a provider that lists the required records once it has created them and keeps them: after a
-- SetupAll that reports no error every required record is listed, and a second SetupAll with the same
-- arguments reports every one of them as there and changes nothing.
pub setup_all_twice :
    (p : Provider) (domain hostname server_ip dkim_record : Bytes) (s : p.State)
    → IsStore p domain (required_records domain hostname server_ip dkim_record)
    → All
        (λ r. has_failed p domain r ≡ false)
        (setup_all p domain hostname server_ip dkim_record s).0
    → (let s' = (setup_all p domain hostname server_ip dkim_record s).1 in
        let required = required_records domain hostname server_ip dkim_record in
        All (IsListed p domain s') required
        × (setup_all p domain hostname server_ip dkim_record s' ≡ (map exists required, s')))
unfolding setup_all
setup_all_twice p domain hostname server_ip dkim_record s store done =
    let required = required_records domain hostname server_ip dkim_record in
    let listed = setup_each-done p domain required store required s (All-Has required) done in
    (listed, setup_each-IsListed p domain required _ listed)
