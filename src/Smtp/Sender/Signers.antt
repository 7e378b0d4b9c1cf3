-- ===== src/Smtp/Sender/Signers.antt =====
-- The keys that the sender loads.
use ghostmail.Prelude.{
  Option, List, [], ◌∷◌, equal, map, Bytes, ◌≡◌, refl, ap, Bool, true, false, Bool-cases, inl, inr,
}
use ghostmail.Result.{ok}
use ghostmail.Sql.{Db, statement, query, ignoring, pure, ◌>>=◌}
use ghostmail.Sql.Rows.{order_by_text}
use ghostmail.Storage.Schema.{Tables, Domain}
use ghostmail.Storage.Domains.{listed_domain, list_domains}
use ghostmail.Smtp.Sender.{signers_of, load_dkim_keys}

module _ {Signer : Type 0} (new_rsa_signer : Bytes → Bytes → Bytes → Option Signer) where
  listed-signers_of :
      (domains : List Domain) → signers_of new_rsa_signer (map listed_domain domains) ≡ []
  unfolding signers_of equal
  listed-signers_of [] = refl
  listed-signers_of (d ∷ domains) = elim (Bool-cases (equal d.dkim_selector [])) [
    | inl e ↦ rw e (listed-signers_of domains)
    | inr e ↦ rw e (listed-signers_of domains)
  ]

  at_faults :
      (t : Tables) (faults : List Bool)
      → (load_dkim_keys new_rsa_signer (record { tables = t; faults = faults })).0 ≡ ok []
  unfolding load_dkim_keys list_domains query statement ignoring pure ◌>>=◌ signers_of
  at_faults t [] = ap ok (listed-signers_of (order_by_text (λ d. d.name) t.domains))
  at_faults t (true ∷ rest) = refl
  at_faults t (false ∷ rest) = ap ok (listed-signers_of (order_by_text (λ d. d.name) t.domains))

  -- Whatever domains and keys the store has, whatever NewRSASigner makes of a key and whichever
  -- statements the engine fails, the sender loads no signer.
  pub load_dkim_keys-none : (db : Db Tables) → (load_dkim_keys new_rsa_signer db).0 ≡ ok []
  load_dkim_keys-none db = at_faults db.tables db.faults
