-- ===== src/Examples/Panel.antt =====
-- The theorems on the admin panel at the data of the parent module.
use ghostmail.Prelude.{arith, none, some, true, List, [], ◌∷◌, equal, codes, ◌*◌, ◌≡◌, refl}
use ghostmail.Result.{ok}
use ghostmail.Sql.{healthy}
use ghostmail.Sql.Rows.{find}
use ghostmail.Storage.Schema.{Tables, User, second}
use ghostmail.Storage.Users.{is_named}
use ghostmail.Storage.Audit.{append_entry}
use ghostmail.Admin.Login.{split_addr, split_reversed, handle_login, require_auth}
use ghostmail.Admin.Login.Tokens.{
  Step, logs_in, logs_out, run_steps, last_login, is_recent, require_auth-last_login,
}
use ghostmail.Admin.Login.StoredHash.{handle_login-stored_hash}
use ghostmail.Examples.{toy, alice, tables}
use ghostmail.Examples.Login.{json}

abbrev admin : User
admin = record alice {
  is_admin = true;
  password_hash = codes "0707";
  key_params = 49 ∷ 3 ∷ 65536 ∷ 4 ∷ 1 ∷ [];
}

abbrev with_admin : Tables
with_admin = record tables { users = admin ∷ [] }

address_split : split_addr (codes "alice@x.org") ≡ some (codes "alice", codes "x.org")
unfolding split_addr split_reversed
address_split = refl

admin_found : find (is_named (codes "alice") (codes "x.org")) with_admin.users ≡ some admin
unfolding find equal
admin_found = refl

handle_login_example :
    handle_login toy json 9 (codes "alice@x.org") (codes "0707") (healthy with_admin) ≡ (
      ok (codes "alice@x.org"),
      healthy (append_entry (codes "alice@x.org") (codes "admin.login") [] 9 with_admin),
    )
handle_login_example =
    handle_login-stored_hash toy json 9 (codes "alice@x.org") (codes "alice") (codes "x.org")
      with_admin admin (record { time = 3; memory = 65536; threads = 4; salt = 1 ∷ [] })
      address_split admin_found refl refl (omega arith) (omega arith)

abbrev steps : List Step
steps =
    logs_in (1 ∷ 2 ∷ []) (codes "alice") 5
    ∷ logs_in (3 ∷ []) (codes "alice") 6
    ∷ logs_out (codes "03")
    ∷ []

require_auth_example :
    require_auth (60 * second) (some (codes "0102")) (run_steps steps [])
    ≡ is_recent (60 * second) (last_login (codes "0102") none steps)
require_auth_example = require_auth-last_login (60 * second) (codes "0102") steps
