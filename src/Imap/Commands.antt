-- ===== src/Imap/Commands.antt =====
-- The commands of internal/imap/session.go and fetch.go that write to the store, as data.
use ghostmail.Prelude.{ℕ, Bool, Option, Bytes}
use ghostmail.Sql.{Sql, pure, ◌>>◌}
use ghostmail.Sql.Keeps.{Keeps, Keeps-pure, Keeps-bind}
use ghostmail.Crypto.Primitives.{Primitives}
use ghostmail.Storage.Schema.{Tables}
use ghostmail.Storage.Uids.{UidsInRange}
use ghostmail.Imap.Session.{Session}
use ghostmail.Imap.Mailboxes.{create, delete, rename, set_subscribed, AppendEnv, append}
use ghostmail.Imap.Fetch.{StoreFlags, NumSet, FetchOptions, FetchEnv, fetch, store}
use ghostmail.Imap.Moving.{expunge, copy, Order, move}
use ghostmail.Imap.Uids.{
  create-UidsInRange, delete-UidsInRange, rename-UidsInRange, set_subscribed-UidsInRange,
  append-UidsInRange, fetch-UidsInRange, store-UidsInRange, expunge-UidsInRange, copy-UidsInRange,
  move-UidsInRange,
}

-- A command of a session that writes to the store.
pub data Command : Type 0 where
  creates : Bytes → ℕ → Command
  drops : Bytes → Command
  renames : Bytes → Bytes → Command
  subscribes : Bytes → Bool → Command
  appends : Bytes → AppendEnv → Command
  fetches : FetchEnv → NumSet → FetchOptions → Command
  stores : FetchEnv → NumSet → StoreFlags → Command
  expunges : Option (ℕ → Bool) → (ℕ → Bool) → Command
  copies : Order → NumSet → Bytes → Command
  moves : Order → NumSet → Bytes → Bool → (ℕ → Bool) → Command

pub perform : Primitives → Session → Command → Sql Tables (Unit {0})
perform p s (creates name now) = create s name now
perform p s (drops name) = delete s name
perform p s (renames name new_name) = rename s name new_name
perform p s (subscribes name value) = set_subscribed s name value
perform p s (appends name env) = append s name env >> pure tt
perform p s (fetches env set options) = fetch p s env set options >> pure tt
perform p s (stores env set sf) = store s env set sf >> pure tt
perform p s (expunges uids writes) = expunge s uids writes >> pure tt
perform p s (copies order set dest) = copy s order set dest >> pure tt
perform p s (moves order set dest accepts writes) = move s order set dest accepts writes >> pure tt

done-UidsInRange :
    {A : Type 0} (m : Sql Tables A) → Keeps UidsInRange m → Keeps UidsInRange (m >> pure tt)
done-UidsInRange m k = Keeps-bind _ _ k (λ a. Keeps-pure tt)

pub perform-UidsInRange :
    (p : Primitives) (s : Session) (c : Command) → Keeps UidsInRange (perform p s c)
unfolding perform
perform-UidsInRange p s (creates name now) = create-UidsInRange s name now
perform-UidsInRange p s (drops name) = delete-UidsInRange s name
perform-UidsInRange p s (renames name new_name) = rename-UidsInRange s name new_name
perform-UidsInRange p s (subscribes name value) = set_subscribed-UidsInRange s name value
perform-UidsInRange p s (appends name env) = done-UidsInRange _ (append-UidsInRange s name env)
perform-UidsInRange p s (fetches env set options) =
    done-UidsInRange _ (fetch-UidsInRange p s env set options)
perform-UidsInRange p s (stores env set sf) = done-UidsInRange _ (store-UidsInRange s env set sf)
perform-UidsInRange p s (expunges uids writes) =
    done-UidsInRange _ (expunge-UidsInRange s uids writes)
perform-UidsInRange p s (copies order set dest) =
    done-UidsInRange _ (copy-UidsInRange s order set dest)
perform-UidsInRange p s (moves order set dest accepts writes) =
    done-UidsInRange _ (move-UidsInRange s order set dest accepts writes)
