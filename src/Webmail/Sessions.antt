-- ===== src/Webmail/Sessions.antt =====
-- SessionStore of internal/webmail/session.go, and requireAuthAPI of internal/webmail/webmail.go. The
-- clock and the random source are inputs.
pub mod Tokens
use ghostmail.Prelude.{
  ℕ, ◌*◌, ◌-◌, Bool, Option, none, some, List, [], ◌∷◌, ◌++◌, ltb, if◌then◌else◌, Bytes, not, true,
  false,
}
use ghostmail.Keyed.{get, put, remove, without}
use ghostmail.Text.Hex.{hex_encode}
use ghostmail.Crypto.Service.{SessionKeys}
use ghostmail.Storage.Schema.{second}

pub record WebSession : Type 0 where
  pub user_id : ℕ
  pub username : Bytes
  pub domain : Bytes
  pub is_admin : Bool
  pub keys : Option SessionKeys
  pub created_at : ℕ

-- The map of sessions by token, and the keys whose memory Release has wiped, the last first.
pub record SessionStore : Type 0 where
  pub sessions : List (Bytes × WebSession)
  pub released : List SessionKeys

unfoldable pub new_session_store : SessionStore
new_session_store = record { sessions = []; released = [] }

abbrev pub session_ttl : ℕ
session_ttl = 4 * (3600 * second)

-- now.Sub(sess.CreatedAt) > sessionTTL
abbrev pub is_over : ℕ → WebSession → Bool
is_over now sess = ltb session_ttl (now - sess.created_at)

-- if sess.Keys != nil { sess.Keys.Release() }
abbrev release_keys : WebSession → List SessionKeys → List SessionKeys
release_keys sess released = elim sess.keys [ none ↦ released | some keys ↦ keys ∷ released ]

unfoldable pub released_of :
    (WebSession → Bool) → List (Bytes × WebSession) → List SessionKeys → List SessionKeys
released_of dropped [] released = released
released_of dropped ((token, sess) ∷ rest) released =
    let others = released_of dropped rest released in
    if dropped sess then release_keys sess others else others

unfoldable pub sweep_expired : ℕ → SessionStore → SessionStore
sweep_expired now ss = record {
  sessions = without (λ token sess. is_over now sess) ss.sessions;
  released = released_of (is_over now) ss.sessions ss.released;
}

-- Create: the token is the hex text of 32 random bytes.
unfoldable pub create : Bytes → WebSession → SessionStore → Bytes × SessionStore
create drawn sess ss =
    let token = hex_encode drawn in (token, record ss { sessions = put token sess ss.sessions })

abbrev pub unless_over : ℕ → Option WebSession → Option WebSession
unless_over now none = none
unless_over now (some sess) = if is_over now sess then none else some sess

-- Get
unfoldable pub get_session : ℕ → Bytes → SessionStore → Option WebSession
get_session now token ss = unless_over now (get token ss.sessions)

abbrev release_found : Option WebSession → List SessionKeys → List SessionKeys
release_found none released = released
release_found (some sess) released = release_keys sess released

-- Delete
unfoldable pub delete : Bytes → SessionStore → SessionStore
delete token ss = record {
  sessions = remove token ss.sessions;
  released = release_found (get token ss.sessions) ss.released;
}

-- GetFromRequest; `none` is a request without the cookie.
unfoldable pub get_from_request : ℕ → Option Bytes → SessionStore → Option WebSession
get_from_request now none ss = none
get_from_request now (some token) ss = get_session now token ss

unfoldable pub release_all : SessionStore → SessionStore
release_all ss = record {
  sessions = [];
  released = released_of (λ sess. true) ss.sessions ss.released;
}
