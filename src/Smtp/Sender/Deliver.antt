-- ===== src/Smtp/Sender/Deliver.antt =====
-- deliver, tryPGPEncrypt and sendToHost of internal/smtp/sender.go. What the SMTP client of the library
-- returns at each step, the look-ups, PGP and DKIM are inputs; an error is its text.
pub mod Once
use ghostmail.Prelude.{
  ℕ, suc, Bool, true, false, Option, none, some, List, [], ◌∷◌, ◌++◌, drop, take, length, ◌-◌,
  if◌then◌else◌, Bytes, codes,
}
use ghostmail.Text.{has_prefix, has_suffix, split_2}
use ghostmail.Keyed.{get}
use ghostmail.Sql.{Sql, pure, ignoring, ◌>>=◌}
use ghostmail.Storage.Schema.{Tables, QueueItem, PgpKey}
use ghostmail.Storage.PgpKeyring.{lookup_pgp_key}
use ghostmail.Smtp.Message.{extract_addr}
use ghostmail.Smtp.Headers.{StripConfig, HeaderEnv, strip_headers}

-- The client of one connection: what its methods return, `none` for no error. STARTTLS, whose errors
-- are dropped, comes before Mail and is part of what the others return.
pub record Peer : Type 0 where
  pub dial : Option Bytes
  pub mail_from : Bytes → Option Bytes
  pub rcpt_to : Bytes → Option Bytes
  pub open_data : Option Bytes
  pub write : Bytes → Option Bytes
  pub close_data : Option Bytes
  pub quit : Option Bytes

-- What a server answered the end of the data for: from then on the message is its own.
pub record Receipt : Type 0 where
  pub addr : Bytes
  pub from : Bytes
  pub to : Bytes
  pub message : Bytes

-- The error and the receipts of one call.
abbrev pub Outcome : Type 0
Outcome = Option Bytes × List Receipt

abbrev pub step : Bytes → Option Bytes → Outcome → Outcome
step what none next = next
step what (some e) next = (some (what ++ codes ": " ++ e), [])

-- sendToHost
unfoldable pub send_to_host : Peer → Receipt → Outcome
send_to_host p r = step (codes "connecting to " ++ r.addr) p.dial (
    step (codes "MAIL FROM") (p.mail_from r.from) (
      step (codes "RCPT TO") (p.rcpt_to r.to) (
        step (codes "DATA") p.open_data (
          step (codes "writing message") (p.write r.message)
            (step (codes "closing data") p.close_data (p.quit, r ∷ []))))))

-- host + ":25", without a dot at the end of the host.
unfoldable pub mx_addr : Bytes → Bytes
mx_addr host =
    (if has_suffix host (codes ".") then take (length host - 1) host else host) ++ codes ":25"

-- After one host: done, or what the others come to.
abbrev pub or_next : Outcome → (Bytes → Outcome) → Outcome
or_next (none, taken) rest = (none, taken)
or_next (some e, taken) rest = let (error, others) = rest e in (error, taken ++ others)

-- The loop over the MX hosts; connection i is the i-th that is opened.
unfoldable pub try_each : (ℕ → Bytes → Peer) → Receipt → ℕ → List Bytes → Bytes → Outcome
try_each peers r i [] last = (some (codes "all MX hosts failed: " ++ last), [])
try_each peers r i (host ∷ hosts) last =
    let addr = mx_addr host in
    or_next (send_to_host (peers i addr) (record r { addr = addr }))
      (try_each peers r (suc i) hosts)

-- The hosts that LookupMX returns, [] where it fails; then the domain itself.
abbrev pub or_domain : Bytes → List Bytes → List Bytes
or_domain domain [] = domain ∷ []
or_domain domain (host ∷ hosts) = host ∷ hosts

pub record Network : Type 0 where
  pub lookup_mx : Bytes → List Bytes
  pub peers : ℕ → Bytes → Peer

-- Signers by the domain, and what the libraries make of a message.
pub record Outgoing : Type 0 where
  pub headers : HeaderEnv
  pub strip : StripConfig
  pub encrypt_mime : Bytes → Bytes → Option Bytes
  pub signers : List (Bytes × (Bytes → Option Bytes))

abbrev pub or_same : Bytes → Option Bytes → Bytes
or_same message none = message
or_same message (some changed) = changed

abbrev pub encrypted_for : Outgoing → Bytes → Option PgpKey → Bytes
encrypted_for o message none = message
encrypted_for o message (some key) = or_same message (o.encrypt_mime message key.public_key)

-- tryPGPEncrypt
unfoldable pub try_pgp_encrypt : Outgoing → Bytes → Bytes → Sql Tables Bytes
try_pgp_encrypt o recipient message = do
  key ← ignoring none (lookup_pgp_key recipient)
  pure (encrypted_for o message key)

abbrev pub unquoted : Bytes → Bytes
unquoted s =
    let t = if has_prefix s (codes "<") then drop 1 s else s in
    if has_suffix t (codes ">") then take (length t - 1) t else t

abbrev pub signed_by : Bytes → Option (Bytes → Option Bytes) → Bytes
signed_by message none = message
signed_by message (some sign) = or_same message (sign message)

-- A sender without '@' has no domain and no signer.
abbrev pub signed_for : Outgoing → Bytes → Option (Bytes × Bytes) → Bytes
signed_for o message none = message
signed_for o message (some (local_part, domain)) =
    signed_by message (get (unquoted domain) o.signers)

module _ (o : Outgoing) (net : Network) where
  abbrev pub deliver_parts : ℕ → QueueItem → Option (Bytes × Bytes) → Sql Tables (Outcome × ℕ)
  deliver_parts counter item none =
      pure ((some (codes "invalid recipient: " ++ item.to_addr), []), counter)
  deliver_parts counter item (some (local_part, domain)) = do
    let stripped = strip_headers o.headers o.strip counter item.message_data
    message ← try_pgp_encrypt o (extract_addr item.to_addr) stripped.0
    let receipt : Receipt = record {
      addr = [];
      from = extract_addr item.from_addr;
      to = extract_addr item.to_addr;
      message = signed_for o message (split_2 item.from_addr b'@');
    }
    pure (try_each net.peers receipt 0 (or_domain domain (net.lookup_mx domain)) [], stripped.1)

  -- deliver, with the counter of generated Message-IDs.
  unfoldable pub deliver : ℕ → QueueItem → Sql Tables (Outcome × ℕ)
  deliver counter item = deliver_parts counter item (split_2 item.to_addr b'@')
