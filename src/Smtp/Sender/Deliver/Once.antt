-- ===== src/Smtp/Sender/Deliver/Once.antt =====
-- How many servers take a message over in one call of deliver.
use mathlib.Core.List.{reverse-append, reverse-reverse}
use ghostmail.Prelude.{
  ap, ◌-◌, ◌+◌, take, reverse, ◌⊎◌, inl, inr, Bool-cases, length-append, ℕ, suc, true, false, Bool,
  Option, none, some, List, [], ◌∷◌, ◌++◌, length, Bytes, codes, sym, ◌∙◌, ◌≡◌, refl, arith,
}
use ghostmail.Result.{ok}
use ghostmail.Text.{split_2, has_suffix, has_prefix}
use ghostmail.Smtp.Message.{extract_addr}
use ghostmail.Crypto.Envelope.RoundTrip.{take-append}
use ghostmail.Sql.{Db, statement, query, ignoring, pure, ◌>>=◌}
use ghostmail.Storage.Schema.{Tables, QueueItem}
use ghostmail.Storage.PgpKeyring.{lookup_pgp_key}
use ghostmail.Smtp.Sender.Deliver.{
  Peer, Receipt, Outcome, Network, Outgoing, send_to_host, try_each, try_pgp_encrypt, deliver_parts,
  deliver, or_domain, mx_addr, or_next,
}

-- One receipt without an error, none with one.
abbrev pub expected : Option Bytes → ℕ
expected none = 1
expected (some e) = 0

abbrev pub IsTakenOnce : Outcome → Type 0
IsTakenOnce r = length r.1 ≡ expected r.0

-- The server takes every message over, and the QUIT fails.
pub record AcceptsUnclosed (p : Peer) : Type 0 where
  pub dial : p.dial ≡ none
  pub mail_from : (from : Bytes) → p.mail_from from ≡ none
  pub rcpt_to : (to : Bytes) → p.rcpt_to to ≡ none
  pub open_data : p.open_data ≡ none
  pub write : (message : Bytes) → p.write message ≡ none
  pub close_data : p.close_data ≡ none
  pub error : Bytes
  pub quit : p.quit ≡ some error

-- Port 25 of a host, whose final dot is left out.
abbrev pub AddrOf : Bytes → Bytes → Type 0
AddrOf host addr =
    ((has_suffix host (codes ".") ≡ false) × (addr ≡ host ++ codes ":25"))
    ⊎ ((name : Bytes) × (host ≡ name ++ codes ".") × (addr ≡ name ++ codes ":25"))

-- One receipt for each host, in their order, all of one message from one sender to one recipient.
abbrev pub AreCopies : Bytes → Bytes → Bytes → List Bytes → List Receipt → Type 0
AreCopies from to message [] [] = Unit {0}
AreCopies from to message [] (r ∷ rs) = ⊥
AreCopies from to message (host ∷ hosts) [] = ⊥
AreCopies from to message (host ∷ hosts) (r ∷ rs) =
    AddrOf host r.addr
    × (r.from ≡ from)
    × (r.to ≡ to)
    × (r.message ≡ message)
    × AreCopies from to message hosts rs

-- An error, and a copy of the item's message at each of the hosts.
abbrev pub IsCopied : QueueItem → List Bytes → Outcome → Type 0
IsCopied item hosts r =
    ((e : Bytes) × (r.0 ≡ some e))
    × ((message : Bytes) × AreCopies (extract_addr item.from_addr) (extract_addr item.to_addr)
          message hosts r.1)

take-last : (b : Bytes) (c : ℕ) → take (length (b ++ c ∷ []) - 1) (b ++ c ∷ []) ≡ b
take-last b c = rw (one_less (length-append b (c ∷ []))) (take-append (length b) b (c ∷ []) refl)
  where
    one_less : {n : ℕ} → n ≡ length b + 1 → n - 1 ≡ length b
    one_less e = omega arith

trimmed : (host name : Bytes) → host ≡ name ++ codes "." → take (length host - 1) host ≡ name
trimmed host name e = rw e (take-last name b'.')

-- What ends in a dot, by its reverse.
dotted :
    (host s : Bytes)
    → reverse s ≡ host
    → has_prefix s (codes ".") ≡ true
    → (name : Bytes) × (host ≡ name ++ codes ".")
unfolding has_prefix
dotted host [] e h = absurd (ground arith)
dotted host (c ∷ s) e h =
    let dot : c ≡ b'.' = ground arith in
    (reverse s, sym e ∙ reverse-append (c ∷ []) s ∙ ap (λ d. reverse s ++ d ∷ []) dot)

mx_addr-AddrOf : (host : Bytes) → AddrOf host (mx_addr host)
unfolding mx_addr has_suffix
mx_addr-AddrOf host = elim (Bool-cases (has_suffix host (codes "."))) [
  | inr bare ↦ rw bare (inl (refl, refl))
  | inl ends ↦
      let (name, e) = dotted host (reverse host) (reverse-reverse host) ends in
      rw ends (inr (name, e, ap (λ s. s ++ codes ":25") (trimmed host name e)))
]

module _ (peers : ℕ → Bytes → Peer)
    (quits : (i : ℕ) (addr : Bytes) → (peers i addr).quit ≡ none) where
  send_to_host-IsTakenOnce :
      (i : ℕ) (addr : Bytes) (r : Receipt) → IsTakenOnce (send_to_host (peers i addr) r)
  unfolding send_to_host
  send_to_host-IsTakenOnce i addr r = ground (arith, quits i addr)

  try_each-IsTakenOnce :
      (r : Receipt) (i : ℕ) (hosts : List Bytes) (last : Bytes)
      → IsTakenOnce (try_each peers r i hosts last)
  unfolding try_each
  try_each-IsTakenOnce r i [] last = refl
  try_each-IsTakenOnce r i (host ∷ hosts) last =
      next (send_to_host (peers i (mx_addr host)) (record r { addr = mx_addr host }))
        (send_to_host-IsTakenOnce i (mx_addr host) _) (try_each peers r (suc i) hosts)
        (λ e. try_each-IsTakenOnce r (suc i) hosts e)
    where
      next :
          (first : Outcome)
          → IsTakenOnce first
          → (rest : Bytes → Outcome) → ((e : Bytes) → IsTakenOnce (rest e))
          → IsTakenOnce (or_next first rest)
      next (none, taken) h rest k = h
      next (some e, []) h rest k = k e
      next (some e, r ∷ taken) h rest k = absurd (omega (arith, h))

module _ (peers : ℕ → Bytes → Peer)
    (accepts : (i : ℕ) (addr : Bytes) → AcceptsUnclosed (peers i addr)) where
  send_to_host-taken :
      (i : ℕ) (addr : Bytes) (r : Receipt)
      → send_to_host (peers i addr) r ≡ (some (accepts i addr).error, r ∷ [])
  unfolding send_to_host
  send_to_host-taken i addr r =
      let a = accepts i addr in
      rw
        (
          a.dial,
          a.mail_from r.from,
          a.rcpt_to r.to,
          a.open_data,
          a.write r.message,
          a.close_data,
          a.quit,
        )
        refl

  try_each-taken :
      (r : Receipt) (i : ℕ) (hosts : List Bytes) (last : Bytes)
      → ((e : Bytes) × ((try_each peers r i hosts last).0 ≡ some e))
        × AreCopies r.from r.to r.message hosts (try_each peers r i hosts last).1
  unfolding try_each
  try_each-taken r i [] last = ((_, refl), tt)
  try_each-taken r i (host ∷ hosts) last =
      let addr = mx_addr host in
      let (failed, others) = try_each-taken r (suc i) hosts (accepts i addr).error in
      rw (send_to_host-taken i addr (record r { addr = addr }))
        (failed, (mx_addr-AddrOf host, refl, refl, refl, others))

module _ (o : Outgoing) (net : Network) (counter : ℕ) (item : QueueItem)
    (P : Outcome → Type 0) where
  -- The look-up of a key fails or not; deliver goes on.
  at_faults :
      (t : Tables) (faults : List Bool) (to : Option (Bytes × Bytes))
      → (to ≡ none → P (some (codes "invalid recipient: " ++ item.to_addr), []))
      → ((r : Receipt) (user domain : Bytes)
          → to ≡ some (user, domain)
          → r.from ≡ extract_addr item.from_addr
          → r.to ≡ extract_addr item.to_addr
          → P (try_each net.peers r 0 (or_domain domain (net.lookup_mx domain)) []))
      → (r : Outcome × ℕ) × ((deliver_parts o net counter item to
            (record { tables = t; faults = faults })).0
          ≡ ok r)
        × P r.0
  unfolding try_pgp_encrypt lookup_pgp_key query statement ignoring pure ◌>>=◌
  at_faults t faults none bad good = (_, refl, bad refl)
  at_faults t [] (some (user, domain)) bad good = (_, refl, good _ user domain refl refl refl)
  at_faults t (true ∷ rest) (some (user, domain)) bad good =
      (_, refl, good _ user domain refl refl refl)
  at_faults t (false ∷ rest) (some (user, domain)) bad good =
      (_, refl, good _ user domain refl refl refl)

-- If no server fails the QUIT, then deliver returns for every item and whichever statements the engine
-- fails; exactly one server took the message over where there is no error, and none where there is
-- one.
pub deliver_once :
    (o : Outgoing) (net : Network) (counter : ℕ) (item : QueueItem) (db : Db Tables)
    → ((i : ℕ) (addr : Bytes) → (net.peers i addr).quit ≡ none)
    → (r : Outcome × ℕ) × ((deliver o net counter item db).0 ≡ ok r) × IsTakenOnce r.0
unfolding deliver
deliver_once o net counter item db quits =
    at_faults o net counter item IsTakenOnce db.tables db.faults (split_2 item.to_addr b'@')
      (λ e. refl) λ r user domain e from to. try_each-IsTakenOnce net.peers quits r 0 _ []

-- If every server takes the message over and then fails the QUIT, deliver returns an error, and each of
-- the hosts of the recipient's domain, or the domain itself if there are none, has at its port 25 a copy
-- of one message from the item's sender to its recipient.
pub deliver_copies :
    (o : Outgoing) (net : Network) (counter : ℕ) (item : QueueItem) (user domain : Bytes)
    (db : Db Tables)
    → split_2 item.to_addr b'@' ≡ some (user, domain)
    → ((i : ℕ) (addr : Bytes) → AcceptsUnclosed (net.peers i addr))
    → (r : Outcome × ℕ) × ((deliver o net counter item db).0 ≡ ok r)
      × IsCopied item (or_domain domain (net.lookup_mx domain)) r.0
unfolding deliver
deliver_copies o net counter item user domain db to accepts =
    at_faults o net counter item (IsCopied item (or_domain domain (net.lookup_mx domain))) db.tables
      db.faults (split_2 item.to_addr b'@') (λ e. absurd cc)
      λ r user' domain' e sender recipient.
        let same : some (user', domain') ≡ some (user, domain) = sym e ∙ to in
        let here : domain' ≡ domain = cc in
        let (failed, copies) =
          try_each-taken net.peers accepts r 0 (or_domain domain (net.lookup_mx domain)) [] in
        rw here (failed, (r.message, rw (← sender, ← recipient) copies))
