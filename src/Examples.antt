-- ===== src/Examples.antt =====
-- Concrete data: a store with one user, one domain, an alias and a message, and an instance of the
-- primitives of internal/crypto with which the round trips run.
mod Store
mod Mail
mod Login
mod Boxes
mod Moving
mod Delivery
mod Starts
mod Outbound
mod Servers
mod Panel
mod Webmail
mod Zone
use ghostmail.Prelude.{
  ℕ, zero, suc, Bool, true, false, Option, none, some, List, [], ◌∷◌, Bytes, codes, ◌++◌, drop, ◌≡◌,
  refl, arith,
}
use ghostmail.Crypto.Primitives.{Primitives, IsSound}
use ghostmail.Crypto.Envelope.{Draws}
use ghostmail.Storage.Schema.{Tables, User, Domain, Mailbox, Message, Alias, TokenRow, empty}
use ghostmail.Smtp.Delivery.{Env}

abbrev bytes_of : ℕ → ℕ → Bytes
bytes_of b zero = []
bytes_of b (suc n) = b ∷ bytes_of b n

abbrev pub key_32 : Bytes
key_32 = bytes_of 7 32

-- No secrecy, but the laws that the code relies on.
abbrev pub toy : Primitives
toy = record {
  seal = λ key nonce text. bytes_of 0 16 ++ text;
  unseal = λ key nonce sealed. some (drop 16 sealed);
  public_key = λ a. key_32;
  ecdh = λ a b. some [];
  hkdf = λ secret info. key_32;
  argon2 = λ password salt time memory threads. key_32;
  hmac = λ key text. text;
}

pub toy-IsSound : IsSound toy
toy-IsSound = record {
  unseal-seal = λ key nonce text. refl;
  length-seal = λ key nonce text. omega arith;
  ecdh_comm = λ a b. refl;
  length-public_key = λ a. refl;
  length-hkdf = λ secret info. refl;
  bytes-hkdf = λ secret info. omega arith;
}

abbrev pub draws : Draws
draws = record {
  message_key = some key_32;
  body_nonce = some (1 ∷ []);
  ephemeral = some key_32;
  key_nonce = some (2 ∷ []);
}

abbrev pub env : Env
env = record {
  now = 5;
  primitives = toy;
  body_draws = draws;
  header_draws = draws;
  parse_rfc3339 = λ s. none;
}

abbrev pub alice : User
alice = record {
  id = 1;
  username = codes "alice";
  domain = codes "x.org";
  password_hash = [];
  public_key = key_32;
  wrapped_private_key = [];
  key_nonce = [];
  key_params = [];
  pgp_public_key = [];
  pgp_private_key_enc = [];
  search_key = 9 ∷ [];
  is_admin = false;
  created_at = 0;
  updated_at = 0;
  quota_bytes = 0;
}

abbrev pub inbox : Mailbox
inbox = record {
  id = 1;
  user_id = 1;
  name = codes "INBOX";
  uid_validity = 1;
  uid_next = 2;
  subscribed = true;
  special_use = [];
}

abbrev pub letter : Message
letter = record {
  id = 1;
  mailbox_id = 1;
  uid = 1;
  message_key_enc = [];
  message_key_nonce = [];
  header_enc = [];
  header_nonce = [];
  body_enc = codes "hi";
  body_nonce = [];
  size = 2;
  flags = [];
  internal_date = 0;
  expires_at = none;
  envelope_enc = [];
  envelope_nonce = [];
}

abbrev pub alias : Alias
alias = record {
  id = 1;
  user_id = 1;
  address = codes "a1@x.org";
  domain = codes "x.org";
  description = [];
  is_active = true;
  expires_at = none;
  message_count = 2;
  max_messages = some 3;
  created_at = 0;
}

abbrev pub tables : Tables
tables = record (empty true) {
  users = alice ∷ [];
  domains =
      record {
        id = 1;
        name = codes "x.org";
        dkim_selector = [];
        dkim_private_key = [];
        dkim_public_key = [];
        is_primary = true;
        created_at = 0;
      }
      ∷ [];
  mailboxes = inbox ∷ [];
  messages = letter ∷ [];
  search_tokens = record { message_id = 1; token_hash = codes "hello"; field = 1 } ∷ [];
  aliases = alias ∷ [];
  last_user = 1;
  last_domain = 1;
  last_mailbox = 1;
  last_message = 1;
  last_alias = 1;
}
