-- ===== src/Storage/Schema.antt =====
-- internal/storage/schema.go: the tables, and the structs of internal/storage that carry their rows.
-- A NULL blob and an empty one are both [], a stored time is its Unix seconds.
use ghostmail.Prelude.{ℕ, ◌/◌, ◌^◌, Bool, List, [], Option, Bytes}

-- A time.Time is a number of nanoseconds since 1970.
abbrev pub second : ℕ
second = 10 ^ 9

-- t.Unix()
abbrev pub unix : ℕ → ℕ
unix t = t / second

pub record User : Type 0 where
  pub id : ℕ
  pub username : Bytes
  pub domain : Bytes
  pub password_hash : Bytes
  pub public_key : Bytes
  pub wrapped_private_key : Bytes
  pub key_nonce : Bytes
  pub key_params : Bytes
  pub pgp_public_key : Bytes
  pub pgp_private_key_enc : Bytes
  pub search_key : Bytes
  pub is_admin : Bool
  pub created_at : ℕ
  pub updated_at : ℕ
  pub quota_bytes : ℕ

pub record Domain : Type 0 where
  pub id : ℕ
  pub name : Bytes
  pub dkim_selector : Bytes
  pub dkim_private_key : Bytes
  pub dkim_public_key : Bytes
  pub is_primary : Bool
  pub created_at : ℕ

pub record Mailbox : Type 0 where
  pub id : ℕ
  pub user_id : ℕ
  pub name : Bytes
  pub uid_validity : ℕ
  pub uid_next : ℕ
  pub subscribed : Bool
  pub special_use : Bytes

pub record Message : Type 0 where
  pub id : ℕ
  pub mailbox_id : ℕ
  pub uid : ℕ
  pub message_key_enc : Bytes
  pub message_key_nonce : Bytes
  pub header_enc : Bytes
  pub header_nonce : Bytes
  pub body_enc : Bytes
  pub body_nonce : Bytes
  pub size : ℕ
  pub flags : Bytes
  pub internal_date : ℕ
  pub expires_at : Option ℕ
  pub envelope_enc : Bytes
  pub envelope_nonce : Bytes

-- A row of search_tokens.
pub record TokenRow : Type 0 where
  pub message_id : ℕ
  pub token_hash : Bytes
  pub field : ℕ

pub record Alias : Type 0 where
  pub id : ℕ
  pub user_id : ℕ
  pub address : Bytes
  pub domain : Bytes
  pub description : Bytes
  pub is_active : Bool
  pub expires_at : Option ℕ
  pub message_count : ℕ
  pub max_messages : Option ℕ
  pub created_at : ℕ

-- The constants QueuePending to QueueFailed.
pub data QueueStatus : Type 0 where
  pending sending sent failed : QueueStatus

pub record QueueItem : Type 0 where
  pub id : ℕ
  pub from_addr : Bytes
  pub to_addr : Bytes
  pub message_data : Bytes
  pub attempts : ℕ
  pub next_retry_at : ℕ
  pub last_error : Bytes
  pub created_at : ℕ
  pub status : QueueStatus

pub record PgpKey : Type 0 where
  pub id : ℕ
  pub user_id : ℕ
  pub email : Bytes
  pub public_key : Bytes
  pub fingerprint : Bytes
  pub trust_level : ℕ
  pub created_at : ℕ

pub record AuditEntry : Type 0 where
  pub id : ℕ
  pub actor : Bytes
  pub action : Bytes
  pub target : Bytes
  pub timestamp : ℕ

-- The tables that the modelled methods read or write. `last_…` is the AUTOINCREMENT sequence of a
-- table, which no delete takes back; `foreign_keys` is the engine's setting of that name.
pub record Tables : Type 0 where
  pub users : List User
  pub domains : List Domain
  pub mailboxes : List Mailbox
  pub messages : List Message
  pub search_tokens : List TokenRow
  pub aliases : List Alias
  pub send_queue : List QueueItem
  pub pgp_keyring : List PgpKey
  pub audit_log : List AuditEntry
  pub last_user : ℕ
  pub last_domain : ℕ
  pub last_mailbox : ℕ
  pub last_message : ℕ
  pub last_alias : ℕ
  pub last_item : ℕ
  pub last_pgp_key : ℕ
  pub last_entry : ℕ
  pub foreign_keys : Bool

abbrev pub empty : Bool → Tables
empty foreign_keys = record {
  users = [];
  domains = [];
  mailboxes = [];
  messages = [];
  search_tokens = [];
  aliases = [];
  send_queue = [];
  pgp_keyring = [];
  audit_log = [];
  last_user = 0;
  last_domain = 0;
  last_mailbox = 0;
  last_message = 0;
  last_alias = 0;
  last_item = 0;
  last_pgp_key = 0;
  last_entry = 0;
  foreign_keys = foreign_keys;
}
