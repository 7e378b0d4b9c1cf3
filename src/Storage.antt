-- ===== src/Storage.antt =====
-- internal/storage: the tables and the statements that the methods of DB run.
pub mod Flags
pub mod Schema
pub mod Migrate
pub mod Mailboxes
pub mod Messages
pub mod Uids
pub mod History
pub mod Users
pub mod Domains
pub mod Aliases
pub mod Queue
pub mod SearchIndex
pub mod Transactions
pub mod Kept
pub mod PgpKeyring
pub mod Audit
