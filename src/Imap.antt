-- ===== src/Imap.antt =====
-- internal/imap: the session of one connection and its commands.
pub mod Copying
pub mod Untaken
pub mod Copied
pub mod Arrival
pub mod Session
pub mod Mailboxes
pub mod Trackers
pub mod Header
pub mod Fetch
pub mod Moving
pub mod Search
pub mod Reading
pub mod Uids
pub mod Commands
pub mod Entries
pub mod Isolation
pub mod Client
