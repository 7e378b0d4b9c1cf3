-- ===== src/Lib.antt =====
-- ghostmail: a mail server that encrypts at rest. This library models its store, its encryption, the
-- session of its SMTP server, the queue of its sender, the commands of its IMAP server, the requests of
-- its webmail, the rate limiter, the reaper of expired mail, the alias generator, the admin panel, the
-- setup of DNS and subdomains and the configuration, and proves what makes the central parts correct.
--
-- Parts, and the files that model them:
--   internal/storage    Storage, over the engine of Sql: Schema (the tables), Flags, Mailboxes,
--                       Messages, Users, Domains, Aliases, Queue, SearchIndex, Audit and PgpKeyring
--                       follow the files of that directory, a function for each method
--                       (StoreMessage is store_message), and Migrate is migrate of schema.go. Uids,
--                       History and Transactions hold what is proved of several of them.
--   internal/crypto     Crypto: Envelope (envelope.go), SearchTokens (searchindex.go), Keys (keys.go),
--                       Service (service.go) and SafeMem (safemem.go), over the record Primitives of
--                       what AES-GCM, X25519, HKDF, Argon2 and HMAC compute.
--   internal/dkim       Dkim (verifier.go) and its child Signer (signer.go).
--   internal/smtp       Smtp (session.go): Message (the functions that read a message's text),
--                       Delivery (deliverMessage) and Session (authenticate, Mail, Rcpt, Data, Reset);
--                       Headers (headers.go) and Sender (sender.go), whose children Deliver and Start
--                       are deliver and NewSender.
--   internal/imap       Imap: Session and Mailboxes (session.go), Trackers (server.go), Fetch and Moving
--                       (fetch.go), Header (header.go) and Search (search.go). Client is what RFC 3501 has a client make
--                       of EXPUNGE responses; Reading puts registration, delivery, Login and Fetch
--                       together.
--   internal/expiry     Expiry (reaper.go); Start is NewReaper.
--   internal/alias      Generator (generator.go).
--   internal/admin      Admin (handlers.go) and its children Login and Server (server.go).
--   internal/webmail    Webmail: Sessions (session.go), Mailboxes (api_mailbox.go), Messages and Send
--                       (api_message.go), Search (api_search.go), Aliases (api_alias.go), Compose
--                       (deliver.go), Login (api_auth.go), Headers (the functions that read a
--                       message) and Requests (the routes of webmail.go). Isolation, Own, Owned, Effects and
--                       Uids hold what is proved of all requests.
--   internal/ratelimit  RateLimit (ratelimit.go).
--   internal/dns        Dns (provider.go, detect.go).
--   internal/subdomain  Subdomain (service.go).
--   internal/config     Config (config.go) and its child Load.
--   System              the servers of all these directories over one store.
--   Text, Keyed, Result, Prelude: Go's strings and bytes, its maps, its error results, and shared
--                       lemmas.
--   Examples            concrete data, and the theorems at it.
--
-- How they interact: Data runs deliverMessage for each recipient, which asks Domains, Users and
-- Aliases for the owner, Crypto for the ciphertext, Messages for a UID and a row, and SearchIndex for
-- the blind index; mail to other domains goes to Queue. An IMAP Login has Crypto open the keys of the
-- row that the panel made from a registration, and Fetch decrypts with them. The reaper deletes what
-- has expired. A request of the webmail runs as the session of its cookie, over the same methods; its
-- login asks RateLimit first. Each of these is a method on the store.
--
-- The store: a method is a function of type Sql, from the tables and a list of faults to a result and
-- the tables left. The engine may fail any statement; the list says which, and a theorem that takes
-- any Db holds for all of them. A transaction restores the tables when it fails. Constraints of the
-- schema (UNIQUE, references, AUTOINCREMENT) are part of each statement. Concurrent sessions are not
-- interleaved inside one method; History runs whole methods of the store in any order, and System
-- whole deliveries, commands, ticks, changes of accounts and requests.
--
-- Numbers: times are nanoseconds since 1970 as natural numbers, stored times are seconds, a
-- time.Duration is a word of 64 bits, a sequence number or a UID on the wire a word of 32. Ids and
-- UIDs do not wrap in the store. No function needs fuel: each loop is recursion on a list.
--
-- Arguments that stand for other code: the primitives with their laws (IsSound: decryption undoes
-- encryption, X25519 agrees, keys have 32 bytes), what the random source draws, JSON, the clock, the
-- libraries of DKIM, of keys and of OpenPGP, the RFC 3339, TOML, duration and header parsers, DNS
-- look-ups and providers, the client of the SMTP library and what it returns at each step, the
-- trackers of the IMAP library, the canonical form of a header name, base32, the formatting of
-- times, the operations of float64 with what IEEE 754 says of whole numbers (IsExact, Refills), the
-- order in which the runtime goes through a map, and which writes reach an IMAP client.
--
-- Panics: argon2.IDKey panics for a time of 0 and for 0 threads; deriving keys with such parameters is
-- an error that no handler turns into another result, as the servers recover from a panic and end the
-- request. The hypotheses on Argon2's time and threads rule it out where a result is promised.
--
-- Simplified: text is bytes and case mapping is that of ASCII; a NULL blob is an empty one; times
-- before 1970 are 0; rows that ORDER BY leaves equal keep the order of their ids; one delivery reads
-- the clock once; a pass of the sender takes what deliver returns as an input. A FETCH response has
-- the data that its sections are taken from, not the sections.
--
-- Not modelled: crypto/pgp.go, which calls OpenPGP for each step, the clients of DNS services and of
-- Tor, and the start of servers and listeners: they are calls of other systems. The templates of the
-- admin panel and of the webmail, logging and the commands only print and pass arguments on.
mod Prelude
pub mod Text
pub mod Result
pub mod Sql
pub mod Crypto
pub mod Storage
pub mod Dkim
pub mod Smtp
pub mod Imap
pub mod Admin
pub mod Keyed
pub mod RateLimit
pub mod Expiry
pub mod Generator
pub mod Webmail
pub mod Subdomain
pub mod Dns
pub mod Config
pub mod System
mod Examples
