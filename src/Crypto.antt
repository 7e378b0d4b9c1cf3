-- ===== src/Crypto.antt =====
-- internal/crypto: what it uses of Go's crypto packages, and the parts built on them.
pub mod Primitives
pub mod Envelope
pub mod SearchTokens
pub mod SafeMem
pub mod Keys
pub mod Service
