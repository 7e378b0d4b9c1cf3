-- ===== src/Smtp.antt =====
-- internal/smtp: the inbound and submission sessions, the delivery of a message, and the sender.
pub mod Message
pub mod Delivery
pub mod Session
pub mod Headers
pub mod Sender
