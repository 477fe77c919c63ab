-- ===== src/Ke.antt =====
-- src/nts_ke: the two ends of the key exchange, above the TLS session.
pub mod Stream
pub mod Server
pub mod Listener
pub mod Client
pub mod Exchange
pub mod Setup
