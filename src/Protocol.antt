-- ===== src/Protocol.antt =====
-- src/ntp/protocol.rs: NTP and NTS packets and their wire format.
pub mod Types
pub mod First
pub mod Cursor
pub mod Header
pub mod Aead
pub mod Extensions
pub mod Nts
