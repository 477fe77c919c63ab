-- ===== src/Ntp.antt =====
-- src/ntp: the NTP server's answers and the NTP client's request.
pub mod Clock
pub mod Server
pub mod Client
pub mod Exchange
