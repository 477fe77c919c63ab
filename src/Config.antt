-- ===== src/Config.antt =====
-- src/nts_ke/server/config.rs and src/ntp/server/config.rs: the configurations of the two servers.
pub mod Settings
pub mod Ke
pub mod Ntp
