-- ===== src/Records.antt =====
-- src/nts_ke/records: the records of the NTS key exchange.
pub mod Types
pub mod Bodies
pub mod Wire
pub mod Process
pub mod RoundTrip
pub mod Total
