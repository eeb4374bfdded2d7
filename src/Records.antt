-- ===== src/Records.antt =====
-- modules/records: the records of labour and exchange, and how deals are settled.
pub mod Types
pub mod Settlement
pub mod FirstWord
pub mod Bill
pub mod Thread
pub mod Acceptance
pub mod Recognition
pub mod Earliest
pub mod Verdicts
