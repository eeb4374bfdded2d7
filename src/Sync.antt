-- ===== src/Sync.antt =====
-- modules/sync: what a participant keeps of the merges, so that fraud can be proved later.
pub mod Cache
pub mod Consistent
pub mod Climb
pub mod Arrival
pub mod Visit
pub mod Explore
pub mod Path
pub mod Proofs
pub mod Exchange
pub mod Untrusted
pub mod Reachable
