-- ===== src/Dialogue.antt =====
-- modules/sync: the dialogue of a merge, over any channel.
pub mod Wire
pub mod Machine
pub mod Agreed
pub mod Kept
pub mod Calls
pub mod Reached
pub mod Heads
pub mod Envelopes
