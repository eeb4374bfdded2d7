-- ===== src/Validator.antt =====
-- modules/blockchain/src/validator.cpp, over any store behind `IStorage`.
pub mod State
pub mod Nodes
pub mod Records
pub mod Branch
pub mod Revocations
pub mod Fuel
pub mod Chain
pub mod Agreement
