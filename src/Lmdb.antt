-- ===== src/Lmdb.antt =====
-- modules/blockchain/src/storage.cpp: `LmdbStorage`, the storage over LMDB.
pub mod Interface
pub mod Keys
pub mod SealList
pub mod Storage
pub mod Foreign
pub mod Order
pub mod Tip
pub mod Calls
pub mod Filled
pub mod Laws
