-- ===== src/Lmdb/Filled.antt =====
-- The table of blocks that `branch_tip_index` relies on, kept by `put_block` of storage.cpp.
use free_labour_common_will.Lmdb.Interface.{Lmdb}
