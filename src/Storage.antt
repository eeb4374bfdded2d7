-- ===== src/Storage.antt =====
-- modules/blockchain/include/blockchain/storage.h: the interface that the chain's logic works over.
-- A call that reads takes the store, and one that writes returns the new store. `external_blocks` is
-- the sequence that `for_each_external_block` visits. Transactions are left to the implementation.
pub mod Laws
use free_labour_common_will.Base.{ℕ, Bool, List, Option}
use free_labour_common_will.Types.{UserId, Hash, Node, Block, BlockAddress, Seal}
use free_labour_common_will.Types.Outcome.{Result}
use free_labour_common_will.Types.Packets.{MergeSnapshot}

pub record IStorage : Type 1 where
  pub Store : Type 0
  pub put_node : Store → UserId → Node → Result Store
  pub get_node : Store → UserId → ℕ → Result Node
  pub has_node : Store → UserId → ℕ → Bool
  pub put_block : Store → Block → Result Store
  pub get_block : Store → BlockAddress → Result Block
  pub has_block : Store → BlockAddress → Bool
  pub branch_tip_index : Store → UserId → ℕ → Option ℕ
  pub get_revocation_addresses : Store → UserId → ℕ → Result (List BlockAddress)
  pub put_seal : Store → Seal → Result Store
  pub get_seals : Store → Hash → Result (List Seal)
  pub put_external_block : Store → Block → Result Store
  pub get_external_block : Store → BlockAddress → Result Block
  pub has_external_block : Store → BlockAddress → Bool
  pub external_blocks : Store → Result (List Block)
  pub put_snapshot : Store → UserId → ℕ → MergeSnapshot → Result Store
  pub get_snapshot : Store → UserId → ℕ → Result (Option MergeSnapshot)
