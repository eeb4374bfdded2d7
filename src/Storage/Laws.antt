-- ===== src/Storage/Laws.antt =====
-- What modules/blockchain/include/blockchain/storage.h promises of an implementation of IStorage:
-- maps from chains and numbers to nodes, blocks, seals and snapshots. `Readable` are the stores
-- whose calls can begin a transaction.
use free_labour_common_will.Base.{
  ℕ, ◌≡◌, ◌≢◌, ◌<◌, ◌^◌, List, [], ◌∷◌, ◌++◌, some, true, length, IsBytes, All,
}
use free_labour_common_will.Types.{UserId, Node, Block, BlockAddress, Seal, Hash}
use free_labour_common_will.Types.Outcome.{ok}
use free_labour_common_will.Types.Packets.{MergeSnapshot}
use free_labour_common_will.Serializer.Encode.{enc_block, enc_snapshot}
use free_labour_common_will.Serializer.RoundTrip.{
  IsNode, IsBlock, IsAddress, IsSeal, IsSnapshot, unsigned_by_partner,
}
use free_labour_common_will.Storage.{IStorage}

pub record StorageLaws (I : IStorage) (Readable : I.Store → Type 0) : Type 0 where
  -- A node is read back where it was put, and the other nodes are what they were.
  pub node_put :
      (s s' : I.Store) (uid : UserId) (n : Node)
      → I.put_node s uid n ≡ ok s'
      → IsNode n
      → Readable s'
      → I.get_node s' uid n.index ≡ ok n
  pub node_other :
      (s s' : I.Store) (uid uid' : UserId) (n : Node) (i : ℕ)
      → I.put_node s uid n ≡ ok s'
      → IsNode n
      → IsBytes 32 uid
      → IsBytes 32 uid'
      → i < 2 ^ 32
      → (uid ≡ uid' → n.index ≢ i)
      → Readable s
      → Readable s'
      → I.get_node s' uid' i ≡ I.get_node s uid' i
  -- A node that is there is not put again.
  pub node_once :
      (s s' : I.Store) (uid : UserId) (n : Node)
      → I.put_node s uid n ≡ ok s'
      → I.has_node s uid n.index ≢ true
  -- A block is read back, without its co-signature, and the other blocks are what they were.
  pub block_put :
      (s s' : I.Store) (b : Block)
      → I.put_block s b ≡ ok s'
      → IsBlock b
      → length (enc_block b) < 2 ^ 64
      → Readable s'
      → I.get_block s' b.address ≡ ok (unsigned_by_partner b)
  pub block_other :
      (s s' : I.Store) (b : Block) (a : BlockAddress)
      → I.put_block s b ≡ ok s'
      → IsBlock b
      → IsAddress a
      → b.address ≢ a
      → Readable s
      → Readable s'
      → I.get_block s' a ≡ I.get_block s a
  pub block_once :
      (s s' : I.Store) (b : Block) → I.put_block s b ≡ ok s' → I.has_block s b.address ≢ true
  pub external_put :
      (s s' : I.Store) (b : Block)
      → I.put_external_block s b ≡ ok s'
      → IsBlock b
      → length (enc_block b) < 2 ^ 64
      → Readable s'
      → I.get_external_block s' b.address ≡ ok (unsigned_by_partner b)
  pub external_other :
      (s s' : I.Store) (b : Block) (a : BlockAddress)
      → I.put_external_block s b ≡ ok s'
      → IsBlock b
      → IsAddress a
      → b.address ≢ a
      → Readable s
      → Readable s'
      → I.get_external_block s' a ≡ I.get_external_block s a
  pub external_once :
      (s s' : I.Store) (b : Block)
      → I.put_external_block s b ≡ ok s'
      → I.has_external_block s b.address ≢ true
  -- A block is external or own: what one call puts, the other does not read.
  pub external_apart :
      (s s' : I.Store) (b : Block) (a : BlockAddress)
      → I.put_external_block s b ≡ ok s'
      → I.get_block s' a ≡ I.get_block s a
  -- A seal is added behind those of its block.
  pub seal_put :
      (s s' : I.Store) (seal : Seal) (before : List Seal)
      → I.get_seals s seal.block_hash ≡ ok before
      → I.put_seal s seal ≡ ok s'
      → All IsSeal before
      → IsSeal seal
      → Readable s'
      → I.get_seals s' seal.block_hash ≡ ok (before ++ (seal ∷ []))
  pub seal_other :
      (s s' : I.Store) (seal : Seal) (before : List Seal) (h : Hash)
      → I.get_seals s seal.block_hash ≡ ok before
      → I.put_seal s seal ≡ ok s'
      → seal.block_hash ≢ h
      → Readable s
      → Readable s'
      → I.get_seals s' h ≡ I.get_seals s h
  -- A snapshot replaces the one of its branch, and the other branches' snapshots stay.
  pub snapshot_put :
      (s s' : I.Store) (uid : UserId) (i : ℕ) (m : MergeSnapshot)
      → I.put_snapshot s uid i m ≡ ok s'
      → IsSnapshot m
      → length (enc_snapshot m) < 2 ^ 64
      → Readable s'
      → I.get_snapshot s' uid i ≡ ok (some m)
  pub snapshot_other :
      (s s' : I.Store) (uid uid' : UserId) (i j : ℕ) (m : MergeSnapshot)
      → I.put_snapshot s uid i m ≡ ok s'
      → IsBytes 32 uid
      → IsBytes 32 uid'
      → i < 2 ^ 32
      → j < 2 ^ 32
      → (uid ≡ uid' → i ≢ j)
      → Readable s
      → Readable s'
      → I.get_snapshot s' uid' j ≡ I.get_snapshot s uid' j
