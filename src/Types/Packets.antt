-- ===== src/Types/Packets.antt =====
-- The data of merkle.h, hll.h, merge_snapshot.h, fraud.h, revocation.h and key_path.h.
use free_labour_common_will.Base.{ℕ, Bool, List}
use free_labour_common_will.Types.{Hash, Node, Block, ExternalRef}

-- `MerkleTree::Proof`, bottom-up.
pub record Proof : Type 0 where
  pub path : List Hash
  pub sibling_is_right : List Bool

-- `HllSketch::PRECISION` and `HllSketch::REGISTERS`.
abbrev pub precision : ℕ
precision = 11

abbrev pub registers : ℕ
registers = 2048

-- `HllSketch`, as its array of registers.
abbrev pub HllSketch : Type 0
HllSketch = List ℕ

pub record MergeSnapshot : Type 0 where
  pub merkle_root : Hash
  pub hll : HllSketch

pub record FraudProofData : Type 0 where
  pub leaf : ExternalRef
  pub merkle_path : Proof
  pub node_path : List Node
  pub evidence : Block

pub record RevocationCertificate : Type 0 where
  pub block : Block
  pub path : List Node

pub record KeyPath : Type 0 where
  pub path : List Node
  pub rotations : List Block
