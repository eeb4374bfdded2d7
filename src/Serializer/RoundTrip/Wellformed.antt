-- ===== src/Serializer/RoundTrip/Wellformed.antt =====
-- The values that the C++ types can hold: fixed arrays, 32-bit and 64-bit words, enumerators, and
-- vectors within `max_size()`.
use free_labour_common_will.Base.{
  ◌^◌, ◌≤◌, ◌<◌, Option, none, some, List, length, All, IsBytes, IsInt64,
}
use free_labour_common_will.Types.{
  BlockAddress, ExternalRef, Node, Block, Seal, MergePayload, RevocationPayload, BranchTipInfo,
  BlockType, SealMode, unnamed, unnamed_mode,
}
use free_labour_common_will.Types.Packets.{
  Proof, MergeSnapshot, FraudProofData, RevocationCertificate, KeyPath, registers,
}
use free_labour_common_will.Serializer.Encode.{tip_block_bytes}
use free_labour_common_will.Serializer.Decode.{
  max_refs, max_nodes, max_blocks, max_hashes, max_flags,
}

-- A value outside the enumerators has a code that no enumerator has.
abbrev pub IsBlockType : BlockType → Type 0
IsBlockType (unnamed c) = (4 ≤ c) × (c < 256)
IsBlockType _ = Unit

abbrev pub IsSealMode : SealMode → Type 0
IsSealMode (unnamed_mode c) = (2 ≤ c) × (c < 256)
IsSealMode _ = Unit

abbrev pub IsOptional {ℓ κ} : {A : Type ℓ} → (A → Type κ) → Option A → Type κ
IsOptional P none = Unit
IsOptional P (some a) = P a

pub record IsAddress (a : BlockAddress) : Type 0 where
  pub user : IsBytes 32 a.user_id
  pub node : a.node_index < 2 ^ 32
  pub block : a.block_index < 2 ^ 32

pub record IsExternalRef (r : ExternalRef) : Type 0 where
  pub address : IsAddress r.address
  pub hash : IsBytes 32 r.block_hash

pub record IsNode (n : Node) : Type 0 where
  pub index : n.index < 2 ^ 32
  pub structural : IsBytes 32 n.structural_pubkey
  pub working : IsBytes 32 n.working_pubkey
  pub parent : IsBytes 32 n.parent_hash
  pub sig : IsBytes 64 n.parent_sig
  pub created : IsInt64 n.created_at

pub record IsBlock (b : Block) : Type 0 where
  pub address : IsAddress b.address
  pub prev : IsBytes 32 b.prev_hash
  pub time : IsInt64 b.timestamp_claimed
  pub kind : IsBlockType b.kind
  pub payload : length b.payload < 2 ^ 63
  pub refs : All IsExternalRef b.external_refs
  pub ref_count : length b.external_refs ≤ max_refs
  pub sig : IsBytes 64 b.signature

pub record IsSeal (s : Seal) : Type 0 where
  pub signer : IsBytes 32 s.signer_id
  pub hash : IsBytes 32 s.block_hash
  pub sig : IsBytes 64 s.signature
  pub mode : IsSealMode s.mode
  pub sealed : IsInt64 s.sealed_at

pub record IsMergePayload (p : MergePayload) : Type 0 where
  pub address : IsAddress p.partner_last_address
  pub hash : IsBytes 32 p.partner_last_hash
  pub time : IsInt64 p.merge_timestamp
  pub root : IsBytes 32 p.merkle_root
  pub hll : IsBytes 32 p.hll_hash
  pub depth : p.validated_depth < 2 ^ 32

pub record IsRevocationPayload (p : RevocationPayload) : Type 0 where
  pub node : p.revoked_node_index < 2 ^ 32
  pub key : IsBytes 32 p.revoked_pubkey
  pub since : IsInt64 p.compromised_since
  pub replacement : IsOptional (IsBytes 32) p.replacement_pubkey

pub record IsNodePath (ns : List Node) : Type 0 where
  pub nodes : All IsNode ns
  pub count : length ns ≤ max_nodes

pub record IsCertificate (c : RevocationCertificate) : Type 0 where
  pub block : IsBlock c.block
  pub path : IsNodePath c.path

pub record IsKeyPath (k : KeyPath) : Type 0 where
  pub path : IsNodePath k.path
  pub rotations : All IsBlock k.rotations
  pub count : length k.rotations ≤ max_blocks

pub record IsProof (p : Proof) : Type 0 where
  pub path : All (IsBytes 32) p.path
  pub path_count : length p.path ≤ max_hashes
  pub flag_count : length p.sibling_is_right ≤ max_flags

pub record IsFraudProof (d : FraudProofData) : Type 0 where
  pub leaf : IsExternalRef d.leaf
  pub proof : IsProof d.merkle_path
  pub path : IsNodePath d.node_path
  pub evidence : IsBlock d.evidence

pub record IsSnapshot (s : MergeSnapshot) : Type 0 where
  pub root : IsBytes 32 s.merkle_root
  pub regs : IsBytes registers s.hll

pub record IsTip (t : BranchTipInfo) : Type 0 where
  pub address : IsAddress t.tip_address
  pub hash : IsBytes 32 t.tip_hash
  pub path : IsNodePath t.path
  pub block : IsOptional IsBlock t.tip_block
  pub room : length (tip_block_bytes t.tip_block) < 2 ^ 63
