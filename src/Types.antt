-- ===== src/Types.antt =====
-- modules/blockchain/include/blockchain/types.h and errors.h: the data of the chain.
-- A fixed array of bytes is the list of its bytes; the codec's preconditions state the lengths.
-- An exception is a constructor of `Error` with its data; the message texts are left out.
pub mod Tree
pub mod Outcome
pub mod Packets
use free_labour_common_will.Base.{
  ℕ, ◌^◌, ◌<◌, ◌≤◌, ◌≡◌, Bool, true, false, ◌&&◌, ◌==◌, List, [], ◌∷◌, Option, none, some, ℤ,
  bytes_eq, replicate, if◌then◌else◌, arith, ◌↔◌, bytes_eq_iff,
}

abbrev pub PublicKey : Type 0
PublicKey = List ℕ

abbrev pub Hash : Type 0
Hash = List ℕ

abbrev pub Signature : Type 0
Signature = List ℕ

abbrev pub SecretKey : Type 0
SecretKey = List ℕ

pub record KeyPair : Type 0 where
  pub pub_key : PublicKey
  pub sec : SecretKey

abbrev pub UserId : Type 0
UserId = PublicKey

abbrev pub zero_hash : Hash
zero_hash = replicate 32 0

abbrev pub null_signature : Signature
null_signature = replicate 64 0

-- `EMPTY_BRANCH_INDEX`, the largest `uint32_t`.
abbrev pub empty_branch_index : ℕ
empty_branch_index = 0xffff_ffff

-- `kClockSlack`, seconds.
abbrev pub clock_slack : ℕ
clock_slack = 600

-- `unnamed c` is a value of the `uint8_t` enumeration outside its enumerators, which a cast yields.
pub data BlockType : Type 0 where
  data_block merge key_rotation revocation : BlockType
  unnamed : ℕ → BlockType

abbrev pub type_code : BlockType → ℕ
type_code data_block = 0
type_code merge = 1
type_code key_rotation = 2
type_code revocation = 3
type_code (unnamed c) = c

abbrev pub type_eq : BlockType → BlockType → Bool
type_eq a b = type_code a == type_code b

pub data SealMode : Type 0 where
  blind open_mode : SealMode
  unnamed_mode : ℕ → SealMode

abbrev pub mode_code : SealMode → ℕ
mode_code blind = 0
mode_code open_mode = 1
mode_code (unnamed_mode c) = c

pub record BlockAddress : Type 0 where
  pub user_id : UserId
  pub node_index : ℕ
  pub block_index : ℕ

abbrev pub address_eq : BlockAddress → BlockAddress → Bool
address_eq a b =
    bytes_eq a.user_id b.user_id && a.node_index == b.node_index && a.block_index == b.block_index

pub address_eq_iff : (a b : BlockAddress) → (address_eq a b ≡ true) ↔ (a ≡ b)
address_eq_iff a b = ground (arith, bytes_eq_iff a.user_id b.user_id)

pub record ExternalRef : Type 0 where
  pub address : BlockAddress
  pub block_hash : Hash

pub record Node : Type 0 where
  pub index : ℕ
  pub structural_pubkey : PublicKey
  pub working_pubkey : PublicKey
  pub parent_hash : Hash
  pub parent_sig : Signature
  pub created_at : ℤ

pub record Block : Type 0 where
  pub address : BlockAddress
  pub prev_hash : Hash
  pub timestamp_claimed : ℤ
  pub kind : BlockType
  pub payload : List ℕ
  pub external_refs : List ExternalRef
  pub signature : Signature
  pub co_signature : Option Signature

pub record MergePayload : Type 0 where
  pub partner_last_address : BlockAddress
  pub partner_last_hash : Hash
  pub merge_timestamp : ℤ
  pub merkle_root : Hash
  pub hll_hash : Hash
  pub validated_depth : ℕ

pub record RevocationPayload : Type 0 where
  pub revoked_node_index : ℕ
  pub revoked_pubkey : PublicKey
  pub compromised_since : ℤ
  pub replacement_pubkey : Option PublicKey

pub record Seal : Type 0 where
  pub signer_id : UserId
  pub block_hash : Hash
  pub signature : Signature
  pub mode : SealMode
  pub sealed_at : ℤ

pub record BranchTipInfo : Type 0 where
  pub tip_address : BlockAddress
  pub tip_hash : Hash
  pub path : List Node
  pub tip_block : Option Block

pub record PendingMergeBlock : Type 0 where
  pub draft : Block
  pub draft_hash : Hash
