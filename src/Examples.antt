-- ===== src/Examples.antt =====
-- Concrete values: a signature scheme, nodes, blocks and a store.
mod Codec
mod Trees
mod Chains
mod Merging
mod Stores
mod Caches
mod Tables
mod Deals
mod Dialogues
use free_labour_common_will.Base.{
  ℕ, ◌≡◌, ◌<◌, ℤ, pos, List, [], ◌∷◌, replicate, Bool, true, false, ◌==◌, Option, none, some,
  IsBytes, arith, refl, All,
}
use free_labour_common_will.Types.{
  KeyPair, Node, Block, BlockType, BlockAddress, ExternalRef, MergePayload, RevocationPayload,
  data_block, merge, zero_hash, null_signature,
}
use free_labour_common_will.Types.Outcome.{Result, ok}
use free_labour_common_will.Crypto.{Sodium, SodiumLaws}
use free_labour_common_will.Serializer.Encode.{enc_merge_payload}
use free_labour_common_will.Serializer.RoundTrip.{
  IsAddress, IsExternalRef, IsNode, IsBlock, IsMergePayload,
}
use free_labour_common_will.Storage.{IStorage}

-- The only signatures that are accepted start with a 0.
abbrev pub starts_with_0 : List ℕ → Bool
starts_with_0 [] = false
starts_with_0 (b ∷ bs) = b == 0

abbrev pub toy : Sodium
toy = record {
  generichash = λ m. replicate 32 0;
  sign_detached = λ m k. some (replicate 64 0);
  verify_detached = λ s m k. starts_with_0 s;
}

pub zeros_32 : IsBytes 32 (replicate 32 0)
zeros_32 = record { size = refl; each = ground arith }

pub zeros_64 : IsBytes 64 (replicate 64 0)
zeros_64 = record { size = refl; each = ground arith }

abbrev pub toy_key : KeyPair
toy_key = record { pub_key = zero_hash; sec = null_signature }

abbrev pub AnyPair : KeyPair → Type 0
AnyPair kp = Unit

pub toy_laws : SodiumLaws toy AnyPair
toy_laws = record {
  hash_size = λ m. zeros_32;
  signs = λ m kp g. (replicate 64 0, refl);
  sign_size = λ m k s e. let same : replicate 64 0 ≡ s = cc in rw (← same) zeros_64;
  verifies = λ m kp s g e. let same : replicate 64 0 ≡ s = cc in rw (← same) refl;
}

abbrev pub address_at : ℕ → ℕ → BlockAddress
address_at node i = record { user_id = zero_hash; node_index = node; block_index = i }

abbrev pub node_at : ℕ → Node
node_at i = record {
  index = i;
  structural_pubkey = zero_hash;
  working_pubkey = zero_hash;
  parent_hash = zero_hash;
  parent_sig = null_signature;
  created_at = pos 0;
}

abbrev pub block_with : BlockType → List ℕ → BlockAddress → Block
block_with kind payload address = record {
  address = address;
  prev_hash = zero_hash;
  timestamp_claimed = pos 5;
  kind = kind;
  payload = payload;
  external_refs = [];
  signature = null_signature;
  co_signature = none;
}

abbrev pub data_at : BlockAddress → Block
data_at address = block_with data_block (0x80 ∷ []) address

abbrev pub toy_payload : MergePayload
toy_payload = record {
  partner_last_address = address_at 1 3;
  partner_last_hash = zero_hash;
  merge_timestamp = pos 5;
  merkle_root = zero_hash;
  hll_hash = zero_hash;
  validated_depth = 0;
}

abbrev pub merge_block : Block
merge_block = block_with merge (enc_merge_payload toy_payload) (address_at 2 7)

-- Every node and block is there, and every branch has two blocks.
abbrev pub toy_store : IStorage
toy_store = record {
  Store = Unit;
  put_node = λ s uid n. ok s;
  get_node = λ s uid i. ok (node_at i);
  has_node = λ s uid i. true;
  put_block = λ s b. ok s;
  get_block = λ s a. ok (data_at a);
  has_block = λ s a. true;
  branch_tip_index = λ s uid i. some 1;
  get_revocation_addresses = λ s uid i. ok [];
  put_seal = λ s seal. ok s;
  get_seals = λ s h. ok [];
  put_external_block = λ s b. ok s;
  get_external_block = λ s a. ok (data_at a);
  has_external_block = λ s a. true;
  external_blocks = λ s. ok (merge_block ∷ []);
  put_snapshot = λ s uid i snapshot. ok s;
  get_snapshot = λ s uid i. ok none;
}

pub address_at-IsAddress :
    (node i : ℕ) → node < 0x1_0000_0000 → i < 0x1_0000_0000 → IsAddress (address_at node i)
address_at-IsAddress node i h k = record { user = zeros_32; node = h; block = k }

pub node_at-IsNode : (i : ℕ) → i < 0x1_0000_0000 → IsNode (node_at i)
node_at-IsNode i h = record {
  index = h;
  structural = zeros_32;
  working = zeros_32;
  parent = zeros_32;
  sig = zeros_64;
  created = omega arith;
}

pub data_at-IsBlock : IsBlock (data_at (address_at 1 0))
data_at-IsBlock = record {
  address = address_at-IsAddress 1 0 (omega arith) (omega arith);
  prev = zeros_32;
  time = omega arith;
  kind = tt;
  payload = omega arith;
  refs = tt;
  ref_count = omega arith;
  sig = zeros_64;
}

pub toy_payload-IsMergePayload : IsMergePayload toy_payload
toy_payload-IsMergePayload = record {
  address = address_at-IsAddress 1 3 (omega arith) (omega arith);
  hash = zeros_32;
  time = omega arith;
  root = zeros_32;
  hll = zeros_32;
  depth = omega arith;
}
