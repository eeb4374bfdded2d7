-- ===== src/KeyPath.antt =====
-- modules/blockchain/src/key_path.cpp.
pub mod Links
pub mod Wrap
pub mod Lineage
use free_labour_common_will.Base.{
  ℕ, zero, suc, ◌+◌, ◌-◌, ◌/◌, ◌%◌, ◌^◌, ◌≡◌, List, [], ◌∷◌, ◌++◌, length, take, ltb, leb, ◌==◌,
  not, ◌&&◌, ◌||◌, if◌then◌else◌, Bool, true, false, bytes_eq, Option, none, some,
}
use free_labour_common_will.Types.{
  UserId, PublicKey, Hash, Node, Block, BlockAddress, BlockType, key_rotation, type_eq, zero_hash,
}
use free_labour_common_will.Types.Outcome.{
  Error, Result, ok, err, guard, ◌>>=◌, ◌>>◌, chain_integrity_error, signature_error, length_error,
  out_of_bounds, storage_error,
}
use free_labour_common_will.Types.Packets.{KeyPath}
use free_labour_common_will.Types.Tree.{path_indices}
use free_labour_common_will.Crypto.{Sodium, hash_node}
use free_labour_common_will.Signing.{node_signed_by, block_signed_by}
use free_labour_common_will.Storage.{IStorage}

-- `Node::parent_index`, on `uint32_t`: the root's wraps around to 2 ^ 31 - 1.
unfoldable pub parent_index32 : ℕ → ℕ
parent_index32 index = (index + 2 ^ 32 - 1) % 2 ^ 32 / 2

-- `path.back()` of a path that is not empty.
abbrev pub back : Node → List Node → Node
back n [] = n
back n (m ∷ rest) = back m rest

module _ (na : Sodium) where
  -- The loop over the nodes behind the root, each with the one before it.
  unfoldable pub check_links : Node → List Node → Result (Unit {0})
  check_links parent [] = ok tt
  check_links parent (n ∷ rest) = do
    guard (parent_index32 n.index == parent.index) chain_integrity_error
    guard (bytes_eq n.parent_hash (hash_node na parent)) chain_integrity_error
    guard (node_signed_by na n parent.working_pubkey) signature_error
    check_links n rest

  unfoldable pub verify_node_path : List Node → Result UserId
  verify_node_path [] = err chain_integrity_error
  verify_node_path (root ∷ rest) = do
    guard (root.index == 0) chain_integrity_error
    guard (bytes_eq root.parent_hash zero_hash) chain_integrity_error
    guard (node_signed_by na root root.structural_pubkey) signature_error
    check_links root rest
    ok root.structural_pubkey

  -- The new working key in a rotation block: 32 raw bytes.
  unfoldable pub rotated_key : Block → Option PublicKey
  rotated_key b =
      if not (type_eq b.kind key_rotation) || ltb (length b.payload) 32
      then none
      else some (take 32 b.payload)

  abbrev or_fail : {A : Type 0} → Option A → Error → Result A
  or_fail none e = err e
  or_fail (some a) e = ok a

  abbrev after : Option ℕ → ℕ → Bool
  after none i = true
  after (some prev) i = not (leb i prev)

  -- The loop of `KeyPathCert::verify` over the rotations; `prev` is `none` at the first.
  unfoldable pub check_rotations :
      UserId → ℕ → PublicKey → Option ℕ → List Block → Result (Unit {0})
  check_rotations chain tip key prev [] = ok tt
  check_rotations chain tip key prev (b ∷ rest) = do
    guard (type_eq b.kind key_rotation) chain_integrity_error
    guard (bytes_eq b.address.user_id chain && b.address.node_index == tip) chain_integrity_error
    guard (after prev b.address.block_index) chain_integrity_error
    guard (block_signed_by na b key) signature_error
    next ← or_fail (rotated_key b) chain_integrity_error
    check_rotations chain tip next (some b.address.block_index) rest

  -- The tip of a path that `verify_node_path` has accepted, which is not empty.
  abbrev tip_of : List Node → Result Node
  tip_of [] = err chain_integrity_error
  tip_of (n ∷ rest) = ok (back n rest)

  unfoldable pub verify : KeyPath → Result UserId
  verify kp = do
    chain ← verify_node_path kp.path
    tip ← tip_of kp.path
    check_rotations chain tip.index tip.working_pubkey none kp.rotations
    ok chain

  unfoldable pub follow : PublicKey → List Block → PublicKey
  follow key [] = key
  follow key (b ∷ rest) = follow (elim (rotated_key b) [ none ↦ key | some next ↦ next ]) rest

  unfoldable pub signer_key : KeyPath → Result PublicKey
  signer_key kp = do tip ← tip_of kp.path; ok (follow tip.working_pubkey kp.rotations)

  module _ (st : IStorage) where
    open st use {Store, get_node, get_block, branch_tip_index}

    abbrev collect_nodes : Store → UserId → List ℕ → Result (List Node)
    collect_nodes s chain [] = ok []
    collect_nodes s chain (i ∷ is) = do
      n ← get_node s chain i
      rest ← collect_nodes s chain is
      ok (n ∷ rest)

    -- `catch (const BlockchainError&)`, which leaves `std::length_error` through.
    abbrev is_blockchain_error : Error → Bool
    is_blockchain_error length_error = false
    is_blockchain_error out_of_bounds = false
    is_blockchain_error _ = true

    abbrev keep_rotation : Result Block → Result (List Block) → Result (List Block)
    keep_rotation (ok b) rest =
        if type_eq b.kind key_rotation then (do bs ← rest; ok (b ∷ bs)) else rest
    keep_rotation (err e) rest = if is_blockchain_error e then rest else err e

    -- The rotation blocks of the branch from block `i` on, `left` of them; gaps are passed over.
    unfoldable pub collect_rotations : Store → UserId → ℕ → ℕ → ℕ → Result (List Block)
    collect_rotations s chain node i zero = ok []
    collect_rotations s chain node i (suc left) =
        keep_rotation (get_block s (record { user_id = chain; node_index = node; block_index = i }))
          (collect_rotations s chain node (i + 1) left)

    unfoldable pub build : Store → UserId → ℕ → Result KeyPath
    build s chain node = do
      path ← collect_nodes s chain (path_indices node)
      rotations ← (elim (branch_tip_index s chain node) [
        | none ↦ ok []
        | some tip ↦ collect_rotations s chain node 0 (tip + 1)
      ])
      ok (record { path = path; rotations = rotations })
