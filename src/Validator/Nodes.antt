-- ===== src/Validator/Nodes.antt =====
-- `validate_node`, `validate_path`, `validate_block`, `validate_seal` and `validate_co_signature`.
use free_labour_common_will.Base.{
  ℕ, List, [], ◌∷◌, ◌==◌, if◌then◌else◌, bytes_eq, Option, none, some,
}
use free_labour_common_will.Types.{
  UserId, PublicKey, Hash, Node, Block, Seal, zero_hash, merge, type_eq,
}
use free_labour_common_will.Types.Outcome.{
  Result, ok, err, guard, ◌>>=◌, ◌>>◌, chain_integrity_error, signature_error,
  invalid_argument_error,
}
use free_labour_common_will.Types.Tree.{path_indices, parent_index}
use free_labour_common_will.Crypto.{Sodium, verify, hash_node, hash_block}
use free_labour_common_will.Signing.{node_signed_by, block_signed_by}
use free_labour_common_will.Storage.{IStorage}

module _ (na : Sodium) where
  unfoldable pub validate_block : Block → Hash → PublicKey → Result (Unit {0})
  validate_block block expected_prev_hash expected_working_pubkey = do
    guard (bytes_eq block.prev_hash expected_prev_hash) chain_integrity_error
    guard (block_signed_by na block expected_working_pubkey) signature_error

  unfoldable pub validate_seal : Seal → Result (Unit {0})
  validate_seal seal =
      guard (verify na seal.block_hash seal.signature seal.signer_id) signature_error

  unfoldable pub check_co_signature : Option (List ℕ) → Hash → PublicKey → Result (Unit {0})
  check_co_signature none bh partner = err signature_error
  check_co_signature (some sig) bh partner = guard (verify na bh sig partner) signature_error

  unfoldable pub validate_co_signature : Block → PublicKey → Result (Unit {0})
  validate_co_signature block partner = do
    guard (type_eq block.kind merge) invalid_argument_error
    check_co_signature block.co_signature (hash_block na block) partner

  module _ (st : IStorage) where
    open st use {Store, get_node}

    unfoldable pub validate_root : Node → Result (Unit {0})
    validate_root node = do
      guard (bytes_eq node.parent_hash zero_hash) chain_integrity_error
      guard (node_signed_by na node node.structural_pubkey) signature_error

    unfoldable pub validate_child : Store → UserId → Node → Result (Unit {0})
    validate_child s uid node = do
      parent ← get_node s uid (parent_index node.index)
      guard (bytes_eq node.parent_hash (hash_node na parent)) chain_integrity_error
      guard (node_signed_by na node parent.working_pubkey) signature_error

    unfoldable pub validate_node : Store → Node → UserId → Result (Unit {0})
    validate_node s node uid =
        if node.index == 0 then validate_root node else validate_child s uid node

    unfoldable pub validate_nodes : Store → UserId → List ℕ → Result (Unit {0})
    validate_nodes s uid [] = ok tt
    validate_nodes s uid (idx ∷ rest) = do
      n ← get_node s uid idx
      validate_node s n uid
      validate_nodes s uid rest

    unfoldable pub validate_path : Store → UserId → ℕ → Result (Unit {0})
    validate_path s uid leaf_index = validate_nodes s uid (path_indices leaf_index)
