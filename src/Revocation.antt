-- ===== src/Revocation.antt =====
-- modules/blockchain/src/revocation.cpp.
pub mod Certificate
pub mod Forged
use free_labour_common_will.Base.{
  ℕ, ◌≡◌, List, [], ◌∷◌, ◌==◌, not, if◌then◌else◌, Bool, true, false, bytes_eq,
}
use free_labour_common_will.Types.{
  UserId, Node, Block, BlockAddress, RevocationPayload, revocation, type_eq,
}
use free_labour_common_will.Types.Outcome.{
  Error, Result, ok, err, guard, ◌>>=◌, ◌>>◌, chain_integrity_error, signature_error,
  revocation_error, invalid_argument_error,
}
use free_labour_common_will.Types.Packets.{RevocationCertificate}
use free_labour_common_will.Types.Tree.{path_indices, is_ancestor, is_valid_node}
use free_labour_common_will.Crypto.{Sodium}
use free_labour_common_will.Signing.{block_signed_by}
use free_labour_common_will.Serializer.Decode.{decode, dec_revocation_payload}
use free_labour_common_will.Storage.{IStorage}
use free_labour_common_will.KeyPath.{back, verify_node_path}

unfoldable pub decode_revocation_payload : List ℕ → Result RevocationPayload
decode_revocation_payload bytes = decode dec_revocation_payload bytes

unfoldable pub payload : RevocationCertificate → Result RevocationPayload
payload cert = decode_revocation_payload cert.block.payload

-- The rules on the payload, for the author's node.
unfoldable pub check_payload : ℕ → RevocationPayload → Result (Unit {0})
check_payload author rp = do
  guard (not (rp.revoked_node_index == 0)) revocation_error
  guard (is_valid_node rp.revoked_node_index) revocation_error
  guard (is_ancestor author rp.revoked_node_index) revocation_error

module _ (na : Sodium) where
  -- `author` is `cert.path.back()`.
  unfoldable pub check_author : RevocationCertificate → Node → Result (Unit {0})
  unfolding check_payload payload
  check_author cert author = do
    guard (author.index == cert.block.address.node_index) chain_integrity_error
    guard (block_signed_by na cert.block author.working_pubkey) signature_error
    rp ← payload cert
    check_payload author.index rp

  unfoldable pub verify_path_of : RevocationCertificate → List Node → Result (Unit {0})
  verify_path_of cert [] = err chain_integrity_error
  verify_path_of cert (root ∷ rest) = do
    chain ← verify_node_path na (root ∷ rest)
    guard (bytes_eq chain cert.block.address.user_id) revocation_error
    check_author cert (back root rest)

  unfoldable pub verify : RevocationCertificate → Result (Unit {0})
  verify cert = do
    guard (type_eq cert.block.kind revocation) revocation_error
    verify_path_of cert cert.path

module _ (st : IStorage) where
  open st use {Store, get_node, get_block}

  unfoldable pub nodes_at : Store → UserId → List ℕ → Result (List Node)
  nodes_at s chain [] = ok []
  nodes_at s chain (i ∷ is) = do n ← get_node s chain i; rest ← nodes_at s chain is; ok (n ∷ rest)

  unfoldable pub build : Store → BlockAddress → Result RevocationCertificate
  build s addr = do
    b ← get_block s addr
    guard (type_eq b.kind revocation) invalid_argument_error
    path ← nodes_at s addr.user_id (path_indices addr.node_index)
    ok (record { block = b; path = path })
