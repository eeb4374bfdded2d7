-- ===== src/Examples/Chains.antt =====
-- Paths, certificates, branches and revocations on concrete values.
use free_labour_common_will.Base.{
  ℕ, pos, ◌<◌, ◌+◌, ◌^◌, length, ◌≡◌, ◌≢◌, ◌↔◌, refl, List, [], ◌∷◌, ◌++◌, map, true, none, All,
  arith, replicate,
}
use free_labour_common_will.Types.{
  Node, Block, PublicKey, RevocationPayload, key_rotation, revocation, zero_hash,
}
use free_labour_common_will.Types.Outcome.{ok, ◌>>=◌}
use free_labour_common_will.Types.Tree.{path_indices, is_valid_node_iff}
use free_labour_common_will.Crypto.{hash_node, hash_block, hash, verify}
use free_labour_common_will.Signing.{node_signed_by, block_signed_by}
use free_labour_common_will.Serializer.Encode.{enc_revocation_payload}
use free_labour_common_will.Serializer.RoundTrip.{decode-enc_revocation_payload}
use free_labour_common_will.Serializer.Writer.{write_head, w_uint, w_map, w_bytes, w_fixed, w_int64}
use free_labour_common_will.KeyPath
use free_labour_common_will.KeyPath.{
  verify_node_path, check_links, parent_index32, check_rotations, rotated_key, signer_key, back,
}
use free_labour_common_will.KeyPath.Links.{IsRoot, Links, verify_node_path_iff, accepted_indices}
use free_labour_common_will.KeyPath.Wrap.{second_root_accepted}
use free_labour_common_will.KeyPath.Lineage.{Lineage, signer_key-Lineage}
use free_labour_common_will.Revocation
use free_labour_common_will.Revocation.{decode_revocation_payload}
use free_labour_common_will.Revocation.Certificate.{Certified, verify-iff-Certified}
use free_labour_common_will.Revocation.Forged.{leaf_key_revokes}
use free_labour_common_will.Validator.State.{BranchRevocationStatus, invalid_after_replacement}
use free_labour_common_will.Validator.Nodes.{validate_block}
use free_labour_common_will.Validator.Records.{
  effective_revocation, effective_within, collect_revocations, examine_all, sort_found, resolve,
}
use free_labour_common_will.Validator.Branch.{
  next_key_after, signing_key, take_over, check_next, check_from, check_branch, validate_branch,
  branch_revocation_status,
}
use free_labour_common_will.Validator.Fuel.{effective_revocation_lem}
use free_labour_common_will.Validator.Agreement.{
  Validated, validate_branch-Validated, validate_branch-status,
}
use free_labour_common_will.Examples.{toy, toy_store, address_at, node_at, block_with, zeros_32}

accepted : verify_node_path toy (node_at 0 ∷ node_at 1 ∷ []) ≡ ok zero_hash
unfolding verify_node_path check_links parent_index32 node_signed_by verify hash_node hash
accepted = refl

verify_node_path_iff_example :
    (verify_node_path toy (node_at 0 ∷ node_at 1 ∷ []) ≡ ok zero_hash) ↔ (
      IsRoot toy (node_at 0)
      × Links toy (node_at 0) (node_at 1 ∷ [])
      × (◌≡◌ {A = PublicKey} zero_hash zero_hash))
verify_node_path_iff_example = verify_node_path_iff toy (node_at 0) (node_at 1 ∷ []) zero_hash

accepted_indices_example : map (λ n. n.index) (node_at 0 ∷ node_at 1 ∷ []) ≡ path_indices 1
accepted_indices_example =
    accepted_indices toy (node_at 0) (node_at 1 ∷ []) zero_hash ((omega arith, omega arith), tt)
      accepted

-- The leftmost path of the tree, down to the index 2 ^ 31 - 1.
abbrev left_path : List Node
left_path = map node_at (
    1 ∷ 3 ∷ 7 ∷ 15 ∷ 31 ∷ 63 ∷ 127 ∷ 255 ∷ 511 ∷ 1023 ∷ 2047 ∷ 4095 ∷ 8191 ∷ 16383 ∷ 32767 ∷ 65535
    ∷ 131071 ∷ 262143 ∷ 524287 ∷ 1048575 ∷ 2097151 ∷ 4194303 ∷ 8388607 ∷ 16777215 ∷ 33554431
    ∷ 67108863 ∷ 134217727 ∷ 268435455 ∷ 536870911 ∷ 1073741823 ∷ 2147483647 ∷ [])

left_accepted : verify_node_path toy (node_at 0 ∷ left_path) ≡ ok zero_hash
unfolding verify_node_path check_links parent_index32 node_signed_by verify hash_node hash
left_accepted = refl

zero_parent : (node_at 0).parent_hash ≡ hash_node toy (node_at 0x7fff_ffff)
unfolding hash_node hash
zero_parent = refl

zero_signed : node_signed_by toy (node_at 0) zero_hash ≡ true
unfolding node_signed_by verify
zero_signed = refl

second_root_accepted_example :
    verify_node_path toy (node_at 0 ∷ (left_path ++ (node_at 0 ∷ []))) ≡ ok zero_hash
second_root_accepted_example =
    second_root_accepted toy (node_at 0) left_path (node_at 0) zero_hash left_accepted refl refl
      zero_parent zero_signed

abbrev rp : RevocationPayload
rp = record {
  revoked_node_index = 3;
  revoked_pubkey = zero_hash;
  compromised_since = pos 4;
  replacement_pubkey = none;
}

abbrev revoking : Block
revoking = block_with revocation (enc_revocation_payload rp ++ []) (address_at 0 0)

abbrev nothing : List ℕ
nothing = []

rp_fits : length (enc_revocation_payload rp) + length nothing < 2 ^ 64
unfolding enc_revocation_payload w_uint w_map w_bytes w_fixed w_int64 write_head
rp_fits = omega arith

decoded : decode_revocation_payload revoking.payload ≡ ok rp
unfolding decode_revocation_payload
decoded =
    decode-enc_revocation_payload rp []
      (record { node = omega arith; key = zeros_32; since = omega arith; replacement = tt }) rp_fits

revoking_signed : block_signed_by toy revoking zero_hash ≡ true
unfolding block_signed_by verify
revoking_signed = refl

verify-iff-Certified_example :
    (Revocation.verify toy (record { block = revoking; path = node_at 0 ∷ [] }) ≡ ok tt)
    ↔ Certified toy (node_at 0) [] revoking
verify-iff-Certified_example = verify-iff-Certified toy (node_at 0) [] revoking

leaf_key_revokes_example :
    Revocation.verify toy
      (record { block = revoking; path = node_at 0 ∷ (left_path ++ (node_at 0 ∷ [])) })
    ≡ ok tt
leaf_key_revokes_example =
    leaf_key_revokes toy (node_at 0) left_path (node_at 0) revoking rp left_accepted refl refl
      zero_parent zero_signed refl refl revoking_signed decoded (omega arith)
      ((is_valid_node_iff 3 (omega arith)).1 (λ e. ground arith))

abbrev rotation : Block
rotation = block_with key_rotation (replicate 32 7) (address_at 1 4)

rotated :
    KeyPath.verify toy (record { path = node_at 0 ∷ node_at 1 ∷ []; rotations = rotation ∷ [] })
    ≡ ok zero_hash
unfolding KeyPath.verify verify_node_path check_links parent_index32 node_signed_by verify hash_node
    hash check_rotations rotated_key block_signed_by
rotated = refl

signer_key-Lineage_example :
    (key : PublicKey) × (signer_key toy
        (record { path = node_at 0 ∷ node_at 1 ∷ []; rotations = rotation ∷ [] })
      ≡ ok key)
    × Lineage toy zero_hash 1 zero_hash (rotation ∷ []) key
signer_key-Lineage_example =
    signer_key-Lineage toy (node_at 0) (node_at 1 ∷ []) (rotation ∷ []) zero_hash rotated

effective_revocation_lem_example : effective_revocation toy toy_store tt zero_hash 3 ≡ (do
  found ←
      collect_revocations toy toy_store
        (effective_revocation toy toy_store tt zero_hash)
        tt
        zero_hash
        3
  ok (resolve found))
effective_revocation_lem_example = effective_revocation_lem toy toy_store tt zero_hash 3

valid : validate_branch toy toy_store tt zero_hash 1 ≡ ok tt
unfolding validate_branch check_branch check_from check_next signing_key take_over validate_block
    effective_revocation effective_within collect_revocations examine_all sort_found resolve
    block_signed_by verify hash_node hash_block hash next_key_after
valid = refl

validate_branch-Validated_example : Validated toy toy_store tt zero_hash 1 1
validate_branch-Validated_example =
    validate_branch-Validated toy toy_store tt zero_hash 1 1 refl valid

validate_branch-status_example :
    (status : BranchRevocationStatus) × (branch_revocation_status toy toy_store tt zero_hash 1
      ≡ ok status)
    × All (λ b. b ≢ invalid_after_replacement) status.blocks
validate_branch-status_example = validate_branch-status toy toy_store tt zero_hash 1 1 refl valid
