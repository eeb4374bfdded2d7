-- ===== src/Serializer/Encode.antt =====
-- The encoders of serializer.cpp, lines 67 to 203.
use free_labour_common_will.Base.{
  ℕ, List, [], ◌∷◌, ◌++◌, if◌then◌else◌, length, Bool, Option, none, some,
}
use free_labour_common_will.Types.{
  BlockAddress, ExternalRef, Node, Block, Seal, MergePayload, RevocationPayload, BranchTipInfo,
  type_code, mode_code,
}
use free_labour_common_will.Types.Packets.{
  Proof, MergeSnapshot, FraudProofData, RevocationCertificate, KeyPath,
}
use free_labour_common_will.Serializer.Writer.{
  emit, w_uint, w_map, w_arr, w_int64, w_bytes, w_fixed,
}

-- `for (const auto& x : xs) enc(out, x);`
abbrev pub each {ℓ} : {A : Type ℓ} → (A → List ℕ) → List A → List ℕ
each enc [] = []
each enc (x ∷ xs) = enc x ++ each enc xs

unfoldable pub enc_address : BlockAddress → List ℕ
enc_address a = emit (
    w_map 3
    ∷ w_uint 0
    ∷ w_fixed a.user_id
    ∷ w_uint 1
    ∷ w_uint a.node_index
    ∷ w_uint 2
    ∷ w_uint a.block_index
    ∷ [])

unfoldable pub enc_ext_ref : ExternalRef → List ℕ
enc_ext_ref r =
    emit (w_map 2 ∷ w_uint 0 ∷ enc_address r.address ∷ w_uint 1 ∷ w_fixed r.block_hash ∷ [])

unfoldable pub enc_node : Node → List ℕ
enc_node n = emit (
    w_map 6
    ∷ w_uint 0
    ∷ w_uint n.index
    ∷ w_uint 1
    ∷ w_fixed n.structural_pubkey
    ∷ w_uint 2
    ∷ w_fixed n.working_pubkey
    ∷ w_uint 3
    ∷ w_fixed n.parent_hash
    ∷ w_uint 4
    ∷ w_fixed n.parent_sig
    ∷ w_uint 5
    ∷ w_int64 n.created_at
    ∷ [])

-- `co_signature` is not written.
unfoldable pub enc_block : Block → List ℕ
enc_block b = emit (
    w_map 7
    ∷ w_uint 0
    ∷ enc_address b.address
    ∷ w_uint 1
    ∷ w_fixed b.prev_hash
    ∷ w_uint 2
    ∷ w_int64 b.timestamp_claimed
    ∷ w_uint 3
    ∷ w_uint (type_code b.kind)
    ∷ w_uint 4
    ∷ w_bytes b.payload
    ∷ w_uint 5
    ∷ w_arr (length b.external_refs)
    ∷ each enc_ext_ref b.external_refs
    ∷ w_uint 6
    ∷ w_fixed b.signature
    ∷ [])

unfoldable pub enc_seal : Seal → List ℕ
enc_seal s = emit (
    w_map 5
    ∷ w_uint 0
    ∷ w_fixed s.signer_id
    ∷ w_uint 1
    ∷ w_fixed s.block_hash
    ∷ w_uint 2
    ∷ w_fixed s.signature
    ∷ w_uint 3
    ∷ w_uint (mode_code s.mode)
    ∷ w_uint 4
    ∷ w_int64 s.sealed_at
    ∷ [])

unfoldable pub enc_merge_payload : MergePayload → List ℕ
enc_merge_payload mp = emit (
    w_map 6
    ∷ w_uint 0
    ∷ enc_address mp.partner_last_address
    ∷ w_uint 1
    ∷ w_fixed mp.partner_last_hash
    ∷ w_uint 2
    ∷ w_int64 mp.merge_timestamp
    ∷ w_uint 3
    ∷ w_fixed mp.merkle_root
    ∷ w_uint 4
    ∷ w_fixed mp.hll_hash
    ∷ w_uint 5
    ∷ w_uint mp.validated_depth
    ∷ [])

-- Three fields, or four with a replacement.
abbrev pub replacement_fields : Option (List ℕ) → ℕ
replacement_fields none = 3
replacement_fields (some k) = 4

abbrev pub enc_replacement : Option (List ℕ) → List ℕ
enc_replacement none = []
enc_replacement (some k) = emit (w_uint 3 ∷ w_fixed k ∷ [])

unfoldable pub enc_revocation_payload : RevocationPayload → List ℕ
enc_revocation_payload rp = emit (
    w_map (replacement_fields rp.replacement_pubkey)
    ∷ w_uint 0
    ∷ w_uint rp.revoked_node_index
    ∷ w_uint 1
    ∷ w_fixed rp.revoked_pubkey
    ∷ w_uint 2
    ∷ w_int64 rp.compromised_since
    ∷ enc_replacement rp.replacement_pubkey
    ∷ [])

unfoldable pub enc_revocation_cert : RevocationCertificate → List ℕ
enc_revocation_cert c = emit (
    w_map 2
    ∷ w_uint 0
    ∷ enc_block c.block
    ∷ w_uint 1
    ∷ w_arr (length c.path)
    ∷ each enc_node c.path
    ∷ [])

abbrev pub rotation_fields : List Block → ℕ
rotation_fields [] = 1
rotation_fields (b ∷ bs) = 2

abbrev pub enc_rotations : List Block → List ℕ
enc_rotations [] = []
enc_rotations (b ∷ bs) = emit (w_uint 1 ∷ w_arr (length (b ∷ bs)) ∷ each enc_block (b ∷ bs) ∷ [])

unfoldable pub enc_key_path : KeyPath → List ℕ
enc_key_path kp = emit (
    w_map (rotation_fields kp.rotations)
    ∷ w_uint 0
    ∷ w_arr (length kp.path)
    ∷ each enc_node kp.path
    ∷ enc_rotations kp.rotations
    ∷ [])

abbrev pub enc_flag : Bool → List ℕ
enc_flag b = w_uint (if b then 1 else 0)

unfoldable pub enc_merkle_proof : Proof → List ℕ
enc_merkle_proof p = emit (
    w_map 2
    ∷ w_uint 0
    ∷ w_arr (length p.path)
    ∷ each w_fixed p.path
    ∷ w_uint 1
    ∷ w_arr (length p.sibling_is_right)
    ∷ each enc_flag p.sibling_is_right
    ∷ [])

unfoldable pub enc_fraud_proof : FraudProofData → List ℕ
enc_fraud_proof d = emit (
    w_map 4
    ∷ w_uint 0
    ∷ enc_ext_ref d.leaf
    ∷ w_uint 1
    ∷ enc_merkle_proof d.merkle_path
    ∷ w_uint 2
    ∷ w_arr (length d.node_path)
    ∷ each enc_node d.node_path
    ∷ w_uint 3
    ∷ enc_block d.evidence
    ∷ [])

unfoldable pub enc_snapshot : MergeSnapshot → List ℕ
enc_snapshot s = emit (w_map 2 ∷ w_uint 0 ∷ w_fixed s.merkle_root ∷ w_uint 1 ∷ w_bytes s.hll ∷ [])

-- The tip block travels as a byte string, empty if there is none.
abbrev pub tip_block_bytes : Option Block → List ℕ
tip_block_bytes none = []
tip_block_bytes (some b) = enc_block b

unfoldable pub enc_tip : BranchTipInfo → List ℕ
enc_tip t = emit (
    w_map 4
    ∷ w_uint 0
    ∷ enc_address t.tip_address
    ∷ w_uint 1
    ∷ w_fixed t.tip_hash
    ∷ w_uint 2
    ∷ w_arr (length t.path)
    ∷ each enc_node t.path
    ∷ w_uint 3
    ∷ w_bytes (tip_block_bytes t.tip_block)
    ∷ [])
