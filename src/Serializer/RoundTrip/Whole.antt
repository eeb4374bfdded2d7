-- ===== src/Serializer/RoundTrip/Whole.antt =====
-- `decode` of what `encode` writes, for whole buffers of fewer than 2 ^ 64 bytes.
use mathlib.Core.Option
use free_labour_common_will.Base.{ℕ, ◌+◌, ◌^◌, ◌<◌, ◌≡◌, List, ◌++◌, map, length}
use free_labour_common_will.Types.{
  Block, Node, Seal, MergePayload, RevocationPayload, BranchTipInfo,
}
use free_labour_common_will.Types.Outcome.{ok}
use free_labour_common_will.Types.Packets.{
  Proof, MergeSnapshot, FraudProofData, RevocationCertificate, KeyPath,
}
use free_labour_common_will.Serializer.Encode.{
  enc_node, enc_block, enc_seal, enc_merge_payload, enc_revocation_payload, enc_revocation_cert,
  enc_key_path, enc_merkle_proof, enc_fraud_proof, enc_snapshot, enc_tip,
}
use free_labour_common_will.Serializer.Decode.{
  decode, dec_node, dec_block, dec_seal, dec_merge_payload, dec_revocation_payload,
  dec_revocation_cert, dec_key_path, dec_merkle_proof, dec_fraud_proof, dec_snapshot, dec_tip,
}
use free_labour_common_will.Serializer.RoundTrip.Wellformed.{
  IsNode, IsBlock, IsSeal, IsMergePayload, IsRevocationPayload, IsCertificate, IsKeyPath, IsProof,
  IsFraudProof, IsSnapshot, IsTip,
}
use free_labour_common_will.Serializer.RoundTrip.Chain.{
  Reads-node, Reads-block, Reads-seal, unsigned_by_partner, decode-Reads,
}
use free_labour_common_will.Serializer.RoundTrip.Packets.{
  Reads-merge_payload, Reads-revocation_payload, Reads-certificate, Reads-key_path,
  Reads-merkle_proof, Reads-fraud_proof, Reads-snapshot, Reads-tip,
}

-- A block of the C++ types' sizes is read back from its encoding, whatever bytes follow it, if
-- the buffer has fewer than 2 ^ 64 bytes, up to its co-signature, which is not encoded.
pub decode-enc_block :
    (b : Block) (tl : List ℕ)
    → IsBlock b
    → length (enc_block b) + length tl < 2 ^ 64
    → decode dec_block (enc_block b ++ tl) ≡ ok (unsigned_by_partner b)
decode-enc_block b tl w room = decode-Reads tl (Reads-block b w) room

-- A node of the C++ types' sizes is read back from its encoding, whatever bytes follow it, if
-- the buffer has fewer than 2 ^ 64 bytes.
pub decode-enc_node :
    (n : Node) (tl : List ℕ)
    → IsNode n
    → length (enc_node n) + length tl < 2 ^ 64
    → decode dec_node (enc_node n ++ tl) ≡ ok (n)
decode-enc_node n tl w room = decode-Reads tl (Reads-node n w) room

-- A seal of the C++ types' sizes is read back from its encoding, whatever bytes follow it, if
-- the buffer has fewer than 2 ^ 64 bytes.
pub decode-enc_seal :
    (s : Seal) (tl : List ℕ)
    → IsSeal s
    → length (enc_seal s) + length tl < 2 ^ 64
    → decode dec_seal (enc_seal s ++ tl) ≡ ok (s)
decode-enc_seal s tl w room = decode-Reads tl (Reads-seal s w) room

-- A merge payload of the C++ types' sizes is read back from its encoding, whatever bytes follow it, if
-- the buffer has fewer than 2 ^ 64 bytes.
pub decode-enc_merge_payload :
    (p : MergePayload) (tl : List ℕ)
    → IsMergePayload p
    → length (enc_merge_payload p) + length tl < 2 ^ 64
    → decode dec_merge_payload (enc_merge_payload p ++ tl) ≡ ok (p)
decode-enc_merge_payload p tl w room = decode-Reads tl (Reads-merge_payload p w) room

-- A revocation payload of the C++ types' sizes is read back from its encoding, whatever bytes follow it, if
-- the buffer has fewer than 2 ^ 64 bytes.
pub decode-enc_revocation_payload :
    (p : RevocationPayload) (tl : List ℕ)
    → IsRevocationPayload p
    → length (enc_revocation_payload p) + length tl < 2 ^ 64
    → decode dec_revocation_payload (enc_revocation_payload p ++ tl) ≡ ok (p)
decode-enc_revocation_payload p tl w room = decode-Reads tl (Reads-revocation_payload p w) room

-- A merge snapshot of the C++ types' sizes is read back from its encoding, whatever bytes follow it, if
-- the buffer has fewer than 2 ^ 64 bytes.
pub decode-enc_snapshot :
    (s : MergeSnapshot) (tl : List ℕ)
    → IsSnapshot s
    → length (enc_snapshot s) + length tl < 2 ^ 64
    → decode dec_snapshot (enc_snapshot s ++ tl) ≡ ok (s)
decode-enc_snapshot s tl w room = decode-Reads tl (Reads-snapshot s w) room

-- A Merkle proof within the decoder's limits of the C++ types' sizes is read back from its encoding, whatever bytes follow it, if
-- the buffer has fewer than 2 ^ 64 bytes.
pub decode-enc_merkle_proof :
    (p : Proof) (tl : List ℕ)
    → IsProof p
    → length (enc_merkle_proof p) + length tl < 2 ^ 64
    → decode dec_merkle_proof (enc_merkle_proof p ++ tl) ≡ ok (p)
decode-enc_merkle_proof p tl w room = decode-Reads tl (Reads-merkle_proof p w) room

-- A fraud proof within the decoder's limits of the C++ types' sizes is read back from its encoding, whatever bytes follow it, if
-- the buffer has fewer than 2 ^ 64 bytes, with the evidence's co-signature dropped.
pub decode-enc_fraud_proof :
    (d : FraudProofData) (tl : List ℕ)
    → IsFraudProof d
    → length (enc_fraud_proof d) + length tl < 2 ^ 64
    → decode dec_fraud_proof (enc_fraud_proof d ++ tl)
      ≡ ok (record d { evidence = unsigned_by_partner d.evidence })
decode-enc_fraud_proof d tl w room = decode-Reads tl (Reads-fraud_proof d w) room

-- A key path within the decoder's limits of the C++ types' sizes is read back from its encoding, whatever bytes follow it, if
-- the buffer has fewer than 2 ^ 64 bytes, with the rotations' co-signatures dropped.
pub decode-enc_key_path :
    (k : KeyPath) (tl : List ℕ)
    → IsKeyPath k
    → length (enc_key_path k) + length tl < 2 ^ 64
    → decode dec_key_path (enc_key_path k ++ tl)
      ≡ ok (record k { rotations = map unsigned_by_partner k.rotations })
decode-enc_key_path k tl w room = decode-Reads tl (Reads-key_path k w) room

-- A branch tip within the decoder's limits of the C++ types' sizes is read back from its encoding, whatever bytes follow it, if
-- the buffer has fewer than 2 ^ 64 bytes, with the tip block's co-signature dropped.
pub decode-enc_tip :
    (t : BranchTipInfo) (tl : List ℕ)
    → IsTip t
    → length (enc_tip t) + length tl < 2 ^ 64
    → decode dec_tip (enc_tip t ++ tl)
      ≡ ok (record t { tip_block = Option.map unsigned_by_partner t.tip_block })
decode-enc_tip t tl w room = decode-Reads tl (Reads-tip t w) room

-- A revocation certificate within the decoder's limits of the C++ types' sizes is read back from its encoding, whatever bytes follow it, if
-- the buffer has fewer than 2 ^ 64 bytes, with its block's co-signature dropped.
pub decode-enc_revocation_cert :
    (c : RevocationCertificate) (tl : List ℕ)
    → IsCertificate c
    → length (enc_revocation_cert c) + length tl < 2 ^ 64
    → decode dec_revocation_cert (enc_revocation_cert c ++ tl)
      ≡ ok (record c { block = unsigned_by_partner c.block })
decode-enc_revocation_cert c tl w room = decode-Reads tl (Reads-certificate c w) room
