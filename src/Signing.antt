-- ===== src/Signing.antt =====
-- The signed bytes of nodes and blocks: the canonical encoding with the signature zeroed, as
-- validator.cpp, key_path.cpp, fraud.cpp, revocation.cpp and blockchain.cpp each build them.
use free_labour_common_will.Base.{ℕ, Bool, List, []}
use free_labour_common_will.Types.{
  PublicKey, SecretKey, KeyPair, Hash, Node, Block, BlockType, BlockAddress, null_signature,
}
use free_labour_common_will.Base.{ℤ, none}
use free_labour_common_will.Types.Outcome.{Result, ok, ◌>>=◌}
use free_labour_common_will.Serializer.Encode.{enc_node, enc_block}
use free_labour_common_will.Crypto.{Sodium, sign, verify}

unfoldable pub node_signing_bytes : Node → List ℕ
node_signing_bytes n = enc_node (record n { parent_sig = null_signature })

unfoldable pub block_signing_bytes : Block → List ℕ
block_signing_bytes b = enc_block (record b { signature = null_signature })

module _ (na : Sodium) where
  unfoldable pub node_signed_by : Node → PublicKey → Bool
  node_signed_by n key = verify na (node_signing_bytes n) n.parent_sig key

  unfoldable pub block_signed_by : Block → PublicKey → Bool
  block_signed_by b key = verify na (block_signing_bytes b) b.signature key

  unfoldable pub build_signed_node : ℕ → KeyPair → Hash → SecretKey → ℤ → Result Node
  build_signed_node idx kp parent_hash parent_sec created_at =
      let n : Node = record {
        index = idx;
        structural_pubkey = kp.pub_key;
        working_pubkey = kp.pub_key;
        parent_hash = parent_hash;
        parent_sig = null_signature;
        created_at = created_at;
      } in
      do sig ← sign na (enc_node n) parent_sec; ok (record n { parent_sig = sig })

  unfoldable pub build_signed_block :
      BlockAddress → Hash → ℤ → BlockType → List ℕ → SecretKey → Result Block
  build_signed_block addr prev_hash ts kind payload signing_sec =
      let b : Block = record {
        address = addr;
        prev_hash = prev_hash;
        timestamp_claimed = ts;
        kind = kind;
        payload = payload;
        external_refs = [];
        signature = null_signature;
        co_signature = none;
      } in
      do sig ← sign na (enc_block b) signing_sec; ok (record b { signature = sig })
