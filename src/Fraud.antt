-- ===== src/Fraud.antt =====
-- modules/blockchain/src/fraud.cpp.
pub mod Rules
pub mod Verdicts
pub mod Sound
use free_labour_common_will.Base.{
  ℕ, ◌≡◌, sym, subst, ◌↔◌, List, [], ◌∷◌, map, not, ◌&&◌, if◌then◌else◌, Bool, true, false, Option,
  none, some, bytes_eq, bytes_eq_iff, arith, All, Has, IsBytes, ◌⊎◌, inl, inr,
}
use free_labour_common_will.Types.{
  UserId, PublicKey, Hash, Node, ExternalRef, address_eq, address_eq_iff, zero_hash,
}
use free_labour_common_will.Types.Outcome.{Result, ok, err}
use free_labour_common_will.Types.Packets.{FraudProofData}
use free_labour_common_will.Types.Tree.{path_indices}
use free_labour_common_will.Crypto.{Sodium, SodiumLaws, Collision, hash_node, hash_block}
use free_labour_common_will.Signing.{node_signed_by, block_signed_by}
use free_labour_common_will.Serializer.Decode.{decode, dec_fraud_proof}
use free_labour_common_will.Serializer.RoundTrip.{IsExternalRef}
use free_labour_common_will.KeyPath.{back}
use free_labour_common_will.Merkle
use free_labour_common_will.Merkle.Binding.{verify_sound}

pub data FraudVerdict : Type 0 where
  confirmed refuted_honest refuted_fabricated : FraudVerdict

-- `"bad_sig"` and `"hash_mismatch"`, as their bytes.
abbrev bad_sig : List ℕ
bad_sig = 98 ∷ 97 ∷ 100 ∷ 95 ∷ 115 ∷ 105 ∷ 103 ∷ []

abbrev hash_mismatch : List ℕ
hash_mismatch = 104 ∷ 97 ∷ 115 ∷ 104 ∷ 95 ∷ 109 ∷ 105 ∷ 115 ∷ 109 ∷ 97 ∷ 116 ∷ 99 ∷ 104 ∷ []

module _ (na : Sodium) where
  -- The loop over the nodes behind the root, each with the one before it.
  unfoldable pub links_valid : Node → List Node → Bool
  links_valid parent [] = true
  links_valid parent (child ∷ rest) =
      bytes_eq child.parent_hash (hash_node na parent)
      && node_signed_by na child parent.working_pubkey
      && links_valid child rest

  -- The indices of a path that is not empty, against the canonical ones.
  unfoldable pub node_path_valid : List Node → UserId → ℕ → Bool
  node_path_valid [] chain leaf_node = false
  node_path_valid (root ∷ rest) chain leaf_node =
      bytes_eq (map (λ n. n.index) (root ∷ rest)) (path_indices leaf_node)
      && bytes_eq root.structural_pubkey chain
      && bytes_eq root.parent_hash zero_hash
      && node_signed_by na root root.structural_pubkey
      && links_valid root rest

  -- `d.node_path.back().working_pubkey` of a path that is not empty.
  abbrev pub key_of : List Node → PublicKey
  key_of [] = []
  key_of (root ∷ rest) = (back root rest).working_pubkey

  -- The working key that the call sets, where it returns true.
  unfoldable pub structural_ok : Hash → FraudProofData → Option PublicKey
  structural_ok merkle_root d =
      if not (Merkle.verify na (Merkle.leaf_hash na d.leaf) d.merkle_path merkle_root)
      then none
      else if not (node_path_valid d.node_path d.leaf.address.user_id d.leaf.address.node_index)
      then none
      else some (key_of d.node_path)

  abbrev judge_bad_sig : FraudProofData → Option PublicKey → FraudVerdict
  judge_bad_sig d none = refuted_fabricated
  judge_bad_sig d (some key) =
      if not (address_eq d.evidence.address d.leaf.address)
      then refuted_fabricated
      else if not (bytes_eq (hash_block na d.evidence) d.leaf.block_hash)
      then refuted_fabricated
      else if block_signed_by na d.evidence key
      then refuted_honest
      else confirmed

  unfoldable pub verify_bad_sig : Hash → FraudProofData → FraudVerdict
  verify_bad_sig merkle_root d = judge_bad_sig d (structural_ok merkle_root d)

  abbrev judge_hash_mismatch : FraudProofData → Option PublicKey → FraudVerdict
  judge_hash_mismatch d none = refuted_fabricated
  judge_hash_mismatch d (some key) =
      if not (address_eq d.evidence.address d.leaf.address)
      then refuted_fabricated
      else if not (block_signed_by na d.evidence key)
      then refuted_fabricated
      else if not (bytes_eq (hash_block na d.evidence) d.leaf.block_hash)
      then confirmed
      else refuted_honest

  unfoldable pub verify_hash_mismatch : Hash → FraudProofData → FraudVerdict
  verify_hash_mismatch merkle_root d = judge_hash_mismatch d (structural_ok merkle_root d)

  abbrev dispatch : List ℕ → Hash → Result FraudProofData → FraudVerdict
  dispatch kind merkle_root (err e) = refuted_fabricated
  dispatch kind merkle_root (ok d) =
      if bytes_eq kind bad_sig
      then verify_bad_sig merkle_root d
      else if bytes_eq kind hash_mismatch
      then verify_hash_mismatch merkle_root d
      else refuted_fabricated

  unfoldable pub verify : List ℕ → List ℕ → Hash → FraudVerdict
  verify kind proof merkle_root = dispatch kind merkle_root (decode dec_fraud_proof proof)
