-- ===== src/Examples/Trees.antt =====
-- Indices, Merkle trees, sketches and fraud proofs on concrete values.
use free_labour_common_will.Base.{
  ℕ, ◌+◌, ◌^◌, ◌≤◌, ◌<◌, suc, ◌≡◌, ◌↔◌, ◌⊎◌, refl, ap, ◌∙◌, List, [], ◌∷◌, ◌++◌, map, true, Has,
  arith, replicate,
}
use free_labour_common_will.Types.{Block, ExternalRef, Hash, zero_hash}
use free_labour_common_will.Types.Outcome.{ok}
use free_labour_common_will.Types.Packets.{Proof, FraudProofData}
use free_labour_common_will.Types.Tree.{
  path_indices-parent, path_indices-zero, node_depth, is_ancestor, Above, path_indices,
  node_depth_bounds, is_ancestor-iff-Above,
}
use free_labour_common_will.Crypto.{Collision, hash, hash_node, verify}
use free_labour_common_will.Signing.{node_signed_by}
use free_labour_common_will.Serializer.RoundTrip.{IsExternalRef}
use free_labour_common_will.Merkle
use free_labour_common_will.Merkle.{
  make_proof, root, root_loop, apply_proof, apply_steps, next_level, node_hash,
}
use free_labour_common_will.Merkle.Inclusion.{verify-make_proof}
use free_labour_common_will.Merkle.Binding.{verify_sound}
use free_labour_common_will.Merkle.Strings.{proof_strings, tree_strings}
use free_labour_common_will.Fraud.{
  confirmed, verify_bad_sig, verify_hash_mismatch, node_path_valid, links_valid,
}
use free_labour_common_will.Fraud.Rules.{verify-Climbs, node_path_valid-LeadsTo}
use free_labour_common_will.Fraud.Verdicts.{
  BadSig, HashMismatch, verify_bad_sig_iff, verify_hash_mismatch_iff,
}
use free_labour_common_will.Fraud.Sound.{Convicted, verify_bad_sig_sound}
use free_labour_common_will.Examples.{
  toy, toy_laws, AnyPair, address_at, node_at, data_at, zeros_32, address_at-IsAddress,
}

node_depth_bounds_example : (2 ^ node_depth 5 ≤ 5 + 1) × (5 + 1 < 2 ^ suc (node_depth 5))
node_depth_bounds_example = node_depth_bounds 5 (omega arith)

is_ancestor-iff-Above_example : (is_ancestor 1 9 ≡ true) ↔ Above 1 9
is_ancestor-iff-Above_example = is_ancestor-iff-Above 1 9

abbrev leaves : List Hash
leaves = (1 ∷ []) ∷ (2 ∷ []) ∷ (3 ∷ []) ∷ []

verify-make_proof_example :
    (p : Proof) × (make_proof toy leaves 2 ≡ ok p)
    × (Merkle.verify toy (3 ∷ []) p (root toy leaves) ≡ true)
verify-make_proof_example = verify-make_proof toy leaves 2 (omega arith)

abbrev ref_at : ℕ → ExternalRef
ref_at i = record { address = address_at 1 i; block_hash = zero_hash }

ref_at-IsExternalRef : (i : ℕ) → i < 0x1_0000_0000 → IsExternalRef (ref_at i)
ref_at-IsExternalRef i h = record {
  address = address_at-IsAddress 1 i (omega arith) h;
  hash = zeros_32;
}

abbrev one_step : Proof
one_step = record { path = zero_hash ∷ []; sibling_is_right = true ∷ [] }

included :
    Merkle.verify toy
      (Merkle.leaf_hash toy (ref_at 0))
      one_step
      (root toy (map (Merkle.leaf_hash toy) (ref_at 0 ∷ ref_at 1 ∷ [])))
    ≡ true
unfolding Merkle.verify Merkle.leaf_hash root root_loop next_level node_hash apply_proof apply_steps
    hash
included = refl

verify_sound_example :
    Has (ref_at 0) (ref_at 0 ∷ ref_at 1 ∷ [])
    ⊎ Collision toy
        (proof_strings toy (ref_at 0) one_step)
        (tree_strings toy (ref_at 0 ∷ ref_at 1 ∷ []))
verify_sound_example =
    verify_sound toy AnyPair toy_laws (ref_at 0) (ref_at 1 ∷ []) (ref_at 0) one_step
      (ref_at-IsExternalRef 0 (omega arith), (ref_at-IsExternalRef 1 (omega arith), tt))
      (ref_at-IsExternalRef 0 (omega arith)) (zeros_32, tt) included

abbrev forged : Block
forged = record (data_at (address_at 1 0)) { signature = 1 ∷ replicate 63 0 }

abbrev claim : FraudProofData
claim = record {
  leaf = ref_at 0;
  merkle_path = one_step;
  node_path = node_at 0 ∷ node_at 1 ∷ [];
  evidence = forged;
}

verify_bad_sig_iff_example :
    (verify_bad_sig toy zero_hash claim ≡ confirmed) ↔ BadSig toy zero_hash claim
verify_bad_sig_iff_example = verify_bad_sig_iff toy zero_hash claim

verify_hash_mismatch_iff_example :
    (verify_hash_mismatch toy zero_hash claim ≡ confirmed) ↔ HashMismatch toy zero_hash claim
verify_hash_mismatch_iff_example = verify_hash_mismatch_iff toy zero_hash claim

indices_1 : path_indices 1 ≡ 0 ∷ 1 ∷ []
indices_1 = path_indices-parent 1 (omega arith) ∙ ap (λ l. l ++ (1 ∷ [])) path_indices-zero

path_of_claim : node_path_valid toy (node_at 0 ∷ node_at 1 ∷ []) zero_hash 1 ≡ true
unfolding node_path_valid links_valid node_signed_by verify hash_node hash
path_of_claim = rw indices_1 refl

bad : BadSig toy (root toy (map (Merkle.leaf_hash toy) (ref_at 0 ∷ ref_at 1 ∷ []))) claim
unfolding hash verify Merkle.leaf_hash
bad = record {
  key = zero_hash;
  proven = record {
    included = (verify-Climbs toy _ one_step _).0 included;
    root = node_at 0;
    rest = node_at 1 ∷ [];
    nodes = refl;
    path = (node_path_valid-LeadsTo toy (node_at 0) (node_at 1 ∷ []) zero_hash 1).0 path_of_claim;
    before = node_at 0 ∷ [];
    last = node_at 1;
    ends = refl;
    carried = refl;
  };
  address = refl;
  committed = refl;
  forged = refl;
}

verify_bad_sig_sound_example :
    Convicted toy (ref_at 0 ∷ ref_at 1 ∷ []) claim
    ⊎ Collision toy
        (proof_strings toy (ref_at 0) one_step)
        (tree_strings toy (ref_at 0 ∷ ref_at 1 ∷ []))
verify_bad_sig_sound_example =
    verify_bad_sig_sound toy AnyPair toy_laws (ref_at 0) (ref_at 1 ∷ []) claim
      (ref_at-IsExternalRef 0 (omega arith), (ref_at-IsExternalRef 1 (omega arith), tt))
      (ref_at-IsExternalRef 0 (omega arith)) (zeros_32, tt)
      ((verify_bad_sig_iff toy (root toy (map (Merkle.leaf_hash toy) (ref_at 0 ∷ ref_at 1 ∷ [])))
          claim).1
        bad)
