-- ===== src/Merkle/Strings.antt =====
-- The byte strings that merkle.cpp hashes: for the root over some references, and for a proof.
use free_labour_common_will.Base.{
  ℕ, zero, suc, List, [], ◌∷◌, ◌++◌, map, length, Bool, if◌then◌else◌,
}
use free_labour_common_will.Types.{Hash, ExternalRef}
use free_labour_common_will.Types.Packets.{Proof}
use free_labour_common_will.Serializer.Encode.{enc_ext_ref}
use free_labour_common_will.Crypto.{Sodium}
use free_labour_common_will.Merkle.{node_hash, next_level, leaf_hash}

abbrev pub leaf_string : ExternalRef → List ℕ
leaf_string ref = 0 ∷ enc_ext_ref ref

-- The nodes made of one level.
abbrev pub level_strings : List Hash → List (List ℕ)
level_strings [] = []
level_strings (a ∷ []) = []
level_strings (a ∷ b ∷ rest) = (1 ∷ (a ++ b)) ∷ level_strings rest

module _ (na : Sodium) where
  unfoldable pub loop_strings : ℕ → List Hash → List (List ℕ)
  loop_strings zero level = []
  loop_strings (suc fuel) level = level_strings level ++ loop_strings fuel (next_level na level)

  -- All that the root over references is a hash of, its leaves and its nodes.
  unfoldable pub tree_strings : List ExternalRef → List (List ℕ)
  unfolding loop_strings
  tree_strings refs =
      let hashes = map (leaf_hash na) refs in
      map leaf_string refs ++ loop_strings (length hashes) hashes

  unfoldable pub step_strings : Hash → List Hash → List Bool → List (List ℕ)
  step_strings running [] flags = []
  step_strings running (s ∷ path) [] = []
  step_strings running (s ∷ path) (right ∷ flags) =
      (1 ∷ (if right then running ++ s else s ++ running))
      ∷ step_strings (if right then node_hash na running s else node_hash na s running) path flags

  -- All that a proof for a reference hashes.
  unfoldable pub proof_strings : ExternalRef → Proof → List (List ℕ)
  unfolding step_strings
  proof_strings ref p = leaf_string ref ∷ step_strings (leaf_hash na ref) p.path p.sibling_is_right
