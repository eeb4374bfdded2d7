-- ===== src/Merkle.antt =====
-- modules/blockchain/src/merkle.cpp.
pub mod Inclusion
pub mod Strings
mod Trees
mod Descent
pub mod Binding
use free_labour_common_will.Base.{
  ℕ, zero, suc, ◌+◌, ◌-◌, ◌/◌, ◌%◌, ◌≡◌, refl, List, [], ◌∷◌, ◌++◌, length, get_or, leb, ltb, ◌==◌,
  if◌then◌else◌, Bool, true, false, not, ◌&&◌, bytes_eq,
}
use free_labour_common_will.Types.{Hash, ExternalRef, zero_hash}
use free_labour_common_will.Types.Outcome.{Result, ok, err, invalid_argument_error}
use free_labour_common_will.Types.Packets.{Proof}
use free_labour_common_will.Crypto.{Sodium, hash}
use free_labour_common_will.Serializer.Encode.{enc_ext_ref}

abbrev pub cons_step : Hash → Bool → Proof → Proof
cons_step h right p = record { path = h ∷ p.path; sibling_is_right = right ∷ p.sibling_is_right }

abbrev pub no_steps : Proof
no_steps = record { path = []; sibling_is_right = [] }

module _ (na : Sodium) where
  -- An inner node: the byte 1 and the two children.
  unfoldable pub node_hash : Hash → Hash → Hash
  node_hash l r = hash na (1 ∷ (l ++ r))

  -- One level up: neighbours are paired, and a last one without a partner is kept.
  unfoldable pub next_level : List Hash → List Hash
  next_level [] = []
  next_level (a ∷ []) = a ∷ []
  next_level (a ∷ b ∷ rest) = node_hash a b ∷ next_level rest

  -- A leaf: the byte 0 and the encoding of the reference.
  unfoldable pub leaf_hash : ExternalRef → Hash
  leaf_hash ref = hash na (0 ∷ enc_ext_ref ref)

  -- `while (level.size() > 1) level = next_level(level);` a level is shorter than the one below it,
  -- so its length in rounds is enough.
  unfoldable pub root_loop : ℕ → List Hash → List Hash
  root_loop zero level = level
  root_loop (suc fuel) level =
      let up = root_loop fuel (next_level level) in if ltb 1 (length level) then up else level

  unfoldable pub root : List Hash → Hash
  unfolding root_loop
  root [] = zero_hash
  root (a ∷ rest) = get_or (root_loop (length (a ∷ rest)) (a ∷ rest)) 0 zero_hash

  unfoldable pub combine : Hash → Hash → Hash
  unfolding node_hash
  combine l r = node_hash l r

  proof_loop : ℕ → List Hash → ℕ → Proof
  proof_loop zero level idx = no_steps
  proof_loop (suc fuel) level idx =
      let up = proof_loop fuel (next_level level) (idx / 2) in
      let promoted = idx + 1 == length level && length level % 2 == 1 in
      let right = cons_step (get_or level (idx + 1) zero_hash) true up in
      let left = cons_step (get_or level (idx - 1) zero_hash) false up in
      let rounds = if promoted then up else if idx % 2 == 0 then right else left in
      if ltb 1 (length level) then rounds else no_steps

  unfoldable pub make_proof : List Hash → ℕ → Result Proof
  unfolding proof_loop
  make_proof leaves leaf_index =
      if leb (length leaves) leaf_index
      then err invalid_argument_error
      else ok (proof_loop (length leaves) leaves leaf_index)

  -- The loop runs over the shorter of the two vectors.
  unfoldable pub apply_steps : Hash → List Hash → List Bool → Hash
  apply_steps running [] flags = running
  apply_steps running (s ∷ path) [] = running
  apply_steps running (s ∷ path) (right ∷ flags) =
      apply_steps (if right then node_hash running s else node_hash s running) path flags

  unfoldable pub apply_proof : Hash → Proof → Hash
  unfolding apply_steps
  apply_proof leaf proof = apply_steps leaf proof.path proof.sibling_is_right

  unfoldable pub verify : Hash → Proof → Hash → Bool
  unfolding apply_proof
  verify leaf proof expected_root =
      if not (length proof.path == length proof.sibling_is_right)
      then false
      else bytes_eq (apply_proof leaf proof) expected_root
