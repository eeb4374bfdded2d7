-- ===== src/Validator/Revocations.antt =====
-- `node_invalidated_by_revocation`, `validate_revocation` and `check_tip_against_revocations`.
use free_labour_common_will.Base.{
  ℕ, zero, suc, ◌+◌, List, [], ◌∷◌, ◌++◌, ◌==◌, leb, not, ◌&&◌, ◌||◌, if◌then◌else◌, Bool, true,
  false, Option, none, some, ltb_ℤ, take, length, bytes_eq,
}
use free_labour_common_will.Types.{
  UserId, PublicKey, Node, Block, BlockAddress, BranchTipInfo, key_rotation, revocation, type_eq,
  address_eq,
}
use free_labour_common_will.Types.Outcome.{
  Result, ok, err, guard, ◌>>=◌, ◌>>◌, invalid_argument_error, revocation_error,
}
use free_labour_common_will.Types.Tree.{path_indices, is_ancestor, is_valid_node}
use free_labour_common_will.Crypto.{Sodium}
use free_labour_common_will.Signing.{block_signed_by}
use free_labour_common_will.Storage.{IStorage}
use free_labour_common_will.Revocation.{decode_revocation_payload}
use free_labour_common_will.Validator.State.{RevocationState}
use free_labour_common_will.Validator.Records.{Found, collect_revocations, effective_revocation}
use free_labour_common_will.Validator.Branch.{rounds}

-- `created_at > compromised_since` under a revocation of the parent.
unfoldable pub created_after : Option RevocationState → Node → Bool
created_after none n = false
created_after (some st) n = ltb_ℤ st.compromised_since n.created_at

-- The new key of a KEY_ROTATION block, as a list of at most one.
unfoldable pub rotation_keys : Block → List PublicKey
rotation_keys b =
    if type_eq b.kind key_rotation && leb 32 (length b.payload) then take 32 b.payload ∷ [] else []

-- The replacements that the other records assign: a block cannot legitimise itself.
unfoldable pub prior_replacements : BlockAddress → List Found → List PublicKey
prior_replacements own [] = []
prior_replacements own ((addr, rp) ∷ rest) =
    let others = prior_replacements own rest in
    if address_eq addr own
    then others
    else elim rp.replacement_pubkey [ none ↦ others | some key ↦ key ∷ others ]

unfoldable pub any_key : List PublicKey → PublicKey → Bool
any_key [] key = false
any_key (k ∷ ks) key = bytes_eq k key || any_key ks key

module _ (na : Sodium) (st : IStorage) where
  open st use {Store, get_node, get_block, branch_tip_index}

  -- The edges of a path, from the root down.
  unfoldable pub any_edge_invalid : Store → UserId → ℕ → List ℕ → Result Bool
  any_edge_invalid s uid parent [] = ok false
  any_edge_invalid s uid parent (child ∷ rest) = do
    rev ← effective_revocation na st s uid parent
    elim rev [
      | none ↦ any_edge_invalid s uid child rest
      | some r ↦ do
        c ← get_node s uid child
        if created_after (some r) c then ok true else any_edge_invalid s uid child rest
    ]

  abbrev over_edges : Store → UserId → List ℕ → Result Bool
  over_edges s uid [] = ok false
  over_edges s uid (root ∷ rest) = any_edge_invalid s uid root rest

  unfoldable pub node_invalidated_by_revocation : Store → UserId → ℕ → Result Bool
  node_invalidated_by_revocation s uid node = over_edges s uid (path_indices node)

  unfoldable pub rotated_keys_from : Store → UserId → ℕ → ℕ → ℕ → Result (List PublicKey)
  rotated_keys_from s uid node i zero = ok []
  rotated_keys_from s uid node i (suc left) = do
    b ← get_block s (record { user_id = uid; node_index = node; block_index = i })
    rest ← rotated_keys_from s uid node (i + 1) left
    ok (rotation_keys b ++ rest)

  -- `collect_revocations` with the authors' states from `effective_revocation`.
  unfoldable pub revocations_of : Store → UserId → ℕ → Result (List Found)
  revocations_of s uid target =
      collect_revocations na st (effective_revocation na st s uid) s uid target

  unfoldable pub known_keys : Store → UserId → BlockAddress → ℕ → Result (List PublicKey)
  known_keys s uid own target = do
    revoked ← get_node s uid target
    rotated ← rotated_keys_from s uid target 0 (rounds na st (branch_tip_index s uid target))
    found ← revocations_of s uid target
    ok (revoked.working_pubkey ∷ (rotated ++ prior_replacements own found))

  unfoldable pub validate_revocation : Store → Block → Result (Unit {0})
  validate_revocation s block = do
    guard (type_eq block.kind revocation) invalid_argument_error
    rp ← decode_revocation_payload block.payload
    guard (not (rp.revoked_node_index == 0)) revocation_error
    guard (is_valid_node rp.revoked_node_index) revocation_error
    guard (is_ancestor block.address.node_index rp.revoked_node_index) revocation_error
    known ← known_keys s block.address.user_id block.address rp.revoked_node_index
    guard (any_key known rp.revoked_pubkey) revocation_error

  -- The fake subtrees of rule 6: the nodes come from the tip itself.
  unfoldable pub check_edges : Store → UserId → Node → List Node → Result (Unit {0})
  check_edges s chain parent [] = ok tt
  check_edges s chain parent (n ∷ rest) = do
    rev ← effective_revocation na st s chain parent.index
    guard (not (created_after rev n)) revocation_error
    check_edges s chain n rest

  unfoldable pub check_tip_block : Option Block → PublicKey → Result (Unit {0})
  check_tip_block none key = ok tt
  check_tip_block (some b) key = guard (block_signed_by na b key) revocation_error

  unfoldable pub check_branch_state : Option RevocationState → Option Block → Result (Unit {0})
  check_branch_state none tip = ok tt
  check_branch_state (some r) tip = elim r.replacement_pubkey [
    | none ↦ err revocation_error
    | some key ↦ check_tip_block tip key
  ]

  unfoldable pub check_tip_path : Store → BranchTipInfo → List Node → Result (Unit {0})
  check_tip_path s tip [] = ok tt
  check_tip_path s tip (root ∷ rest) = do
    check_edges s root.structural_pubkey root rest
    rev ← effective_revocation na st s root.structural_pubkey tip.tip_address.node_index
    check_branch_state rev tip.tip_block

  unfoldable pub check_tip_against_revocations : Store → BranchTipInfo → Result (Unit {0})
  check_tip_against_revocations s tip = check_tip_path s tip tip.path
