-- ===== src/Blockchain.antt =====
-- modules/blockchain/src/blockchain.cpp: the facade that builds and appends nodes and blocks.
-- A block's index is a `uint32_t`: the index behind a tip is written with its wrap-around.
pub mod Append
pub mod Extended
pub mod Nodes
use free_labour_common_will.Base.{
  ℕ, zero, suc, ◌+◌, ◌%◌, ◌^◌, ℤ, pos, List, [], ◌∷◌, ◌==◌, not, ◌&&◌, if◌then◌else◌, Bool, true,
  false, Option, none, some, bytes_eq,
}
use free_labour_common_will.Types.{
  UserId, PublicKey, KeyPair, Hash, Node, Block, BlockAddress, BlockType, RevocationPayload,
  data_block, key_rotation, revocation, zero_hash,
}
use free_labour_common_will.Types.Outcome.{
  Result, ok, err, guard, ◌>>=◌, ◌>>◌, invalid_argument_error, node_not_found, revocation_error,
}
use free_labour_common_will.Types.Tree.{path_indices, is_ancestor, is_valid_node, parent_index}
use free_labour_common_will.Crypto.{Sodium, hash_node, hash_block}
use free_labour_common_will.Signing.{build_signed_node, build_signed_block}
use free_labour_common_will.Serializer.Encode.{enc_revocation_payload}
use free_labour_common_will.Storage.{IStorage}
use free_labour_common_will.Validator.State.{
  RevocationState, BranchRevocationState, active, frozen, replaced, BranchRevocationStatus,
}
use free_labour_common_will.Validator.Records.{effective_revocation}
use free_labour_common_will.Validator.Branch.{
  next_key_after, blocks_from, rounds, branch_revocation_status,
}

module _ (na : Sodium) (st : IStorage) where
  open st use {Store, get_node, has_node, put_node, get_block, put_block, branch_tip_index}

  unfoldable pub create_identity : Store → KeyPair → Result (Store × Node)
  create_identity s root_keypair = do
    guard (not (has_node s root_keypair.pub_key 0)) invalid_argument_error
    n ← build_signed_node na 0 root_keypair zero_hash root_keypair.sec (pos 0)
    s' ← put_node s root_keypair.pub_key n
    ok (s', n)

  -- The node that the loop of `ensure_path` adds at `idx`.
  unfoldable pub add_node : Store → UserId → (ℕ → KeyPair) → ℕ → Result (Store × Node)
  add_node s uid key_for idx = do
    parent ← get_node s uid (parent_index idx)
    n ←
        build_signed_node na idx (key_for idx) (hash_node na parent)
          (key_for (parent_index idx)).sec (pos 0)
    s' ← put_node s uid n
    ok (s', n)

  unfoldable pub add_missing : Store → UserId → (ℕ → KeyPair) → List ℕ → Result (Store × List Node)
  add_missing s uid key_for [] = ok (s, [])
  add_missing s uid key_for (idx ∷ rest) =
      if has_node s uid idx then add_missing s uid key_for rest else do
        (s', n) ← add_node s uid key_for idx
        (last, created) ← add_missing s' uid key_for rest
        ok (last, n ∷ created)

  -- `key_for` is a pure function: in the source it is a callback of the caller.
  unfoldable pub ensure_path : Store → UserId → ℕ → (ℕ → KeyPair) → Result (Store × List Node)
  ensure_path s uid leaf_index key_for = do
    guard (is_valid_node leaf_index) invalid_argument_error
    guard (has_node s uid 0) (node_not_found 0)
    add_missing s uid key_for (path_indices leaf_index)

  unfoldable pub get_path_of : Store → UserId → List ℕ → Result (List Node)
  get_path_of s uid [] = ok []
  get_path_of s uid (i ∷ is) = do n ← get_node s uid i; rest ← get_path_of s uid is; ok (n ∷ rest)

  unfoldable pub get_path : Store → UserId → ℕ → Result (List Node)
  get_path s uid leaf_index = get_path_of s uid (path_indices leaf_index)

  unfoldable pub branch_tip_hash : Store → UserId → ℕ → Result Hash
  branch_tip_hash s uid leaf_index = elim (branch_tip_index s uid leaf_index) [
    | none ↦ do leaf ← get_node s uid leaf_index; ok (hash_node na leaf)
    | some tip ↦ do
      b ← get_block s (record { user_id = uid; node_index = leaf_index; block_index = tip })
      ok (hash_block na b)
  ]

  abbrev pub key_differs : PublicKey → Option PublicKey → Bool
  key_differs key none = false
  key_differs key (some next) = not (bytes_eq key next)

  unfoldable pub check_writable : BranchRevocationStatus → PublicKey → Result (Unit {0})
  check_writable status key = elim status.state [
    | active ↦ ok tt
    | frozen ↦ err revocation_error
    | replaced ↦ guard (not (key_differs key status.next_key)) revocation_error
  ]

  unfoldable pub ensure_branch_writable : Store → UserId → ℕ → PublicKey → Result (Unit {0})
  ensure_branch_writable s uid node key = effective_revocation na st s uid node >>= λ rev.
      elim rev [
        | none ↦ ok tt
        | some r ↦ do status ← branch_revocation_status na st s uid node; check_writable status key
      ]

  -- `tip_opt.has_value() ? (*tip_opt + 1) : 0`.
  abbrev pub next_index : Option ℕ → ℕ
  next_index none = 0
  next_index (some tip) = (tip + 1) % 2 ^ 32

  -- The steps from the tip's hash on that the appending calls share.
  unfoldable pub append_block :
      Store → UserId → ℕ → ℤ → BlockType → List ℕ → KeyPair → Result (Store × Block)
  append_block s uid node ts kind payload kp = do
    prev_hash ← branch_tip_hash s uid node
    b ←
        build_signed_block na
          (record {
            user_id = uid;
            node_index = node;
            block_index = next_index (branch_tip_index s uid node);
          })
          prev_hash ts kind payload kp.sec
    s' ← put_block s b
    ok (s', b)

  unfoldable pub append_data_block :
      Store → UserId → ℕ → List ℕ → KeyPair → ℤ → Result (Store × Block)
  append_data_block s uid leaf_index payload kp ts = do
    guard (is_valid_node leaf_index) invalid_argument_error
    ensure_branch_writable s uid leaf_index kp.pub_key
    append_block s uid leaf_index ts data_block payload kp

  unfoldable pub append_stub_block : Store → UserId → ℕ → KeyPair → ℤ → Result (Store × Block)
  append_stub_block s uid leaf_index kp ts = append_data_block s uid leaf_index (0x80 ∷ []) kp ts

  unfoldable pub rotate_key : Store → UserId → ℕ → KeyPair → KeyPair → ℤ → Result (Store × Block)
  rotate_key s uid leaf_index old_kp new_kp ts = do
    ensure_branch_writable s uid leaf_index old_kp.pub_key
    append_block s uid leaf_index ts key_rotation new_kp.pub_key old_kp

  unfoldable pub follow_rotations : Store → UserId → ℕ → PublicKey → ℕ → ℕ → Result PublicKey
  follow_rotations s uid node key i zero = ok key
  follow_rotations s uid node key i (suc left) = do
    b ← get_block s (record { user_id = uid; node_index = node; block_index = i })
    follow_rotations s uid node (next_key_after b key) (i + 1) left

  unfoldable pub effective_working_pubkey : Store → UserId → ℕ → Result PublicKey
  effective_working_pubkey s uid node = do
    n ← get_node s uid node
    follow_rotations s uid node n.working_pubkey 0 (rounds na st (branch_tip_index s uid node))

  unfoldable pub check_revoker : BranchRevocationStatus → PublicKey → Result (Unit {0})
  check_revoker status key = elim status.state [
    | frozen ↦ err revocation_error
    | active ↦ owned status.next_key
    | replaced ↦ owned status.next_key
  ]
    where
      owned : Option PublicKey → Result (Unit {0})
      owned none = err invalid_argument_error
      owned (some next) = guard (bytes_eq key next) invalid_argument_error

  -- The key that a revocation names: the one authorised for the branch, or the last of its lineage.
  unfoldable pub revoked_key : Store → UserId → ℕ → Result PublicKey
  revoked_key s uid node = branch_revocation_status na st s uid node >>= λ status.
      elim status.next_key [ some key ↦ ok key | none ↦ effective_working_pubkey s uid node ]

  unfoldable pub revoke_node :
      Store → UserId → ℕ → ℤ → Option PublicKey → ℕ → KeyPair → ℤ → Result (Store × Block)
  revoke_node s uid revoked_node_index compromised_since replacement ancestor kp ts = do
    guard (not (revoked_node_index == 0)) revocation_error
    guard (is_valid_node revoked_node_index) invalid_argument_error
    guard (is_ancestor ancestor revoked_node_index) revocation_error
    key ← revoked_key s uid revoked_node_index
    author ← branch_revocation_status na st s uid ancestor
    check_revoker author kp.pub_key
    append_block s uid ancestor ts revocation
        (enc_revocation_payload (record {
          revoked_node_index = revoked_node_index;
          revoked_pubkey = key;
          compromised_since = compromised_since;
          replacement_pubkey = replacement;
        }))
        kp

  unfoldable pub get_branch : Store → UserId → ℕ → Result (List Block)
  get_branch s uid leaf_index =
      blocks_from na st s uid leaf_index 0 (rounds na st (branch_tip_index s uid leaf_index))
