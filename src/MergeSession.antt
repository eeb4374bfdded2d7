-- ===== src/MergeSession.antt =====
-- modules/blockchain/src/merge_session.cpp.
pub mod Drafts
pub mod Honest
pub mod Seals
use free_labour_common_will.Base.{
  ℕ, zero, suc, ◌+◌, ◌%◌, ◌^◌, ℤ, pos_part, neg_part, sub_ℕ, List, [], ◌∷◌, ◌==◌, not, ◌&&◌, ◌||◌,
  if◌then◌else◌, Bool, true, false, Option, none, some, bytes_eq, ltb_ℤ,
}
use free_labour_common_will.Types.{
  UserId, PublicKey, Signature, KeyPair, Hash, Node, Block, BlockAddress, BranchTipInfo,
  PendingMergeBlock, ExternalRef, MergePayload, Seal, open_mode, merge, type_eq, address_eq,
  empty_branch_index, clock_slack,
}
use free_labour_common_will.Types.Outcome.{
  Result, ok, err, guard, ◌>>=◌, ◌>>◌, chain_integrity_error, timestamp_error,
  invalid_argument_error, revocation_error, signature_error,
}
use free_labour_common_will.Types.Packets.{MergeSnapshot}
use free_labour_common_will.Crypto.{Sodium, hash_node, hash_block, sign, verify}
use free_labour_common_will.Signing.{build_signed_block}
use free_labour_common_will.Serializer.Encode.{enc_merge_payload}
use free_labour_common_will.Serializer.Decode.{decode, dec_merge_payload}
use free_labour_common_will.Storage.{IStorage}
use free_labour_common_will.KeyPath.{back, verify_node_path}
use free_labour_common_will.Snapshot
use free_labour_common_will.Validator.State.{
  RevocationState, active, frozen, replaced, BranchRevocationStatus,
}
use free_labour_common_will.Validator.Records.{effective_revocation}
use free_labour_common_will.Validator.Branch.{branch_revocation_status}
use free_labour_common_will.Validator.Revocations.{check_tip_against_revocations}
use free_labour_common_will.Blockchain.{key_differs, get_path}

-- `now + kClockSlack` and `now - kClockSlack`, for clocks that stay away from the ends of `int64_t`.
abbrev pub latest : ℤ → ℤ
latest now = sub_ℕ (pos_part now + clock_slack) (neg_part now)

abbrev pub earliest : ℤ → ℤ
earliest now = sub_ℕ (pos_part now) (neg_part now + clock_slack)

abbrev eq_ℤ : ℤ → ℤ → Bool
eq_ℤ a b = pos_part a == pos_part b && neg_part a == neg_part b

module _ (na : Sodium) where
  unfoldable pub check_tip_block_hash : BranchTipInfo → Option Block → Result (Unit {0})
  check_tip_block_hash tip none = ok tt
  check_tip_block_hash tip (some b) = do
    guard (bytes_eq (hash_block na b) tip.tip_hash) chain_integrity_error
    guard (address_eq b.address tip.tip_address) chain_integrity_error

  unfoldable pub check_partner_time : Option Block → ℤ → Result (Unit {0})
  check_partner_time none now = ok tt
  check_partner_time (some b) now =
      guard (not (ltb_ℤ (latest now) b.timestamp_claimed)) timestamp_error

  unfoldable pub check_union : MergePayload → Option Block → Result (Unit {0})
  check_union mp none = ok tt
  check_union mp (some own) = do
    ours ← decode dec_merge_payload own.payload
    guard (bytes_eq ours.merkle_root mp.merkle_root && bytes_eq ours.hll_hash mp.hll_hash)
        chain_integrity_error

  unfoldable pub check_partner_draft :
      Block → BranchTipInfo → BranchTipInfo → ℤ → Option Block → Result Hash
  check_partner_draft draft own_tip partner_tip now own_draft =
      let tip = partner_tip.tip_address in
      do
        guard (type_eq draft.kind merge) chain_integrity_error
        guard (bytes_eq draft.address.user_id tip.user_id) chain_integrity_error
        guard (draft.address.node_index == tip.node_index) chain_integrity_error
        guard (draft.address.block_index == (tip.block_index + 1) % 2 ^ 32) chain_integrity_error
        guard (bytes_eq draft.prev_hash partner_tip.tip_hash) chain_integrity_error
        mp ← decode dec_merge_payload draft.payload
        guard (address_eq mp.partner_last_address own_tip.tip_address) chain_integrity_error
        guard (bytes_eq mp.partner_last_hash own_tip.tip_hash) chain_integrity_error
        guard (eq_ℤ draft.timestamp_claimed mp.merge_timestamp) timestamp_error
        guard (not (ltb_ℤ (latest now) mp.merge_timestamp)) timestamp_error
        guard (not (ltb_ℤ mp.merge_timestamp (earliest now))) timestamp_error
        check_union mp own_draft
        ok (hash_block na draft)

  unfoldable pub co_sign : Hash → KeyPair → Result Signature
  co_sign partner_draft_hash kp = sign na partner_draft_hash kp.sec

  module _ (st : IStorage) where
    open st use {
      Store, get_node, has_node, put_node, get_block, put_block, branch_tip_index, get_snapshot,
      put_snapshot, put_seal, has_external_block, put_external_block,
    }

    -- The hash of `info.path.back()`; a path of `path_indices` is not empty.
    abbrev last_hash : List Node → Hash
    last_hash [] = []
    last_hash (n ∷ rest) = hash_node na (back n rest)

    unfoldable pub prepare_tip : Store → UserId → ℕ → Result BranchTipInfo
    prepare_tip s uid leaf_index = get_path na st s uid leaf_index >>= λ path.
        elim (branch_tip_index s uid leaf_index) [
          | none ↦ ok (record {
            tip_address = record {
              user_id = uid;
              node_index = leaf_index;
              block_index = empty_branch_index;
            };
            tip_hash = last_hash path;
            path = path;
            tip_block = none;
          })
          | some tip ↦ do
            b ← get_block s (record { user_id = uid; node_index = leaf_index; block_index = tip })
            ok (record {
              tip_address = record { user_id = uid; node_index = leaf_index; block_index = tip };
              tip_hash = hash_block na b;
              path = path;
              tip_block = some b;
            })
        ]

    unfoldable pub verify_partner_tip : Store → BranchTipInfo → Result (Unit {0})
    verify_partner_tip s tip = do
      chain ← verify_node_path na tip.path
      check_tip_block_hash tip tip.tip_block
      check_tip_against_revocations na st s tip

    abbrev tip_leaf : Store → UserId → ℕ → Option ℕ → Result MergeSnapshot
    tip_leaf s uid leaf_index none = err invalid_argument_error
    tip_leaf s uid leaf_index (some tip) =
        let address : BlockAddress = record {
          user_id = uid;
          node_index = leaf_index;
          block_index = tip;
        } in
        do
          b ← get_block s address
          ok (Snapshot.leaf na (record { address = address; block_hash = hash_block na b }))

    unfoldable pub snapshot_for : Store → UserId → ℕ → Result MergeSnapshot
    snapshot_for s uid leaf_index = get_snapshot s uid leaf_index >>= λ stored. elim stored [
      | some snapshot ↦ ok snapshot
      | none ↦ tip_leaf s uid leaf_index (branch_tip_index s uid leaf_index)
    ]

    -- The refusal of a revoked branch: other than the facade's, whatever the state but FROZEN.
    unfoldable pub check_own_key : BranchRevocationStatus → PublicKey → Result (Unit {0})
    check_own_key status key = elim status.state [
      | frozen ↦ err revocation_error
      | active ↦ guard (not (key_differs na st key status.next_key)) revocation_error
      | replaced ↦ guard (not (key_differs na st key status.next_key)) revocation_error
    ]

    unfoldable pub check_own_branch : Store → UserId → ℕ → PublicKey → Result (Unit {0})
    check_own_branch s uid leaf_index key = effective_revocation na st s uid leaf_index >>= λ rev.
        elim rev [
          | none ↦ ok tt
          | some r ↦ do
            status ← branch_revocation_status na st s uid leaf_index
            check_own_key status key
        ]

    abbrev pub merge_payload : BranchTipInfo → MergeSnapshot → ℤ → ℕ → MergePayload
    merge_payload partner merged ts depth = record {
      partner_last_address = partner.tip_address;
      partner_last_hash = partner.tip_hash;
      merge_timestamp = ts;
      merkle_root = merged.merkle_root;
      hll_hash = Snapshot.sketch_hash na merged;
      validated_depth = depth;
    }

    -- The part of `create_pending` behind its checks, on a branch whose last block is `tip`.
    unfoldable pub draft_merge :
        Store
        → UserId
        → ℕ
        → ℕ
        → BranchTipInfo
        → MergeSnapshot
        → KeyPair
        → ℤ
        → ℕ
        → Result (Store × PendingMergeBlock)
    draft_merge s uid leaf_index tip partner partner_snapshot kp ts depth = do
      own ← snapshot_for s uid leaf_index
      last ← get_block s (record { user_id = uid; node_index = leaf_index; block_index = tip })
      draft ←
          build_signed_block na
            (record { user_id = uid; node_index = leaf_index; block_index = (tip + 1) % 2 ^ 32 })
            (hash_block na last) ts merge
            (enc_merge_payload
              (merge_payload partner (Snapshot.merge na own partner_snapshot) ts depth))
            kp.sec
      s' ← put_block s draft
      s'' ← put_snapshot s' uid leaf_index (Snapshot.merge na own partner_snapshot)
      ok (s'', record { draft = draft; draft_hash = hash_block na draft })

    unfoldable pub create_pending :
        Store
        → UserId
        → ℕ
        → BranchTipInfo
        → MergeSnapshot
        → KeyPair
        → ℤ
        → ℕ
        → Result (Store × PendingMergeBlock)
    create_pending s uid leaf_index partner partner_snapshot kp ts depth =
        elim (branch_tip_index s uid leaf_index) [
          | none ↦ err invalid_argument_error
          | some tip ↦ do
            guard (not (partner.tip_address.block_index == empty_branch_index))
                invalid_argument_error
            check_own_branch s uid leaf_index kp.pub_key
            draft_merge s uid leaf_index tip partner partner_snapshot kp ts depth
        ]

    unfoldable pub finalize :
        Store → PendingMergeBlock → Signature → PublicKey → Result (Store × Block)
    finalize s pending co_sig partner = do
      guard (verify na pending.draft_hash co_sig partner) signature_error
      s' ← put_seal s (record {
        signer_id = partner;
        block_hash = pending.draft_hash;
        signature = co_sig;
        mode = open_mode;
        sealed_at = pending.draft.timestamp_claimed;
      })
      ok (s', record pending.draft { co_signature = some co_sig })

    unfoldable pub import_nodes : Store → UserId → List Node → Result Store
    import_nodes s partner [] = ok s
    import_nodes s partner (n ∷ rest) =
        if has_node s partner n.index
        then import_nodes s partner rest
        else do s' ← put_node s partner n; import_nodes s' partner rest

    unfoldable pub import_block : Store → Option Block → Result Store
    import_block s none = ok s
    import_block s (some b) =
        if has_external_block s b.address then ok s else put_external_block s b

    unfoldable pub import_partner_data : Store → BranchTipInfo → Result Store
    import_partner_data s tip = elim tip.path [
      | [] ↦ ok s
      | root ∷ rest ↦ do
        s' ← import_nodes s root.structural_pubkey (root ∷ rest)
        import_block s' tip.tip_block
    ]
