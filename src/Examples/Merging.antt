-- ===== src/Examples/Merging.antt =====
-- Appended blocks, merges and seals on concrete values.
use free_labour_common_will.Base.{ℤ, pos, ◌≡◌, refl, [], ◌∷◌, false, none, some, All, arith}
use free_labour_common_will.Types.{
  Block, BranchTipInfo, PendingMergeBlock, merge, data_block, zero_hash,
}
use free_labour_common_will.Types.Outcome.{ok}
use free_labour_common_will.Types.Packets.{MergeSnapshot}
use free_labour_common_will.Types.Tree.{path_indices-parent, path_indices-zero}
use free_labour_common_will.Crypto.{hash_node, hash_block, hash, sign, verify}
use free_labour_common_will.Signing.{build_signed_block}
use free_labour_common_will.Serializer.Encode.{enc_merge_payload}
use free_labour_common_will.Snapshot
use free_labour_common_will.Snapshot.{merge_snapshot_comm}
use free_labour_common_will.Validator.Records.{
  effective_revocation, effective_within, collect_revocations, examine_all, sort_found, resolve,
}
use free_labour_common_will.Validator.Branch.{
  Cursor, check_next, check_all, blocks_from, signing_key, next_key_after,
}
use free_labour_common_will.Blockchain.{
  branch_tip_hash, append_block, get_branch, get_path, get_path_of,
}
use free_labour_common_will.Blockchain.Extended.{append_block-check_all}
use free_labour_common_will.Validator.Agreement.{start}
use free_labour_common_will.SealManager.{compute_witnessed_time, visit_all, visit, witnesses}
use free_labour_common_will.SealManager.Witnessed.{
  WitnessedAt, IsWitness, AtMost, compute_witnessed_time-least,
}
use free_labour_common_will.MergeSession.{
  prepare_tip, snapshot_for, create_pending, draft_merge, check_own_branch, check_partner_draft,
  merge_payload,
}
use free_labour_common_will.MergeSession.{co_sign, finalize}
use free_labour_common_will.MergeSession.Seals.{partner_seal, finalize-co_sign}
use free_labour_common_will.Storage.{IStorage}
use free_labour_common_will.Types.{null_signature}
use free_labour_common_will.Signing.{build_signed_node, block_signed_by}
use free_labour_common_will.Validator.Nodes.{
  validate_node, validate_block, validate_seal, validate_co_signature,
}
use free_labour_common_will.Blockchain.{add_node}
use free_labour_common_will.Blockchain.Nodes.{add_node-validate_node}
use free_labour_common_will.MergeSession.Honest.{decode_payload, check_partner_draft-create_pending}
use free_labour_common_will.Examples.{
  toy, toy_laws, AnyPair, toy_key, toy_store, toy_payload, toy_payload-IsMergePayload, address_at,
  node_at, data_at, block_with, merge_block, zeros_32, address_at-IsAddress,
}

abbrev cursor : Cursor
cursor = record { prev_hash = zero_hash; work_key = zero_hash; prev_ts = pos 5; switched = false }

abbrev appended : Block
appended = record (data_at (address_at 1 2)) { timestamp_claimed = pos 6 }

append :
    append_block toy toy_store tt zero_hash 1 (pos 6) data_block (0x80 ∷ []) toy_key
    ≡ ok (tt, appended)
unfolding append_block branch_tip_hash build_signed_block sign hash_block hash
append = refl

branch :
    get_branch toy toy_store tt zero_hash 1
    ≡ ok (data_at (address_at 1 0) ∷ data_at (address_at 1 1) ∷ [])
unfolding get_branch blocks_from
branch = refl

accepted :
    check_all toy none
      (start toy toy_store tt zero_hash 1 (node_at 1))
      (data_at (address_at 1 0) ∷ data_at (address_at 1 1) ∷ [])
    ≡ ok cursor
unfolding check_all check_next signing_key validate_block block_signed_by verify hash_block
    hash_node hash next_key_after
accepted = refl

append_block-check_all_example :
    ((address_at 1 2) ≡ record { user_id = zero_hash; node_index = 1; block_index = 2 })
    × (check_all toy none
          (start toy toy_store tt zero_hash 1 (node_at 1))
          (data_at (address_at 1 0) ∷ data_at (address_at 1 1) ∷ appended ∷ [])
        ≡ ok (record {
          prev_hash = hash_block toy appended;
          work_key = next_key_after appended zero_hash;
          prev_ts = pos 6;
          switched = false;
        }))
append_block-check_all_example =
    append_block-check_all toy AnyPair toy_laws toy_store tt tt zero_hash 1 (pos 6) data_block
      (0x80 ∷ []) toy_key appended none (node_at 1)
      (data_at (address_at 1 0) ∷ data_at (address_at 1 1) ∷ []) cursor tt refl branch (omega arith)
      accepted refl (omega arith) append

witnessed : compute_witnessed_time toy_store tt (address_at 1 2) ≡ ok (some (pos 5))
unfolding compute_witnessed_time visit_all visit witnesses
witnessed = rw (decode_payload toy_payload toy_payload-IsMergePayload) refl

compute_witnessed_time-least_example :
    ((t : ℤ) → some (pos 5) ≡ some t → WitnessedAt (address_at 1 2) t (merge_block ∷ []))
    × All
        (λ b. IsWitness (address_at 1 2) b → AtMost (some (pos 5)) b.timestamp_claimed)
        (merge_block ∷ [])
compute_witnessed_time-least_example =
    compute_witnessed_time-least toy_store tt (address_at 1 2) (some (pos 5)) (merge_block ∷ [])
      refl witnessed

abbrev snapshot : MergeSnapshot
snapshot = Snapshot.leaf toy (record { address = address_at 1 1; block_hash = zero_hash })

merge_snapshot_comm_example :
    Snapshot.merge toy snapshot snapshot ≡ Snapshot.merge toy snapshot snapshot
merge_snapshot_comm_example = merge_snapshot_comm toy snapshot snapshot refl

abbrev tip : BranchTipInfo
tip = record {
  tip_address = address_at 1 1;
  tip_hash = zero_hash;
  path = node_at 0 ∷ node_at 1 ∷ [];
  tip_block = some (data_at (address_at 1 1));
}

tipped : prepare_tip toy toy_store tt zero_hash 1 ≡ ok tip
unfolding prepare_tip get_path get_path_of hash_block hash
tipped = rw (path_indices-parent 1 (omega arith), path_indices-zero) refl

read : snapshot_for toy toy_store tt zero_hash 1 ≡ ok snapshot
unfolding snapshot_for hash_block hash
read = refl

abbrev draft : Block
draft =
    record (block_with merge
      (enc_merge_payload
        (merge_payload toy toy_store tip (Snapshot.merge toy snapshot snapshot) (pos 7) 1))
      (address_at 1 2)) { timestamp_claimed = pos 7 }

abbrev pending : PendingMergeBlock
pending = record { draft = draft; draft_hash = zero_hash }

created :
    create_pending toy toy_store tt zero_hash 1 tip snapshot toy_key (pos 7) 1 ≡ ok (tt, pending)
unfolding create_pending check_own_branch draft_merge snapshot_for build_signed_block sign
    hash_block hash effective_revocation effective_within collect_revocations examine_all sort_found
    resolve
created = refl

check_partner_draft-create_pending_example :
    check_partner_draft toy draft tip tip (pos 9) (some draft) ≡ ok zero_hash
check_partner_draft-create_pending_example =
    check_partner_draft-create_pending toy toy_store AnyPair toy_laws tt tt tt tt zero_hash
      zero_hash 1 1 tip tip snapshot snapshot toy_key toy_key (pos 7) (pos 7) (pos 9) 1 1 pending
      pending tipped read read created created
      (address_at-IsAddress 1 1 (omega arith) (omega arith), zeros_32, omega arith, omega arith)
      (address_at-IsAddress 1 1 (omega arith) (omega arith), zeros_32, omega arith, omega arith)
      refl refl refl

co_signed : co_sign toy zero_hash toy_key ≡ ok null_signature
unfolding co_sign sign
co_signed = refl

drafted : zero_hash ≡ hash_block toy draft
unfolding hash_block hash
drafted = refl

finalize-co_sign_example :
    (finalize toy toy_store tt pending null_signature zero_hash
      ≡ ok (tt, record draft { co_signature = some null_signature }))
    × (validate_co_signature toy (record draft { co_signature = some null_signature }) zero_hash
        ≡ ok tt)
    × (validate_seal toy (partner_seal pending null_signature toy_key) ≡ ok tt)
finalize-co_sign_example =
    finalize-co_sign toy AnyPair toy_laws toy_store tt tt pending toy_key null_signature tt refl
      drafted co_signed refl

abbrev fresh : IStorage
fresh = record toy_store { has_node = λ s uid i. false }

added : add_node toy fresh tt zero_hash (λ i. toy_key) 2 ≡ ok (tt, node_at 2)
unfolding add_node build_signed_node sign hash_node hash
added = refl

add_node-validate_node_example : validate_node toy fresh tt (node_at 2) zero_hash ≡ ok tt
add_node-validate_node_example =
    add_node-validate_node toy AnyPair toy_laws fresh tt tt zero_hash (λ i. toy_key) 2 (node_at 0)
      (node_at 2) (omega arith) tt refl refl refl added
