-- ===== src/Examples/Caches.antt =====
-- The cache of a participant after one merge, and a warehouse that knows one leaf.
use free_labour_common_will.Base.{
  ◌≡◌, ◌↔◌, ◌<◌, ◌+◌, ◌^◌, refl, ℕ, List, [], ◌∷◌, ◌++◌, length, some, none, true, false, arith,
}
use free_labour_common_will.Types.{ExternalRef, BranchTipInfo, Hash, zero_hash}
use free_labour_common_will.Types.Outcome.{ok}
use free_labour_common_will.Types.Packets.{Proof, MergeSnapshot}
use free_labour_common_will.Crypto.{Sodium}
use free_labour_common_will.Merkle.{leaf_hash, verify}
use free_labour_common_will.Serializer.Writer.{
  w_uint, w_map, w_arr, w_bytes, w_fixed, w_int64, write_head,
}
use free_labour_common_will.Serializer.Encode.{
  enc_address, enc_ext_ref, enc_node, enc_block, enc_fraud_proof, enc_merkle_proof,
}
use free_labour_common_will.Serializer.RoundTrip.{unsigned_by_partner}
use free_labour_common_will.Snapshot
use free_labour_common_will.Sync.Cache.{
  LeafRecord, ParticipantCache, empty_cache, record_merge, merkle_path, build_proof,
  encode_leaf_record, decode_leaf_record,
}
use free_labour_common_will.Sync.Consistent.{
  IsConsistent, record_merge-IsConsistent, record_merge-merge,
}
use free_labour_common_will.Sync.Explore.{Reaches}
use free_labour_common_will.Sync.Path.{merkle_path_iff}
use free_labour_common_will.Sync.Proofs.{
  decode-encode_leaf_record, build_proof-verify, record_merge-build_proof, proof_of, record_of,
}
use free_labour_common_will.Sync.Exchange.{
  ISnapshotStore, Completion, completion_start, complete_rounds,
}
use free_labour_common_will.Sync.Untrusted.{Extends, complete_rounds-Extends}
use free_labour_common_will.Sync.Reachable.{created, merged, Reachable-IsConsistent}
use free_labour_common_will.Examples.{
  address_at, node_at, data_at, zeros_32, address_at-IsAddress, node_at-IsNode, data_at-IsBlock,
}

-- A hash that keeps what it hashes, so that different leaves have different hashes.
abbrev keeping : Sodium
keeping = record {
  generichash = λ m. m;
  sign_detached = λ m k. none;
  verify_detached = λ s m k. false;
}

abbrev tip_at : ℕ → BranchTipInfo
tip_at node = record {
  tip_address = address_at node 0;
  tip_hash = zero_hash;
  path = node_at 0 ∷ node_at node ∷ [];
  tip_block = some (data_at (address_at node 0));
}

abbrev ref_at : ℕ → ExternalRef
ref_at node = record { address = address_at node 0; block_hash = zero_hash }

abbrev own : MergeSnapshot
own = Snapshot.leaf keeping (ref_at 1)

abbrev partner : MergeSnapshot
partner = Snapshot.leaf keeping (ref_at 2)

abbrev after : ParticipantCache × Hash
after = record_merge keeping empty_cache (tip_at 1) own (tip_at 2) partner

partner_leaf : leaf_hash keeping (ref_at 2) ≡ partner.merkle_root
unfolding Snapshot.leaf
partner_leaf = refl

empty-IsConsistent : IsConsistent keeping empty_cache
empty-IsConsistent = record { keyed = tt; composed = tt }

after-IsConsistent : IsConsistent keeping after.0
after-IsConsistent =
    record_merge-IsConsistent keeping empty_cache (tip_at 1) (tip_at 2) own partner
      empty-IsConsistent

record_merge-merge_example : after.1 ≡ (Snapshot.merge keeping own partner).merkle_root
record_merge-merge_example =
    record_merge-merge keeping empty_cache (tip_at 1) (tip_at 2) own partner

record_merge-build_proof_example :
    (p : Proof) × (build_proof after.0 after.1 partner.merkle_root
      ≡ some (proof_of (record_of (tip_at 2) (data_at (address_at 2 0))) p))
    × (verify keeping partner.merkle_root p after.1 ≡ true)
record_merge-build_proof_example =
    record_merge-build_proof keeping empty_cache (tip_at 1) (tip_at 2) own partner
      (data_at (address_at 2 0)) empty-IsConsistent refl partner_leaf

merged_proof :
    (p : Proof) × (build_proof after.0 after.1 partner.merkle_root
      ≡ some (proof_of (record_of (tip_at 2) (data_at (address_at 2 0))) p))
    × (verify keeping partner.merkle_root p after.1 ≡ true)
merged_proof =
    record_merge-build_proof keeping empty_cache (tip_at 1) (tip_at 2) own partner
      (data_at (address_at 2 0)) empty-IsConsistent refl partner_leaf

abbrev partner_proof : Proof
partner_proof = merged_proof.0

build_proof-verify_example :
    (leaf_hash keeping (ref_at 2) ≡ partner.merkle_root)
    × (verify keeping (leaf_hash keeping (ref_at 2)) partner_proof after.1 ≡ true)
build_proof-verify_example =
    build_proof-verify keeping after.0 after.1 partner.merkle_root
      (proof_of (record_of (tip_at 2) (data_at (address_at 2 0))) partner_proof) after-IsConsistent
      merged_proof.1

merkle_path_iff_example :
    ((p : Proof) × (merkle_path after.0 after.1 partner.merkle_root ≡ some p))
    ↔ Reaches after.0.compositions after.1 partner.merkle_root partner.merkle_root
merkle_path_iff_example = merkle_path_iff after.0 after.1 partner.merkle_root

-- A warehouse that answers every question for a leaf with one record.
abbrev warehouse : ISnapshotStore
warehouse = record {
  Store = Unit;
  publish_leaf = λ s h r. (s, true);
  publish_composition = λ s h c. (s, true);
  fetch_leaf = λ s h. (s, some (record_of (tip_at 2) (data_at (address_at 2 0))));
  fetch_composition = λ s h. (s, none);
}

abbrev asking : Completion warehouse
asking = completion_start warehouse tt after.0 partner.merkle_root

complete_rounds-Extends_example :
    Extends keeping asking.cache (complete_rounds warehouse keeping 3 asking).cache
complete_rounds-Extends_example = complete_rounds-Extends keeping warehouse 3 asking

Reachable-IsConsistent_example :
    IsConsistent keeping (record_merge keeping empty_cache (tip_at 1) own (tip_at 2) partner).0
Reachable-IsConsistent_example =
    Reachable-IsConsistent keeping warehouse after.0
      (merged empty_cache (tip_at 1) (tip_at 2) own partner created)

abbrev tail : List ℕ
tail = 7 ∷ []

abbrev sample : LeafRecord
sample = record_of (tip_at 1) (data_at (address_at 1 0))

record_fits : length (encode_leaf_record sample) + length tail < 2 ^ 64
unfolding enc_node enc_address enc_ext_ref w_uint w_map w_arr w_bytes w_fixed w_int64 write_head
    enc_block enc_fraud_proof enc_merkle_proof encode_leaf_record
record_fits = omega arith

decode-encode_leaf_record_example :
    decode_leaf_record (encode_leaf_record sample ++ tail)
    ≡ ok (record sample { evidence = unsigned_by_partner sample.evidence })
decode-encode_leaf_record_example =
    decode-encode_leaf_record sample tail
      (record {
        ref = record {
          address = address_at-IsAddress 1 0 (omega arith) (omega arith);
          hash = zeros_32;
        };
        path = record {
          nodes = (node_at-IsNode 0 (omega arith), (node_at-IsNode 1 (omega arith), tt));
          count = omega arith;
        };
        evidence = data_at-IsBlock;
      })
      record_fits
