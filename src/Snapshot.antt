-- ===== src/Snapshot.antt =====
-- modules/blockchain/src/merge_snapshot.cpp.
use free_labour_common_will.Base.{
  ◌≡◌, bytes_le, bytes_le_total, bytes_le_antisymm, if◌then◌else◌, length, IsBytes, Bool-cases, inl,
  inr,
}
use free_labour_common_will.Types.{KeyPair, Hash, ExternalRef}
use free_labour_common_will.Types.Packets.{MergeSnapshot}
use free_labour_common_will.Crypto.{Sodium, SodiumLaws, hash}
use free_labour_common_will.Merkle.{leaf_hash, combine, node_hash}
use free_labour_common_will.Hll
use free_labour_common_will.Hll.Union.{merge_comm}

module _ (na : Sodium) where
  unfoldable pub leaf : ExternalRef → MergeSnapshot
  leaf ref = record {
    merkle_root = leaf_hash na ref;
    hll = Hll.add na ref.address.user_id Hll.empty;
  }

  -- The smaller root is the left child.
  unfoldable pub merge_root : Hash → Hash → Hash
  merge_root a b = if bytes_le a b then combine na a b else combine na b a

  unfoldable pub merge : MergeSnapshot → MergeSnapshot → MergeSnapshot
  unfolding merge_root
  merge a b = record {
    merkle_root = merge_root a.merkle_root b.merkle_root;
    hll = Hll.merge a.hll b.hll;
  }

  unfoldable pub sketch_hash : MergeSnapshot → Hash
  sketch_hash s = Hll.sketch_hash na s.hll

  -- A union's root and sketch hash are hashes of the right size.
  pub merge_root_size :
      (Generated : KeyPair → Type 0) (laws : SodiumLaws na Generated) (a b : MergeSnapshot)
      → IsBytes 32 (merge a b).merkle_root
  unfolding merge combine node_hash hash
  merge_root_size Generated laws a b = elim (Bool-cases (bytes_le a.merkle_root b.merkle_root)) [
    | inl below ↦ rw below (laws.hash_size _)
    | inr above ↦ rw above (laws.hash_size _)
  ]

  pub sketch_hash_size :
      (Generated : KeyPair → Type 0) (laws : SodiumLaws na Generated) (s : MergeSnapshot)
      → IsBytes 32 (sketch_hash s)
  unfolding sketch_hash Hll.sketch_hash hash
  sketch_hash_size Generated laws s = laws.hash_size _

  merge_root_comm : (a b : Hash) → merge_root a b ≡ merge_root b a
  unfolding merge_root
  merge_root_comm a b = elim (Bool-cases (bytes_le a b)) [
    | inr above ↦ rw (above, bytes_le_total a b above)
    | inl below ↦ elim (Bool-cases (bytes_le b a)) [
      | inr other ↦ rw (below, other)
      | inl both ↦ rw (bytes_le_antisymm a b below both)
    ]
  ]

  -- The union of two snapshots whose sketches have one size does not depend on their order.
  pub merge_snapshot_comm :
      (a b : MergeSnapshot) → length a.hll ≡ length b.hll → merge a b ≡ merge b a
  unfolding merge
  merge_snapshot_comm a b e = λ i. record {
    merkle_root = merge_root_comm a.merkle_root b.merkle_root i;
    hll = merge_comm a.hll b.hll e i;
  }
