-- ===== src/Sync/Consistent.antt =====
-- The key consistency that participant_cache.h promises, of every operation of the cache.
use free_labour_common_will.Base.{
  ◌≡◌, refl, List, true, bytes_eq, bytes_le, bytes_le_total, bytes_le_antisymm, All, ℕ, assign-All,
  Bool-cases, Option-cases, inl, inr,
}
use free_labour_common_will.Types.{Hash, BranchTipInfo}
use free_labour_common_will.Types.Packets.{MergeSnapshot}
use free_labour_common_will.Crypto.{Sodium}
use free_labour_common_will.Merkle.{leaf_hash, combine}
use free_labour_common_will.Snapshot
use free_labour_common_will.Sync.Cache.{
  LeafRecord, Composition, ParticipantCache, put_leaf, put_composition, ordered, put_leaf_if_fresh,
  record_merge,
}

module _ (na : Sodium) where
  -- A leaf stands under the hash of its reference.
  abbrev pub IsKeyed : List ℕ × LeafRecord → Type 0
  IsKeyed (key, r) = key ≡ leaf_hash na r.ref

  -- A composition stands under the hash of its children, the smaller one first.
  abbrev pub IsComposed : List ℕ × Composition → Type 0
  IsComposed (key, comp) =
      (key ≡ combine na comp.left_child comp.right_child)
      × (bytes_le comp.left_child comp.right_child ≡ true)

  pub record IsConsistent (cache : ParticipantCache) : Type 0 where
    pub keyed : All IsKeyed cache.leaves
    pub composed : All IsComposed cache.compositions

  pub ordered-bytes_le :
      (a b : Hash) → bytes_le (ordered na a b).left_child (ordered na a b).right_child ≡ true
  unfolding ordered
  ordered-bytes_le a b = elim (Bool-cases (bytes_le a b)) [
    | inl below ↦ rw (below, below) refl
    | inr above ↦ rw (above, bytes_le_total a b above) refl
  ]

  ordered_comm : (a b : Hash) → ordered na a b ≡ ordered na b a
  unfolding ordered
  ordered_comm a b = elim (Bool-cases (bytes_le a b)) [
    | inr above ↦ rw (above, bytes_le_total a b above) refl
    | inl below ↦ elim (Bool-cases (bytes_le b a)) [
      | inr other ↦ rw (below, other) refl
      | inl both ↦ rw (bytes_le_antisymm a b below both) refl
    ]
  ]

  pub put_leaf-IsConsistent :
      (cache : ParticipantCache) (r : LeafRecord)
      → IsConsistent cache
      → IsConsistent (put_leaf na cache r).0
  unfolding put_leaf
  put_leaf-IsConsistent cache r c = record {
    keyed = assign-All IsKeyed cache.leaves _ r c.keyed refl;
    composed = c.composed;
  }

  pub put_composition-IsConsistent :
      (cache : ParticipantCache) (a b : Hash)
      → IsConsistent cache
      → IsConsistent (put_composition na cache a b).0
  unfolding put_composition
  put_composition-IsConsistent cache a b c = record {
    keyed = c.keyed;
    composed = assign-All IsComposed cache.compositions _ _ c.composed (refl, ordered-bytes_le a b);
  }

  put_leaf_if_fresh-IsConsistent :
      (cache : ParticipantCache) (tip : BranchTipInfo) (s : MergeSnapshot)
      → IsConsistent cache
      → IsConsistent (put_leaf_if_fresh na cache tip s)
  unfolding put_leaf_if_fresh
  put_leaf_if_fresh-IsConsistent cache tip s c = elim (Option-cases tip.tip_block) [
    | inl e ↦ rw e c
    | inr (b, e) ↦ rw e (
        let r : LeafRecord = record {
          ref = record { address = tip.tip_address; block_hash = tip.tip_hash };
          node_path = tip.path;
          evidence = b;
        } in
        elim (Bool-cases (bytes_eq (leaf_hash na r.ref) s.merkle_root)) [
          | inl fresh ↦ rw fresh (put_leaf-IsConsistent cache r c)
          | inr composite ↦ rw composite c
        ])
  ]

  pub put_composition_comm :
      (cache : ParticipantCache) (a b : Hash)
      → put_composition na cache a b ≡ put_composition na cache b a
  unfolding put_composition
  put_composition_comm cache a b = rw (ordered_comm a b) refl

  pub record_merge-IsConsistent :
      (cache : ParticipantCache) (own partner : BranchTipInfo) (s t : MergeSnapshot)
      → IsConsistent cache
      → IsConsistent (record_merge na cache own s partner t).0
  unfolding record_merge
  record_merge-IsConsistent cache own partner s t c =
      put_composition-IsConsistent _ s.merkle_root t.merkle_root
        (put_leaf_if_fresh-IsConsistent _ partner t (put_leaf_if_fresh-IsConsistent cache own s c))

  -- The root that record_merge returns is that of the union of the two snapshots.
  pub record_merge-merge :
      (cache : ParticipantCache) (own partner : BranchTipInfo) (s t : MergeSnapshot)
      → (record_merge na cache own s partner t).1 ≡ (Snapshot.merge na s t).merkle_root
  unfolding record_merge put_composition ordered Snapshot.merge Snapshot.merge_root
  record_merge-merge cache own partner s t =
      elim (Bool-cases (bytes_le s.merkle_root t.merkle_root)) [
        | inl below ↦ rw below refl
        | inr above ↦ rw above refl
      ]
