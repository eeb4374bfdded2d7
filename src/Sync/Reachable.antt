-- ===== src/Sync/Reachable.antt =====
-- The caches that a participant can hold: what the operations make of an empty one, in any order.
use free_labour_common_will.Base.{ℕ}
use free_labour_common_will.Types.{Hash, BranchTipInfo}
use free_labour_common_will.Types.Packets.{MergeSnapshot}
use free_labour_common_will.Crypto.{Sodium}
use free_labour_common_will.Sync.Cache.{
  LeafRecord, ParticipantCache, empty_cache, put_leaf, put_composition, record_merge,
}
use free_labour_common_will.Sync.Consistent.{
  IsConsistent, put_leaf-IsConsistent, put_composition-IsConsistent, record_merge-IsConsistent,
}
use free_labour_common_will.Sync.Exchange.{ISnapshotStore, Completion, complete_rounds}
use free_labour_common_will.Sync.Untrusted.{complete_rounds-Extends}

-- One constructor for every operation that writes; `completed` is any number of rounds of the loop
-- of `complete_cache`, from any state of the loop, against the warehouse `I`.
pub data Reachable (na : Sodium) (I : ISnapshotStore) : ParticipantCache → Type 1 where
  created : Reachable na I empty_cache
  leaf_put :
      (cache : ParticipantCache) (r : LeafRecord)
      → Reachable na I cache
      → Reachable na I (put_leaf na cache r).0
  composition_put :
      (cache : ParticipantCache) (a b : Hash)
      → Reachable na I cache
      → Reachable na I (put_composition na cache a b).0
  merged :
      (cache : ParticipantCache) (own partner : BranchTipInfo) (s t : MergeSnapshot)
      → Reachable na I cache
      → Reachable na I (record_merge na cache own s partner t).0
  completed :
      (n : ℕ) (s : Completion I)
      → Reachable na I s.cache
      → Reachable na I (complete_rounds I na n s).cache

-- A cache that the operations made of the empty one, with any answers of the warehouse, has every
-- leaf record under the hash of its reference, and every composition under the hash of its
-- children, the smaller one first.
pub Reachable-IsConsistent :
    (na : Sodium) (I : ISnapshotStore) (cache : ParticipantCache)
    → Reachable na I cache
    → IsConsistent na cache
Reachable-IsConsistent na I cache created = record { keyed = tt; composed = tt }
Reachable-IsConsistent na I cache (leaf_put old r h) =
    put_leaf-IsConsistent na old r (Reachable-IsConsistent na I old h)
Reachable-IsConsistent na I cache (composition_put old a b h) =
    put_composition-IsConsistent na old a b (Reachable-IsConsistent na I old h)
Reachable-IsConsistent na I cache (merged old own partner s t h) =
    record_merge-IsConsistent na old own partner s t (Reachable-IsConsistent na I old h)
Reachable-IsConsistent na I cache (completed n s h) =
    (complete_rounds-Extends na I n s).consistent (Reachable-IsConsistent na I s.cache h)
