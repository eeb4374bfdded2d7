-- ===== src/Sync/Exchange.antt =====
-- modules/sync/include/sync/snapshot_exchange.h and `publish_cache` and `complete_cache` of
-- modules/sync/src/snapshot_exchange.cpp. The warehouse is any implementation of its interface.
use free_labour_common_will.Base.{
  ℕ, zero, suc, List, [], ◌∷◌, Option, none, some, Bool, false, bytes_eq, Table, if◌then◌else◌,
  ◌||◌,
}
use free_labour_common_will.Types.{Hash}
use free_labour_common_will.Crypto.{Sodium}
use free_labour_common_will.Merkle.{leaf_hash, combine}
use free_labour_common_will.Sync.Cache.{
  LeafRecord, Composition, ParticipantCache, get_leaf, get_composition, put_leaf, put_composition,
}

-- Every call may change the store, which is not trusted.
pub record ISnapshotStore : Type 1 where
  pub Store : Type 0
  pub publish_leaf : Store → Hash → LeafRecord → Store × Bool
  pub publish_composition : Store → Hash → Composition → Store × Bool
  pub fetch_leaf : Store → Hash → Store × Option LeafRecord
  pub fetch_composition : Store → Hash → Store × Option Composition

module _ (I : ISnapshotStore) where
  -- `for (…) if (store.put_leaf(hash, record)) ++stored;`
  publish_leaves : I.Store → Table LeafRecord → ℕ → I.Store × ℕ
  publish_leaves store [] stored = (store, stored)
  publish_leaves store ((hash, r) ∷ rest) stored =
      let (next, fresh) = I.publish_leaf store hash r in
      publish_leaves next rest (if fresh then suc stored else stored)

  publish_compositions : I.Store → Table Composition → ℕ → I.Store × ℕ
  publish_compositions store [] stored = (store, stored)
  publish_compositions store ((root, comp) ∷ rest) stored =
      let (next, fresh) = I.publish_composition store root comp in
      publish_compositions next rest (if fresh then suc stored else stored)

  unfoldable pub publish_cache : I.Store → ParticipantCache → I.Store × ℕ
  unfolding publish_leaves publish_compositions
  publish_cache store cache =
      let (next, stored) = publish_leaves store cache.leaves 0 in
      publish_compositions next cache.compositions stored

  -- The variables of `complete_cache`'s loop; the top of the stack is first.
  pub record Completion : Type 0 where
    pub store : I.Store
    pub cache : ParticipantCache
    pub stack : List Hash
    pub visited : List Hash
    pub added : ℕ

  abbrev pub contains : List Hash → Hash → Bool
  contains [] h = false
  contains (x ∷ xs) h = bytes_eq x h || contains xs h

  -- The children of a composition, the right one on top.
  abbrev push_both : Composition → Completion → Completion
  push_both comp s = record s { stack = comp.right_child ∷ comp.left_child ∷ s.stack }

  module _ (na : Sodium) where
    -- A leaf record that the store gives is kept if it is the one asked for.
    unfoldable pub take_leaf : Hash → Completion → Completion
    unfolding get_leaf
    take_leaf node s = elim (get_leaf s.cache node) [
      | some r ↦ s
      | none ↦
          let (next, answer) = I.fetch_leaf s.store node in
          let asked : Completion = record s { store = next } in
          elim answer [
            | none ↦ asked
            | some r ↦
                if bytes_eq (leaf_hash na r.ref) node
                then record asked { cache = (put_leaf na s.cache r).0; added = suc s.added }
                else asked
          ]
    ]

    -- What is done for a hash that is visited for the first time.
    unfoldable pub complete_node : Hash → Completion → Completion
    unfolding take_leaf
    complete_node node s = elim (get_composition s.cache node) [
      | some known ↦ push_both known s
      | none ↦
          let (next, answer) = I.fetch_composition s.store node in
          let asked : Completion = record s { store = next } in
          elim answer [
            | none ↦ take_leaf node asked
            | some comp ↦
                if bytes_eq (combine na comp.left_child comp.right_child) node
                then push_both comp (record asked {
                  cache = (put_composition na s.cache comp.left_child comp.right_child).0;
                  added = suc s.added;
                })
                else take_leaf node asked
          ]
    ]

    -- One round of the loop, and none once the stack is empty.
    unfoldable pub complete_round : Completion → Completion
    unfolding complete_node
    complete_round s = elim s.stack [
      | [] ↦ s
      | node ∷ rest ↦
          let popped : Completion = record s { stack = rest } in
          let fresh : Completion = record popped { visited = node ∷ s.visited } in
          if contains s.visited node then popped else complete_node node fresh
    ]

    -- The loop's state after `n` rounds.
    unfoldable pub complete_rounds : ℕ → Completion → Completion
    unfolding complete_round
    complete_rounds zero s = s
    complete_rounds (suc n) s = complete_rounds n (complete_round s)

  -- The state that `complete_cache` starts its loop in.
  unfoldable pub completion_start : I.Store → ParticipantCache → Hash → Completion
  completion_start store cache root = record {
    store = store;
    cache = cache;
    stack = root ∷ [];
    visited = [];
    added = 0;
  }
