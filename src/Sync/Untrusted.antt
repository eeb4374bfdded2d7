-- ===== src/Sync/Untrusted.antt =====
-- `complete_cache` against a warehouse that may answer anything.
use free_labour_common_will.Base.{
  ◌≡◌, ℕ, zero, suc, List, [], ◌∷◌, none, some, bytes_eq, bytes_eq_iff, Table, find,
  find-assign_same, find-assign_other, assign, Bool-cases, Option-cases, inl, inr, arith,
}
use free_labour_common_will.Types.{Hash}
use free_labour_common_will.Crypto.{Sodium}
use free_labour_common_will.Merkle.{leaf_hash, combine}
use free_labour_common_will.Sync.Cache.{
  LeafRecord, Composition, ParticipantCache, get_composition, put_leaf, put_composition,
}
use free_labour_common_will.Sync.Consistent.{
  IsConsistent, put_leaf-IsConsistent, put_composition-IsConsistent,
}
use free_labour_common_will.Sync.Exchange.{
  ISnapshotStore, Completion, contains, take_leaf, complete_node, complete_round, complete_rounds,
}

-- An assignment keeps every key.
assign_keeps :
    {V : Type 0} (t : Table V) (key : List ℕ) (value : V) (k : List ℕ) (v : V)
    → find t k ≡ some v
    → (w : V) × (find (assign t key value) k ≡ some w)
assign_keeps t key value k v e = elim (Bool-cases (bytes_eq key k)) [
  | inl same ↦
      let k_eq : key ≡ k = (bytes_eq_iff key k).0 same in
      (value, rw (← k_eq) (find-assign_same t key value))
  | inr other ↦ (v, rw (find-assign_other t key value k other) e)
]

module _ (na : Sodium) where
  -- A later state of a cache: consistent if the earlier one is, with the same leaf records under
  -- their keys, and with all the keys of its compositions.
  pub record Extends (old new : ParticipantCache) : Type 0 where
    pub consistent : IsConsistent na old → IsConsistent na new
    pub leaves :
        (k : Hash) (r : LeafRecord) → find old.leaves k ≡ some r → find new.leaves k ≡ some r
    pub compositions :
        (k : Hash) (c : Composition)
        → find old.compositions k ≡ some c
        → (c' : Composition) × (find new.compositions k ≡ some c')

  Extends-refl : (cache : ParticipantCache) → Extends cache cache
  Extends-refl cache = record {
    consistent = λ c. c;
    leaves = λ k r e. e;
    compositions = λ k c e. (c, e);
  }

  Extends-trans : (a b c : ParticipantCache) → Extends a b → Extends b c → Extends a c
  Extends-trans a b c p q = record {
    consistent = λ x. q.consistent (p.consistent x);
    leaves = λ k r e. q.leaves k r (p.leaves k r e);
    compositions = λ k x e. let (y, f) = p.compositions k x e in q.compositions k y f;
  }

  put_leaf-Extends :
      (cache : ParticipantCache) (r : LeafRecord)
      → find cache.leaves (leaf_hash na r.ref) ≡ none
      → Extends cache (put_leaf na cache r).0
  unfolding put_leaf
  put_leaf-Extends cache r fresh = record {
    consistent = put_leaf-IsConsistent na cache r;
    leaves = λ k old e. elim (Bool-cases (bytes_eq (leaf_hash na r.ref) k)) [
      | inl same ↦
          let k_eq : leaf_hash na r.ref ≡ k = (bytes_eq_iff _ k).0 same in
          let gone : find cache.leaves k ≡ none = rw (← k_eq) fresh in
          absurd (ground (arith, e, gone))
      | inr other ↦ rw (find-assign_other cache.leaves _ r k other) e
    ];
    compositions = λ k c e. (c, e);
  }

  put_composition-Extends :
      (cache : ParticipantCache) (a b : Hash) → Extends cache (put_composition na cache a b).0
  unfolding put_composition
  put_composition-Extends cache a b = record {
    consistent = put_composition-IsConsistent na cache a b;
    leaves = λ k r e. e;
    compositions = λ k c e. assign_keeps cache.compositions _ _ k c e;
  }

  module _ (I : ISnapshotStore) where
    take_leaf-Extends :
        (node : Hash) (s : Completion I) → Extends s.cache (take_leaf I na node s).cache
    unfolding take_leaf
    take_leaf-Extends node s = elim (Option-cases (find s.cache.leaves node)) [
      | inr (r, e) ↦ rw (take_leaf, e) (Extends-refl s.cache)
      | inl fresh ↦ elim (Option-cases (I.fetch_leaf s.store node).1) [
        | inl unknown ↦ rw (take_leaf, fresh, unknown) (Extends-refl s.cache)
        | inr (r, e) ↦ elim (Bool-cases (bytes_eq (leaf_hash na r.ref) node)) [
          | inr wrong ↦ rw (take_leaf, fresh, e, wrong) (Extends-refl s.cache)
          | inl same ↦
              rw (take_leaf, fresh, e, same)
                (let key : leaf_hash na r.ref ≡ node = (bytes_eq_iff _ node).0 same in
                  put_leaf-Extends s.cache r (rw key fresh))
        ]
      ]
    ]

    complete_node-Extends :
        (node : Hash) (s : Completion I) → Extends s.cache (complete_node I na node s).cache
    unfolding complete_node
    complete_node-Extends node s = elim (Option-cases (get_composition s.cache node)) [
      | inr (known, e) ↦ rw (complete_node, e) (Extends-refl s.cache)
      | inl new ↦
          let asked : Completion I = record s { store = (I.fetch_composition s.store node).0 } in
          elim (Option-cases (I.fetch_composition s.store node).1) [
            | inl unknown ↦ rw (complete_node, new, unknown) (take_leaf-Extends node asked)
            | inr (comp, e) ↦
                elim (Bool-cases (bytes_eq (combine na comp.left_child comp.right_child) node)) [
                  | inr wrong ↦ rw (complete_node, new, e, wrong) (take_leaf-Extends node asked)
                  | inl same ↦
                      rw (complete_node, new, e, same)
                        (put_composition-Extends s.cache comp.left_child comp.right_child)
                ]
          ]
    ]

    complete_round-Extends :
        (store : I.Store) (cache : ParticipantCache) (stack visited : List Hash) (added : ℕ)
        → let s : Completion I = record {
          store = store;
          cache = cache;
          stack = stack;
          visited = visited;
          added = added;
        } in
          Extends cache (complete_round I na s).cache
    unfolding complete_round
    complete_round-Extends store cache [] visited added = Extends-refl cache
    complete_round-Extends store cache (node ∷ rest) visited added =
        elim (Bool-cases (contains I visited node)) [
          | inl seen ↦ rw seen (Extends-refl cache)
          | inr first ↦
              let s : Completion I = record {
                store = store;
                cache = cache;
                stack = rest;
                visited = node ∷ visited;
                added = added;
              } in
              rw first (complete_node-Extends node s)
        ]

    -- Whatever a warehouse answers, and after any number of rounds of complete_cache: a consistent cache
    -- stays consistent, every leaf record that was there is there unchanged, and every key of a
    -- composition that was there is there.
    pub complete_rounds-Extends :
        (n : ℕ) (s : Completion I) → Extends s.cache (complete_rounds I na n s).cache
    unfolding complete_rounds
    complete_rounds-Extends zero s = Extends-refl s.cache
    complete_rounds-Extends (suc n) s =
        let round = complete_round-Extends s.store s.cache s.stack s.visited s.added in
        Extends-trans _ _ _ round (complete_rounds-Extends n (complete_round I na s))
