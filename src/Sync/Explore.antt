-- ===== src/Sync/Explore.antt =====
-- `explore`, the search down of `merkle_path`: what it finds is a tree of the table's edges, and it
-- finds every hash that hangs below the target.
use free_labour_common_will.Base.{
  ◌≡◌, ◌≤◌, refl, ℕ, zero, suc, ◌+◌, List, [], ◌∷◌, length, Option, none, some, true, false,
  bytes_eq, bytes_eq_iff, Table, find, Bool-cases, Option-cases, inl, inr, ◌⊎◌, arith, Has,
}
use free_labour_common_will.Types.{Hash}
use free_labour_common_will.Sync.Cache.{Composition, Visit, visit_children, explore}
use free_labour_common_will.Sync.Climb.{IsVisited, IsTree, IsChild}
use free_labour_common_will.Sync.Visit.{
  IsSearch, IsLater, IsVisited-keep, IsLater-refl, visit_children_lem, unmet,
}

module _ (compositions : Table Composition) (target leaf : Hash) where
  -- A hash hangs below the target.
  pub data Reaches : Hash → Type 0 where
    here : Reaches target
    down :
        (parent child : Hash) (comp : Composition)
        → Reaches parent
        → find compositions parent ≡ some comp
        → IsChild child comp
        → Reaches child

  -- The state after the top of the stack is taken off.
  abbrev popped : Visit → List Hash → Visit
  popped v rest = record { parent_of = v.parent_of; stack = rest }

  explore_found :
      (fuel : ℕ) (v : Visit) (cur : Hash) (rest : List Hash)
      → v.stack ≡ cur ∷ rest
      → bytes_eq cur leaf ≡ true
      → explore (suc fuel) compositions leaf v ≡ some v.parent_of
  unfolding explore
  explore_found fuel v cur rest e h = rw (e, h) refl

  explore_end : (fuel : ℕ) (v : Visit) → v.stack ≡ [] → explore fuel compositions leaf v ≡ none
  unfolding explore
  explore_end zero v e = refl
  explore_end (suc fuel) v e = rw e refl

  explore_leaf :
      (fuel : ℕ) (v : Visit) (cur : Hash) (rest : List Hash)
      → v.stack ≡ cur ∷ rest
      → bytes_eq cur leaf ≡ false
      → find compositions cur ≡ none
      → explore (suc fuel) compositions leaf v ≡ explore fuel compositions leaf (popped v rest)
  unfolding explore
  explore_leaf fuel v cur rest e h f = rw (e, h, f) refl

  explore_inner :
      (fuel : ℕ) (v : Visit) (cur : Hash) (rest : List Hash) (comp : Composition)
      → v.stack ≡ cur ∷ rest
      → bytes_eq cur leaf ≡ false
      → find compositions cur ≡ some comp
      → explore (suc fuel) compositions leaf v
        ≡ explore fuel compositions leaf (visit_children cur comp (popped v rest))
  unfolding explore
  explore_inner fuel v cur rest comp e h f = rw (e, h, f) refl

  -- A hash that is not the leaf and whose children have been met.
  pub record IsExplored (parent_of : Table Hash) (k : Hash) : Type 0 where
    pub other : bytes_eq k leaf ≡ false
    pub children :
        (comp : Composition)
        → find compositions k ≡ some comp
        → IsVisited target parent_of comp.left_child × IsVisited target parent_of comp.right_child

  -- Every hash met is explored, or waits on the stack.
  IsOpen : Visit → Type 0
  IsOpen v = (k : Hash) → IsVisited target v.parent_of k → Has k v.stack ⊎ IsExplored v.parent_of k

  IsExplored-keep :
      (old new : Table Hash) (k : Hash)
      → ((k v : Hash) → find old k ≡ some v → find new k ≡ some v)
      → IsExplored old k
      → IsExplored new k
  IsExplored-keep old new k keep x = record {
    other = x.other;
    children = λ comp e.
        let (l, r) = x.children comp e in
        (
          IsVisited-keep compositions target old new _ keep l,
          IsVisited-keep compositions target old new _ keep r,
        );
  }

  -- A round that explores the top of the stack keeps the search opens.
  IsOpen-round :
      (parent_of : Table Hash) (cur : Hash) (rest : List Hash) (new : Visit)
      → IsOpen (record { parent_of = parent_of; stack = cur ∷ rest })
      → IsLater compositions target (record { parent_of = parent_of; stack = rest }) new
      → IsExplored new.parent_of cur
      → IsOpen new
  unfolding IsOpen
  IsOpen-round parent_of cur rest new opens later done k met = elim (later.fresh k met) [
    | inr on ↦ inl on
    | inl before ↦ elim (opens k before) [
      | inl (inl top) ↦ inr (rw top done)
      | inl (inr waits) ↦ inl (later.stays k waits)
      | inr x ↦ inr (IsExplored-keep parent_of new.parent_of k later.keep x)
    ]
  ]

  -- How a search ends.
  pub data Ends (result : Option (Table Hash)) : Type 0 where
    found :
        (parent_of : Table Hash)
        → result ≡ some parent_of
        → IsTree compositions target parent_of
        → IsVisited target parent_of leaf
        → Ends result
    exhausted :
        (parent_of : Table Hash)
        → result ≡ none
        → ((k : Hash) → IsVisited target parent_of k → IsExplored parent_of k)
        → Ends result

  explore-Ends :
      (fuel : ℕ) (parent_of : Table Hash) (stack : List Hash)
      → IsSearch compositions target (record { parent_of = parent_of; stack = stack })
      → IsOpen (record { parent_of = parent_of; stack = stack })
      → length stack + unmet compositions parent_of ≤ fuel
      → Ends (explore fuel compositions leaf (record { parent_of = parent_of; stack = stack }))
  unfolding IsOpen
  explore-Ends fuel parent_of [] s opens room =
      exhausted parent_of (explore_end fuel _ refl)
        (λ k met. elim (opens k met) [ inl none_left ↦ absurd none_left | inr x ↦ x ])
  explore-Ends zero parent_of (cur ∷ rest) s opens room = absurd (omega arith)
  explore-Ends (suc fuel) parent_of (cur ∷ rest) s opens room =
      let v : Visit = record { parent_of = parent_of; stack = cur ∷ rest } in
      let (met, waiting) = s.met in
      let after : IsSearch compositions target (popped v rest) = record {
        tree = s.tree;
        met = waiting;
      } in
      elim (Bool-cases (bytes_eq cur leaf)) [
        | inl same ↦
            let leaf_met : IsVisited target parent_of leaf =
              rw (← (bytes_eq_iff cur leaf).0 same) met in
            found parent_of (explore_found fuel v cur rest refl same) s.tree leaf_met
        | inr other ↦ elim (Option-cases (find compositions cur)) [
          | inl bare ↦ rw (explore_leaf fuel v cur rest refl other bare) (
              let done : IsExplored parent_of cur = record {
                other = other;
                children = λ comp e. absurd (ground (arith, e, bare));
              } in
              let later = IsLater-refl compositions target (popped v rest) in
              let opens' = IsOpen-round parent_of cur rest (popped v rest) opens later done in
              explore-Ends fuel parent_of rest after opens' (omega (arith, room)))
          | inr (comp, e) ↦ rw (explore_inner fuel v cur rest comp refl other e) (
              let (s', later, left, right) =
                visit_children_lem compositions target cur comp (popped v rest) e met after in
              let new : Visit = visit_children cur comp (popped v rest) in
              let done : IsExplored new.parent_of cur = record {
                other = other;
                children = λ comp' e'.
                    let same : comp ≡ comp' = ground (arith, e, e') in rw (← same) (left, right);
              } in
              let opens' = IsOpen-round parent_of cur rest new opens later done in
              let work = later.work in
              explore-Ends fuel new.parent_of new.stack s' opens' (omega (arith, room, work)))
        ]
      ]

  -- A search that has explored all that it met has not missed what hangs below the target.
  pub Reaches-IsVisited :
      (parent_of : Table Hash) (k : Hash)
      → ((k : Hash) → IsVisited target parent_of k → IsExplored parent_of k)
      → Reaches k
      → IsVisited target parent_of k
  Reaches-IsVisited parent_of k all here = inl refl
  Reaches-IsVisited parent_of k all (down parent child comp r e side) =
      let x = all parent (Reaches-IsVisited parent_of parent all r) in
      let (left, right) = x.children comp e in elim side [ inl l ↦ rw l left | inr r ↦ rw r right ]

  -- The search from the target ends: the leaf is met, or all below the target is explored.
  pub explore_start :
      (fuel : ℕ)
      → 1 + unmet compositions [] ≤ fuel
      → Ends (explore fuel compositions leaf (record { parent_of = []; stack = target ∷ [] }))
  unfolding IsOpen
  explore_start fuel room =
      explore-Ends fuel [] (target ∷ []) (record { tree = tt; met = (inl refl, tt) })
        (λ k met. elim met [ inl e ↦ inl (inl e) | inr (parent, e) ↦ absurd (ground (arith, e)) ])
        room
