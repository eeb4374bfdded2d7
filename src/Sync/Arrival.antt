-- ===== src/Sync/Arrival.antt =====
-- `walk_up` of the cache's search: from every hash that the search met, it arrives at the target.
use free_labour_common_will.Base.{
  ◌≡◌, ◌≤◌, refl, ℕ, zero, suc, [], ◌∷◌, length, none, some, false, bytes_eq, bytes_eq_iff, Table,
  find, Bool-cases, inl, inr, arith,
}
use free_labour_common_will.Types.{Hash}
use free_labour_common_will.Types.Packets.{Proof}
use free_labour_common_will.Merkle.{no_steps}
use free_labour_common_will.Sync.Cache.{Composition, walk_up, add_sibling}
use free_labour_common_will.Sync.Climb.{walk_up-cases, IsVisited, IsTree}

-- A fresh entry hides no older one.
pub find_newer :
    (rest : Table Hash) (k v : Hash)
    → find rest k ≡ none
    → (k' v' : Hash) → find rest k' ≡ some v'
    → find ((k, v) ∷ rest) k' ≡ some v'
find_newer rest k v fresh k' v' e = elim (Bool-cases (bytes_eq k k')) [
  | inl same ↦
      let k_eq : k ≡ k' = (bytes_eq_iff k k').0 same in
      let gone : find rest k' ≡ none = rw (← k_eq) fresh in absurd (ground (arith, e, gone))
  | inr other ↦ rw other e
]

pub visited_before :
    (target : Hash) (rest : Table Hash) (cur k v : Hash)
    → bytes_eq k cur ≡ false
    → IsVisited target ((k, v) ∷ rest) cur
    → IsVisited target rest cur
visited_before target rest cur k v old met = elim met [
  | inl there ↦ inl there
  | inr (parent, e) ↦ let f : find rest cur ≡ some parent = ground (arith, e) in inr (parent, f)
]

module _ (compositions : Table Composition) (target : Hash) where
  walk_up-zero :
      (parent_of : Table Hash) (cur : Hash) → walk_up zero compositions parent_of target cur ≡ none
  unfolding walk_up
  walk_up-zero parent_of cur = refl

  walk_up_met :
      (fuel : ℕ) (parent_of : Table Hash) (cur : Hash)
      → cur ≡ target
      → walk_up (suc fuel) compositions parent_of target cur ≡ some no_steps
  unfolding walk_up
  walk_up_met fuel parent_of cur e = rw ((bytes_eq_iff cur target).1 e) refl

  -- One step, unless `cur` is the target.
  walk_up_step :
      (fuel : ℕ) (parent_of : Table Hash) (cur parent : Hash) (comp : Composition) (up : Proof)
      → bytes_eq cur target ≡ false
      → find parent_of cur ≡ some parent
      → find compositions parent ≡ some comp
      → walk_up fuel compositions parent_of target parent ≡ some up
      → walk_up (suc fuel) compositions parent_of target cur ≡ some (add_sibling cur comp up)
  unfolding walk_up
  walk_up_step fuel parent_of cur parent comp up other f g h = rw (other, f, g, h) refl

  -- A walk that succeeds does so with more rounds, and with more entries.
  walk_up_more :
      (fuel more : ℕ) (old new : Table Hash) (cur : Hash) (p : Proof)
      → fuel ≤ more
      → ((k v : Hash) → find old k ≡ some v → find new k ≡ some v)
      → walk_up fuel compositions old target cur ≡ some p
      → walk_up more compositions new target cur ≡ some p
  walk_up_more zero more old new cur p l keep e = absurd (ground (arith, e, walk_up-zero old cur))
  walk_up_more (suc fuel) zero old new cur p l keep e = absurd (omega arith)
  walk_up_more (suc fuel) (suc more) old new cur p l keep e =
      elim (walk_up-cases compositions fuel old target cur p e) [
        | inl (there, none_left) ↦ rw none_left (walk_up_met more new cur there)
        | inr (parent, comp, up, other, f, g, h, e') ↦ rw e' (
            walk_up_step more new cur parent comp up other (keep cur parent f) g
              (walk_up_more fuel more old new parent up (omega arith) keep h))
      ]

  -- As many rounds as there are entries, and one more, are enough.
  pub walk_up_arrives :
      (parent_of : Table Hash) (cur : Hash)
      → IsTree compositions target parent_of
      → IsVisited target parent_of cur
      → (p : Proof) × (walk_up (suc (length parent_of)) compositions parent_of target cur ≡ some p)
  walk_up_arrives [] cur tree met = elim met [
    | inl there ↦ (no_steps, walk_up_met 0 [] cur there)
    | inr (parent, e) ↦ absurd (ground (arith, e))
  ]
  walk_up_arrives ((k, v) ∷ rest) cur (fresh, before, (comp, g, side), tree) met =
      elim (Bool-cases (bytes_eq cur target)) [
        | inl there ↦ (
          no_steps,
          walk_up_met (suc (length rest)) ((k, v) ∷ rest) cur ((bytes_eq_iff cur target).0 there),
        )
        | inr other ↦
            let keep = find_newer rest k v fresh in
            elim (Bool-cases (bytes_eq k cur)) [
              | inl new ↦
                  let (up, h) = walk_up_arrives rest v tree before in
                  let f : find ((k, v) ∷ rest) cur ≡ some v = rw new refl in
                  (
                    add_sibling cur comp up,
                    walk_up_step (suc (length rest)) ((k, v) ∷ rest) cur v comp up other f g (
                        walk_up_more (suc (length rest)) _ rest ((k, v) ∷ rest) v up (omega arith)
                          keep h),
                  )
              | inr old ↦
                  let (p, h) =
                    walk_up_arrives rest cur tree (visited_before target rest cur k v old met) in
                  (
                    p,
                    walk_up_more (suc (length rest)) _ rest ((k, v) ∷ rest) cur p (omega arith) keep
                        h,
                  )
            ]
      ]
