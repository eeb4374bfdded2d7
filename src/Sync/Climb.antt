-- ===== src/Sync/Climb.antt =====
-- `walk_up` of the cache's search: the path it collects leads back to the target.
use free_labour_common_will.Base.{
  ◌≡◌, refl, ℕ, zero, suc, [], ◌∷◌, length, none, some, false, bytes_eq, bytes_eq_iff, Table, find,
  find-All, Bool-cases, Option-cases, inl, inr, ◌⊎◌, arith, All, ◌∙◌,
}
use free_labour_common_will.Types.{Hash}
use free_labour_common_will.Types.Packets.{Proof}
use free_labour_common_will.Crypto.{Sodium}
use free_labour_common_will.Merkle.{combine, apply_proof, apply_steps, no_steps}
use free_labour_common_will.Sync.Cache.{Composition, walk_up, add_sibling}
use free_labour_common_will.Sync.Consistent.{IsComposed}

-- `child` is one of the two.
abbrev pub IsChild : Hash → Composition → Type 0
IsChild child comp = (child ≡ comp.left_child) ⊎ (child ≡ comp.right_child)

module _ (compositions : Table Composition) where
  -- Every entry of `parent_of` is an edge of the table.
  abbrev pub IsLinked : Table Hash → Type 0
  IsLinked parent_of =
      (child parent : Hash)
      → find parent_of child ≡ some parent
      → (comp : Composition) × (find compositions parent ≡ some comp) × IsChild child comp

  -- The cases of a walk that succeeds.
  pub walk_up-cases :
      (fuel : ℕ) (parent_of : Table Hash) (target cur : Hash) (p : Proof)
      → walk_up (suc fuel) compositions parent_of target cur ≡ some p
      → ((cur ≡ target) × (p ≡ no_steps))
        ⊎ ((parent : Hash) × (comp : Composition) × (up : Proof) × (bytes_eq cur target ≡ false)
            × (find parent_of cur ≡ some parent)
            × (find compositions parent ≡ some comp)
            × (walk_up fuel compositions parent_of target parent ≡ some up)
            × (p ≡ add_sibling cur comp up))
  unfolding walk_up
  walk_up-cases fuel parent_of target cur p e = elim (Bool-cases (bytes_eq cur target)) [
    | inl same ↦ inl (
      (bytes_eq_iff cur target).0 same,
      (let met : walk_up (suc fuel) compositions parent_of target cur ≡ some no_steps =
            rw same refl in
          cc),
    )
    | inr other ↦ elim (Option-cases (find parent_of cur)) [
      | inl lost ↦ absurd (ground (arith, e))
      | inr (parent, f) ↦ elim (Option-cases (find compositions parent)) [
        | inl lost ↦ absurd (ground (arith, e))
        | inr (comp, g) ↦ elim (Option-cases (walk_up fuel compositions parent_of target parent)) [
          | inl lost ↦ absurd (ground (arith, e))
          | inr (up, h) ↦ inr (parent, comp, up, other, f, g, h, ground (arith, e))
        ]
      ]
    ]
  ]

  -- A step up is one step of `apply_steps`.
  apply_proof-add_sibling :
      (na : Sodium) (cur : Hash) (comp : Composition) (up : Proof)
      → IsChild cur comp
      → apply_proof na cur (add_sibling cur comp up)
        ≡ apply_proof na (combine na comp.left_child comp.right_child) up
  unfolding apply_proof apply_steps add_sibling combine
  apply_proof-add_sibling na cur comp up side = elim (Bool-cases (bytes_eq cur comp.left_child)) [
    | inl same ↦
        let e : cur ≡ comp.left_child = (bytes_eq_iff cur comp.left_child).0 same in
        rw same (rw e refl)
    | inr other ↦ elim side [
      | inl e ↦ absurd (ground (arith, (bytes_eq_iff cur comp.left_child).1 e))
      | inr e ↦ rw other (rw e refl)
    ]
  ]

  length-add_sibling :
      (cur : Hash) (comp : Composition) (up : Proof)
      → length up.path ≡ length up.sibling_is_right
      → length (add_sibling cur comp up).path ≡ length (add_sibling cur comp up).sibling_is_right
  unfolding add_sibling
  length-add_sibling cur comp up e = elim (Bool-cases (bytes_eq cur comp.left_child)) [
    | inl same ↦ rw same (omega (arith, e))
    | inr other ↦ rw other (omega (arith, e))
  ]

  pub met_target :
      (na : Sodium) (target : Hash)
      → (length no_steps.path ≡ length no_steps.sibling_is_right)
        × (apply_proof na target no_steps ≡ target)
  unfolding apply_proof apply_steps
  met_target na target = (refl, refl)

  -- The steps collected on the way up lead from `cur` to the target.
  pub walk_up-apply_proof :
      (na : Sodium) (fuel : ℕ) (parent_of : Table Hash) (target cur : Hash) (p : Proof)
      → All (IsComposed na) compositions
      → IsLinked parent_of
      → walk_up fuel compositions parent_of target cur ≡ some p
      → (length p.path ≡ length p.sibling_is_right) × (apply_proof na cur p ≡ target)
  unfolding walk_up
  walk_up-apply_proof na zero parent_of target cur p all linked e = absurd (ground (arith, e))
  walk_up-apply_proof na (suc fuel) parent_of target cur p all linked e =
      elim (walk_up-cases fuel parent_of target cur p e) [
        | inl (there, none_left) ↦ rw (none_left, there) (met_target na target)
        | inr (parent, comp, up, other, f, g, h, e') ↦
            let (l, r) = walk_up-apply_proof na fuel parent_of target parent up all linked h in
            let (comp', g', side') = linked cur parent f in
            let same_comp : comp' ≡ comp = ground (arith, g, g') in
            let side : IsChild cur comp = rw (← same_comp) side' in
            let (key, order) = find-All (IsComposed na) compositions parent comp all g in
            let step = apply_proof-add_sibling na cur comp up side in
            let up_step : apply_proof na (combine na comp.left_child comp.right_child) up ≡ target =
              rw (← key) r in
            rw e' (length-add_sibling cur comp up l, step ∙ up_step)
      ]

-- The entries of `parent_of`, the newest first, were each made when the parent had been met.
abbrev pub IsVisited : Hash → Table Hash → Hash → Type 0
IsVisited target parent_of key =
    (key ≡ target) ⊎ ((parent : Hash) × (find parent_of key ≡ some parent))

module _ (compositions : Table Composition) (target : Hash) where
  abbrev pub IsTree : Table Hash → Type 0
  IsTree [] = Unit
  IsTree ((child, parent) ∷ rest) =
      (find rest child ≡ none)
      × IsVisited target rest parent
      × ((comp : Composition) × (find compositions parent ≡ some comp) × IsChild child comp)
      × IsTree rest

  pub IsTree-IsLinked :
      (parent_of : Table Hash) → IsTree parent_of → IsLinked compositions parent_of
  IsTree-IsLinked [] tree child parent e = absurd (ground (arith, e))
  IsTree-IsLinked ((k, v) ∷ rest) (fresh, met, edge, tree) child parent e =
      elim (Bool-cases (bytes_eq k child)) [
        | inl same ↦
            let k_eq : k ≡ child = (bytes_eq_iff k child).0 same in
            let v_eq : v ≡ parent = ground (arith, e) in rw (← k_eq, ← v_eq) edge
        | inr other ↦
            let later : find rest child ≡ some parent = ground (arith, e) in
            IsTree-IsLinked rest tree child parent later
      ]
