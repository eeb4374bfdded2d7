-- ===== src/Sync/Path.antt =====
-- `merkle_path` of the cache: it finds a path exactly when there is one, and the path verifies.
use free_labour_common_will.Base.{
  ◌≡◌, ◌↔◌, refl, ℕ, suc, ◌+◌, ◌*◌, [], ◌∷◌, length, some, true, false, bytes_eq, bytes_eq_iff,
  Table, find, Bool-cases, inl, inr, ◌⊎◌, arith, bytes_eq_self, ◌==◌,
}
use free_labour_common_will.Types.{Hash}
use free_labour_common_will.Types.Packets.{Proof}
use free_labour_common_will.Crypto.{Sodium}
use free_labour_common_will.Merkle.{verify, no_steps, apply_proof}
use free_labour_common_will.Sync.Cache.{ParticipantCache, Visit, explore, walk_up, merkle_path}
use free_labour_common_will.Sync.Consistent.{IsConsistent}
use free_labour_common_will.Sync.Climb.{
  IsVisited, IsTree, IsTree-IsLinked, walk_up-apply_proof, met_target,
}
use free_labour_common_will.Sync.Arrival.{walk_up_arrives}
use free_labour_common_will.Sync.Visit.{unmet_bound}
use free_labour_common_will.Sync.Explore.{
  Reaches, here, down, found, exhausted, explore_start, Reaches-IsVisited,
}

-- What the search of a path starts with, and its rounds.
abbrev start : Hash → Visit
start target = record { parent_of = []; stack = target ∷ [] }

abbrev rounds : ParticipantCache → ℕ
rounds cache = 2 * length cache.compositions + 2

module _ (cache : ParticipantCache) (target leaf : Hash) where
  merkle_path_self : bytes_eq target leaf ≡ true → merkle_path cache target leaf ≡ some no_steps
  unfolding merkle_path
  merkle_path_self e = rw e refl

  merkle_path_found :
      (parent_of : Table Hash) (p : Proof)
      → bytes_eq target leaf ≡ false
      → explore (rounds cache) cache.compositions leaf (start target) ≡ some parent_of
      → walk_up (suc (length parent_of)) cache.compositions parent_of target leaf ≡ some p
      → merkle_path cache target leaf ≡ some p
  unfolding merkle_path
  merkle_path_found parent_of p e f g =
      let same : length parent_of + 1 ≡ suc (length parent_of) = omega arith in
      rw (e, f, same, g) refl

  -- A path from the search and the walk: they are there when the leaf hangs below the target.
  merkle_path_search :
      bytes_eq target leaf ≡ false
      → Reaches cache.compositions target leaf leaf
      → (p : Proof) × (merkle_path cache target leaf ≡ some p)
  merkle_path_search other r =
      let bound = unmet_bound cache.compositions [] in
      elim (explore_start cache.compositions target leaf (rounds cache) (omega (arith, bound))) [
        | found parent_of e tree met ↦
            let (p, g) = walk_up_arrives cache.compositions target parent_of leaf tree met in
            (p, merkle_path_found parent_of p other e g)
        | exhausted parent_of missed all ↦
            let met = Reaches-IsVisited cache.compositions target leaf parent_of leaf all r in
            let x = all leaf met in absurd (ground (arith, x.other, bytes_eq_self leaf))
      ]

  -- Whatever the search met hangs below the target.
  IsTree-Reaches :
      (parent_of : Table Hash) (k : Hash)
      → IsTree cache.compositions target parent_of
      → IsVisited target parent_of k
      → Reaches cache.compositions target leaf k
  IsTree-Reaches [] k tree (inl e) = rw e here
  IsTree-Reaches [] k tree (inr (parent, e)) = absurd (ground (arith, e))
  IsTree-Reaches ((child, top) ∷ rest) k tree (inl e) = rw e here
  IsTree-Reaches ((child, top) ∷ rest) k (fresh, before, (comp, g, side), tree) (inr (parent, e)) =
      elim (Bool-cases (bytes_eq child k)) [
        | inl same ↦
            let k_eq : child ≡ k = (bytes_eq_iff child k).0 same in
            rw (← k_eq) (down top child comp (IsTree-Reaches rest top tree before) g side)
        | inr other ↦
            let later : find rest k ≡ some parent = ground (arith, e) in
            IsTree-Reaches rest k tree (inr (parent, later))
      ]

  -- The cases of a call that gives a path.
  merkle_path-cases :
      (p : Proof)
      → merkle_path cache target leaf ≡ some p
      → ((target ≡ leaf) × (p ≡ no_steps))
        ⊎ ((parent_of : Table Hash) × IsTree cache.compositions target parent_of
            × IsVisited target parent_of leaf
            × (walk_up (length parent_of + 1) cache.compositions parent_of target leaf ≡ some p))
  unfolding merkle_path
  merkle_path-cases p e =
      let bound = unmet_bound cache.compositions [] in
      elim (Bool-cases (bytes_eq target leaf)) [
        | inl same ↦
            let met : merkle_path cache target leaf ≡ some no_steps = merkle_path_self same in
            inl ((bytes_eq_iff target leaf).0 same, cc)
        | inr other ↦
            elim (explore_start cache.compositions target leaf (rounds cache)
              (omega (arith, bound))) [
                | found parent_of f tree met ↦ inr (parent_of, tree, met, ground (arith, e))
                | exhausted parent_of missed all ↦ absurd (ground (arith, e))
              ]
      ]

-- merkle_path gives a path exactly when the leaf hangs below the target: it is the target, or a child
-- of a composition that does.
pub merkle_path_iff :
    (cache : ParticipantCache) (target leaf : Hash)
    → ((p : Proof) × (merkle_path cache target leaf ≡ some p))
      ↔ Reaches cache.compositions target leaf leaf
merkle_path_iff cache target leaf = (
  (λ (p, e). elim (merkle_path-cases cache target leaf p e) [
    | inl (same, none_left) ↦ rw same here
    | inr (parent_of, tree, met, g) ↦ IsTree-Reaches cache target leaf parent_of leaf tree met
  ]),
  λ r. elim (Bool-cases (bytes_eq target leaf)) [
    | inl same ↦ (no_steps, merkle_path_self cache target leaf same)
    | inr other ↦ merkle_path_search cache target leaf other r
  ],
)

-- A path of as many hashes as sides that leads to the target verifies.
verify_applied :
    (na : Sodium) (target leaf : Hash) (p : Proof)
    → length p.path ≡ length p.sibling_is_right
    → apply_proof na leaf p ≡ target
    → verify na leaf p target ≡ true
unfolding verify
verify_applied na target leaf p l r =
    let a : (length p.path == length p.sibling_is_right) ≡ true = ground (arith, l) in
    rw a ((bytes_eq_iff (apply_proof na leaf p) target).1 r)

-- In a consistent cache, a path that is found verifies.
pub merkle_path-verify :
    (na : Sodium) (cache : ParticipantCache) (target leaf : Hash) (p : Proof)
    → IsConsistent na cache
    → merkle_path cache target leaf ≡ some p
    → verify na leaf p target ≡ true
merkle_path-verify na cache target leaf p c e = elim (merkle_path-cases cache target leaf p e) [
  | inl (same, none_left) ↦
      let (l, r) = met_target cache.compositions na leaf in
      rw (none_left, same) (verify_applied na leaf leaf no_steps l r)
  | inr (parent_of, tree, met, g) ↦
      let linked = IsTree-IsLinked cache.compositions target parent_of tree in
      let (l, r) =
        walk_up-apply_proof cache.compositions na _ parent_of target leaf p c.composed linked g in
      verify_applied na target leaf p l r
]
