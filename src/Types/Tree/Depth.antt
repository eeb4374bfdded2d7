-- ===== src/Types/Tree/Depth.antt =====
-- `node_depth`, `is_leaf_node` and `is_valid_node` of types.h.
use free_labour_common_will.Base.{
  ℕ, zero, suc, ◌+◌, ◌-◌, ◌/◌, ◌^◌, ◌≤◌, ◌<◌, ◌≡◌, ◌≢◌, refl, ap, Bool, true, false, leb, ltb, ◌==◌,
  if◌then◌else◌, arith, ◌↔◌, Bool-cases, inl, inr, le→leb,
}
use native.Mathlib.Nat.{pow-suc}

-- The position of the highest bit of a number that is not 0, by halving.
log2_loop : ℕ → ℕ → ℕ
log2_loop zero n = 0
log2_loop (suc fuel) n = let above = suc (log2_loop fuel (n / 2)) in if ltb 1 n then above else 0

-- `__builtin_clzll`: the zeros above the highest bit of a 64-bit word that is not 0.
unfoldable pub clz64 : ℕ → ℕ
unfolding log2_loop
clz64 x = 63 - log2_loop 64 x

-- ⌊log₂ (index + 1)⌋.
unfoldable pub node_depth : ℕ → ℕ
unfolding clz64
node_depth index = if index == 0 then 0 else 63 - clz64 (index + 1)

unfoldable pub is_leaf_node : ℕ → Bool
is_leaf_node index = node_depth index == 31

unfoldable pub is_valid_node : ℕ → Bool
is_valid_node index = leb (node_depth index) 31

log2_loop_bounds :
    (fuel n : ℕ)
    → 0 < n
    → n < 2 ^ fuel
    → (2 ^ log2_loop fuel n ≤ n) × (n < 2 ^ suc (log2_loop fuel n))
unfolding log2_loop
log2_loop_bounds zero n h k = omega arith
log2_loop_bounds (suc fuel) n h k = elim (Bool-cases (ltb 1 n)) [
  | inl more ↦ rw more (
      omega (
        arith,
        log2_loop_bounds fuel (n / 2) (ground arith) (omega (arith, pow-suc 2 fuel)),
        pow-suc 2 (log2_loop fuel (n / 2)),
        pow-suc 2 (suc (log2_loop fuel (n / 2))),
      ))
  | inr one ↦ rw one (ground arith)
]

log2_loop-le : (fuel k n : ℕ) → n < 2 ^ suc k → log2_loop fuel n ≤ k
unfolding log2_loop
log2_loop-le zero k n h = omega arith
log2_loop-le (suc fuel) zero n h = ground arith
log2_loop-le (suc fuel) (suc k) n h = ground (arith, pow-suc 2 (suc k), log2_loop-le fuel k (n / 2))

node_depth-log2 : (i : ℕ) → i < 2 ^ 32 → node_depth i ≡ log2_loop 64 (i + 1)
unfolding node_depth log2_loop
node_depth-log2 zero h = refl
node_depth-log2 (suc i) h =
    let below = log2_loop-le 64 63 (suc i + 1) (omega arith) in
    unfold node_depth in rw (ne) (omega (arith, below))
  where
    ne : (suc i == 0) ≡ false
    ne = ground arith

-- The depth of a 32-bit index i is the d with 2 ^ d ≤ i + 1 < 2 ^ (d + 1).
pub node_depth_bounds :
    (i : ℕ) → i < 2 ^ 32 → (2 ^ node_depth i ≤ i + 1) × (i + 1 < 2 ^ suc (node_depth i))
node_depth_bounds i h =
    rw (node_depth-log2 i h) (log2_loop_bounds 64 (i + 1) (omega arith) (omega arith))

depth_max : node_depth 0xffff_ffff ≡ 32
unfolding node_depth log2_loop
depth_max = refl

-- A 32-bit index is a position of the tree (depth 31 at most) exactly when it is not 2 ^ 32 - 1, the
-- one index whose depth is 32.
pub is_valid_node_iff : (i : ℕ) → i < 2 ^ 32 → (is_valid_node i ≡ true) ↔ (i ≢ 0xffff_ffff)
unfolding is_valid_node
is_valid_node_iff i h = (
  λ v e. ground (arith, depth_max, ap node_depth e),
  λ ne. rw (node_depth-log2 i h) (le→leb _ _ (log2_loop-le 64 31 (i + 1) (omega arith))),
)
