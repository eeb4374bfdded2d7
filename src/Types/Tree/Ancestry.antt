-- ===== src/Types/Tree/Ancestry.antt =====
-- `is_ancestor` of types.h against the parent relation of the heap.
use free_labour_common_will.Base.{
  ℕ, zero, suc, ◌-◌, ◌/◌, ◌≤◌, ◌<◌, ◌≡◌, refl, Bool, true, false, leb, ltb, ◌==◌, if◌then◌else◌,
  arith, ◌↔◌, Bool-cases, inl, inr,
}

-- `(cur - 1) / 2`, which the source computes at indices above 0.
abbrev pub parent_index : ℕ → ℕ
parent_index i = (i - 1) / 2

-- `while (cur > ancestor) cur = (cur - 1) / 2;` the index falls in each round, so `cur` rounds do.
climb : ℕ → ℕ → ℕ → ℕ
climb zero ancestor cur = cur
climb (suc fuel) ancestor cur =
    let next = climb fuel ancestor (parent_index cur) in if ltb ancestor cur then next else cur

unfoldable pub is_ancestor : ℕ → ℕ → Bool
unfolding climb
is_ancestor ancestor descendant =
    if leb descendant ancestor then false else climb descendant ancestor descendant == ancestor

-- `a` is reached from `d` by one step to the parent, or by more.
pub data Above (a : ℕ) : ℕ → Type 0 where
  parent : (d : ℕ) → 0 < d → parent_index d ≡ a → Above a d
  further : (d : ℕ) → 0 < d → Above a (parent_index d) → Above a d

pub Above-lt : {a d : ℕ} → Above a d → a < d
Above-lt (parent d h e) = omega arith
Above-lt (further d h s) = omega (arith, Above-lt s)

climb-le : (fuel a d : ℕ) → d ≤ fuel → climb fuel a d ≤ a
unfolding climb
climb-le zero a d h = omega arith
climb-le (suc fuel) a d h = ground (arith, climb-le fuel a (parent_index d))

climb_fix : (fuel a d : ℕ) → d ≤ a → climb fuel a d ≡ d
unfolding climb
climb_fix zero a d h = refl
climb_fix (suc fuel) a d h = ground arith

climb→Above : (fuel a d : ℕ) → a < d → climb fuel a d ≡ a → Above a d
unfolding climb
climb→Above zero a d h e = absurd (omega arith)
climb→Above (suc fuel) a d h e = elim (Bool-cases (ltb a (parent_index d))) [
  | inl more ↦
      further d (omega arith) (climb→Above fuel a (parent_index d) (ground arith) (ground arith))
  | inr done ↦ parent d (omega arith) (ground (arith, climb_fix fuel a (parent_index d)))
]

Above→climb : (fuel : ℕ) {a d : ℕ} → d ≤ fuel → Above a d → climb fuel a d ≡ a
unfolding climb
Above→climb zero h (parent d p e) = absurd (omega arith)
Above→climb zero h (further d p s) = absurd (omega arith)
Above→climb (suc fuel) {a} h (parent d p e) = ground (arith, climb_fix fuel a (parent_index d))
Above→climb (suc fuel) {a} h (further d p s) =
    ground (arith, Above→climb fuel {a = a} {d = parent_index d} (omega arith) s, Above-lt s)

-- `is_ancestor` answers true exactly when the first node is reached from the second by one or more
-- steps to the parent.
pub is_ancestor-iff-Above : (a d : ℕ) → (is_ancestor a d ≡ true) ↔ Above a d
unfolding is_ancestor
is_ancestor-iff-Above a d = (
  λ h. climb→Above d a d (ground arith) (ground arith),
  λ s. ground (arith, Above-lt s, Above→climb d (omega arith) s),
)

-- The ancestor of a node has a smaller index.
pub is_ancestor_lt : (a d : ℕ) → is_ancestor a d ≡ true → a < d
is_ancestor_lt a d h = Above-lt ((is_ancestor-iff-Above a d).0 h)

-- The root is an ancestor of every other node.
pub is_ancestor_root : (d : ℕ) → 0 < d → is_ancestor 0 d ≡ true
unfolding is_ancestor
is_ancestor_root d h = ground (arith, climb-le d 0 d)
