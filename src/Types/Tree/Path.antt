-- ===== src/Types/Tree/Path.antt =====
-- `path_indices` of types.h.
use mathlib.Core.List.{reverse, reverse-cons}
use free_labour_common_will.Base.{
  ℕ, zero, suc, ◌≤◌, ◌<◌, ◌≡◌, refl, sym, true, ◌==◌, if◌then◌else◌, arith, List, [], ◌∷◌, ◌++◌,
  Has, ◌↔◌, ◌⊎◌, inl, inr,
}
use free_labour_common_will.Types.Tree.Ancestry.{
  parent_index, Above, parent, further, is_ancestor, is_ancestor-iff-Above,
}

-- `while (cur != 0) { path.push_back(cur); cur = (cur - 1) / 2; }`, then the push of 0.
upward : ℕ → ℕ → List ℕ
upward zero cur = 0 ∷ []
upward (suc fuel) cur =
    let rest = cur ∷ upward fuel (parent_index cur) in if cur == 0 then 0 ∷ [] else rest

unfoldable pub path_indices : ℕ → List ℕ
unfolding upward
path_indices target = reverse (upward target target)

upward_fuel : (f g cur : ℕ) → cur ≤ f → cur ≤ g → upward f cur ≡ upward g cur
unfolding upward
upward_fuel zero zero cur h k = refl
upward_fuel zero (suc g) cur h k = ground arith
upward_fuel (suc f) zero cur h k = ground arith
upward_fuel (suc f) (suc g) cur h k = ground (arith, upward_fuel f g (parent_index cur))

pub path_indices-zero : path_indices 0 ≡ 0 ∷ []
unfolding path_indices
path_indices-zero = refl

upward_step : (n : ℕ) → 0 < n → upward n n ≡ n ∷ upward (parent_index n) (parent_index n)
unfolding upward
upward_step zero h = absurd (omega arith)
upward_step (suc n) h = ground (arith, upward_fuel n (parent_index (suc n)) (parent_index (suc n)))

-- The path to a node that is not the root is the path to its parent, and then the node.
pub path_indices-parent :
    (n : ℕ) → 0 < n → path_indices n ≡ path_indices (parent_index n) ++ (n ∷ [])
unfolding path_indices
path_indices-parent n h =
    rw (upward_step n h) (reverse-cons n (upward (parent_index n) (parent_index n)))

Has-snoc : (i n : ℕ) (xs : List ℕ) → Has i (xs ++ (n ∷ [])) ↔ (Has i xs ⊎ (i ≡ n))
Has-snoc i n [] =
    (λ h. elim h [ inl e ↦ inr e | inr b ↦ inl b ], λ h. elim h [ inl b ↦ inr b | inr e ↦ inl e ])
Has-snoc i n (x ∷ xs) = (
  λ h. elim h [
    | inl e ↦ inl (inl e)
    | inr m ↦ elim ((Has-snoc i n xs).0 m) [ inl k ↦ inl (inr k) | inr e ↦ inr e ]
  ],
  λ h. elim h [
    | inl (inl e) ↦ inl e
    | inl (inr k) ↦ inr ((Has-snoc i n xs).1 (inl k))
    | inr e ↦ inr ((Has-snoc i n xs).1 (inr e))
  ],
)

Has→Above : (fuel i n : ℕ) → n ≤ fuel → Has i (path_indices n) → (i ≡ n) ⊎ Above i n
Has→Above fuel i zero h m = elim (rw path_indices-zero at m) [ inl e ↦ inl e | inr b ↦ absurd b ]
Has→Above zero i (suc n) h m = absurd (omega arith)
Has→Above (suc fuel) i (suc n) h m =
    elim ((Has-snoc i (suc n) _).0 (rw (path_indices-parent (suc n) (omega arith)) at m)) [
      | inr e ↦ inl e
      | inl k ↦ elim (Has→Above fuel i (parent_index (suc n)) (omega arith) k) [
        | inl e ↦ inr (parent (suc n) (omega arith) (sym e))
        | inr a ↦ inr (further (suc n) (omega arith) a)
      ]
    ]

Has-self : (n : ℕ) → Has n (path_indices n)
Has-self zero = rw path_indices-zero (inl refl)
Has-self (suc n) = rw (path_indices-parent (suc n) (omega arith)) ((Has-snoc _ _ _).1 (inr refl))

Has-up : (i n : ℕ) → 0 < n → Has i (path_indices (parent_index n)) → Has i (path_indices n)
Has-up i n h m = rw (path_indices-parent n h) ((Has-snoc i n _).1 (inl m))

Above→Has : {i n : ℕ} → Above i n → Has i (path_indices n)
Above→Has (parent n h e) = rw (← e) (Has-up _ n h (Has-self (parent_index n)))
Above→Has {i} (further n h a) = Has-up i n h (Above→Has a)

-- The path to a node holds exactly the node and those that `is_ancestor` answers true for.
pub path_indices-iff-is_ancestor :
    (i n : ℕ) → Has i (path_indices n) ↔ ((i ≡ n) ⊎ (is_ancestor i n ≡ true))
path_indices-iff-is_ancestor i n = (
  λ m. elim (Has→Above n i n (omega arith) m) [
    | inl e ↦ inl e
    | inr a ↦ inr ((is_ancestor-iff-Above i n).1 a)
  ],
  λ h. elim h [ inl e ↦ rw e (Has-self n) | inr a ↦ Above→Has ((is_ancestor-iff-Above i n).0 a) ],
)
