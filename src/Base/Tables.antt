-- ===== src/Base/Tables.antt =====
-- Tables keyed by byte strings, as lists of pairs: `std::unordered_map` and the tables of LMDB.
use mathlib.Core.Path.{◌≡◌, refl}
use mathlib.Core.Logic.{inl, inr}
use mathlib.Core.Bool.{false}
use mathlib.Core.List.{List, [], ◌∷◌}
use mathlib.Core.Option.{Option, none, some}
use Prim.Native.Nat.{ℕ}
use native.Mathlib.Omega.{arith}
use free_labour_common_will.Base.Tests.{if◌then◌else◌, Bool-cases}
use free_labour_common_will.Base.Lists.{bytes_eq, bytes_eq_iff, bytes_eq_self, All}

abbrev pub Table : Type 0 → Type 0
Table V = List (List ℕ × V)

module _ {V : Type 0} where
  -- `find`.
  abbrev pub find : Table V → List ℕ → Option V
  find [] key = none
  find ((k, v) ∷ rest) key = let later = find rest key in if bytes_eq k key then some v else later

  -- `table[key] = value`.
  abbrev pub assign : Table V → List ℕ → V → Table V
  assign [] key value = (key, value) ∷ []
  assign ((k, v) ∷ rest) key value =
      let later = assign rest key value in
      if bytes_eq k key then (k, value) ∷ rest else (k, v) ∷ later

  pub find-assign_same :
      (t : Table V) (key : List ℕ) (value : V) → find (assign t key value) key ≡ some value
  find-assign_same [] key value = rw (bytes_eq_self key) refl
  find-assign_same ((k, v) ∷ rest) key value = elim (Bool-cases (bytes_eq k key)) [
    | inl same ↦ rw (same, same) refl
    | inr other ↦ rw (other, other) (find-assign_same rest key value)
  ]

  pub find-assign_other :
      (t : Table V) (key : List ℕ) (value : V) (k' : List ℕ)
      → bytes_eq key k' ≡ false
      → find (assign t key value) k' ≡ find t k'
  find-assign_other [] key value k' h = rw h refl
  find-assign_other ((k, v) ∷ rest) key value k' h = elim (Bool-cases (bytes_eq k key)) [
    | inl same ↦
        let e : k ≡ key = (bytes_eq_iff k key).0 same in
        let g : bytes_eq k k' ≡ false = rw e h in rw (same, g) refl
    | inr other ↦ rw (other, find-assign_other rest key value k' h) refl
  ]

  -- What holds of every entry and of the new one holds after an assignment.
  pub assign-All :
      (P : List ℕ × V → Type 0) (t : Table V) (key : List ℕ) (value : V)
      → All P t
      → P (key, value)
      → All P (assign t key value)
  assign-All P [] key value all p = (p, tt)
  assign-All P ((k, v) ∷ rest) key value (one, all) p = elim (Bool-cases (bytes_eq k key)) [
    | inl same ↦ let e : k ≡ key = (bytes_eq_iff k key).0 same in rw (same, e) (p, all)
    | inr other ↦ rw other (one, assign-All P rest key value all p)
  ]

  pub find-All :
      (P : List ℕ × V → Type 0) (t : Table V) (key : List ℕ) (value : V)
      → All P t
      → find t key ≡ some value
      → P (key, value)
  find-All P [] key value all e = absurd (ground (arith, e))
  find-All P ((k, v) ∷ rest) key value (one, all) e = elim (Bool-cases (bytes_eq k key)) [
    | inl same ↦
        let k_eq : k ≡ key = (bytes_eq_iff k key).0 same in
        let v_eq : v ≡ value = ground (arith, e) in rw (← k_eq, ← v_eq) one
    | inr other ↦
        let later : find rest key ≡ some value = ground (arith, e) in
        find-All P rest key value all later
  ]
