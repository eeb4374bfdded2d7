-- ===== src/Merkle/Trees.antt =====
-- The root of merkle.cpp as the hash of one tree over the references.

use free_labour_common_will.Base.{
  ℕ, zero, suc, ◌≡◌, refl, ap, sym, subst, ◌∙◌, ◌⊎◌, inl, inr, List, [], ◌∷◌, ◌++◌, map, length,
  get_or, ltb, true, arith, All, Has,
}
use free_labour_common_will.Types.{Hash, ExternalRef, zero_hash}
use free_labour_common_will.Crypto.{Sodium}
use free_labour_common_will.Merkle.{node_hash, next_level, leaf_hash, root_loop}
use free_labour_common_will.Merkle.Strings.{level_strings, loop_strings}

-- The tree of references that a level of hashes stands for.
pub data Tree : Type 0 where
  leaf : ExternalRef → Tree
  node : Tree → Tree → Tree

module _ (na : Sodium) where
  unfoldable pub tree_hash : Tree → Hash
  tree_hash (leaf r) = leaf_hash na r
  tree_hash (node l r) = node_hash na (tree_hash l) (tree_hash r)

unfoldable pub next_trees : List Tree → List Tree
next_trees [] = []
next_trees (a ∷ []) = a ∷ []
next_trees (a ∷ b ∷ rest) = node a b ∷ next_trees rest

module _ (na : Sodium) (P : ExternalRef → Type 0) (Q : List ℕ → Type 0) where
  -- The leaves of a tree and the strings of its nodes.
  abbrev pub Leaves : Tree → Type 0
  Leaves (leaf r) = P r
  Leaves (node l r) = Q (1 ∷ (tree_hash na l ++ tree_hash na r)) × (Leaves l × Leaves r)

  next_trees-Leaves :
      (ts : List Tree)
      → All Leaves ts
      → ((z : List ℕ) → Has z (level_strings (map (tree_hash na) ts)) → Q z)
      → All Leaves (next_trees ts)
  unfolding next_trees
  next_trees-Leaves [] h q = tt
  next_trees-Leaves (a ∷ []) h q = h
  next_trees-Leaves (a ∷ b ∷ rest) h q =
      ((q _ (inl refl), (h.0, h.1.0)), next_trees-Leaves rest h.1.1 (λ z m. q z (inr m)))

pub Has-append : {A : Type 0} (x : A) (xs ys : List A) → Has x xs ⊎ Has x ys → Has x (xs ++ ys)
Has-append x [] ys (inl h) = absurd h
Has-append x [] ys (inr h) = h
Has-append x (y ∷ xs) ys (inl (inl e)) = inl e
Has-append x (y ∷ xs) ys (inl (inr h)) = inr (Has-append x xs ys (inl h))
Has-append x (y ∷ xs) ys (inr h) = inr (Has-append x xs ys (inr h))

module _ (na : Sodium) where
  pub next_level-trees :
      (ts : List Tree) → next_level na (map (tree_hash na) ts) ≡ map (tree_hash na) (next_trees ts)
  unfolding next_level next_trees tree_hash
  next_level-trees [] = refl
  next_level-trees (a ∷ []) = refl
  next_level-trees (a ∷ b ∷ rest) = rw (next_level-trees rest)

  more : (ts : List Tree) → ltb 1 (suc (suc (length (map (tree_hash na) ts)))) ≡ true
  more ts = ground arith

  -- The loop ends with the hash of one tree over the same references, whose nodes it hashed.
  pub root-tree :
      (P : ExternalRef → Type 0) (Q : List ℕ → Type 0) (fuel : ℕ) (t : Tree) (ts : List Tree)
      → All (Leaves na P Q) (t ∷ ts)
      → ((z : List ℕ) → Has z (loop_strings na fuel (map (tree_hash na) (t ∷ ts))) → Q z)
      → (top : Tree) × Leaves na P Q top
        × (get_or (root_loop na fuel (map (tree_hash na) (t ∷ ts))) 0 zero_hash ≡ tree_hash na top)
  unfolding root_loop next_trees loop_strings
  root-tree P Q zero t ts h q = (t, h.0, refl)
  root-tree P Q (suc fuel) t [] h q = (t, h.0, refl)
  root-tree P Q (suc fuel) t (u ∷ ts) h q =
      let level = map (tree_hash na) (t ∷ u ∷ ts) in
      let made =
        next_trees-Leaves na P Q (t ∷ u ∷ ts) h
          (λ z m. q z (Has-append z (level_strings level) _ (inl m))) in
      let later : (z : List ℕ)
          → Has z (loop_strings na fuel (map (tree_hash na) (node t u ∷ next_trees ts)))
          → Q z =
        λ z m. q z (
          Has-append z (level_strings level) _ (
            inr (
              subst (λ l. Has z (loop_strings na fuel l)) (sym (next_level-trees (t ∷ u ∷ ts)))
                m))) in
      let (top, leaves, e) = root-tree P Q fuel (node t u) (next_trees ts) made later in
      (
        top,
        leaves,
        rw (more ts) (
            ap (λ l. get_or (root_loop na fuel l) 0 zero_hash) (next_level-trees (t ∷ u ∷ ts)) ∙ e),
      )
