-- ===== src/Merkle/Descent.antt =====
-- `apply_steps` of merkle.cpp, read from the root down.
use mathlib.Core.List.{reverse, reverse-cons}
use free_labour_common_will.Base.{
  ℕ, ◌≡◌, refl, ap, sym, subst, ◌∙◌, ◌⊎◌, inl, inr, List, [], ◌∷◌, ◌++◌, if◌then◌else◌, Bool, Has,
}
use free_labour_common_will.Types.{Hash}
use free_labour_common_will.Crypto.{Sodium}
use free_labour_common_will.Merkle.{node_hash, apply_steps}
use free_labour_common_will.Merkle.Strings.{step_strings}

abbrev pub Step : Type 0
Step = Hash × Bool

unfoldable pub steps : List Hash → List Bool → List Step
steps [] flags = []
steps (s ∷ path) [] = []
steps (s ∷ path) (right ∷ flags) = (s, right) ∷ steps path flags

module _ (na : Sodium) where
  abbrev pub beside : Hash → Step → Hash
  beside x (s, right) = if right then node_hash na x s else node_hash na s x

  -- The steps from the root down.
  unfoldable pub descend : Hash → List Step → Hash
  descend x [] = x
  descend x (s ∷ below) = beside (descend x below) s

  descend-snoc :
      (x : Hash) (ss : List Step) (s : Step) → descend x (ss ++ (s ∷ [])) ≡ descend (beside x s) ss
  unfolding descend
  descend-snoc x [] s = refl
  descend-snoc x (t ∷ ss) s = ap (λ y. beside y t) (descend-snoc x ss s)

  -- The strings that the steps from the root down hash.
  unfoldable pub string : Hash → Step → List ℕ
  string x (s, right) = 1 ∷ (if right then x ++ s else s ++ x)

  unfoldable pub descend_strings : Hash → List Step → List (List ℕ)
  descend_strings x [] = []
  descend_strings x (s ∷ below) = string (descend x below) s ∷ descend_strings x below

  descend_strings-snoc :
      (x : Hash) (ss : List Step) (s : Step) (z : List ℕ)
      → Has z (descend_strings x (ss ++ (s ∷ [])))
      → (z ≡ string x s) ⊎ Has z (descend_strings (beside x s) ss)
  unfolding descend_strings descend
  descend_strings-snoc x [] s z (inl e) = inl e
  descend_strings-snoc x [] s z (inr h) = absurd h
  descend_strings-snoc x (t ∷ ss) s z (inl e) =
      inr (inl (e ∙ ap (λ y. string y t) (descend-snoc x ss s)))
  descend_strings-snoc x (t ∷ ss) s z (inr h) = elim (descend_strings-snoc x ss s z h) [
    | inl e ↦ inl e
    | inr k ↦ inr (inr k)
  ]

  pub descend_strings-steps :
      (path : List Hash) (flags : List Bool) (x : Hash) (z : List ℕ)
      → Has z (descend_strings x (reverse (steps path flags)))
      → Has z (step_strings na x path flags)
  unfolding descend_strings steps step_strings string
  descend_strings-steps [] flags x z h = h
  descend_strings-steps (s ∷ path) [] x z h = h
  descend_strings-steps (s ∷ path) (right ∷ flags) x z h =
      elim (descend_strings-snoc x (reverse (steps path flags)) (s, right) z
        (subst (λ l. Has z (descend_strings x l)) (reverse-cons (s, right) (steps path flags)) h)) [
          | inl e ↦ inl e
          | inr k ↦ inr (descend_strings-steps path flags _ z k)
        ]

  pub apply_steps-descend :
      (path : List Hash) (flags : List Bool) (x : Hash)
      → apply_steps na x path flags ≡ descend x (reverse (steps path flags))
  unfolding apply_steps steps
  apply_steps-descend [] flags x = unfold descend in refl
  apply_steps-descend (s ∷ path) [] x = unfold descend in refl
  apply_steps-descend (s ∷ path) (right ∷ flags) x =
      apply_steps-descend path flags _
      ∙ sym (
          ap (descend x) (reverse-cons (s, right) (steps path flags))
          ∙ descend-snoc x (reverse (steps path flags)) (s, right))
