-- ===== src/Validator/Fuel.antt =====
-- The recursion of `effective_revocation` of validator.cpp through the authors of records.
use free_labour_common_will.Base.{
  ℕ, zero, suc, ◌≤◌, ◌<◌, ◌≡◌, refl, ap, ◌∙◌, fun_ext, List, [], ◌∷◌, ◌==◌, Option, arith,
  Bool-cases, inl, inr,
}
use free_labour_common_will.Types.{UserId, BlockAddress}
use free_labour_common_will.Types.Outcome.{Result, ok, ◌>>=◌}
use free_labour_common_will.Types.Tree.{is_ancestor, is_ancestor_lt}
use free_labour_common_will.Crypto.{Sodium}
use free_labour_common_will.Storage.{IStorage}
use free_labour_common_will.Validator.State.{RevocationState}
use free_labour_common_will.Validator.Records.{
  examine, examine_all, collect_revocations, resolve, effective_within, effective_revocation,
}

module _ (na : Sodium) (st : IStorage) (s : st.Store) (uid : UserId) where
  module _ (p q : ℕ → Result (Option RevocationState)) (target : ℕ)
      (agree : (i : ℕ) → i < target → p i ≡ q i) where
    examine_agree : (a : BlockAddress) → examine na st p s target a ≡ examine na st q s target a
    unfolding examine
    examine_agree a = elim (Bool-cases (is_ancestor a.node_index target)) [
      | inr no_author ↦ rw no_author
      | inl author ↦ rw (author, agree a.node_index (is_ancestor_lt _ _ author))
    ]

    examine_all_agree :
        (xs : List BlockAddress) → examine_all na st p s target xs ≡ examine_all na st q s target xs
    unfolding examine_all
    examine_all_agree [] = refl
    examine_all_agree (a ∷ rest) = rw (examine_agree a, examine_all_agree rest)

    collect_agree :
        collect_revocations na st p s uid target ≡ collect_revocations na st q s uid target
    unfolding collect_revocations
    collect_agree = elim (Bool-cases (target == 0)) [
      | inl root ↦ rw root
      | inr inner ↦ rw inner (
          ap (λ f. st.get_revocation_addresses s uid target >>= f)
            (fun_ext λ xs. rw (examine_all_agree xs)))
    ]

  -- Any fuel from the node's index on gives one result.
  fuel_agree :
      (f g node : ℕ)
      → node ≤ f
      → node ≤ g
      → effective_within na st f s uid node ≡ effective_within na st g s uid node
  unfolding effective_within resolve
  fuel_agree zero zero node h k = refl
  fuel_agree zero (suc g) node h k =
      let e : node ≡ 0 = omega arith in rw e (unfold collect_revocations in refl)
  fuel_agree (suc f) zero node h k =
      let e : node ≡ 0 = omega arith in rw e (unfold collect_revocations in refl)
  fuel_agree (suc f) (suc g) node h k = rw (
      collect_agree (effective_within na st f s uid) (effective_within na st g s uid) node
        (λ i lt. fuel_agree f g i (omega arith) (omega arith)))

  -- At every node `effective_revocation` satisfies the source's equation, in which each author's state
  -- is again given by `effective_revocation`, with no fuel left in it.
  pub effective_revocation_lem :
      (node : ℕ)
      → effective_revocation na st s uid node ≡ (do
        found ← collect_revocations na st (effective_revocation na st s uid) s uid node
        ok (resolve found))
  unfolding effective_revocation effective_within
  effective_revocation_lem node =
      fuel_agree node (suc node) node (omega arith) (omega arith)
      ∙ rw (
          collect_agree (effective_within na st node s uid) (effective_revocation na st s uid) node
            (λ i lt. fuel_agree node i i (omega arith) (omega arith)))
