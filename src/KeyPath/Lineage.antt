-- ===== src/KeyPath/Lineage.antt =====
-- `KeyPathCert::signer_key` of key_path.cpp on a verified key path.
use free_labour_common_will.Base.{
  ℕ, ◌≡◌, refl, List, [], ◌∷◌, true, bytes_eq_iff, arith, Option, none, some, Option-cases, inl,
  inr,
}
use free_labour_common_will.Types.{UserId, PublicKey, Node, Block}
use free_labour_common_will.Types.Outcome.{ok, Result-cases}
use free_labour_common_will.Crypto.{Sodium}
use free_labour_common_will.Signing.{block_signed_by}
use free_labour_common_will.KeyPath.{
  back, verify_node_path, rotated_key, check_rotations, verify, follow, signer_key,
}

module _ (na : Sodium) (chain : UserId) (tip : ℕ) where
  -- Blocks of the branch that lead from one key to another, each signed by the key that it replaces.
  pub data Lineage : PublicKey → List Block → PublicKey → Type 0 where
    same : {k : PublicKey} → Lineage k [] k
    rotate :
        {k next last : PublicKey} {b : Block} {rest : List Block}
        → b.address.user_id ≡ chain
        → b.address.node_index ≡ tip
        → block_signed_by na b k ≡ true
        → rotated_key na b ≡ some next
        → Lineage next rest last
        → Lineage k (b ∷ rest) last

  check_rotations-Lineage :
      (bs : List Block) (k : PublicKey) (prev : Option ℕ)
      → check_rotations na chain tip k prev bs ≡ ok tt
      → Lineage k bs (follow na k bs)
  unfolding check_rotations follow
  check_rotations-Lineage [] k prev h = same
  check_rotations-Lineage (b ∷ rest) k prev h = elim (Option-cases (rotated_key na b)) [
    | inl e ↦ absurd (ground (arith, e))
    | inr (next, e) ↦ rw e (
        rotate (ground (arith, bytes_eq_iff b.address.user_id chain)) (ground arith) (ground arith)
          e (check_rotations-Lineage rest next (some b.address.block_index) (ground (arith, e))))
  ]

-- Where `verify` accepts a key path, `signer_key` answers with a key that is reached from the working
-- key of the path's last node by the rotations, each in that node's branch and signed by the key before.
pub signer_key-Lineage :
    (na : Sodium) (root : Node) (rest : List Node) (rotations : List Block) (chain : UserId)
    → verify na (record { path = root ∷ rest; rotations = rotations }) ≡ ok chain
    → (key : PublicKey) × (signer_key na (record { path = root ∷ rest; rotations = rotations })
        ≡ ok key)
      × Lineage na chain (back root rest).index (back root rest).working_pubkey rotations key
unfolding verify signer_key
signer_key-Lineage na root rest rotations chain h =
    elim (Result-cases (verify_node_path na (root ∷ rest))) [
      | inr (e, bad) ↦ absurd (ground (arith, bad))
      | inl (c, good) ↦ (
        _,
        refl,
        rw (← same_chain c good) (
            check_rotations-Lineage na c (back root rest).index rotations
              (back root rest).working_pubkey none (passed c good)),
      )
    ]
  where
    same_chain : (c : UserId) → verify_node_path na (root ∷ rest) ≡ ok c → c ≡ chain
    same_chain c good = ground (arith, good)

    passed :
        (c : UserId)
        → verify_node_path na (root ∷ rest) ≡ ok c
        → check_rotations na c (back root rest).index (back root rest).working_pubkey none rotations
          ≡ ok tt
    passed c good = ground (arith, good)
