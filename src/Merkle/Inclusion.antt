-- ===== src/Merkle/Inclusion.antt =====
-- `make_proof` of merkle.cpp against `verify`.
use free_labour_common_will.Base.{
  ℕ, zero, suc, ◌+◌, ◌-◌, ◌/◌, ◌%◌, ◌≤◌, ◌<◌, ◌≡◌, refl, sym, ◌∙◌, List, [], ◌∷◌, length, get_or,
  ltb, ◌==◌, if◌then◌else◌, true, false, ◌&&◌, bytes_eq_iff, ==_iff, arith, inl, inr, Bool-cases,
}
use free_labour_common_will.Types.{Hash, zero_hash}
use free_labour_common_will.Types.Outcome.{ok}
use free_labour_common_will.Types.Packets.{Proof}
use free_labour_common_will.Crypto.{Sodium}
use free_labour_common_will.Merkle.{
  node_hash, next_level, root_loop, root, proof_loop, make_proof, apply_proof, verify,
}

module _ (na : Sodium) where
  length-next_level : (xs : List Hash) → length (next_level na xs) ≡ (length xs + 1) / 2
  unfolding next_level
  length-next_level [] = refl
  length-next_level (a ∷ []) = refl
  length-next_level (a ∷ b ∷ rest) = omega (arith, length-next_level rest)

  -- What stands above position `idx`: the element itself where it is promoted, or the hash of the
  -- pair that it belongs to. `z` is what a read out of range gives, which no branch makes.
  above : Hash → List Hash → ℕ → Hash
  above z xs idx =
      if idx + 1 == length xs && length xs % 2 == 1
      then get_or xs idx z
      else if idx % 2 == 0
      then node_hash na (get_or xs idx z) (get_or xs (idx + 1) z)
      else node_hash na (get_or xs (idx - 1) z) (get_or xs idx z)

  module _ (z : Hash) where
    above_shift :
        (a b : Hash) (rest : List Hash) (i : ℕ)
        → above z (a ∷ b ∷ rest) (suc (suc i)) ≡ above z rest i
    unfolding above
    above_shift a b rest zero = ground arith
    above_shift a b rest (suc i) = ground arith

    above_promoted :
        (xs : List Hash) (i : ℕ)
        → (i + 1 == length xs && length xs % 2 == 1) ≡ true
        → above z xs i ≡ get_or xs i z
    unfolding above
    above_promoted xs i p = rw p

    above_left :
        (xs : List Hash) (i : ℕ)
        → (i + 1 == length xs && length xs % 2 == 1) ≡ false
        → (i % 2 == 0) ≡ true
        → above z xs i ≡ node_hash na (get_or xs i z) (get_or xs (i + 1) z)
    unfolding above
    above_left xs i p e = rw (p, e)

    above_right :
        (xs : List Hash) (i : ℕ)
        → (i + 1 == length xs && length xs % 2 == 1) ≡ false
        → (i % 2 == 0) ≡ false
        → above z xs i ≡ node_hash na (get_or xs (i - 1) z) (get_or xs i z)
    unfolding above
    above_right xs i p e = rw (p, e)

    next_level-get :
        (xs : List Hash) (idx : ℕ)
        → idx < length xs
        → get_or (next_level na xs) (idx / 2) z ≡ above z xs idx
    unfolding next_level above
    next_level-get [] idx h = absurd (omega arith)
    next_level-get (a ∷ []) zero h = ground arith
    next_level-get (a ∷ []) (suc idx) h = absurd (omega arith)
    next_level-get (a ∷ b ∷ rest) zero h = ground arith
    next_level-get (a ∷ b ∷ rest) (suc zero) h = ground arith
    next_level-get (a ∷ b ∷ rest) (suc (suc idx)) h =
        let half : suc (suc idx) / 2 ≡ suc (idx / 2) = omega arith in
        rw half (next_level-get rest idx (omega arith) ∙ sym (above_shift a b rest idx))

  -- The proof that the loop collects leads from the element to the root that the loop computes.
  apply-proof_loop :
      (fuel : ℕ) (xs : List Hash) (idx : ℕ)
      → idx < length xs
      → length xs ≤ fuel
      → apply_proof na (get_or xs idx zero_hash) (proof_loop na fuel xs idx)
        ≡ get_or (root_loop na fuel xs) 0 zero_hash
  unfolding apply_proof proof_loop root_loop
  apply-proof_loop zero xs idx h k = absurd (omega arith)
  apply-proof_loop (suc fuel) xs idx h k = elim (Bool-cases (ltb 1 (length xs))) [
    | inr one ↦ let e : idx ≡ 0 = ground arith in rw (one, e) refl
    | inl more ↦
        let ih = rw (next_level-get zero_hash xs idx h) at (
          apply-proof_loop fuel (next_level na xs) (idx / 2) (ground (arith, length-next_level xs))
            (ground (arith, length-next_level xs))) in
        elim (Bool-cases (idx + 1 == length xs && length xs % 2 == 1)) [
          | inl p ↦ rw (more, p) (rw (above_promoted zero_hash xs idx p) at ih)
          | inr p ↦ elim (Bool-cases (idx % 2 == 0)) [
            | inl e ↦ rw (more, p, e) (rw (above_left zero_hash xs idx p e) at ih)
            | inr e ↦ rw (more, p, e) (rw (above_right zero_hash xs idx p e) at ih)
          ]
        ]
  ]

  length-proof_loop :
      (fuel : ℕ) (xs : List Hash) (idx : ℕ)
      → length (proof_loop na fuel xs idx).path
        ≡ length (proof_loop na fuel xs idx).sibling_is_right
  unfolding proof_loop
  length-proof_loop zero xs idx = refl
  length-proof_loop (suc fuel) xs idx =
      ground (arith, length-proof_loop fuel (next_level na xs) (idx / 2))

  -- For every leaf in range `make_proof` gives a proof, and `verify` accepts the leaf with it under
  -- the root of the leaves.
  pub verify-make_proof :
      (leaves : List Hash) (i : ℕ)
      → i < length leaves
      → (p : Proof) × (make_proof na leaves i ≡ ok p)
        × (verify na (get_or leaves i zero_hash) p (root na leaves) ≡ true)
  unfolding make_proof verify root
  verify-make_proof [] i h = absurd (omega arith)
  verify-make_proof (a ∷ rest) i h = (
    proof_loop na (length (a ∷ rest)) (a ∷ rest) i,
    ground arith,
    rw ((==_iff _ _).1 (length-proof_loop (length (a ∷ rest)) (a ∷ rest) i))
        ((bytes_eq_iff _ _).1 (apply-proof_loop (length (a ∷ rest)) (a ∷ rest) i h (omega arith))),
  )
