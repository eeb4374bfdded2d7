-- ===== src/Validator/Chain.antt =====
-- The rounds of `validate_branch` and `branch_revocation_status` of validator.cpp over a list of blocks.
use free_labour_common_will.Base.{
  ◌≡◌, ◌≢◌, ◌⊎◌, refl, List, [], ◌∷◌, if◌then◌else◌, Bool, true, false, Option, none, some, arith,
  Bool-cases, inl, inr, bytes_eq_iff, ◌≤ℤ◌, All,
}
use free_labour_common_will.Types.{PublicKey, Hash, Block}
use free_labour_common_will.Types.Outcome.{ok, Result-cases}
use free_labour_common_will.Crypto.{Sodium, hash_block}
use free_labour_common_will.Signing.{block_signed_by}
use free_labour_common_will.Validator.State.{
  RevocationState, BlockRevocationStatus, clean, suspect, invalid_after_replacement,
}
use free_labour_common_will.Validator.Nodes.{validate_block}
use free_labour_common_will.Validator.Branch.{
  Cursor, Lineages, next_key_after, replacement_of, is_suspect, take_over, signing_key, check_next,
  check_all, classify, classify_all,
}

module _ (na : Sodium) where
  -- Whose key signed a block: the working key, or, once, the replacement that a revocation assigned.
  abbrev pub SignedBy : Option PublicKey → PublicKey → Bool → Block → PublicKey → Bool → Type 0
  SignedBy repl work switched b key switched' =
      ((block_signed_by na b work ≡ true) × (key ≡ work) × (switched' ≡ switched))
      ⊎ ((repl ≡ some key)
          × (switched ≡ false)
          × (block_signed_by na b work ≡ false)
          × (block_signed_by na b key ≡ true)
          × (switched' ≡ true))

  signing_key-SignedBy :
      (repl : Option PublicKey) (prev : Hash) (work : PublicKey) (switched : Bool) (b : Block)
      (key : PublicKey) (switched' : Bool)
      → signing_key na repl prev work switched b ≡ ok (key, switched')
      → (b.prev_hash ≡ prev) × SignedBy repl work switched b key switched'
  unfolding signing_key take_over validate_block
  signing_key-SignedBy none prev work true b key sw e =
      ground (arith, bytes_eq_iff b.prev_hash prev)
  signing_key-SignedBy none prev work false b key sw e =
      ground (arith, bytes_eq_iff b.prev_hash prev)
  signing_key-SignedBy (some r) prev work true b key sw e =
      ground (arith, bytes_eq_iff b.prev_hash prev)
  signing_key-SignedBy (some r) prev work false b key sw e =
      ground (arith, bytes_eq_iff b.prev_hash prev)

  -- What one round of the loop accepts, and what it makes of its variables.
  pub record Round (repl : Option PublicKey) (c : Cursor) (b : Block) (c' : Cursor) : Type 0 where
    pub link : b.prev_hash ≡ c.prev_hash
    pub time : c.prev_ts ≤ℤ b.timestamp_claimed
    pub key : PublicKey
    pub signed : SignedBy repl c.work_key c.switched b key c'.switched
    pub next_hash : c'.prev_hash ≡ hash_block na b
    pub next_key : c'.work_key ≡ next_key_after b key
    pub next_time : c'.prev_ts ≡ b.timestamp_claimed

  check_next-Round :
      (repl : Option PublicKey) (c c' : Cursor) (b : Block)
      → check_next na repl c b ≡ ok c'
      → Round repl c b c'
  unfolding check_next
  check_next-Round repl c c' b h =
      elim (Result-cases (signing_key na repl c.prev_hash c.work_key c.switched b)) [
        | inr (x, e) ↦ absurd (ground (arith, e))
        | inl ((key, sw), e) ↦
            let (link, signed) =
              signing_key-SignedBy repl c.prev_hash c.work_key c.switched b key sw e in
            let same : c'.switched ≡ sw = ground (arith, e) in
            record {
              link = link;
              time = ground (arith, e);
              key = key;
              signed = rw same signed;
              next_hash = ground (arith, e);
              next_key = ground (arith, e);
              next_time = ground (arith, e);
            }
      ]

  -- A branch as `validate_branch` wants it, from the variables at its start to those at its end.
  pub data ValidChain (repl : Option PublicKey) : Cursor → List Block → Cursor → Type 0 where
    done : {c : Cursor} → ValidChain repl c [] c
    next :
        {c c' last : Cursor} {b : Block} {rest : List Block}
        → Round repl c b c'
        → ValidChain repl c' rest last
        → ValidChain repl c (b ∷ rest) last

  pub check_all-ValidChain :
      (repl : Option PublicKey) (bs : List Block) (c last : Cursor)
      → check_all na repl c bs ≡ ok last
      → ValidChain repl c bs last
  unfolding check_all
  check_all-ValidChain repl [] c last h = let e : c ≡ last = cc in rw (← e) done
  check_all-ValidChain repl (b ∷ rest) c last h = elim (Result-cases (check_next na repl c b)) [
    | inr (x, e) ↦ absurd (ground (arith, e))
    | inl (c', e) ↦
        next (check_next-Round repl c c' b e)
          (check_all-ValidChain repl rest c' last (ground (arith, e)))
  ]

  -- The key that may sign the next block.
  abbrev pub authorised : Lineages → PublicKey
  authorised l = if l.switched then l.current else l.lineage

  abbrev pub Agrees : Cursor → Lineages → Type 0
  Agrees c l = (l.switched ≡ c.switched) × (authorised l ≡ c.work_key)

  classify-Agrees :
      (rev : Option RevocationState) (c c' : Cursor) (b : Block) (l : Lineages)
      → Round (replacement_of rev) c b c'
      → Agrees c l
      → (l' : Lineages) × (status : BlockRevocationStatus) × (classify na rev l b ≡ ok (l', status))
        × (status ≢ invalid_after_replacement)
        × Agrees c' l'
  unfolding classify
  classify-Agrees rev c c' b l r a = elim r.signed [
    | inr (assigned, before, old, new, sw) ↦ (
      record l { current = next_key_after b r.key; switched = true },
      clean,
      ground arith,
      (λ e. cc),
      ground arith,
    )
    | inl (signed, same, sw) ↦ elim (Bool-cases l.switched) [
      | inl switched ↦ (
        record l { current = next_key_after b l.current },
        clean,
        ground arith,
        (λ e. cc),
        ground arith,
      )
      | inr not_switched ↦ (
        record l { lineage = next_key_after b l.lineage },
        (if is_suspect rev b then suspect else clean),
        ground arith,
        (λ e. ground arith),
        ground arith,
      )
    ]
  ]

  -- On a branch that `validate_branch` accepts, `branch_revocation_status` classifies every block, none
  -- of them as invalid after a replacement, and ends with the same key and the same switch.
  classify_all-Agrees :
      (rev : Option RevocationState) {c last : Cursor} {bs : List Block} (l : Lineages)
      → ValidChain (replacement_of rev) c bs last
      → Agrees c l
      → (l' : Lineages) × (statuses : List BlockRevocationStatus) × (classify_all na rev l bs
          ≡ ok (l', statuses))
        × All (λ status. status ≢ invalid_after_replacement) statuses
        × Agrees last l'
  unfolding classify_all
  classify_all-Agrees rev l done a = (l, [], refl, tt, a)
  classify_all-Agrees rev {bs = b ∷ rest} l (next {c} {c'} r v) a =
      let (l', status, e, ne, a') = classify-Agrees rev c c' b l r a in
      let (l'', statuses, es, nes, a'') = classify_all-Agrees rev l' v a' in
      (l'', status ∷ statuses, rw (e, es), (ne, nes), a'')

  pub validated_status :
      (rev : Option RevocationState) (bs : List Block) (c last : Cursor) (l : Lineages)
      → check_all na (replacement_of rev) c bs ≡ ok last
      → Agrees c l
      → (l' : Lineages) × (statuses : List BlockRevocationStatus) × (classify_all na rev l bs
          ≡ ok (l', statuses))
        × All (λ status. status ≢ invalid_after_replacement) statuses
        × Agrees last l'
  validated_status rev bs c last l h a =
      classify_all-Agrees rev l (check_all-ValidChain (replacement_of rev) bs c last h) a
