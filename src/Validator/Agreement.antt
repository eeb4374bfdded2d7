-- ===== src/Validator/Agreement.antt =====
-- `validate_branch` and `branch_revocation_status` over the blocks of a store.
use free_labour_common_will.Base.{
  ℕ, zero, suc, ◌+◌, ◌≡◌, ◌≢◌, refl, List, [], ◌∷◌, Option, none, some, arith, inl, inr, false,
  int64_min, All,
}
use free_labour_common_will.Types.{UserId, PublicKey, Block, Node}
use free_labour_common_will.Types.Outcome.{ok, Result-cases}
use free_labour_common_will.Crypto.{Sodium, hash_node}
use free_labour_common_will.Storage.{IStorage}
use free_labour_common_will.Validator.State.{
  RevocationState, BlockRevocationStatus, invalid_after_replacement, BranchRevocationStatus,
}
use free_labour_common_will.Validator.Records.{effective_revocation}
use free_labour_common_will.Validator.Branch.{
  Cursor, Lineages, replacement_of, check_next, check_all, classify, classify_all, conclude,
  blocks_from, check_from, check_branch, validate_branch, classify_from, branch_revocation_status,
}
use free_labour_common_will.Validator.Chain.{ValidChain, check_all-ValidChain, validated_status}

module _ (na : Sodium) (st : IStorage) (s : st.Store) (uid : UserId) (node : ℕ) where
  check_from-blocks :
      (repl : Option PublicKey) (c last : Cursor) (i left : ℕ)
      → check_from na st s uid node repl c i left ≡ ok last
      → (bs : List Block) × (blocks_from na st s uid node i left ≡ ok bs)
        × (check_all na repl c bs ≡ ok last)
  unfolding check_from blocks_from check_all
  check_from-blocks repl c last i zero h = ([], refl, h)
  check_from-blocks repl c last i (suc left) h =
      elim (Result-cases
        (st.get_block s (record { user_id = uid; node_index = node; block_index = i }))) [
          | inr (x, e) ↦ absurd (ground (arith, e))
          | inl (b, e) ↦ elim (Result-cases (check_next na repl c b)) [
            | inr (x, f) ↦ absurd (ground (arith, e, f))
            | inl (c', f) ↦
                let (bs, g, k) =
                  check_from-blocks repl c' last (i + 1) left (ground (arith, e, f)) in
                (b ∷ bs, rw (e, g), rw (f, k))
          ]
        ]

  classify_from-step :
      (rev : Option RevocationState) (l : Lineages) (b : Block) (rest : List Block) (i left : ℕ)
      → st.get_block s (record { user_id = uid; node_index = node; block_index = i }) ≡ ok b
      → ((l' : Lineages)
          → classify_from na st s uid node rev l' (i + 1) left ≡ classify_all na rev l' rest)
      → classify_from na st s uid node rev l i (suc left) ≡ classify_all na rev l (b ∷ rest)
  unfolding classify_from classify_all
  classify_from-step rev l b rest i left e same = elim (Result-cases (classify na rev l b)) [
    | inr (x, g) ↦ rw (e, g) refl
    | inl ((l', status), g) ↦ rw (e, g, same l') refl
  ]

  classify_from-blocks :
      (rev : Option RevocationState) (l : Lineages) (bs : List Block) (i left : ℕ)
      → blocks_from na st s uid node i left ≡ ok bs
      → classify_from na st s uid node rev l i left ≡ classify_all na rev l bs
  unfolding classify_from blocks_from classify_all
  classify_from-blocks rev l bs i zero h = let e : [] ≡ bs = cc in rw (← e) refl
  classify_from-blocks rev l bs i (suc left) h =
      elim (Result-cases
        (st.get_block s (record { user_id = uid; node_index = node; block_index = i }))) [
          | inr (x, e) ↦ absurd (ground (arith, e))
          | inl (b, e) ↦ elim (Result-cases (blocks_from na st s uid node (i + 1) left)) [
            | inr (x, f) ↦ absurd (ground (arith, e, f))
            | inl (rest, f) ↦
                let whole : b ∷ rest ≡ bs = ground (arith, e, f) in
                rw (← whole) (
                  classify_from-step rev l b rest i left e
                    (λ l'. classify_from-blocks rev l' rest (i + 1) left f))
          ]
        ]

  abbrev pub start : Node → Cursor
  start leaf = record {
    prev_hash = hash_node na leaf;
    work_key = leaf.working_pubkey;
    prev_ts = int64_min;
    switched = false;
  }

  -- What `validate_branch` has seen where it accepts a branch that is not empty.
  pub record Validated (tip : ℕ) : Type 0 where
    pub leaf : Node
    pub leaf_read : st.get_node s uid node ≡ ok leaf
    pub rev : Option RevocationState
    pub rev_read : effective_revocation na st s uid node ≡ ok rev
    pub blocks : List Block
    pub blocks_read : blocks_from na st s uid node 0 (tip + 1) ≡ ok blocks
    pub last : Cursor
    pub checked : check_all na (replacement_of rev) (start leaf) blocks ≡ ok last
    pub chain : ValidChain na (replacement_of rev) (start leaf) blocks last

  -- Where `validate_branch` accepts a branch that is not empty, its blocks are all in the store and form
  -- a valid chain from the hash and the key of the branch's node.
  pub validate_branch-Validated :
      (tip : ℕ)
      → st.branch_tip_index s uid node ≡ some tip
      → validate_branch na st s uid node ≡ ok tt
      → Validated tip
  unfolding validate_branch check_branch
  validate_branch-Validated tip t h = elim (Result-cases (st.get_node s uid node)) [
    | inr (x, e) ↦ absurd (ground (arith, e))
    | inl (leaf, e) ↦ elim (Result-cases (effective_revocation na st s uid node)) [
      | inr (x, f) ↦ absurd (ground (arith, e, f))
      | inl (rev, f) ↦
          elim (Result-cases
            (check_from na st s uid node (replacement_of rev) (start leaf) 0 (tip + 1))) [
              | inr (x, g) ↦ absurd (ground (arith, e, f, g))
              | inl (last, g) ↦
                  let (bs, k, m) =
                    check_from-blocks (replacement_of rev) (start leaf) last 0 (tip + 1) g in
                  record {
                    leaf = leaf;
                    leaf_read = e;
                    rev = rev;
                    rev_read = f;
                    blocks = bs;
                    blocks_read = k;
                    last = last;
                    checked = m;
                    chain = check_all-ValidChain na (replacement_of rev) bs (start leaf) last m;
                  }
            ]
    ]
  ]

  conclude-blocks :
      (rev : Option RevocationState) (l : Lineages) (ss : List BlockRevocationStatus)
      → (conclude na rev l ss).blocks ≡ ss
  unfolding conclude
  conclude-blocks none l ss = refl
  conclude-blocks (some r) l ss = ground arith

  -- Where `validate_branch` accepts a branch that is not empty, `branch_revocation_status` gives a
  -- status, in which no block is marked invalid after a replacement.
  pub validate_branch-status :
      (tip : ℕ)
      → st.branch_tip_index s uid node ≡ some tip
      → validate_branch na st s uid node ≡ ok tt
      → (status : BranchRevocationStatus) × (branch_revocation_status na st s uid node ≡ ok status)
        × All (λ b. b ≢ invalid_after_replacement) status.blocks
  unfolding branch_revocation_status
  validate_branch-status tip t h =
      let v = validate_branch-Validated tip t h in
      let l : Lineages = record {
        lineage = v.leaf.working_pubkey;
        current = v.leaf.working_pubkey;
        switched = false;
      } in
      let (l', statuses, e, good, _) =
        validated_status na v.rev v.blocks (start v.leaf) v.last l v.checked (refl, refl) in
      (
        conclude na v.rev l' statuses,
        rw (
          v.rev_read,
          v.leaf_read,
          t,
          classify_from-blocks v.rev l v.blocks 0 (tip + 1) v.blocks_read,
          e,
        ),
        rw conclude-blocks good,
      )
