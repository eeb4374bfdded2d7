-- ===== src/Blockchain/Extended.antt =====
-- The steps that append_data_block, rotate_key and revoke_node of blockchain.cpp share, against the
-- loop of `validate_branch` on the whole branch.
use free_labour_common_will.Base.{
  ℕ, zero, suc, ◌+◌, ◌^◌, ◌<◌, ℤ, ◌≡◌, refl, sym, ap, subst, inl, inr, List, [], ◌∷◌, ◌++◌, length,
  Option, Option-cases, arith, ◌≤ℤ◌,
}
use free_labour_common_will.Types.{
  UserId, PublicKey, KeyPair, Hash, Node, Block, BlockType, BlockAddress,
}
use free_labour_common_will.Types.Outcome.{ok, Result-cases}
use free_labour_common_will.Crypto.{Sodium, SodiumLaws, hash_block}
use free_labour_common_will.Signing.{build_signed_block}
use free_labour_common_will.Storage.{IStorage}
use free_labour_common_will.Blockchain.{branch_tip_hash, append_block, next_index, get_branch}
use free_labour_common_will.Blockchain.Append.{build_signed_block-signed, append_block-check_next}
use free_labour_common_will.Validator.Branch.{
  Cursor, next_key_after, check_next, check_all, blocks_from, signing_key,
}
use free_labour_common_will.Validator.Agreement.{start}

module _ (na : Sodium) where
  check_next-hash :
      (repl : Option PublicKey) (c c' : Cursor) (b : Block)
      → check_next na repl c b ≡ ok c'
      → c'.prev_hash ≡ hash_block na b
  unfolding check_next
  check_next-hash repl c c' b h =
      elim (Result-cases (signing_key na repl c.prev_hash c.work_key c.switched b)) [
        | inr (x, e) ↦ absurd (ground (arith, h, e))
        | inl ((key, switched), e) ↦ ground (arith, h, e)
      ]

  check_all-snoc :
      (repl : Option PublicKey) (c c' c'' : Cursor) (bs : List Block) (b : Block)
      → check_all na repl c bs ≡ ok c'
      → check_next na repl c' b ≡ ok c''
      → check_all na repl c (bs ++ (b ∷ [])) ≡ ok c''
  unfolding check_all
  check_all-snoc repl c c' c'' [] b h k = let same : c ≡ c' = ground (arith, h) in rw (same, k) refl
  check_all-snoc repl c c' c'' (x ∷ bs) b h k = elim (Result-cases (check_next na repl c x)) [
    | inr (y, e) ↦ absurd (ground (arith, h, e))
    | inl (d, e) ↦ rw e (check_all-snoc repl d c' c'' bs b (ground (arith, h, e)) k)
  ]

  check_all-hash :
      (repl : Option PublicKey) (c c' : Cursor) (front : List Block) (last : Block)
      → check_all na repl c (front ++ (last ∷ [])) ≡ ok c'
      → c'.prev_hash ≡ hash_block na last
  unfolding check_all
  check_all-hash repl c c' [] last h = elim (Result-cases (check_next na repl c last)) [
    | inr (y, e) ↦ absurd (ground (arith, h, e))
    | inl (d, e) ↦ check_next-hash repl c c' last (ground (arith, h, e))
  ]
  check_all-hash repl c c' (x ∷ front) last h = elim (Result-cases (check_next na repl c x)) [
    | inr (y, e) ↦ absurd (ground (arith, h, e))
    | inl (d, e) ↦ check_all-hash repl d c' front last (ground (arith, h, e))
  ]

  module _ (st : IStorage) (s : st.Store) (uid : UserId) (node : ℕ) where
    abbrev at_index : ℕ → BlockAddress
    at_index i = record { user_id = uid; node_index = node; block_index = i }

    blocks_from-last :
        (i left : ℕ) (bs : List Block)
        → blocks_from na st s uid node i (suc left) ≡ ok bs
        → (front : List Block) × (last : Block) × (bs ≡ front ++ (last ∷ []))
          × (st.get_block s (at_index (i + left)) ≡ ok last)
          × (length bs ≡ suc left)
    unfolding blocks_from
    blocks_from-last i zero bs h = elim (Result-cases (st.get_block s (at_index i))) [
      | inr (x, e) ↦ absurd (ground (arith, h, e))
      | inl (b, e) ↦
          let same : b ∷ [] ≡ bs = ground (arith, h, e) in
          let here : i ≡ i + zero = omega arith in
          rw (← same) ([], b, refl, subst (λ n. st.get_block s (at_index n) ≡ ok b) here e, refl)
    ]
    blocks_from-last i (suc left) bs h = elim (Result-cases (st.get_block s (at_index i))) [
      | inr (x, e) ↦ absurd (ground (arith, h, e))
      | inl (b, e) ↦ elim (Result-cases (blocks_from na st s uid node (i + 1) (suc left))) [
        | inr (x, f) ↦ absurd (ground (arith, h, e, f))
        | inl (rest, f) ↦
            let same : b ∷ rest ≡ bs = ground (arith, h, e, f) in
            let (front, last, whole, read, size) = blocks_from-last (i + 1) left rest f in
            let here : (i + 1) + left ≡ i + suc left = omega arith in
            rw (← same) (
              b ∷ front,
              last,
              ap (λ l. b ∷ l) whole,
              subst (λ n. st.get_block s (at_index n) ≡ ok last) here read,
              omega (arith, size),
            )
      ]
    ]

    -- The tip's hash is where the loop over the branch ends, and its length is the next index.
    tip_of_branch :
        (repl : Option PublicKey) (leaf : Node) (bs : List Block) (c : Cursor)
        → st.get_node s uid node ≡ ok leaf
        → get_branch na st s uid node ≡ ok bs
        → check_all na repl (start na st s uid node leaf) bs ≡ ok c
        → length bs < 2 ^ 32
        → (branch_tip_hash na st s uid node ≡ ok c.prev_hash)
          × (next_index na st (st.branch_tip_index s uid node) ≡ length bs)
    unfolding get_branch branch_tip_hash check_all blocks_from
    tip_of_branch repl leaf bs c n g h small =
        elim (Option-cases (st.branch_tip_index s uid node)) [
          | inl t ↦
              let empty : [] ≡ bs = ground (arith, g, t) in
              let same : start na st s uid node leaf ≡ c =
                let k =
                  subst (λ l. check_all na repl (start na st s uid node leaf) l ≡ ok c) (sym empty)
                    h in
                ground (arith, k) in
              (
                rw (branch_tip_hash, t, n) (ap (λ (x : Cursor). ok x.prev_hash) same),
                rw (t, ← empty) refl,
              )
          | inr (tip, t) ↦
              let g' : blocks_from na st s uid node 0 (tip + 1) ≡ ok bs = rw t at g in
              let more : tip + 1 ≡ suc tip = omega arith in
              let (front, last, whole, read, size) =
                blocks_from-last 0 tip bs
                  (subst (λ k. blocks_from na st s uid node 0 k ≡ ok bs) more g') in
              let here : 0 + tip ≡ tip = omega arith in
              let read' = subst (λ k. st.get_block s (at_index k) ≡ ok last) here read in
              let hashed =
                check_all-hash repl (start na st s uid node leaf) c front last
                  (subst (λ l. check_all na repl (start na st s uid node leaf) l ≡ ok c) whole h) in
              (
                rw (branch_tip_hash, t, read') (ap ok (sym hashed)),
                rw t (omega (arith, size, small)),
              )
        ]

module _ (na : Sodium) (Generated : KeyPair → Type 0) (laws : SodiumLaws na Generated)
    (st : IStorage) (s s' : st.Store) (uid : UserId) (node : ℕ) where
  append_block-address :
      (ts : ℤ) (kind : BlockType) (payload : List ℕ) (kp : KeyPair) (b : Block) (tip : Hash)
      → Generated kp
      → branch_tip_hash na st s uid node ≡ ok tip
      → append_block na st s uid node ts kind payload kp ≡ ok (s', b)
      → b.address ≡ record {
        user_id = uid;
        node_index = node;
        block_index = next_index na st (st.branch_tip_index s uid node);
      }
  unfolding append_block
  append_block-address ts kind payload kp b tip made t h =
      let address : BlockAddress = record {
        user_id = uid;
        node_index = node;
        block_index = next_index na st (st.branch_tip_index s uid node);
      } in
      elim (Result-cases (build_signed_block na address tip ts kind payload kp.sec)) [
        | inr (x, e) ↦ absurd (ground (arith, h, t, e))
        | inl (b', e) ↦ elim (Result-cases (st.put_block s b')) [
          | inr (x, f) ↦ absurd (ground (arith, h, t, e, f))
          | inl (s'', f) ↦
              let same : b' ≡ b = ground (arith, h, t, e, f) in
              let (_, _, _, at, _, _) =
                build_signed_block-signed na Generated laws address tip ts kind payload kp b made
                  (rw (← same) e) in
              at
        ]
      ]

  -- On a branch whose stored blocks the loop of `validate_branch` accepts, a block that the shared
  -- steps of the appending calls make gets the first index behind the branch, and the loop accepts the
  -- branch with that block behind it. The calls do not check what is assumed of their arguments: the
  -- key pair is a generated one whose public half is the key that the loop ends with, and the time is
  -- not before that of the last block. The branch has fewer than 2 ^ 32 blocks.
  pub append_block-check_all :
      (ts : ℤ) (kind : BlockType) (payload : List ℕ) (kp : KeyPair) (b : Block)
      (repl : Option PublicKey) (leaf : Node) (bs : List Block) (c : Cursor)
      → Generated kp
      → st.get_node s uid node ≡ ok leaf
      → get_branch na st s uid node ≡ ok bs
      → length bs < 2 ^ 32
      → check_all na repl (start na st s uid node leaf) bs ≡ ok c
      → c.work_key ≡ kp.pub_key
      → c.prev_ts ≤ℤ ts
      → append_block na st s uid node ts kind payload kp ≡ ok (s', b)
      → (b.address ≡ record { user_id = uid; node_index = node; block_index = length bs })
        × (check_all na repl (start na st s uid node leaf) (bs ++ (b ∷ []))
            ≡ ok (record {
              prev_hash = hash_block na b;
              work_key = next_key_after b kp.pub_key;
              prev_ts = ts;
              switched = c.switched;
            }))
  append_block-check_all ts kind payload kp b repl leaf bs c made n g small h key time appended =
      let (tip, next) = tip_of_branch na st s uid node repl leaf bs c n g h small in
      let at = append_block-address ts kind payload kp b c.prev_hash made tip appended in
      let round =
        append_block-check_next na Generated laws st s s' uid node ts kind payload kp b repl c made
          appended tip key time in
      (rw (← next) at, check_all-snoc na repl (start na st s uid node leaf) c _ bs b h round)
