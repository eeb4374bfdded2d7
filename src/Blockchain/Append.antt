-- ===== src/Blockchain/Append.antt =====
-- The blocks that the facade appends, against what `validate_branch` wants of them.
use free_labour_common_will.Base.{
  ℕ, ℤ, ◌≡◌, refl, inl, inr, bytes_eq, List, [], true, false, Option, none, arith, bytes_eq_iff,
  ltb_ℤ, ◌≤ℤ◌,
}
use free_labour_common_will.Types.{
  UserId, PublicKey, KeyPair, Hash, Block, BlockType, BlockAddress, null_signature,
}
use free_labour_common_will.Types.Outcome.{ok, Result-cases}
use free_labour_common_will.Crypto.{Sodium, SodiumLaws, sign, verify, hash_block}
use free_labour_common_will.Signing.{build_signed_block, block_signed_by, block_signing_bytes}
use free_labour_common_will.Serializer.Encode.{enc_block}
use free_labour_common_will.Storage.{IStorage}
use free_labour_common_will.Blockchain.{branch_tip_hash, append_block, next_index}
use free_labour_common_will.Validator.Nodes.{validate_block}
use free_labour_common_will.Validator.Branch.{Cursor, next_key_after, signing_key, check_next}

module _ (na : Sodium) (Generated : KeyPair → Type 0) (laws : SodiumLaws na Generated) where
  -- A signed block is verified under the public half of the key pair that signed it.
  pub build_signed_block-signed :
      (address : BlockAddress) (prev : Hash) (ts : ℤ) (kind : BlockType) (payload : List ℕ)
      (kp : KeyPair) (b : Block)
      → Generated kp
      → build_signed_block na address prev ts kind payload kp.sec ≡ ok b
      → (block_signed_by na b kp.pub_key ≡ true)
        × (b.prev_hash ≡ prev)
        × (b.timestamp_claimed ≡ ts)
        × (b.address ≡ address)
        × (b.kind ≡ kind)
        × (b.payload ≡ payload)
  unfolding build_signed_block block_signed_by block_signing_bytes sign verify
  build_signed_block-signed address prev ts kind payload kp b made h =
      let u : Block = record {
        address = address;
        prev_hash = prev;
        timestamp_claimed = ts;
        kind = kind;
        payload = payload;
        external_refs = [];
        signature = null_signature;
        co_signature = none;
      } in
      let (s, e) = laws.signs (enc_block u) kp made in
      let same : record u { signature = s } ≡ b = ground (arith, e) in
      rw (← same) (laws.verifies (enc_block u) kp s made e, refl, refl, refl, refl, refl)

  -- A block that `append_block` makes under a generated key pair is accepted by the next round of
  -- `validate_branch`, in a state whose hash is that of the branch's tip, whose key is the pair's public
  -- half and whose time is not after the block's. The round moves on to the block's hash and time, and
  -- to the key that a rotation block carries.
  pub append_block-check_next :
      (st : IStorage) (s s' : st.Store) (uid : UserId) (node : ℕ) (ts : ℤ) (kind : BlockType)
      (payload : List ℕ) (kp : KeyPair) (b : Block) (repl : Option PublicKey) (c : Cursor)
      → Generated kp
      → append_block na st s uid node ts kind payload kp ≡ ok (s', b)
      → branch_tip_hash na st s uid node ≡ ok c.prev_hash
      → c.work_key ≡ kp.pub_key
      → c.prev_ts ≤ℤ ts
      → check_next na repl c b
        ≡ ok (record {
          prev_hash = hash_block na b;
          work_key = next_key_after b kp.pub_key;
          prev_ts = ts;
          switched = c.switched;
        })
  unfolding append_block check_next signing_key validate_block
  append_block-check_next st s s' uid node ts kind payload kp b repl c made h tip key time =
      let address : BlockAddress = record {
        user_id = uid;
        node_index = node;
        block_index = next_index na st (st.branch_tip_index s uid node);
      } in
      elim (Result-cases (build_signed_block na address c.prev_hash ts kind payload kp.sec)) [
        | inr (x, e) ↦ absurd (ground (arith, tip, e))
        | inl (b', e) ↦ elim (Result-cases (st.put_block s b')) [
          | inr (x, f) ↦ absurd (ground (arith, tip, e, f))
          | inl (s'', f) ↦
              let same : b' ≡ b = ground (arith, tip, e, f) in
              let (signed, link, at, _, _, _) =
                build_signed_block-signed address c.prev_hash ts kind payload kp b made
                  (rw (← same) e) in
              let linked : bytes_eq b.prev_hash c.prev_hash ≡ true =
                (bytes_eq_iff b.prev_hash c.prev_hash).1 link in
              let in_order : ltb_ℤ b.timestamp_claimed c.prev_ts ≡ false =
                rw at (ground (arith, time)) in
              rw (linked, key, signed, in_order, at) refl
        ]
      ]
