-- ===== src/MergeSession/Drafts.antt =====
-- What `create_pending` of merge_session.cpp writes into a draft, and the tip that it carries on.
use free_labour_common_will.Base.{
  ℕ, ◌+◌, ◌%◌, ◌^◌, ◌≡◌, refl, ℤ, List, [], none, some, arith, inl, inr, Option-cases,
}
use free_labour_common_will.Types.{
  UserId, KeyPair, Hash, Block, BlockAddress, BranchTipInfo, BlockType, PendingMergeBlock, merge,
  null_signature,
}
use free_labour_common_will.Types.Outcome.{ok, Result-cases}
use free_labour_common_will.Types.Packets.{MergeSnapshot}
use free_labour_common_will.Crypto.{Sodium, hash_block, sign}
use free_labour_common_will.Signing.{build_signed_block}
use free_labour_common_will.Serializer.Encode.{enc_merge_payload, enc_block}
use free_labour_common_will.Storage.{IStorage}
use free_labour_common_will.Snapshot
use free_labour_common_will.Blockchain.{get_path}
use free_labour_common_will.MergeSession.{
  merge_payload, snapshot_for, draft_merge, create_pending, prepare_tip, check_own_branch,
}

module _ (na : Sodium) (st : IStorage) where
  -- What a draft of `draft_merge` says.
  pub record Drafted (s : st.Store) (uid : UserId) (leaf_index tip : ℕ) (partner : BranchTipInfo)
      (partner_snapshot : MergeSnapshot) (ts : ℤ) (depth : ℕ) (p : PendingMergeBlock) : Type 0 where
    pub own : MergeSnapshot
    pub own_read : snapshot_for na st s uid leaf_index ≡ ok own
    pub last : Block
    pub last_read :
        st.get_block s (record { user_id = uid; node_index = leaf_index; block_index = tip })
        ≡ ok last
    pub address :
        p.draft.address
        ≡ record { user_id = uid; node_index = leaf_index; block_index = (tip + 1) % 2 ^ 32 }
    pub link : p.draft.prev_hash ≡ hash_block na last
    pub kind : p.draft.kind ≡ merge
    pub time : p.draft.timestamp_claimed ≡ ts
    pub payload :
        p.draft.payload
        ≡ enc_merge_payload
            (merge_payload na st partner (Snapshot.merge na own partner_snapshot) ts depth)
    pub hashed : p.draft_hash ≡ hash_block na p.draft

  build_signed_block-fields :
      (a : BlockAddress) (prev : Hash) (ts : ℤ) (kind : BlockType) (payload : List ℕ) (sec : List ℕ)
      (b : Block)
      → build_signed_block na a prev ts kind payload sec ≡ ok b
      → (b.address ≡ a)
        × (b.prev_hash ≡ prev)
        × (b.kind ≡ kind)
        × (b.timestamp_claimed ≡ ts)
        × (b.payload ≡ payload)
  unfolding build_signed_block
  build_signed_block-fields a prev ts kind payload sec b h =
      let u : Block = record {
        address = a;
        prev_hash = prev;
        timestamp_claimed = ts;
        kind = kind;
        payload = payload;
        external_refs = [];
        signature = null_signature;
        co_signature = none;
      } in
      elim (Result-cases (sign na (enc_block u) sec)) [
        | inr (x, e) ↦ absurd (ground (arith, e))
        | inl (s, e) ↦
            let same : record u { signature = s } ≡ b = ground (arith, e) in
            rw (← same) (refl, refl, refl, refl, refl)
      ]

  draft_merge-Drafted :
      (s s' : st.Store) (uid : UserId) (leaf_index tip : ℕ) (partner : BranchTipInfo)
      (partner_snapshot : MergeSnapshot) (kp : KeyPair) (ts : ℤ) (depth : ℕ) (p : PendingMergeBlock)
      → draft_merge na st s uid leaf_index tip partner partner_snapshot kp ts depth ≡ ok (s', p)
      → Drafted s uid leaf_index tip partner partner_snapshot ts depth p
  unfolding draft_merge
  draft_merge-Drafted s s' uid leaf_index tip partner partner_snapshot kp ts depth p h =
      let a : BlockAddress = record { user_id = uid; node_index = leaf_index; block_index = tip } in
      let next : BlockAddress = record {
        user_id = uid;
        node_index = leaf_index;
        block_index = (tip + 1) % 2 ^ 32;
      } in
      elim (Result-cases (snapshot_for na st s uid leaf_index)) [
        | inr (x, e) ↦ absurd (ground (arith, e))
        | inl (own, e) ↦
            let union = Snapshot.merge na own partner_snapshot in
            let payload = enc_merge_payload (merge_payload na st partner union ts depth) in
            elim (Result-cases (st.get_block s a)) [
              | inr (x, f) ↦ absurd (ground (arith, e, f))
              | inl (last, f) ↦
                  elim (Result-cases
                    (build_signed_block na next (hash_block na last) ts merge payload kp.sec)) [
                      | inr (x, g) ↦ absurd (ground (arith, e, f, g))
                      | inl (draft, g) ↦ elim (Result-cases (st.put_block s draft)) [
                        | inr (x, k) ↦ absurd (ground (arith, e, f, g, k))
                        | inl (s1, k) ↦
                            elim (Result-cases (st.put_snapshot s1 uid leaf_index union)) [
                              | inr (x, l) ↦ absurd (ground (arith, e, f, g, k, l))
                              | inl (s2, l) ↦
                                  let (at, link, kind, time, body) =
                                    build_signed_block-fields next (hash_block na last) ts merge
                                      payload kp.sec draft g in
                                  let drafted : record {
                                    draft = draft;
                                    draft_hash = hash_block na draft;
                                  }
                                      ≡ p =
                                    ground (arith, e, f, g, k, l) in
                                  rw (← drafted) (record {
                                    own = own;
                                    own_read = e;
                                    last = last;
                                    last_read = f;
                                    address = at;
                                    link = link;
                                    kind = kind;
                                    time = time;
                                    payload = body;
                                    hashed = refl;
                                  })
                            ]
                      ]
                    ]
            ]
      ]

  -- A draft that `create_pending` makes stands on a branch with a tip, and is one of `draft_merge`.
  pub create_pending-Drafted :
      (s s' : st.Store) (uid : UserId) (leaf_index : ℕ) (partner : BranchTipInfo)
      (partner_snapshot : MergeSnapshot) (kp : KeyPair) (ts : ℤ) (depth : ℕ) (p : PendingMergeBlock)
      → create_pending na st s uid leaf_index partner partner_snapshot kp ts depth ≡ ok (s', p)
      → (tip : ℕ) × (st.branch_tip_index s uid leaf_index ≡ some tip)
        × Drafted s uid leaf_index tip partner partner_snapshot ts depth p
  unfolding create_pending
  create_pending-Drafted s s' uid leaf_index partner partner_snapshot kp ts depth p h =
      elim (Option-cases (st.branch_tip_index s uid leaf_index)) [
        | inl t ↦ absurd (ground (arith, t))
        | inr (tip, t) ↦ elim (Result-cases (check_own_branch na st s uid leaf_index kp.pub_key)) [
          | inr (x, e) ↦ absurd (ground (arith, t, e))
          | inl (u, e) ↦ (
            tip,
            t,
            draft_merge-Drafted s s' uid leaf_index tip partner partner_snapshot kp ts depth p
                (ground (arith, t, e)),
          )
        ]
      ]

  pub tip_of_branch :
      (s : st.Store) (uid : UserId) (leaf_index tip : ℕ) (last : Block) (info : BranchTipInfo)
      → st.branch_tip_index s uid leaf_index ≡ some tip
      → st.get_block s (record { user_id = uid; node_index = leaf_index; block_index = tip })
        ≡ ok last
      → prepare_tip na st s uid leaf_index ≡ ok info
      → (info.tip_address ≡ record { user_id = uid; node_index = leaf_index; block_index = tip })
        × (info.tip_hash ≡ hash_block na last)
  unfolding prepare_tip
  tip_of_branch s uid leaf_index tip last info t l h =
      elim (Result-cases (get_path na st s uid leaf_index)) [
        | inr (x, e) ↦ absurd (ground (arith, e))
        | inl (path, e) ↦
            let same : record {
              tip_address = record { user_id = uid; node_index = leaf_index; block_index = tip };
              tip_hash = hash_block na last;
              path = path;
              tip_block = some last;
            }
                ≡ info =
              ground (arith, e, t, l) in
            rw (← same) (refl, refl)
      ]
