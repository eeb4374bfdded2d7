-- ===== src/MergeSession/Honest.antt =====
-- `check_partner_draft` on the drafts that `create_pending` makes.
use free_labour_common_will.Base.{
  ℕ, ◌+◌, ◌%◌, ◌^◌, ◌<◌, ◌≡◌, refl, sym, ap, ◌∙◌, ℤ, List, [], append-nil, length, ◌==◌, ==_self,
  true, false, Option, some, arith, bytes_eq, bytes_eq_iff, ltb_ℤ, IsBytes, IsInt64,
}
use free_labour_common_will.Types.{
  UserId, KeyPair, Block, BranchTipInfo, PendingMergeBlock, MergePayload, merge, type_eq,
  address_eq, address_eq_iff,
}
use free_labour_common_will.Types.Outcome.{ok}
use free_labour_common_will.Types.Packets.{MergeSnapshot}
use free_labour_common_will.Crypto.{Sodium, SodiumLaws, hash_block}
use free_labour_common_will.Serializer.Encode.{enc_merge_payload}
use free_labour_common_will.Serializer.Decode.{decode, dec_merge_payload}
use free_labour_common_will.Serializer.RoundTrip.{
  IsAddress, IsMergePayload, decode-enc_merge_payload, length-enc_merge_payload,
}
use free_labour_common_will.Storage.{IStorage}
use free_labour_common_will.Snapshot
use free_labour_common_will.MergeSession.{
  latest, earliest, check_union, check_partner_draft, merge_payload, snapshot_for, create_pending,
  prepare_tip, eq_ℤ,
}
use free_labour_common_will.MergeSession.Drafts.{Drafted, create_pending-Drafted, tip_of_branch}

pub decode_payload :
    (p : MergePayload) → IsMergePayload p → decode dec_merge_payload (enc_merge_payload p) ≡ ok p
decode_payload p w =
    rw append-nil at (decode-enc_merge_payload p [] w (omega (arith, length-enc_merge_payload p w)))

module _ (na : Sodium) (st : IStorage) where
  eq_ℤ_self : (t : ℤ) → eq_ℤ t t ≡ true
  eq_ℤ_self t = ground arith

  bytes_eq_self : (bs : List ℕ) → bytes_eq bs bs ≡ true
  bytes_eq_self bs = (bytes_eq_iff bs bs).1 refl

  -- A draft that carries on the partner's branch, takes our tip and is dated now.
  accept :
      (s : st.Store) (uid : UserId) (leaf_index tip : ℕ) (own_tip their_tip : BranchTipInfo)
      (own_snapshot : MergeSnapshot) (ts now : ℤ) (depth : ℕ) (p : PendingMergeBlock)
      (own_draft : Option Block)
      (d : Drafted na st s uid leaf_index tip own_tip own_snapshot ts depth p)
      → their_tip.tip_address ≡ record { user_id = uid; node_index = leaf_index; block_index = tip }
      → their_tip.tip_hash ≡ hash_block na d.last
      → IsMergePayload (merge_payload na st own_tip (Snapshot.merge na d.own own_snapshot) ts depth)
      → ltb_ℤ (latest now) ts ≡ false
      → ltb_ℤ ts (earliest now) ≡ false
      → check_union na
          (merge_payload na st own_tip (Snapshot.merge na d.own own_snapshot) ts depth)
          own_draft
        ≡ ok tt
      → check_partner_draft na p.draft own_tip their_tip now own_draft ≡ ok p.draft_hash
  unfolding check_partner_draft
  accept s uid leaf_index tip own_tip their_tip own_snapshot ts now depth p own_draft d at link w
        late early union =
      let is_merge : type_eq p.draft.kind merge ≡ true = rw d.kind refl in
      let user : bytes_eq p.draft.address.user_id their_tip.tip_address.user_id ≡ true =
        rw (d.address, at) (bytes_eq_self uid) in
      let node : (p.draft.address.node_index == their_tip.tip_address.node_index) ≡ true =
        rw (d.address, at) (==_self leaf_index) in
      let next : (p.draft.address.block_index == (their_tip.tip_address.block_index + 1) % 2 ^ 32)
          ≡ true =
        rw (d.address, at) (==_self ((tip + 1) % 2 ^ 32)) in
      let chained : bytes_eq p.draft.prev_hash their_tip.tip_hash ≡ true =
        rw (d.link, link) (bytes_eq_self (hash_block na d.last)) in
      let decoded = ap (decode dec_merge_payload) d.payload ∙ decode_payload _ w in
      let takes : address_eq own_tip.tip_address own_tip.tip_address ≡ true =
        (address_eq_iff own_tip.tip_address own_tip.tip_address).1 refl in
      let dated : eq_ℤ p.draft.timestamp_claimed ts ≡ true = rw d.time (eq_ℤ_self ts) in
      rw
        (
          is_merge,
          user,
          node,
          next,
          chained,
          decoded,
          takes,
          bytes_eq_self own_tip.tip_hash,
          dated,
          late,
          early,
          union,
        )
        (ap ok (sym d.hashed))

  module _ (Generated : KeyPair → Type 0) (laws : SodiumLaws na Generated) where
    payload_wellformed :
        (partner : BranchTipInfo) (own partner_snapshot : MergeSnapshot) (ts : ℤ) (depth : ℕ)
        → IsAddress partner.tip_address
        → IsBytes 32 partner.tip_hash
        → IsInt64 ts
        → depth < 2 ^ 32
        → IsMergePayload
            (merge_payload na st partner (Snapshot.merge na own partner_snapshot) ts depth)
    payload_wellformed partner own partner_snapshot ts depth a h t d = record {
      address = a;
      hash = h;
      time = t;
      root = Snapshot.merge_root_size na Generated laws own partner_snapshot;
      hll = Snapshot.sketch_hash_size na Generated laws (Snapshot.merge na own partner_snapshot);
      depth = d;
    }

    -- Two sides that exchanged their tips and their snapshots agree: the side that drafted from `r`
    -- accepts the draft that the other side made from `s`, and gives back that draft's hash, if the
    -- draft took the tip that was sent and is dated within the slack of the clock. The values have the
    -- C++ types' sizes, and the two sketches have one size.
    pub check_partner_draft-create_pending :
        (s s' r r' : st.Store) (uid own_uid : UserId) (leaf_index own_leaf : ℕ)
        (their_tip own_tip : BranchTipInfo) (their_snapshot own_snapshot : MergeSnapshot)
        (kp own_kp : KeyPair) (ts own_ts now : ℤ) (depth own_depth : ℕ)
        (theirs own : PendingMergeBlock)
        → prepare_tip na st s uid leaf_index ≡ ok their_tip
        → snapshot_for na st s uid leaf_index ≡ ok their_snapshot
        → snapshot_for na st r own_uid own_leaf ≡ ok own_snapshot
        → create_pending na st s uid leaf_index own_tip own_snapshot kp ts depth ≡ ok (s', theirs)
        → create_pending na st r own_uid own_leaf their_tip their_snapshot own_kp own_ts own_depth
          ≡ ok (r', own)
        → IsAddress own_tip.tip_address
          × IsBytes 32 own_tip.tip_hash
          × IsInt64 ts
          × (depth < 2 ^ 32)
        → IsAddress their_tip.tip_address
          × IsBytes 32 their_tip.tip_hash
          × IsInt64 own_ts
          × (own_depth < 2 ^ 32)
        → length own_snapshot.hll ≡ length their_snapshot.hll
        → ltb_ℤ (latest now) ts ≡ false
        → ltb_ℤ ts (earliest now) ≡ false
        → check_partner_draft na theirs.draft own_tip their_tip now (some own.draft)
          ≡ ok theirs.draft_hash
    unfolding check_union
    check_partner_draft-create_pending s s' r r' uid own_uid leaf_index own_leaf their_tip own_tip
          their_snapshot own_snapshot kp own_kp ts own_ts now depth own_depth theirs own tipped
          their_read own_read made own_made fits own_fits sizes late early =
        let (tip, t, d) =
          create_pending-Drafted na st s s' uid leaf_index own_tip own_snapshot kp ts depth theirs
            made in
        let (_, _, o) =
          create_pending-Drafted na st r r' own_uid own_leaf their_tip their_snapshot own_kp own_ts
            own_depth own own_made in
        let (at, link) =
          tip_of_branch na st s uid leaf_index tip d.last their_tip t d.last_read tipped in
        let one : d.own ≡ their_snapshot = ground (arith, d.own_read, their_read) in
        let other : o.own ≡ own_snapshot = ground (arith, o.own_read, own_read) in
        let union : Snapshot.merge na o.own their_snapshot ≡ Snapshot.merge na d.own own_snapshot =
          rw (one, other) (Snapshot.merge_snapshot_comm na own_snapshot their_snapshot sizes) in
        let (a, h, i, n) = fits in
        let (oa, oh, oi, on) = own_fits in
        let ours =
          ap (decode dec_merge_payload) o.payload
          ∙ decode_payload _
              (payload_wellformed their_tip o.own their_snapshot own_ts own_depth oa oh oi on) in
        accept s uid leaf_index tip own_tip their_tip own_snapshot ts now depth theirs
          (some own.draft) d at link
          (payload_wellformed own_tip d.own own_snapshot ts depth a h i n) late early
          (rw
            (
              ours,
              union,
              bytes_eq_self (Snapshot.merge na d.own own_snapshot).merkle_root,
              bytes_eq_self (Snapshot.sketch_hash na (Snapshot.merge na d.own own_snapshot)),
            )
            refl)
