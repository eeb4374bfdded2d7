-- ===== src/Sync/Proofs.antt =====
-- `build_proof` and `record_merge` of the cache, and the codec of its leaf records.
use free_labour_common_will.Base.{
  ◌≡◌, ◌<◌, ◌^◌, ◌+◌, refl, ℕ, List, ◌++◌, length, some, true, bytes_eq, bytes_eq_iff, bytes_le,
  find, find-All, find-assign_same, Bool-cases, Option-cases, inl, inr, arith,
}
use free_labour_common_will.Types.{Hash, Block, BranchTipInfo}
use free_labour_common_will.Types.Outcome.{ok}
use free_labour_common_will.Types.Packets.{Proof, MergeSnapshot, FraudProofData}
use free_labour_common_will.Crypto.{Sodium}
use free_labour_common_will.Merkle.{verify, leaf_hash, no_steps}
use free_labour_common_will.Serializer.RoundTrip.{
  decode-enc_fraud_proof, IsFraudProof, IsExternalRef, IsNodePath, IsBlock, unsigned_by_partner,
}
use free_labour_common_will.Sync.Cache.{
  LeafRecord, ParticipantCache, encode_leaf_record, decode_leaf_record, get_leaf, merkle_path,
  build_proof, put_leaf, put_composition, put_leaf_if_fresh, ordered, record_merge,
}
use free_labour_common_will.Sync.Climb.{IsChild}
use free_labour_common_will.Sync.Consistent.{IsConsistent, IsKeyed, record_merge-IsConsistent}
use free_labour_common_will.Sync.Explore.{Reaches, here, down}
use free_labour_common_will.Sync.Path.{merkle_path_iff, merkle_path-verify}

pub record IsLeafRecord (r : LeafRecord) : Type 0 where
  pub ref : IsExternalRef r.ref
  pub path : IsNodePath r.node_path
  pub evidence : IsBlock r.evidence

-- A leaf record of the C++ types' sizes is read back from its encoding, whatever bytes follow it,
-- if the buffer has fewer than 2 ^ 64 bytes, up to the co-signature of its evidence, which is not encoded.
pub decode-encode_leaf_record :
    (r : LeafRecord) (tl : List ℕ)
    → IsLeafRecord r
    → length (encode_leaf_record r) + length tl < 2 ^ 64
    → decode_leaf_record (encode_leaf_record r ++ tl)
      ≡ ok (record r { evidence = unsigned_by_partner r.evidence })
unfolding encode_leaf_record decode_leaf_record
decode-encode_leaf_record r tl w room =
    let d : FraudProofData = record {
      leaf = r.ref;
      merkle_path = no_steps;
      node_path = r.node_path;
      evidence = r.evidence;
    } in
    let wd : IsFraudProof d = record {
      leaf = w.ref;
      proof = record { path = tt; path_count = omega arith; flag_count = omega arith };
      path = w.path;
      evidence = w.evidence;
    } in
    rw (decode-enc_fraud_proof d tl wd room) refl

-- The proof of a cached leaf.
abbrev pub proof_of : LeafRecord → Proof → FraudProofData
proof_of r p = record {
  leaf = r.ref;
  merkle_path = p;
  node_path = r.node_path;
  evidence = r.evidence;
}

-- The leaf record that a tip with its block gives.
abbrev pub record_of : BranchTipInfo → Block → LeafRecord
record_of tip b = record {
  ref = record { address = tip.tip_address; block_hash = tip.tip_hash };
  node_path = tip.path;
  evidence = b;
}

module _ (na : Sodium) where
  -- In a consistent cache, a proof that build_proof gives is about the leaf asked for, and its Merkle
  -- path verifies under the target root.
  pub build_proof-verify :
      (cache : ParticipantCache) (target leaf : Hash) (d : FraudProofData)
      → IsConsistent na cache
      → build_proof cache target leaf ≡ some d
      → (leaf_hash na d.leaf ≡ leaf) × (verify na (leaf_hash na d.leaf) d.merkle_path target ≡ true)
  unfolding build_proof get_leaf
  build_proof-verify cache target leaf d c e = elim (Option-cases (find cache.leaves leaf)) [
    | inl lost ↦ absurd (ground (arith, e))
    | inr (r, f) ↦ elim (Option-cases (merkle_path cache target leaf)) [
      | inl lost ↦ absurd (ground (arith, e))
      | inr (p, g) ↦
          let built : FraudProofData = record {
            leaf = r.ref;
            merkle_path = p;
            node_path = r.node_path;
            evidence = r.evidence;
          } in
          let same : built ≡ d = ground (arith, e) in
          let key : leaf ≡ leaf_hash na r.ref =
            find-All (IsKeyed na) cache.leaves leaf r c.keyed f in
          rw (← same, ← key) (refl, merkle_path-verify na cache target leaf p c g)
    ]
  ]

  build_proof_cached :
      (cache : ParticipantCache) (target leaf : Hash) (r : LeafRecord) (p : Proof)
      → find cache.leaves leaf ≡ some r
      → merkle_path cache target leaf ≡ some p
      → build_proof cache target leaf ≡ some (proof_of r p)
  unfolding build_proof get_leaf
  build_proof_cached cache target leaf r p f g = rw (build_proof, f, g) refl

  -- After a merge, the union's composition is there, under the root that is returned.
  record_merge_root :
      (cache : ParticipantCache) (own partner : BranchTipInfo) (s t : MergeSnapshot)
      → let out = record_merge na cache own s partner t in
        find out.0.compositions out.1 ≡ some (ordered na s.merkle_root t.merkle_root)
  unfolding record_merge put_composition
  record_merge_root cache own partner s t =
      find-assign_same
        (put_leaf_if_fresh na (put_leaf_if_fresh na cache own s) partner t).compositions
        (record_merge na cache own s partner t).1 (ordered na s.merkle_root t.merkle_root)

  ordered_right : (a b : Hash) → IsChild b (ordered na a b)
  unfolding ordered
  ordered_right a b = elim (Bool-cases (bytes_le a b)) [
    | inl below ↦ rw below (inr refl)
    | inr above ↦ rw above (inl refl)
  ]

  put_leaf_if_fresh_lem :
      (cache : ParticipantCache) (tip : BranchTipInfo) (t : MergeSnapshot) (b : Block)
      → tip.tip_block ≡ some b
      → leaf_hash na (record_of tip b).ref ≡ t.merkle_root
      → put_leaf_if_fresh na cache tip t ≡ (put_leaf na cache (record_of tip b)).0
  unfolding put_leaf_if_fresh
  put_leaf_if_fresh_lem cache tip t b e key =
      let fresh : bytes_eq (leaf_hash na (record_of tip b).ref) t.merkle_root ≡ true =
        (bytes_eq_iff _ t.merkle_root).1 key in
      rw (e, fresh) refl

  -- The partner's leaf record is there, if its snapshot is that leaf.
  record_merge_leaf :
      (cache : ParticipantCache) (own partner : BranchTipInfo) (s t : MergeSnapshot) (b : Block)
      → partner.tip_block ≡ some b
      → leaf_hash na (record_of partner b).ref ≡ t.merkle_root
      → find (record_merge na cache own s partner t).0.leaves t.merkle_root
        ≡ some (record_of partner b)
  unfolding record_merge put_composition put_leaf
  record_merge_leaf cache own partner s t b e key =
      let before = put_leaf_if_fresh na cache own s in
      rw (put_leaf_if_fresh_lem before partner t b e key, ← key)
        (find-assign_same before.leaves (leaf_hash na (record_of partner b).ref)
          (record_of partner b))

  -- After a merge with a partner whose snapshot is the single leaf of the tip that it sent with its
  -- block, a consistent cache gives a proof of that leaf under the new root, with the tip's node path
  -- and block, whose Merkle path verifies.
  pub record_merge-build_proof :
      (cache : ParticipantCache) (own partner : BranchTipInfo) (s t : MergeSnapshot) (b : Block)
      → IsConsistent na cache
      → partner.tip_block ≡ some b
      → leaf_hash na (record_of partner b).ref ≡ t.merkle_root
      → let out = record_merge na cache own s partner t in
        (p : Proof) × (build_proof out.0 out.1 t.merkle_root
          ≡ some (proof_of (record_of partner b) p))
        × (verify na t.merkle_root p out.1 ≡ true)
  record_merge-build_proof cache own partner s t b c e key =
      let after = record_merge na cache own s partner t in
      let below : Reaches after.0.compositions after.1 t.merkle_root t.merkle_root =
        down after.1 t.merkle_root (ordered na s.merkle_root t.merkle_root) here
          (record_merge_root cache own partner s t) (ordered_right s.merkle_root t.merkle_root) in
      let (p, g) = (merkle_path_iff after.0 after.1 t.merkle_root).1 below in
      let kept = record_merge-IsConsistent na cache own partner s t c in
      (
        p,
        build_proof_cached after.0 after.1 t.merkle_root (record_of partner b) p
            (record_merge_leaf cache own partner s t b e key) g,
        merkle_path-verify na after.0 after.1 t.merkle_root p kept g,
      )
