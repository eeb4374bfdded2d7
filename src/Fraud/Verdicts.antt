-- ===== src/Fraud/Verdicts.antt =====
-- `verify_bad_sig` and `verify_hash_mismatch` of fraud.cpp, against what their verdicts stand for.
use free_labour_common_will.Base.{
  ◌≡◌, ◌≢◌, refl, sym, ap, ◌∙◌, subst, ◌↔◌, List, [], ◌∷◌, ◌++◌, true, false, some, bytes_eq,
  bytes_eq_iff, Bool-cases, Option-cases, arith, inl, inr,
}
use free_labour_common_will.Types.{PublicKey, Hash, Node, address_eq_iff, null_signature}
use free_labour_common_will.Types.Packets.{FraudProofData}
use free_labour_common_will.Crypto.{Sodium, hash, verify, hash_block}
use free_labour_common_will.Signing.{block_signed_by, block_signing_bytes}
use free_labour_common_will.Serializer.Encode.{enc_block, enc_ext_ref}
use free_labour_common_will.KeyPath.{back}
use free_labour_common_will.Merkle
use free_labour_common_will.Fraud.{
  confirmed, node_path_valid, structural_ok, key_of, verify_bad_sig, verify_hash_mismatch,
}
use free_labour_common_will.Fraud.Rules.{Climbs, LeadsTo, verify-Climbs, node_path_valid-LeadsTo}

module _ (na : Sodium) where
  -- The leaf is below the root, and its branch's node, the last of a path from the chain's root,
  -- carries the key.
  pub record Proven (merkle_root : Hash) (d : FraudProofData) (key : PublicKey) : Type 0 where
    pub included :
        Climbs na
          (hash na (0 ∷ enc_ext_ref d.leaf))
          d.merkle_path.path
          d.merkle_path.sibling_is_right
          merkle_root
    pub root : Node
    pub rest : List Node
    pub nodes : d.node_path ≡ root ∷ rest
    pub path : LeadsTo na root rest d.leaf.address.user_id d.leaf.address.node_index
    pub before : List Node
    pub last : Node
    pub ends : root ∷ rest ≡ before ++ (last ∷ [])
    pub carried : last.working_pubkey ≡ key

  back-last :
      (n : Node) (rest : List Node)
      → (before : List Node) × (n ∷ rest ≡ before ++ (back n rest ∷ []))
  back-last n [] = ([], refl)
  back-last n (m ∷ rest) = let (before, e) = back-last m rest in (n ∷ before, ap (λ l. n ∷ l) e)

  key_of-snoc :
      (before : List Node) (last : Node) → key_of na (before ++ (last ∷ [])) ≡ last.working_pubkey
  key_of-snoc [] last = refl
  key_of-snoc (n ∷ []) last = refl
  key_of-snoc (n ∷ m ∷ before) last = key_of-snoc (m ∷ before) last

  Proven-nodes :
      (merkle_root : Hash) (d : FraudProofData) (key : PublicKey) (nodes : List Node)
      → d.node_path ≡ nodes
      → Climbs na
          (hash na (0 ∷ enc_ext_ref d.leaf))
          d.merkle_path.path
          d.merkle_path.sibling_is_right
          merkle_root
      → node_path_valid na nodes d.leaf.address.user_id d.leaf.address.node_index ≡ true
      → key_of na nodes ≡ key
      → Proven merkle_root d key
  unfolding node_path_valid
  Proven-nodes merkle_root d key [] e c v k = absurd (ground (arith, v))
  Proven-nodes merkle_root d key (root ∷ rest) e c v k =
      let (before, ends) = back-last root rest in
      record {
        included = c;
        root = root;
        rest = rest;
        nodes = e;
        path = (node_path_valid-LeadsTo na root rest _ _).0 v;
        before = before;
        last = back root rest;
        ends = ends;
        carried = k;
      }

  structural_ok-Proven :
      (merkle_root : Hash) (d : FraudProofData) (key : PublicKey)
      → (structural_ok na merkle_root d ≡ some key) ↔ Proven merkle_root d key
  unfolding structural_ok Merkle.leaf_hash
  structural_ok-Proven merkle_root d key =
      let climbs = verify-Climbs na (hash na (0 ∷ enc_ext_ref d.leaf)) d.merkle_path merkle_root in
      (
        λ h.
            Proven-nodes merkle_root d key d.node_path refl (climbs.0 (ground arith)) (ground arith)
              (ground arith),
        λ w.
            let valid =
              subst
                (λ l. node_path_valid na l d.leaf.address.user_id d.leaf.address.node_index ≡ true)
                (sym w.nodes) ((node_path_valid-LeadsTo na w.root w.rest _ _).1 w.path) in
            let carried : key_of na d.node_path ≡ key =
              ap (key_of na) (w.nodes ∙ w.ends) ∙ key_of-snoc w.before w.last ∙ w.carried in
            ground (arith, climbs.1 w.included, valid, carried),
      )

  -- What a confirmed verdict of `verify_bad_sig` stands for.
  pub record BadSig (merkle_root : Hash) (d : FraudProofData) : Type 0 where
    pub key : PublicKey
    pub proven : Proven merkle_root d key
    pub address : d.evidence.address ≡ d.leaf.address
    pub committed : hash na (enc_block d.evidence) ≡ d.leaf.block_hash
    pub forged :
        verify na
          (enc_block (record d.evidence { signature = null_signature }))
          d.evidence.signature
          key
        ≡ false

  -- `verify_bad_sig` confirms the fraud exactly if the leaf is below the root, the node path leads from
  -- the self-signed root of the leaf's chain to the leaf's node, each node linked to the one before and
  -- signed under its key, the evidence is at the leaf's address and has the hash the leaf commits to,
  -- and its signature fails under the last node's working key.
  pub verify_bad_sig_iff :
      (merkle_root : Hash) (d : FraudProofData)
      → (verify_bad_sig na merkle_root d ≡ confirmed) ↔ BadSig merkle_root d
  unfolding verify_bad_sig hash_block block_signed_by block_signing_bytes
  verify_bad_sig_iff merkle_root d =
      let place = address_eq_iff d.evidence.address d.leaf.address in
      let hashed = bytes_eq_iff (hash na (enc_block d.evidence)) d.leaf.block_hash in
      (
        λ h. elim (Option-cases (structural_ok na merkle_root d)) [
          | inl e ↦ absurd (ground (arith, e, h))
          | inr (key, e) ↦ record {
            key = key;
            proven = (structural_ok-Proven merkle_root d key).0 e;
            address = ground (arith, e, h, place);
            committed = ground (arith, e, h, hashed);
            forged = ground (arith, e, h);
          }
        ],
        λ w.
            rw
              (
                (structural_ok-Proven merkle_root d w.key).1 w.proven,
                place.1 w.address,
                hashed.1 w.committed,
                w.forged,
              )
              refl,
      )

  -- What a confirmed verdict of `verify_hash_mismatch` stands for.
  pub record HashMismatch (merkle_root : Hash) (d : FraudProofData) : Type 0 where
    pub key : PublicKey
    pub proven : Proven merkle_root d key
    pub address : d.evidence.address ≡ d.leaf.address
    pub signed :
        verify na
          (enc_block (record d.evidence { signature = null_signature }))
          d.evidence.signature
          key
        ≡ true
    pub differs : hash na (enc_block d.evidence) ≢ d.leaf.block_hash

  -- `verify_hash_mismatch` confirms the fraud exactly if the leaf is below the root, the node path leads
  -- from the self-signed root of the leaf's chain to the leaf's node, each node linked to the one before
  -- and signed under its key, and the evidence is a block at the leaf's address that is signed under the
  -- last node's working key and has another hash than the leaf commits to.
  pub verify_hash_mismatch_iff :
      (merkle_root : Hash) (d : FraudProofData)
      → (verify_hash_mismatch na merkle_root d ≡ confirmed) ↔ HashMismatch merkle_root d
  unfolding verify_hash_mismatch hash_block block_signed_by block_signing_bytes
  verify_hash_mismatch_iff merkle_root d =
      let place = address_eq_iff d.evidence.address d.leaf.address in
      let hashed = bytes_eq_iff (hash na (enc_block d.evidence)) d.leaf.block_hash in
      (
        λ h. elim (Option-cases (structural_ok na merkle_root d)) [
          | inl e ↦ absurd (ground (arith, e, h))
          | inr (key, e) ↦ record {
            key = key;
            proven = (structural_ok-Proven merkle_root d key).0 e;
            address = ground (arith, e, h, place);
            signed = ground (arith, e, h);
            differs = λ same. let one = hashed.1 same in ground (arith, e, h, one);
          }
        ],
        λ w.
            let other : bytes_eq (hash na (enc_block d.evidence)) d.leaf.block_hash ≡ false =
              elim (Bool-cases (bytes_eq (hash na (enc_block d.evidence)) d.leaf.block_hash)) [
                | inl same ↦ absurd (w.differs (hashed.0 same))
                | inr different ↦ different
              ] in
            rw
              (
                (structural_ok-Proven merkle_root d w.key).1 w.proven,
                place.1 w.address,
                w.signed,
                other,
              )
              refl,
      )
