-- ===== src/Blockchain/Nodes.antt =====
-- The nodes that the facade makes, against `validate_node` of validator.cpp.
use free_labour_common_will.Base.{
  ℕ, pos, ◌≡◌, ◌<◌, refl, ap, ◌∙◌, ◌==◌, true, false, arith, bytes_eq, bytes_eq_iff, inl, inr,
}
use free_labour_common_will.Types.{UserId, KeyPair, Hash, Node, null_signature, zero_hash}
use free_labour_common_will.Types.Outcome.{ok, Result-cases}
use free_labour_common_will.Types.Tree.{parent_index}
use free_labour_common_will.Crypto.{Sodium, SodiumLaws, sign, verify, hash_node}
use free_labour_common_will.Signing.{build_signed_node, node_signed_by, node_signing_bytes}
use free_labour_common_will.Serializer.Encode.{enc_node}
use free_labour_common_will.Storage.{IStorage}
use free_labour_common_will.Validator.Nodes.{validate_node, validate_root, validate_child}
use free_labour_common_will.Blockchain.{create_identity, add_node}

module _ (na : Sodium) (Generated : KeyPair → Type 0) (laws : SodiumLaws na Generated) where
  build_signed_node-signed :
      (idx : ℕ) (kp signer : KeyPair) (parent_hash : Hash) (n : Node)
      → Generated signer
      → build_signed_node na idx kp parent_hash signer.sec (pos 0) ≡ ok n
      → (node_signed_by na n signer.pub_key ≡ true)
        × (n.index ≡ idx)
        × (n.parent_hash ≡ parent_hash)
        × (n.structural_pubkey ≡ kp.pub_key)
  unfolding build_signed_node node_signed_by node_signing_bytes sign verify
  build_signed_node-signed idx kp signer parent_hash n made h =
      let u : Node = record {
        index = idx;
        structural_pubkey = kp.pub_key;
        working_pubkey = kp.pub_key;
        parent_hash = parent_hash;
        parent_sig = null_signature;
        created_at = pos 0;
      } in
      let (s, e) = laws.signs (enc_node u) signer made in
      let same : record u { parent_sig = s } ≡ n = ground (arith, e) in
      rw (← same) (laws.verifies (enc_node u) signer s made e, refl, refl, refl)

  module _ (st : IStorage) (s s' : st.Store) where
    -- The root that `create_identity` makes under a generated key pair is accepted by `validate_node`.
    pub create_identity-validate_node :
        (kp : KeyPair) (n : Node)
        → Generated kp
        → create_identity na st s kp ≡ ok (s', n)
        → validate_node na st s' n kp.pub_key ≡ ok tt
    unfolding create_identity validate_node validate_root
    create_identity-validate_node kp n made h =
        elim (Result-cases (build_signed_node na 0 kp zero_hash kp.sec (pos 0))) [
          | inr (x, e) ↦ absurd (ground (arith, e))
          | inl (m, e) ↦
              let same : m ≡ n = ground (arith, e) in
              let (signed, at, zero, key) =
                build_signed_node-signed 0 kp kp zero_hash n made (rw (← same) e) in
              let good : node_signed_by na n n.structural_pubkey ≡ true =
                ap (node_signed_by na n) key ∙ signed in
              let root : (n.index == 0) ≡ true = rw at refl in
              let hash : bytes_eq n.parent_hash zero_hash ≡ true =
                (bytes_eq_iff n.parent_hash zero_hash).1 zero in
              rw (root, hash, good) refl
        ]

    -- A node that `ensure_path` adds below the root is accepted by `validate_node` in a store with the
    -- same parent, if the parent's working key is that of the generated key pair which `key_for` gives
    -- for it.
    pub add_node-validate_node :
        (uid : UserId) (key_for : ℕ → KeyPair) (idx : ℕ) (parent n : Node)
        → 0 < idx
        → Generated (key_for (parent_index idx))
        → st.get_node s uid (parent_index idx) ≡ ok parent
        → st.get_node s' uid (parent_index idx) ≡ ok parent
        → parent.working_pubkey ≡ (key_for (parent_index idx)).pub_key
        → add_node na st s uid key_for idx ≡ ok (s', n)
        → validate_node na st s' n uid ≡ ok tt
    unfolding add_node validate_node validate_child
    add_node-validate_node uid key_for idx parent n inner made before after key h =
        let signer = key_for (parent_index idx) in
        elim (Result-cases
          (build_signed_node na idx (key_for idx) (hash_node na parent) signer.sec (pos 0))) [
            | inr (x, e) ↦ absurd (ground (arith, before, e))
            | inl (m, e) ↦ elim (Result-cases (st.put_node s uid m)) [
              | inr (x, f) ↦ absurd (ground (arith, before, e, f))
              | inl (s'', f) ↦
                  let same : m ≡ n = ground (arith, before, e, f) in
                  let (signed, at, link, _) =
                    build_signed_node-signed idx (key_for idx) signer (hash_node na parent) n made
                      (rw (← same) e) in
                  let good : node_signed_by na n parent.working_pubkey ≡ true =
                    ap (node_signed_by na n) key ∙ signed in
                  let fetched : st.get_node s' uid (parent_index n.index) ≡ ok parent =
                    ap (λ i. st.get_node s' uid (parent_index i)) at ∙ after in
                  let hash : bytes_eq n.parent_hash (hash_node na parent) ≡ true =
                    (bytes_eq_iff n.parent_hash (hash_node na parent)).1 link in
                  let below : (n.index == 0) ≡ false = rw at (ground (arith, inner)) in
                  rw (below, fetched, hash, good) refl
            ]
          ]
