-- ===== src/Revocation/Certificate.antt =====
-- `RevocationCert::verify` of revocation.cpp against the rules of blockchain.md.
use free_labour_common_will.Base.{
  ℕ, ◌≡◌, ◌≢◌, ◌↔◌, refl, sym, ◌∙◌, List, ◌∷◌, true, bytes_eq_iff, arith, inl, inr,
}
use free_labour_common_will.Types.{Node, Block, RevocationPayload, revocation, type_eq}
use free_labour_common_will.Types.Outcome.{ok, Result-cases}
use free_labour_common_will.Types.Packets.{RevocationCertificate}
use free_labour_common_will.Types.Tree.{is_valid_node, Above, is_ancestor-iff-Above}
use free_labour_common_will.Crypto.{Sodium}
use free_labour_common_will.Signing.{block_signed_by}
use free_labour_common_will.KeyPath.{back, verify_node_path}
use free_labour_common_will.KeyPath.Links.{Links, IsRoot, verify_node_path_iff}
use free_labour_common_will.Revocation.{
  decode_revocation_payload, payload, check_payload, check_author, verify, verify_path_of,
}

-- The author is above the node that is revoked, which is a position of the tree and not the root.
pub record Revokes (author : ℕ) (rp : RevocationPayload) : Type 0 where
  pub not_root : rp.revoked_node_index ≢ 0
  pub valid : is_valid_node rp.revoked_node_index ≡ true
  pub above : Above author rp.revoked_node_index

check_payload_iff :
    (author : ℕ) (rp : RevocationPayload) → (check_payload author rp ≡ ok tt) ↔ Revokes author rp
unfolding check_payload
check_payload_iff author rp = (
  λ h. record {
    not_root = λ e. ground arith;
    valid = ground arith;
    above = (is_ancestor-iff-Above author rp.revoked_node_index).0 (ground arith);
  },
  λ r.
      let n = r.not_root in
      let v = r.valid in
      let a = (is_ancestor-iff-Above author rp.revoked_node_index).1 r.above in ground arith,
)

module _ (na : Sodium) (root : Node) (rest : List Node) (b : Block) where
  pub record Certified : Type 0 where
    pub kind : type_eq b.kind revocation ≡ true
    pub is_root : IsRoot na root
    pub links : Links na root rest
    pub chain : root.structural_pubkey ≡ b.address.user_id
    pub author : (back root rest).index ≡ b.address.node_index
    pub signed : block_signed_by na b (back root rest).working_pubkey ≡ true
    pub revokes :
        (rp : RevocationPayload) × (decode_revocation_payload b.payload ≡ ok rp)
        × Revokes (back root rest).index rp

  abbrev certificate : RevocationCertificate
  certificate = record { block = b; path = root ∷ rest }

  author-Revokes :
      check_author na certificate (back root rest) ≡ ok tt
      → (rp : RevocationPayload) × (decode_revocation_payload b.payload ≡ ok rp)
        × Revokes (back root rest).index rp
  unfolding check_author payload
  author-Revokes h = elim (Result-cases (decode_revocation_payload b.payload)) [
    | inl (rp, e) ↦ (rp, e, (check_payload_iff (back root rest).index rp).0 (ground (arith, e)))
    | inr (x, e) ↦ absurd (ground (arith, e))
  ]

  -- A certificate whose path starts with `root` is accepted exactly when: it holds a REVOCATION block;
  -- the path is one of links from a self-signed root that names the block's chain; the block stands in
  -- the branch of the path's last node and is signed by that node's working key; and the payload
  -- decodes, to a node that is neither the root nor outside the tree and that has the author above it.
  pub verify-iff-Certified : (verify na certificate ≡ ok tt) ↔ Certified
  unfolding verify verify_path_of
  verify-iff-Certified = (certified, accepted)
    where
      certified : verify na certificate ≡ ok tt → Certified
      certified h = elim (Result-cases (verify_node_path na (root ∷ rest))) [
        | inr (x, e) ↦ absurd (ground (arith, e))
        | inl (chain, e) ↦
            let (r, l, same) = (verify_node_path_iff na root rest chain).0 e in
            let inner : check_author na certificate (back root rest) ≡ ok tt = ground (arith, e) in
            record {
              kind = ground arith;
              is_root = r;
              links = l;
              chain = sym same ∙ (bytes_eq_iff chain b.address.user_id).0 (ground (arith, e));
              author = unfold check_author in ground arith;
              signed = unfold check_author in ground arith;
              revokes = author-Revokes inner;
            }
      ]

      accepted : Certified → verify na certificate ≡ ok tt
      accepted c =
          let path =
            (verify_node_path_iff na root rest root.structural_pubkey).1
              (c.is_root, c.links, refl) in
          let same = (bytes_eq_iff root.structural_pubkey b.address.user_id).1 c.chain in
          let (rp, e, r) = c.revokes in
          let rules = (check_payload_iff (back root rest).index rp).1 r in
          let k = c.kind in
          let a = c.author in
          let s = c.signed in
          rw (k, path, verify) (unfold check_author payload in ground (arith, path, same, e, rules))
