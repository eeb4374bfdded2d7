-- ===== src/Revocation/Forged.antt =====
-- What the wrap-around of `Node::parent_index` means for certificates.
use free_labour_common_will.Base.{◌<◌, ◌≡◌, sym, ◌∙◌, List, [], ◌∷◌, ◌++◌, true, arith}
use free_labour_common_will.Types.{Node, Block, RevocationPayload, revocation, type_eq}
use free_labour_common_will.Types.Outcome.{ok}
use free_labour_common_will.Types.Tree.{is_valid_node, is_ancestor_root, is_ancestor-iff-Above}
use free_labour_common_will.Crypto.{Sodium, hash_node}
use free_labour_common_will.Signing.{node_signed_by, block_signed_by}
use free_labour_common_will.KeyPath.{back, verify_node_path}
use free_labour_common_will.KeyPath.Links.{verify_node_path_iff}
use free_labour_common_will.KeyPath.Wrap.{second_root_accepted, back-snoc}
use free_labour_common_will.Revocation.{decode_revocation_payload, verify}
use free_labour_common_will.Revocation.Certificate.{verify-iff-Certified}

-- Below a path that is accepted and ends at index 2 ^ 31 - 1, take a node of index 0 with the hash of
-- that leaf and a signature by its key, and a REVOCATION block that claims the root's branch and is
-- signed by the key of the new node. The certificate is accepted, whichever valid node but the root the
-- block revokes.
pub leaf_key_revokes :
    (na : Sodium) (root : Node) (rest : List Node) (n : Node) (b : Block) (rp : RevocationPayload)
    → verify_node_path na (root ∷ rest) ≡ ok b.address.user_id
    → (back root rest).index ≡ 0x7fff_ffff
    → n.index ≡ 0
    → n.parent_hash ≡ hash_node na (back root rest)
    → node_signed_by na n (back root rest).working_pubkey ≡ true
    → type_eq b.kind revocation ≡ true
    → b.address.node_index ≡ 0
    → block_signed_by na b n.working_pubkey ≡ true
    → decode_revocation_payload b.payload ≡ ok rp
    → 0 < rp.revoked_node_index
    → is_valid_node rp.revoked_node_index ≡ true
    → verify na (record { block = b; path = root ∷ (rest ++ (n ∷ [])) }) ≡ ok tt
leaf_key_revokes na root rest n b rp path leaf zero_index hash sig kind branch signed decoded inner
      valid =
    let longer =
      second_root_accepted na root rest n b.address.user_id path leaf zero_index hash sig in
    let (is_root, links, same) =
      (verify_node_path_iff na root (rest ++ (n ∷ [])) b.address.user_id).0 longer in
    let tip = back-snoc root rest n in
    (verify-iff-Certified na root (rest ++ (n ∷ [])) b).1 (record {
      kind = kind;
      is_root = is_root;
      links = links;
      chain = sym same;
      author = rw tip (zero_index ∙ sym branch);
      signed = rw tip signed;
      revokes = (
        rp,
        decoded,
        record {
          not_root = λ e. omega arith;
          valid = valid;
          above =
              rw (tip, zero_index)
                ((is_ancestor-iff-Above 0 rp.revoked_node_index).0
                  (is_ancestor_root rp.revoked_node_index inner));
        },
      );
    })
