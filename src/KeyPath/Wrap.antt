-- ===== src/KeyPath/Wrap.antt =====
-- The wrap-around of `Node::parent_index`: a second root below the leftmost leaf.
use free_labour_common_will.Base.{◌≡◌, refl, sym, ◌∙◌, List, [], ◌∷◌, ◌++◌, true}
use free_labour_common_will.Types.{UserId, Node}
use free_labour_common_will.Types.Outcome.{ok}
use free_labour_common_will.Crypto.{Sodium, hash_node}
use free_labour_common_will.Signing.{node_signed_by}
use free_labour_common_will.KeyPath.{parent_index32, back, verify_node_path}
use free_labour_common_will.KeyPath.Links.{Link, Links, verify_node_path_iff}

Links-snoc :
    (na : Sodium) (parent : Node) (rest : List Node) (n : Node)
    → Links na parent rest
    → Link na (back parent rest) n
    → Links na parent (rest ++ (n ∷ []))
Links-snoc na parent [] n l k = (k, tt)
Links-snoc na parent (m ∷ rest) n l k = (l.0, Links-snoc na m rest n l.1 k)

pub back-snoc : (parent : Node) (rest : List Node) (n : Node) → back parent (rest ++ (n ∷ [])) ≡ n
back-snoc parent [] n = refl
back-snoc parent (m ∷ rest) n = back-snoc m rest n

wrapped : (n : Node) → n.index ≡ 0 → parent_index32 n.index ≡ 0x7fff_ffff
unfolding parent_index32
wrapped n e = rw e refl

-- Below a path that is accepted and ends at index 2 ^ 31 - 1, a node of index 0 is accepted too, if it
-- carries the hash of that leaf and a signature by its key.
pub second_root_accepted :
    (na : Sodium) (root : Node) (rest : List Node) (n : Node) (chain : UserId)
    → verify_node_path na (root ∷ rest) ≡ ok chain
    → (back root rest).index ≡ 0x7fff_ffff
    → n.index ≡ 0
    → n.parent_hash ≡ hash_node na (back root rest)
    → node_signed_by na n (back root rest).working_pubkey ≡ true
    → verify_node_path na (root ∷ (rest ++ (n ∷ []))) ≡ ok chain
second_root_accepted na root rest n chain h leaf zero_index hash sig =
    let (is_root, links, e) = (verify_node_path_iff na root rest chain).0 h in
    (verify_node_path_iff na root (rest ++ (n ∷ [])) chain).1 (
      is_root,
      Links-snoc na root rest n links
          (record { index = wrapped n zero_index ∙ sym leaf; hash = hash; signed = sig }),
      e,
    )
