-- ===== src/KeyPath/Links.antt =====
-- `verify_node_path` of key_path.cpp against the rules of blockchain.md.
use free_labour_common_will.Base.{
  ℕ, ◌^◌, ◌<◌, ◌≡◌, ◌↔◌, refl, sym, ap, ◌∙◌, List, [], ◌∷◌, ◌++◌, append_assoc, append-nil, map,
  true, bytes_eq_iff, arith, All,
}
use free_labour_common_will.Types.{UserId, Node, zero_hash}
use free_labour_common_will.Types.Outcome.{ok}
use free_labour_common_will.Types.Tree.{
  path_indices, path_indices-zero, path_indices-parent, parent_index,
}
use free_labour_common_will.Crypto.{Sodium, hash_node}
use free_labour_common_will.Signing.{node_signed_by}
use free_labour_common_will.KeyPath.{parent_index32, back, check_links, verify_node_path}

module _ (na : Sodium) where
  -- The child hangs on the parent: its index, the parent's hash, and the parent's signature.
  pub record Link (parent child : Node) : Type 0 where
    pub index : parent_index32 child.index ≡ parent.index
    pub hash : child.parent_hash ≡ hash_node na parent
    pub signed : node_signed_by na child parent.working_pubkey ≡ true

  abbrev pub Links : Node → List Node → Type 0
  Links parent [] = Unit {0}
  Links parent (n ∷ rest) = Link parent n × Links n rest

  pub record IsRoot (root : Node) : Type 0 where
    pub index : root.index ≡ 0
    pub hash : root.parent_hash ≡ zero_hash
    pub signed : node_signed_by na root root.structural_pubkey ≡ true

  pub check_links-Links :
      (parent : Node) (rest : List Node) → (check_links na parent rest ≡ ok tt) ↔ Links parent rest
  unfolding check_links
  check_links-Links parent [] = (λ h. tt, λ h. refl)
  check_links-Links parent (n ∷ rest) = (
    λ h.
        ground
          (arith, bytes_eq_iff n.parent_hash (hash_node na parent), (check_links-Links n rest).0),
    λ h.
        ground (
          arith,
          bytes_eq_iff n.parent_hash (hash_node na parent),
          (check_links-Links n rest).1 h.1,
        ),
  )

  -- A path that is not empty is accepted, with `chain` as its chain, exactly if its first node is a
  -- self-signed root, each further node is linked to the one before it, and `chain` is the root's
  -- structural key.
  pub verify_node_path_iff :
      (root : Node) (rest : List Node) (chain : UserId)
      → (verify_node_path na (root ∷ rest) ≡ ok chain)
        ↔ (IsRoot root × Links root rest × (chain ≡ root.structural_pubkey))
  unfolding verify_node_path
  verify_node_path_iff root rest chain = (
    λ h. ground (arith, bytes_eq_iff root.parent_hash zero_hash, (check_links-Links root rest).0),
    λ h.
        ground
          (arith, bytes_eq_iff root.parent_hash zero_hash, (check_links-Links root rest).1 h.1),
  )

abbrev IsInner : Node → Type 0
IsInner n = (0 < n.index) × (n.index < 2 ^ 32)

parent_index32-eq : (i : ℕ) → 0 < i → i < 2 ^ 32 → parent_index32 i ≡ parent_index i
unfolding parent_index32
parent_index32-eq i h k = omega arith

indices_from :
    (na : Sodium) (parent : Node) (rest : List Node) (before : List ℕ)
    → path_indices parent.index ≡ before
    → Links na parent rest
    → All IsInner rest
    → before ++ map (λ n. n.index) rest ≡ path_indices (back parent rest).index
indices_from na parent [] before e l w = append-nil before ∙ sym e
indices_from na parent (n ∷ rest) before e l w =
    sym (append_assoc before (n.index ∷ []) (map (λ m. m.index) rest))
    ∙ indices_from na n rest (before ++ (n.index ∷ [])) step l.1 w.1
  where
    up : parent_index n.index ≡ parent.index
    up = sym (parent_index32-eq n.index w.0.0 w.0.1) ∙ l.0.index

    step : path_indices n.index ≡ before ++ (n.index ∷ [])
    step =
        path_indices-parent n.index w.0.0
        ∙ ap (λ i. path_indices i ++ (n.index ∷ [])) up
        ∙ ap (λ l. l ++ (n.index ∷ [])) e

-- A path that is accepted, and in which all nodes but the first have a 32-bit index above 0, runs
-- through exactly the heap positions from the root to its last node.
pub accepted_indices :
    (na : Sodium) (root : Node) (rest : List Node) (chain : UserId)
    → All IsInner rest
    → verify_node_path na (root ∷ rest) ≡ ok chain
    → map (λ n. n.index) (root ∷ rest) ≡ path_indices (back root rest).index
accepted_indices na root rest chain w h =
    let (is_root, links, _) = (verify_node_path_iff na root rest chain).0 h in
    ap (λ i. i ∷ map (λ n. n.index) rest) is_root.index
    ∙ indices_from na root rest (0 ∷ []) (ap path_indices is_root.index ∙ path_indices-zero) links w
