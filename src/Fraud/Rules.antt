-- ===== src/Fraud/Rules.antt =====
-- The rules behind `structural_ok` of fraud.cpp, apart from its loops: what it means that a leaf is
-- below a Merkle root, and that nodes make the path to a node of a chain.
use free_labour_common_will.Base.{
  ℕ, ◌≡◌, ◌↔◌, refl, subst, List, [], ◌∷◌, ◌++◌, map, length, Bool, true, false, bytes_eq_iff,
  arith,
}
use free_labour_common_will.Types.{UserId, PublicKey, Hash, Node, zero_hash, null_signature}
use free_labour_common_will.Types.Packets.{Proof}
use free_labour_common_will.Types.Tree.{path_indices}
use free_labour_common_will.Crypto.{Sodium, hash, verify, hash_node}
use free_labour_common_will.Signing.{node_signed_by, node_signing_bytes}
use free_labour_common_will.Serializer.Encode.{enc_node}
use free_labour_common_will.Merkle
use free_labour_common_will.Merkle.{node_hash, apply_steps, apply_proof}
use free_labour_common_will.Fraud.{links_valid, node_path_valid}

-- A hash is below another one: each step hashes it with its sibling, on the side that is given.
pub data Climbs (na : Sodium) : Hash → List Hash → List Bool → Hash → Type 0 where
  at_top : (x : Hash) → Climbs na x [] [] x
  with_right :
      (x s r : Hash) (path : List Hash) (flags : List Bool)
      → Climbs na (hash na (1 ∷ (x ++ s))) path flags r
      → Climbs na x (s ∷ path) (true ∷ flags) r
  with_left :
      (x s r : Hash) (path : List Hash) (flags : List Bool)
      → Climbs na (hash na (1 ∷ (s ++ x))) path flags r
      → Climbs na x (s ∷ path) (false ∷ flags) r

-- The signature that a node carries is made under a key.
abbrev pub Vouches : Sodium → PublicKey → Node → Type 0
Vouches na key n =
    verify na (enc_node (record n { parent_sig = null_signature })) n.parent_sig key ≡ true

-- Each node names the hash of the one before it, and is signed under that one's working key.
pub data Hangs (na : Sodium) : Node → List Node → Type 0 where
  at_end : (parent : Node) → Hangs na parent []
  below :
      (parent child : Node) (rest : List Node)
      → child.parent_hash ≡ hash_node na parent
      → Vouches na parent.working_pubkey child
      → Hangs na child rest
      → Hangs na parent (child ∷ rest)

-- The nodes from a chain's self-signed root to its node at an index.
pub record LeadsTo (na : Sodium) (root : Node) (rest : List Node) (chain : UserId) (index : ℕ)
    : Type 0 where
  pub indices : map (λ n. n.index) (root ∷ rest) ≡ path_indices index
  pub owner : root.structural_pubkey ≡ chain
  pub genesis : root.parent_hash ≡ zero_hash
  pub self_signed : Vouches na root.structural_pubkey root
  pub hanging : Hangs na root rest

module _ (na : Sodium) where
  steps-Climbs :
      (path : List Hash) (flags : List Bool) (x r : Hash)
      → length path ≡ length flags
      → apply_steps na x path flags ≡ r
      → Climbs na x path flags r
  unfolding apply_steps node_hash
  steps-Climbs [] [] x r l e = subst (Climbs na x [] []) e (at_top x)
  steps-Climbs [] (f ∷ flags) x r l e = absurd (omega (arith, l))
  steps-Climbs (s ∷ path) [] x r l e = absurd (omega (arith, l))
  steps-Climbs (s ∷ path) (true ∷ flags) x r l e =
      with_right x s r path flags (steps-Climbs path flags _ r (omega (arith, l)) e)
  steps-Climbs (s ∷ path) (false ∷ flags) x r l e =
      with_left x s r path flags (steps-Climbs path flags _ r (omega (arith, l)) e)

  Climbs-steps :
      (path : List Hash) (flags : List Bool) (x r : Hash)
      → Climbs na x path flags r
      → (length path ≡ length flags) × (apply_steps na x path flags ≡ r)
  unfolding apply_steps node_hash
  Climbs-steps [] [] x r (at_top y) = (refl, refl)
  Climbs-steps [] (f ∷ flags) x r c = elim c [ ]
  Climbs-steps (s ∷ path) [] x r c = elim c [ ]
  Climbs-steps (s ∷ path) (true ∷ flags) x r (with_right y t u p q c) =
      let (l, e) = Climbs-steps path flags _ r c in (omega (arith, l), e)
  Climbs-steps (s ∷ path) (false ∷ flags) x r (with_left y t u p q c) =
      let (l, e) = Climbs-steps path flags _ r c in (omega (arith, l), e)

  pub verify-Climbs :
      (x : Hash) (p : Proof) (r : Hash)
      → (Merkle.verify na x p r ≡ true) ↔ Climbs na x p.path p.sibling_is_right r
  unfolding Merkle.verify apply_proof
  verify-Climbs x p r =
      let same = bytes_eq_iff (apply_steps na x p.path p.sibling_is_right) r in
      (
        λ h. steps-Climbs p.path p.sibling_is_right x r (ground arith) (same.0 (ground arith)),
        λ c.
            let (l, e) = Climbs-steps p.path p.sibling_is_right x r c in
            ground (arith, l, same.1 e),
      )

  valid-Hangs :
      (parent : Node) (rest : List Node) → links_valid na parent rest ≡ true → Hangs na parent rest
  unfolding links_valid node_signed_by node_signing_bytes
  valid-Hangs parent [] h = at_end parent
  valid-Hangs parent (child ∷ rest) h =
      let linked = bytes_eq_iff child.parent_hash (hash_node na parent) in
      below parent child rest (linked.0 (ground arith)) (ground arith)
        (valid-Hangs child rest (ground arith))

  Hangs-valid :
      (parent : Node) (rest : List Node) → Hangs na parent rest → links_valid na parent rest ≡ true
  unfolding links_valid node_signed_by node_signing_bytes
  Hangs-valid parent [] h = refl
  Hangs-valid parent (child ∷ rest) (below p c r e v h) =
      rw ((bytes_eq_iff child.parent_hash (hash_node na parent)).1 e, v, Hangs-valid child rest h)
        refl

  pub node_path_valid-LeadsTo :
      (root : Node) (rest : List Node) (chain : UserId) (index : ℕ)
      → (node_path_valid na (root ∷ rest) chain index ≡ true) ↔ LeadsTo na root rest chain index
  unfolding node_path_valid node_signed_by node_signing_bytes
  node_path_valid-LeadsTo root rest chain index =
      let at = bytes_eq_iff (map (λ n. n.index) (root ∷ rest)) (path_indices index) in
      let of = bytes_eq_iff root.structural_pubkey chain in
      let from = bytes_eq_iff root.parent_hash zero_hash in
      (
        λ h. record {
          indices = at.0 (ground arith);
          owner = of.0 (ground arith);
          genesis = from.0 (ground arith);
          self_signed = ground arith;
          hanging = valid-Hangs root rest (ground arith);
        },
        λ w.
            rw
              (
                at.1 w.indices,
                of.1 w.owner,
                from.1 w.genesis,
                w.self_signed,
                Hangs-valid root rest w.hanging,
              )
              refl,
      )
