-- ===== src/Merkle/Binding.antt =====
-- `verify` of merkle.cpp against the references that a root was made of.
use mathlib.Core.List.{reverse, reverse-cons}
use free_labour_common_will.Base.{
  ℕ, suc, ◌≡◌, refl, ap, sym, subst, ◌∙◌, ◌⊎◌, inl, inr, List, [], ◌∷◌, ◌++◌, append_assoc,
  append-nil, map, length, get_or, Bool, true, false, bytes_eq_iff, arith, All, Has, append_inj,
  IsBytes,
}
use free_labour_common_will.Types.{Hash, ExternalRef, KeyPair, zero_hash}
use free_labour_common_will.Types.Packets.{Proof}
use free_labour_common_will.Crypto.{Sodium, SodiumLaws, Collision, hash, hash_equal}
use free_labour_common_will.Serializer.RoundTrip.{IsExternalRef, enc_ext_ref_injective}
use free_labour_common_will.Merkle.{node_hash, leaf_hash, root_loop, root, apply_steps, verify}
use free_labour_common_will.Merkle.Strings.{leaf_string, loop_strings, tree_strings, proof_strings}
use free_labour_common_will.Merkle.Trees.{
  Tree, leaf, node, tree_hash, Leaves, Has-append, root-tree,
}
use free_labour_common_will.Merkle.Descent.{
  Step, steps, beside, descend, string, descend_strings, apply_steps-descend, descend_strings-steps,
}

module _ {na : Sodium} {Generated : KeyPair → Type 0} (laws : SodiumLaws na Generated) where
  length-hash : (m : List ℕ) → length (hash na m) ≡ 32
  unfolding hash
  length-hash m = (laws.hash_size m).size

  length-beside : (x : Hash) (s : Step) → length (beside na x s) ≡ 32
  unfolding node_hash
  length-beside x (s, true) = length-hash _
  length-beside x (s, false) = length-hash _

  length-descend : (r : ExternalRef) (ss : List Step) → length (descend na (leaf_hash na r) ss) ≡ 32
  unfolding descend leaf_hash
  length-descend r [] = length-hash _
  length-descend r (s ∷ ss) = length-beside _ s

  length-tree_hash : (t : Tree) → length (tree_hash na t) ≡ 32
  unfolding tree_hash leaf_hash node_hash
  length-tree_hash (leaf r) = length-hash _
  length-tree_hash (node l r) = length-hash _

  module _ (refs : List ExternalRef) (ref : ExternalRef) (wf : IsExternalRef ref)
      (proof tree : List (List ℕ)) (own : Has (leaf_string ref) proof) where
    abbrev Clash : Type 0
    Clash = Collision na proof tree

    abbrev Known : ExternalRef → Type 0
    Known r = Has r refs × (IsExternalRef r × Has (leaf_string r) tree)

    abbrev InTree : List ℕ → Type 0
    InTree z = Has z tree

    -- A leaf hash names one reference, or two of the strings collide.
    same_leaf : (r : ExternalRef) → Known r → leaf_hash na ref ≡ leaf_hash na r → (ref ≡ r) ⊎ Clash
    unfolding leaf_hash
    same_leaf r (_, (w, m)) e = elim (hash_equal na proof tree _ _ own m e) [
      | inl same ↦ inl (enc_ext_ref_injective ref r wf w (cc))
      | inr c ↦ inr c
    ]

    beside-string : (x : Hash) (s : Step) → beside na x s ≡ hash na (string na x s)
    unfolding node_hash string
    beside-string x (s, true) = refl
    beside-string x (s, false) = refl

    node_over_leaf :
        (r : ExternalRef) (x : Hash) (s : Step)
        → Known r
        → Has (string na x s) proof
        → beside na x s ≡ leaf_hash na r
        → Clash
    unfolding leaf_hash string
    node_over_leaf r x (s, right) (_, (w, m)) p e =
        elim (hash_equal na proof tree _ _ p m (sym (beside-string x (s, right)) ∙ e)) [
          | inl same ↦ absurd (cc)
          | inr c ↦ c
        ]

    leaf_under_node :
        (x y : Hash) → InTree (1 ∷ (x ++ y)) → leaf_hash na ref ≡ node_hash na x y → Clash
    unfolding leaf_hash node_hash
    leaf_under_node x y m e = elim (hash_equal na proof tree _ _ own m e) [
      | inl same ↦ absurd (cc)
      | inr c ↦ c
    ]

    children :
        (a b c d : Hash)
        → length a ≡ length c
        → Has (1 ∷ (a ++ b)) proof
        → InTree (1 ∷ (c ++ d))
        → node_hash na a b ≡ node_hash na c d
        → ((a ≡ c) × (b ≡ d)) ⊎ Clash
    unfolding node_hash
    children a b c d l p m e = elim (hash_equal na proof tree _ _ p m e) [
      | inl same ↦ inl (append_inj a b c d l (cc))
      | inr k ↦ inr k
    ]

    binding :
        (t : Tree) (ss : List Step)
        → Leaves na Known InTree t
        → All (λ (s : Step). length s.0 ≡ 32) ss
        → ((z : List ℕ) → Has z (descend_strings na (leaf_hash na ref) ss) → Has z proof)
        → descend na (leaf_hash na ref) ss ≡ tree_hash na t
        → Has ref refs ⊎ Clash
    unfolding tree_hash descend descend_strings string
    binding (leaf r) [] h k p e = elim (same_leaf r h e) [
      | inl same ↦ inl (rw same h.0)
      | inr c ↦ inr c
    ]
    binding (leaf r) (s ∷ ss) h k p e =
        inr (node_over_leaf r (descend na (leaf_hash na ref) ss) s h (p _ (inl refl)) e)
    binding (node l r) [] h k p e = inr (leaf_under_node _ _ h.0 e)
    binding (node l r) ((s, true) ∷ ss) h k p e =
        elim (children _ _ _ _ (length-descend ref ss ∙ sym (length-tree_hash l)) (p _ (inl refl))
          h.0 e) [
            | inl (same, _) ↦ binding l ss h.1.0 k.1 (λ z m. p z (inr m)) same
            | inr c ↦ inr c
          ]
    binding (node l r) ((s, false) ∷ ss) h k p e =
        elim (children _ _ _ _ (k.0 ∙ sym (length-tree_hash l)) (p _ (inl refl)) h.0 e) [
          | inl (_, same) ↦ binding r ss h.1.1 k.1 (λ z m. p z (inr m)) same
          | inr c ↦ inr c
        ]

  map-leaf-Leaves :
      (P : ExternalRef → Type 0) (Q : List ℕ → Type 0) (rs : List ExternalRef)
      → All P rs
      → All (Leaves na P Q) (map leaf rs)
  map-leaf-Leaves P Q [] h = tt
  map-leaf-Leaves P Q (r ∷ rs) h = (h.0, map-leaf-Leaves P Q rs h.1)

  hashes-trees : (rs : List ExternalRef) → map (leaf_hash na) rs ≡ map (tree_hash na) (map leaf rs)
  unfolding tree_hash
  hashes-trees [] = refl
  hashes-trees (r ∷ rs) = rw (hashes-trees rs)

  steps_size :
      (path : List Hash) (flags : List Bool)
      → All (IsBytes 32) path
      → All (λ (s : Step). length s.0 ≡ 32) (steps path flags)
  unfolding steps
  steps_size [] flags h = tt
  steps_size (s ∷ path) [] h = tt
  steps_size (s ∷ path) (f ∷ flags) h = (h.0.size, steps_size path flags h.1)

verify→apply :
    (na : Sodium) (x : Hash) (p : Proof) (top : Hash)
    → verify na x p top ≡ true
    → apply_steps na x p.path p.sibling_is_right ≡ top
unfolding verify
verify→apply na x p top h = (bytes_eq_iff _ _).0 (ground arith)

tag_known :
    (rs all : List ExternalRef) (tree : List (List ℕ))
    → ((r : ExternalRef) → Has r rs → Has r all)
    → ((z : List ℕ) → Has z (map leaf_string rs) → Has z tree)
    → All IsExternalRef rs
    → All (λ r. Has r all × (IsExternalRef r × Has (leaf_string r) tree)) rs
tag_known [] all tree f g h = tt
tag_known (r ∷ rs) all tree f g h = (
  (f r (inl refl), (h.0, g _ (inl refl))),
  tag_known rs all tree (λ x m. f x (inr m)) (λ z m. g z (inr m)) h.1,
)

All-reverse_aux :
    (P : Step → Type 0) (xs ys : List Step) → All P xs → All P ys → All P (reverse xs ++ ys)
All-reverse_aux P [] ys h k = k
All-reverse_aux P (x ∷ xs) ys h k =
    rw (reverse-cons x xs, append_assoc) (All-reverse_aux P xs (x ∷ ys) h.1 (h.0, k))

-- A reference whose leaf hash is accepted under the root of the leaf hashes of some references (at
-- least one, all of the C++ types' sizes, with a proof of 32-byte siblings) is one of them, or a string
-- that was hashed for the proof and another one that was hashed for the root have one hash.
pub verify_sound :
    (na : Sodium) (Generated : KeyPair → Type 0) (laws : SodiumLaws na Generated)
    (first : ExternalRef) (others : List ExternalRef) (ref : ExternalRef) (p : Proof)
    → All IsExternalRef (first ∷ others)
    → IsExternalRef ref
    → All (IsBytes 32) p.path
    → verify na (leaf_hash na ref) p (root na (map (leaf_hash na) (first ∷ others))) ≡ true
    → Has ref (first ∷ others)
      ⊎ Collision na (proof_strings na ref p) (tree_strings na (first ∷ others))
unfolding root tree_strings proof_strings
verify_sound na Generated laws first others ref p wfs wf sizes h =
    let refs = first ∷ others in
    let proof = proof_strings na ref p in
    let tree = tree_strings na refs in
    let known =
      tag_known refs refs tree (λ r m. m) (λ z m. Has-append z (map leaf_string refs) _ (inl m))
        wfs in
    let rounds = suc (length (map (leaf_hash na) others)) in
    let same = hashes-trees laws refs in
    let inner : (z : List ℕ)
        → Has z (loop_strings na rounds (map (tree_hash na) (map leaf refs)))
        → Has z tree =
      λ z m.
        Has-append z (map leaf_string refs) _
          (inr (subst (λ l. Has z (loop_strings na rounds l)) (sym same) m)) in
    let (top, leaves, e) =
      root-tree na (λ r. Has r refs × (IsExternalRef r × Has (leaf_string r) tree))
        (λ z. Has z tree) rounds (leaf first) (map leaf others)
        (map-leaf-Leaves laws _ (λ z. Has z tree) refs known) inner in
    let path = steps p.path p.sibling_is_right in
    binding laws refs ref wf proof tree (inl refl) top (reverse path) leaves
      (rw append-nil at
        (All-reverse_aux _ path [] (steps_size laws p.path p.sibling_is_right sizes) tt))
      (λ z m. inr (descend_strings-steps na p.path p.sibling_is_right (leaf_hash na ref) z m))
      (sym (apply_steps-descend na p.path p.sibling_is_right (leaf_hash na ref))
        ∙ verify→apply na _ p _ h
        ∙ ap (λ l. get_or (root_loop na rounds l) 0 zero_hash) same
        ∙ e)
