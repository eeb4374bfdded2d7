-- ===== src/Fraud/Sound.antt =====
-- `verify_bad_sig` of fraud.cpp against a root over known references.
use free_labour_common_will.Base.{
  ◌≡◌, sym, subst, List, [], ◌∷◌, ◌++◌, map, false, All, Has, IsBytes, ◌⊎◌, inl, inr,
}
use free_labour_common_will.Types.{KeyPair, Node, ExternalRef, null_signature}
use free_labour_common_will.Types.Packets.{FraudProofData}
use free_labour_common_will.Crypto.{Sodium, SodiumLaws, Collision, hash, verify}
use free_labour_common_will.Serializer.Encode.{enc_block}
use free_labour_common_will.Serializer.RoundTrip.{IsExternalRef}
use free_labour_common_will.Merkle
use free_labour_common_will.Merkle.Strings.{proof_strings, tree_strings}
use free_labour_common_will.Merkle.Binding.{verify_sound}
use free_labour_common_will.Fraud.{confirmed, verify_bad_sig}
use free_labour_common_will.Fraud.Rules.{LeadsTo, verify-Climbs}
use free_labour_common_will.Fraud.Verdicts.{verify_bad_sig_iff}

module _ (na : Sodium) where
  -- The references hold the evidence, which does not carry the signature of the node of its branch.
  pub record Convicted (refs : List ExternalRef) (d : FraudProofData) : Type 0 where
    pub listed :
        Has
          (record { address = d.evidence.address; block_hash = hash na (enc_block d.evidence) })
          refs
    pub root : Node
    pub rest : List Node
    pub path : LeadsTo na root rest d.evidence.address.user_id d.evidence.address.node_index
    pub before : List Node
    pub last : Node
    pub ends : root ∷ rest ≡ before ++ (last ∷ [])
    pub unsigned :
        verify na
          (enc_block (record d.evidence { signature = null_signature }))
          d.evidence.signature
          last.working_pubkey
        ≡ false

  evidence_leaf :
      (d : FraudProofData)
      → d.evidence.address ≡ d.leaf.address
      → hash na (enc_block d.evidence) ≡ d.leaf.block_hash
      → d.leaf
        ≡ record { address = d.evidence.address; block_hash = hash na (enc_block d.evidence) }
  evidence_leaf d e f = λ i. record { address = sym e i; block_hash = sym f i }

  -- A confirmed verdict of `verify_bad_sig` against the root over some references (at least one)
  -- convicts: the evidence is one of the references, and its signature fails under the working key of
  -- the last node of a path of linked, signed nodes from the root of the evidence's chain to its node;
  -- or a string that was hashed for the proof and another one that was hashed for the root have one
  -- hash. The references and the proof's siblings have the C++ types' sizes.
  pub verify_bad_sig_sound :
      (Generated : KeyPair → Type 0) (laws : SodiumLaws na Generated) (first : ExternalRef)
      (others : List ExternalRef) (d : FraudProofData)
      → All IsExternalRef (first ∷ others)
      → IsExternalRef d.leaf
      → All (IsBytes 32) d.merkle_path.path
      → verify_bad_sig na (Merkle.root na (map (Merkle.leaf_hash na) (first ∷ others))) d
        ≡ confirmed
      → Convicted (first ∷ others) d
        ⊎ Collision na (proof_strings na d.leaf d.merkle_path) (tree_strings na (first ∷ others))
  unfolding Merkle.leaf_hash
  verify_bad_sig_sound Generated laws first others d wfs wf sizes h =
      let top = Merkle.root na (map (Merkle.leaf_hash na) (first ∷ others)) in
      let bad = (verify_bad_sig_iff na top d).0 h in
      let w = bad.proven in
      let under = (verify-Climbs na _ d.merkle_path top).1 w.included in
      elim (verify_sound na Generated laws first others d.leaf d.merkle_path wfs wf sizes under) [
        | inl known ↦ inl (record {
          listed =
              subst (λ z. Has z (first ∷ others)) (evidence_leaf d bad.address bad.committed) known;
          root = w.root;
          rest = w.rest;
          path = rw bad.address w.path;
          before = w.before;
          last = w.last;
          ends = w.ends;
          unsigned = rw w.carried bad.forged;
        })
        | inr collision ↦ inr collision
      ]
