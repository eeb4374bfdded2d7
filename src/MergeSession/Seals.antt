-- ===== src/MergeSession/Seals.antt =====
-- `co_sign` and `finalize` of merge_session.cpp, against the checks of validator.cpp on their results.
use free_labour_common_will.Base.{◌≡◌, refl, true, some, arith, Option-cases, inl, inr}
use free_labour_common_will.Types.{
  KeyPair, Hash, Block, Signature, PendingMergeBlock, Seal, merge, open_mode, type_eq,
}
use free_labour_common_will.Types.Outcome.{ok}
use free_labour_common_will.Crypto.{Sodium, SodiumLaws, sign, verify, hash_block}
use free_labour_common_will.Serializer.Encode.{enc_block}
use free_labour_common_will.Storage.{IStorage}
use free_labour_common_will.Validator.Nodes.{
  validate_seal, validate_co_signature, check_co_signature,
}
use free_labour_common_will.MergeSession.{co_sign, finalize}

-- The seal that `finalize` stores.
abbrev pub partner_seal : PendingMergeBlock → Signature → KeyPair → Seal
partner_seal pending sig kp = record {
  signer_id = kp.pub_key;
  block_hash = pending.draft_hash;
  signature = sig;
  mode = open_mode;
  sealed_at = pending.draft.timestamp_claimed;
}

module _ (na : Sodium) (Generated : KeyPair → Type 0) (laws : SodiumLaws na Generated) where
  co_sign-verify :
      (h : Hash) (kp : KeyPair) (sig : Signature)
      → Generated kp
      → co_sign na h kp ≡ ok sig
      → verify na h sig kp.pub_key ≡ true
  unfolding co_sign sign verify
  co_sign-verify h kp sig made e = elim (Option-cases (na.sign_detached h kp.sec)) [
    | inl none_made ↦ absurd (ground (arith, none_made))
    | inr (s, f) ↦
        let same : s ≡ sig = ground (arith, f) in rw (← same) (laws.verifies h kp s made f)
  ]

  hash_block-co_signature :
      (b : Block) (sig : Signature)
      → hash_block na (record b { co_signature = some sig }) ≡ hash_block na b
  unfolding hash_block enc_block
  hash_block-co_signature b sig = refl

  -- Where the partner, under a generated key pair, co-signs the hash of a pending MERGE block and the
  -- store takes the seal, `finalize` returns the draft with that co-signature; `validate_co_signature`
  -- accepts the block, and `validate_seal` the seal that is stored, both under the partner's key.
  pub finalize-co_sign :
      (st : IStorage) (s s' : st.Store) (pending : PendingMergeBlock) (kp : KeyPair)
      (sig : Signature)
      → Generated kp
      → type_eq pending.draft.kind merge ≡ true
      → pending.draft_hash ≡ hash_block na pending.draft
      → co_sign na pending.draft_hash kp ≡ ok sig
      → st.put_seal s (partner_seal pending sig kp) ≡ ok s'
      → (finalize na st s pending sig kp.pub_key
          ≡ ok (s', record pending.draft { co_signature = some sig }))
        × (validate_co_signature na (record pending.draft { co_signature = some sig }) kp.pub_key
            ≡ ok tt)
        × (validate_seal na (partner_seal pending sig kp) ≡ ok tt)
  unfolding finalize validate_co_signature check_co_signature validate_seal
  finalize-co_sign st s s' pending kp sig made kind hashed signed stored =
      let good = co_sign-verify pending.draft_hash kp sig made signed in
      let accepted : verify na (hash_block na (record pending.draft { co_signature = some sig }))
            sig kp.pub_key
          ≡ true =
        rw (hash_block-co_signature pending.draft sig, ← hashed) good in
      (rw (good, stored) refl, rw (kind, accepted) refl, rw good refl)
