-- ===== src/Dialogue/Kept.antt =====
-- The handlers of `MergeDialogue`, merge_dialogue.cpp: each keeps what holds in a state.
use free_labour_common_will.Base.{
  ◌≡◌, refl, sym, ap, subst, ◌∙◌, ℕ, List, Option, none, some, true, Bool-cases, inl, inr, arith,
}
use free_labour_common_will.Types.{
  Hash, Signature, PublicKey, Block, Seal, open_mode, PendingMergeBlock,
}
use free_labour_common_will.Types.Outcome.{Result, ok, Result-cases}
use free_labour_common_will.Crypto
use free_labour_common_will.Crypto.{Sodium}
use free_labour_common_will.Serializer.Decode.{decode, dec_block}
use free_labour_common_will.Storage.{IStorage}
use free_labour_common_will.MergeSession.{finalize, check_partner_draft, co_sign}
use free_labour_common_will.MergeSession.Drafts.{create_pending-Drafted}
use free_labour_common_will.Dialogue.Machine.{
  MergeConfig, MergeDialogue, last_key, deref, prepare_own_side, start_side, handle_offer,
  handle_accept, handle_draft, co_signature_of, handle_cosig, finalize_own, complete, fill_cache,
}
use free_labour_common_will.Dialogue.Agreed.{
  Met, Cosigned, Merged, Gives, Kept, and_then-Gives, Verified, Any, take-Any,
  accept_partner-Verified, keep-Gives, read-Gives, prepare_own_side-Verified, Drafted,
  draft_own-Drafted,
}

module _ (na : Sodium) (st : IStorage) where
  pub start_side-Kept : (d : MergeDialogue na st) → Gives na st (Kept na st) (start_side na st d)
  unfolding start_side Gives
  start_side-Kept d =
      and_then-Gives na st (Any na st) (Kept na st) _ _ (take-Any na st (prepare_own_side na st d))
        (λ d' u h. tt)

  pub handle_offer-Kept :
      (payload : List ℕ) (d : MergeDialogue na st)
      → Gives na st (Kept na st) (handle_offer na st payload d)
  unfolding handle_offer Gives
  handle_offer-Kept payload d =
      and_then-Gives na st (Verified na st) (Kept na st) _ _
        (accept_partner-Verified na st payload d)
        (λ d' u h.
          and_then-Gives na st (Verified na st) (Kept na st) _ _
            (prepare_own_side-Verified na st d' h)
            (λ d'' v h'.
              and_then-Gives na st (Drafted na st) (Kept na st) _ _ (draft_own-Drafted na st d'' h')
                (λ new p k. k)))

  pub handle_accept-Kept :
      (payload : List ℕ) (d : MergeDialogue na st)
      → Gives na st (Kept na st) (handle_accept na st payload d)
  unfolding handle_accept Gives
  handle_accept-Kept payload d =
      and_then-Gives na st (Verified na st) (Kept na st) _ _
        (accept_partner-Verified na st payload d)
        (λ d' u h.
          and_then-Gives na st (Drafted na st) (Kept na st) _ _ (draft_own-Drafted na st d' h)
            (λ new p k. k))

  deref-some : (o : Option PendingMergeBlock) (p : PendingMergeBlock) → deref o ≡ ok p → o ≡ some p
  deref-some none p e = absurd (ground (arith, e))
  deref-some (some q) p e = ground (arith, e)

  -- What `handle_draft` read and signed, where it signed.
  co_signed-fields :
      (d : MergeDialogue na st) (payload : List ℕ) (own : PendingMergeBlock) (co_sig : Signature)
      → d.pending ≡ some own
      → co_signature_of na st payload d ≡ ok co_sig
      → (theirs : Block) × (their_hash : Hash) × (check_partner_draft na theirs d.own_tip
            d.partner_tip d.config.merge_timestamp
            (some own.draft)
          ≡ ok their_hash)
        × (co_sign na their_hash d.config.working_keypair ≡ ok co_sig)
  unfolding co_signature_of
  co_signed-fields d payload own co_sig there h = elim (Result-cases (decode dec_block payload)) [
    | inr (x, e) ↦ absurd (ground (arith, h, e))
    | inl (theirs, e) ↦
        elim (Result-cases (
          check_partner_draft na theirs d.own_tip d.partner_tip d.config.merge_timestamp
            (some own.draft))) [
              | inr (x, f) ↦ absurd (ground (arith, h, e, there, f))
              | inl (their_hash, f) ↦ (theirs, their_hash, f, ground (arith, h, e, there, f))
            ]
  ]

  pub handle_draft-Kept :
      (payload : List ℕ) (d : MergeDialogue na st)
      → Met na st d
      → Gives na st (Kept na st) (handle_draft na st payload d)
  unfolding handle_draft Gives
  handle_draft-Kept payload d h =
      and_then-Gives na st (λ d' a. Met na st d' × (co_signature_of na st payload d' ≡ ok a))
        (Kept na st) _ _ (read-Gives na st (Met na st) (co_signature_of na st payload) d _ h refl)
        (λ d' co_sig (met, e).
          let (theirs, their_hash, read, signed) =
            co_signed-fields d' payload met.draft co_sig met.kept e in
          record {
            met = met;
            theirs = theirs;
            their_hash = their_hash;
            read = read;
            given = co_sig;
            co_signed = signed;
          })

  finalize-fields :
      (s s' : st.Store) (p : PendingMergeBlock) (co_sig : Signature) (key : PublicKey) (b : Block)
      → finalize na st s p co_sig key ≡ ok (s', b)
      → (Crypto.verify na p.draft_hash co_sig key ≡ true)
        × (b ≡ record p.draft { co_signature = some co_sig })
  unfolding finalize
  finalize-fields s s' p co_sig key b h =
      let seal : Seal = record {
        signer_id = key;
        block_hash = p.draft_hash;
        signature = co_sig;
        mode = open_mode;
        sealed_at = p.draft.timestamp_claimed;
      } in
      elim (Bool-cases (Crypto.verify na p.draft_hash co_sig key)) [
        | inr fails ↦ absurd (ground (arith, fails))
        | inl holds ↦ elim (Result-cases (st.put_seal s seal)) [
          | inr (x, e) ↦ absurd (ground (arith, holds, e))
          | inl (new, e) ↦ (holds, ground (arith, holds, e))
        ]
      ]

  -- What `finalize_own` gives: the merge block, in a dialogue that co-signed.
  abbrev Sealed : MergeDialogue na st → Unit {0} → Type 0
  Sealed d u = Merged na st d

  finalize-Merged :
      (d : MergeDialogue na st) (s' : st.Store) (p : PendingMergeBlock) (co_sig : Signature)
      (key : PublicKey) (b : Block)
      → Cosigned na st d
      → last_key d.partner_tip.path ≡ ok key
      → deref d.pending ≡ ok p
      → finalize na st d.store p co_sig key ≡ ok (s', b)
      → Merged na st (record d { store = s'; merge_block = some b })
  finalize-Merged d s' p co_sig key b cosigned k q f =
      let own : PendingMergeBlock = cosigned.met.draft in
      let met = cosigned.met in
      let both : some own ≡ some p = sym met.kept ∙ deref-some d.pending p q in
      let same : own ≡ p = ground (arith, both) in
      let (signed, block) = finalize-fields d.store s' p co_sig key b f in
      let c : MergeConfig = d.config in
      let (_, _, drafted) =
        create_pending-Drafted na st met.before met.after c.user_id c.leaf_index d.partner_tip
          d.partner_snapshot c.working_keypair c.merge_timestamp c.validated_depth own
          met.created in
      record {
        cosigned = cosigned;
        key = key;
        partner = k;
        co_signature = co_sig;
        signed =
            subst (λ x. Crypto.verify na x co_sig key ≡ true) drafted.hashed
              (subst (λ x. Crypto.verify na x.draft_hash co_sig key ≡ true) (sym same) signed);
        merged =
            subst (λ x. some b ≡ some (record x.draft { co_signature = some co_sig })) (sym same)
              (ap some block);
      }

  finalize_own-Sealed :
      (co_sig : Signature) (d : MergeDialogue na st)
      → Cosigned na st d
      → Gives na st Sealed (finalize_own na st co_sig d)
  unfolding finalize_own Gives
  finalize_own-Sealed co_sig d h =
      let partner : (x : MergeDialogue na st) → Result PublicKey =
        λ x. last_key x.partner_tip.path in
      let pending : (x : MergeDialogue na st) → Result PendingMergeBlock = λ x. deref x.pending in
      and_then-Gives na st (λ x key. Cosigned na st x × (partner x ≡ ok key)) Sealed _ _
        (read-Gives na st (Cosigned na st) partner d _ h refl)
        (λ d1 key h1.
          and_then-Gives na st
            (λ x p. (Cosigned na st x × (partner x ≡ ok key)) × (pending x ≡ ok p)) Sealed _ _
            (read-Gives na st (λ x. Cosigned na st x × (partner x ≡ ok key)) pending d1 _ h1 refl)
            (λ d2 p h2.
              and_then-Gives na st
                (λ x made.
                  ((Cosigned na st x × (partner x ≡ ok key)) × (pending x ≡ ok p))
                  × (finalize na st x.store p co_sig key ≡ ok made))
                Sealed _ _
                (read-Gives na st
                  (λ x. (Cosigned na st x × (partner x ≡ ok key)) × (pending x ≡ ok p))
                  (λ x. finalize na st x.store p co_sig key) d2 _ h2 refl)
                (λ d3 made (((cosigned, k), q), f).
                  finalize-Merged d3 made.0 p co_sig key made.1 cosigned k q f)))

  complete-Kept :
      (d : MergeDialogue na st) → Merged na st d → Gives na st (Kept na st) (complete na st d)
  unfolding complete fill_cache Gives
  complete-Kept d h =
      and_then-Gives na st (λ d' a. Merged na st d') (Kept na st) _ _
        (keep-Gives na st (Merged na st) d _ h) (λ d' imported h'. h')

  pub handle_cosig-Kept :
      (payload : List ℕ) (d : MergeDialogue na st)
      → Cosigned na st d
      → Gives na st (Kept na st) (handle_cosig na st payload d)
  unfolding handle_cosig Gives
  handle_cosig-Kept payload d h =
      and_then-Gives na st (λ d' a. Cosigned na st d') (Kept na st) _ _
        (keep-Gives na st (Cosigned na st) d _ h)
        (λ d' co_sig h'.
          and_then-Gives na st Sealed (Kept na st) _ _ (finalize_own-Sealed co_sig d' h')
            (λ d'' u m. complete-Kept d'' m))
