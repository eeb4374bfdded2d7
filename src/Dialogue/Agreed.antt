-- ===== src/Dialogue/Agreed.antt =====
-- `MergeDialogue` of merge_dialogue.cpp: what holds in each of its states.
use free_labour_common_will.Base.{◌≡◌, refl, ℕ, List, Option, some, true}
use free_labour_common_will.Types.{
  Hash, Signature, PublicKey, Block, BranchTipInfo, PendingMergeBlock,
}
use free_labour_common_will.Types.Packets.{MergeSnapshot}
use free_labour_common_will.Types.Outcome.{Result, ok, err, ◌>>◌}
use free_labour_common_will.Crypto
use free_labour_common_will.Crypto.{Sodium, hash_block}
use free_labour_common_will.Storage.{IStorage}
use free_labour_common_will.MergeSession.{
  verify_partner_tip, create_pending, check_partner_draft, co_sign,
}
use free_labour_common_will.Dialogue.Machine.{
  MergeConfig, MergeDialogue, State, pending_merge, idle, wait_accept, wait_draft, wait_cosig, done,
  failed, Messages, last_key, and_then, fail, caught, prepare_own_side, take_tip_snapshot,
  accept_partner, draft_own, Step,
}

module _ (na : Sodium) (st : IStorage) where
  -- The partner's tip was accepted, and the draft is the one that `create_pending` made of that tip
  -- and the partner's snapshot, by the dialogue's own terms.
  pub record IsMet (c : MergeConfig) (tip : BranchTipInfo) (snapshot : MergeSnapshot)
      (pending : Option PendingMergeBlock) : Type 0 where
    pub checked_in : st.Store
    pub accepted : verify_partner_tip na st checked_in tip ≡ ok tt
    pub before : st.Store
    pub after : st.Store
    pub draft : PendingMergeBlock
    pub created :
        create_pending na st before c.user_id c.leaf_index tip snapshot c.working_keypair
          c.merge_timestamp c.validated_depth
        ≡ ok (after, draft)
    pub kept : pending ≡ some draft

  -- And the partner's draft was read and accepted against the own one, and its hash co-signed.
  pub record IsCosigned (c : MergeConfig) (own_tip tip : BranchTipInfo) (snapshot : MergeSnapshot)
      (pending : Option PendingMergeBlock) : Type 0 where
    pub met : IsMet c tip snapshot pending
    pub theirs : Block
    pub their_hash : Hash
    pub read :
        check_partner_draft na theirs own_tip tip c.merge_timestamp (some met.draft.draft)
        ≡ ok their_hash
    pub given : Signature
    pub co_signed : co_sign na their_hash c.working_keypair ≡ ok given

  -- And the block of the merge is the own draft with a co-signature of the hash of that draft under
  -- the partner's key.
  pub record IsMerged (c : MergeConfig) (own_tip tip : BranchTipInfo) (snapshot : MergeSnapshot)
      (pending : Option PendingMergeBlock) (merge_block : Option Block) : Type 0 where
    pub cosigned : IsCosigned c own_tip tip snapshot pending
    pub key : PublicKey
    pub partner : last_key tip.path ≡ ok key
    pub co_signature : Signature
    pub signed : Crypto.verify na (hash_block na cosigned.met.draft.draft) co_signature key ≡ true
    pub merged :
        merge_block ≡ some (record cosigned.met.draft.draft { co_signature = some co_signature })

  abbrev pub Met : MergeDialogue na st → Type 0
  Met d = IsMet d.config d.partner_tip d.partner_snapshot d.pending

  abbrev pub Cosigned : MergeDialogue na st → Type 0
  Cosigned d = IsCosigned d.config d.own_tip d.partner_tip d.partner_snapshot d.pending

  abbrev pub Merged : MergeDialogue na st → Type 0
  Merged d = IsMerged d.config d.own_tip d.partner_tip d.partner_snapshot d.pending d.merge_block

  abbrev pub HoldsIn : State → MergeDialogue na st → Type 0
  HoldsIn idle d = Unit
  HoldsIn wait_accept d = Unit
  HoldsIn wait_draft d = Met d
  HoldsIn wait_cosig d = Cosigned d
  HoldsIn done d = Merged d
  HoldsIn failed d = Unit

  abbrev pub IsSound : MergeDialogue na st → Type 0
  IsSound d = HoldsIn d.state d

  -- What a piece of a handler gives unless it throws.
  unfoldable pub Gives :
      {A : Type 0} → (MergeDialogue na st → A → Type 0) → MergeDialogue na st × Result A → Type 0
  Gives Post (d, ok a) = Post d a
  Gives Post (d, err e) = Unit

  abbrev pub Kept : MergeDialogue na st → Messages → Type 0
  Kept d messages = IsSound d

  pub and_then-Gives :
      {A B : Type 0} (Pre : MergeDialogue na st → A → Type 0)
      (Post : MergeDialogue na st → B → Type 0) (x : MergeDialogue na st × Result A)
      (next : A → Step na st B)
      → Gives Pre x
      → ((d : MergeDialogue na st) (a : A) → Pre d a → Gives Post (next a d))
      → Gives Post (and_then na st x next)
  unfolding Gives and_then
  and_then-Gives Pre Post (d, ok a) next h step = step d a h
  and_then-Gives Pre Post (d, err e) next h step = tt

  pub caught-IsSound :
      (x : MergeDialogue na st × Result Messages) → Gives Kept x → IsSound (caught na st x).0
  unfolding Gives fail
  caught-IsSound (d, ok messages) h = h
  caught-IsSound (d, err e) h = tt

  abbrev pub Verified : MergeDialogue na st → Unit {0} → Type 0
  Verified d u = (s : st.Store) × (verify_partner_tip na st s d.partner_tip ≡ ok tt)

  check-Verified :
      (d : MergeDialogue na st) (check time : Result (Unit {0}))
      → verify_partner_tip na st d.store d.partner_tip ≡ check
      → Gives Verified (d, check >> time)
  unfolding Gives
  check-Verified d (ok u) (ok v) h = (d.store, h)
  check-Verified d (ok u) (err e) h = tt
  check-Verified d (err e) time h = tt

  abbrev pub Any : MergeDialogue na st → Unit {0} → Type 0
  Any d u = Unit {0}

  pub take-Any : (x : MergeDialogue na st × Result (Unit {0})) → Gives Any x
  unfolding Gives
  take-Any (d, ok u) = tt
  take-Any (d, err e) = tt

  pub accept_partner-Verified :
      (payload : List ℕ) (d : MergeDialogue na st) → Gives Verified (accept_partner na st payload d)
  unfolding accept_partner
  accept_partner-Verified payload d =
      and_then-Gives Any Verified (take_tip_snapshot na st payload d) _
        (take-Any (take_tip_snapshot na st payload d)) (λ d' u h. check-Verified d' _ _ refl)

  pub keep-Gives :
      {A : Type 0} (Pre : MergeDialogue na st → Type 0) (d : MergeDialogue na st) (r : Result A)
      → Pre d
      → Gives (λ d' a. Pre d') (d, r)
  unfolding Gives
  keep-Gives Pre d (ok a) h = h
  keep-Gives Pre d (err x) h = tt

  abbrev Trusted : MergeDialogue na st → Type 0
  Trusted d = Verified d tt

  pub prepare_own_side-Verified :
      (d : MergeDialogue na st) → Trusted d → Gives Verified (prepare_own_side na st d)
  unfolding prepare_own_side Gives
  prepare_own_side-Verified d h =
      and_then-Gives (λ d' a. Trusted d') Verified _ _ (keep-Gives Trusted d _ h)
        (λ d' tip h'.
          and_then-Gives (λ d'' a. Trusted d'') Verified _ _
            (keep-Gives Trusted (record d' { own_tip = tip }) _ h') (λ d'' snapshot h''. h''))

  abbrev pub Drafted : MergeDialogue na st → PendingMergeBlock → Type 0
  Drafted d p = IsSound d

  -- A value computed from the dialogue, where something is known of it already.
  pub read-Gives :
      {A : Type 0} (Pre : MergeDialogue na st → Type 0) (f : MergeDialogue na st → Result A)
      (d : MergeDialogue na st) (r : Result A)
      → Pre d
      → f d ≡ r
      → Gives (λ d' a. Pre d' × (f d' ≡ ok a)) (d, r)
  unfolding Gives
  read-Gives Pre f d (ok a) h e = (h, e)
  read-Gives Pre f d (err x) h e = tt

  pub draft_own-Drafted : (d : MergeDialogue na st) → Trusted d → Gives Drafted (draft_own na st d)
  unfolding draft_own pending_merge Gives
  draft_own-Drafted d h =
      and_then-Gives (λ d' made. Trusted d' × (pending_merge na st d' ≡ ok made)) Drafted _ _
        (read-Gives Trusted (pending_merge na st) d _ h refl)
        (λ d' made ((s, accepted), made_by). record {
          checked_in = s;
          accepted = accepted;
          before = d'.store;
          after = made.0;
          draft = made.1;
          created = made_by;
          kept = refl;
        })
