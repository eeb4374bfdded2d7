-- ===== src/Dialogue/Machine.antt =====
-- The class `MergeDialogue` of modules/sync/include/sync/merge_dialogue.h and
-- modules/sync/src/merge_dialogue.cpp. A handler that throws keeps what it had assigned before; a
-- call of the session that throws leaves the store as it was. Reading an empty optional or the back
-- of an empty vector is the error `out_of_bounds`. `error` is the exception in place of its text.
use free_labour_common_will.Base.{
  ℕ, ℤ, List, [], ◌∷◌, Option, none, some, Bool, true, false, if◌then◌else◌,
}
use free_labour_common_will.Types.{
  UserId, KeyPair, PublicKey, Signature, Node, Block, BranchTipInfo, PendingMergeBlock, zero_hash,
}
use free_labour_common_will.Types.Packets.{MergeSnapshot}
use free_labour_common_will.Types.Outcome.{
  Error, Result, ok, err, ◌>>=◌, ◌>>◌, serialization_error, invalid_argument_error, out_of_bounds,
}
use free_labour_common_will.Crypto.{Sodium}
use free_labour_common_will.Serializer.Encode.{enc_block}
use free_labour_common_will.Serializer.Decode.{decode, dec_tip, dec_snapshot, dec_block}
use free_labour_common_will.Hll
use free_labour_common_will.Storage.{IStorage}
use free_labour_common_will.KeyPath.{back}
use free_labour_common_will.MergeSession.{
  prepare_tip, snapshot_for, verify_partner_tip, check_partner_time, create_pending,
  check_partner_draft, co_sign, finalize, import_partner_data,
}
use free_labour_common_will.Sync.Cache.{ParticipantCache, record_merge}
use free_labour_common_will.Dialogue.Wire.{
  MsgType, offer, accept, draft_message, cosig, encode_envelope, decode_envelope,
  encode_tip_snapshot, decode_pair, decode_signature,
}

pub record MergeConfig : Type 0 where
  pub user_id : UserId
  pub leaf_index : ℕ
  pub working_keypair : KeyPair
  pub merge_timestamp : ℤ
  pub validated_depth : ℕ

pub data State : Type 0 where
  idle wait_accept wait_draft wait_cosig done failed : State

abbrev pub is_idle : State → Bool
is_idle idle = true
is_idle _ = false

-- `state_ == State::DONE || state_ == State::FAILED`
abbrev pub is_over : State → Bool
is_over done = true
is_over failed = true
is_over _ = false

abbrev pub Messages : Type 0
Messages = List (List ℕ)

abbrev pub blank_tip : BranchTipInfo
blank_tip = record {
  tip_address = record { user_id = zero_hash; node_index = 0; block_index = 0 };
  tip_hash = zero_hash;
  path = [];
  tip_block = none;
}

abbrev pub blank_snapshot : MergeSnapshot
blank_snapshot = record { merkle_root = zero_hash; hll = Hll.empty }

-- The key of a path's last node.
abbrev pub last_key : List Node → Result PublicKey
last_key [] = err out_of_bounds
last_key (n ∷ rest) = ok (back n rest).working_pubkey

abbrev pub deref : Option PendingMergeBlock → Result PendingMergeBlock
deref none = err out_of_bounds
deref (some p) = ok p

module _ (na : Sodium) (st : IStorage) where
  -- The session's storage and the cache are part of the state.
  pub record MergeDialogue : Type 0 where
    pub store : st.Store
    pub cache : ParticipantCache
    pub config : MergeConfig
    pub state : State
    pub error : Option Error
    pub own_tip : BranchTipInfo
    pub own_snapshot : MergeSnapshot
    pub partner_tip : BranchTipInfo
    pub partner_snapshot : MergeSnapshot
    pub pending : Option PendingMergeBlock
    pub merge_block : Option Block

  unfoldable pub merge_dialogue : st.Store → ParticipantCache → MergeConfig → MergeDialogue
  merge_dialogue store cache config = record {
    store = store;
    cache = cache;
    config = config;
    state = idle;
    error = none;
    own_tip = blank_tip;
    own_snapshot = blank_snapshot;
    partner_tip = blank_tip;
    partner_snapshot = blank_snapshot;
    pending = none;
    merge_block = none;
  }

  -- A piece of a handler: the dialogue after it, and its value or the exception.
  abbrev pub Step : Type 0 → Type 0
  Step A = MergeDialogue → MergeDialogue × Result A

  -- One piece, then the next one, unless the first throws.
  unfoldable pub and_then :
      {A B : Type 0} → MergeDialogue × Result A → (A → Step B) → MergeDialogue × Result B
  and_then (d, ok a) next = next a d
  and_then (d, err e) next = (d, err e)

  unfoldable pub fail : Error → MergeDialogue → MergeDialogue
  fail why d = record d { state = failed; error = some why }

  unfoldable pub prepare_own_side : Step (Unit {0})
  prepare_own_side d =
      and_then (d, prepare_tip na st d.store d.config.user_id d.config.leaf_index)
        (λ tip d'.
          let told : MergeDialogue = record d' { own_tip = tip } in
          and_then (told, snapshot_for na st d'.store d'.config.user_id d'.config.leaf_index)
            (λ snapshot d''. (record d'' { own_snapshot = snapshot }, ok tt)))

  unfoldable pub start_side : Step Messages
  unfolding prepare_own_side
  start_side d = and_then (prepare_own_side d) (λ prepared d'. (
    record d' { state = wait_accept },
    ok (encode_tip_snapshot offer d'.own_tip d'.own_snapshot ∷ []),
  ))

  -- `catch (const std::exception& e) { fail(…); return {}; }`
  abbrev pub caught : MergeDialogue × Result Messages → MergeDialogue × Messages
  caught (d, ok messages) = (d, messages)
  caught (d, err e) = (fail e d, [])

  unfoldable pub start : MergeDialogue → MergeDialogue × Messages
  unfolding start_side fail
  start d = if is_idle d.state then caught (start_side d) else (fail invalid_argument_error d, [])

  -- `decode_tip_snapshot` into the partner's fields: the tip is assigned first.
  unfoldable pub take_tip_snapshot : List ℕ → Step (Unit {0})
  take_tip_snapshot payload d =
      and_then (d, decode_pair payload)
        (λ (tip_bytes, snap_bytes) d'.
          and_then (d', decode dec_tip tip_bytes)
            (λ tip d''.
              let told : MergeDialogue = record d'' { partner_tip = tip } in
              and_then (told, decode dec_snapshot snap_bytes)
                (λ snapshot new. (record new { partner_snapshot = snapshot }, ok tt))))

  unfoldable pub accept_partner : List ℕ → Step (Unit {0})
  unfolding take_tip_snapshot
  accept_partner payload d = and_then (take_tip_snapshot payload d) (λ taken d'. (
    d',
    verify_partner_tip na st d'.store d'.partner_tip
        >> check_partner_time na d'.partner_tip.tip_block d'.config.merge_timestamp,
  ))

  -- `pending_ = session_.create_pending(…); state_ = State::WAIT_DRAFT;`
  unfoldable pub pending_merge : MergeDialogue → Result (st.Store × PendingMergeBlock)
  pending_merge d =
      let c = d.config in
      create_pending na st d.store c.user_id c.leaf_index d.partner_tip d.partner_snapshot
        c.working_keypair c.merge_timestamp c.validated_depth

  unfoldable pub draft_own : Step PendingMergeBlock
  draft_own d =
      and_then (d, pending_merge d)
        (λ (store, pending) d'.
          (record d' { store = store; pending = some pending; state = wait_draft }, ok pending))

  unfoldable pub handle_offer : List ℕ → Step Messages
  unfolding accept_partner prepare_own_side draft_own
  handle_offer payload d = and_then (accept_partner payload d) (λ accepted d'.
      and_then (prepare_own_side d') (λ prepared d''. and_then (draft_own d'') (λ pending new. (
        new,
        ok (
            encode_tip_snapshot accept new.own_tip new.own_snapshot
            ∷ encode_envelope draft_message (enc_block pending.draft)
            ∷ []),
      ))))

  unfoldable pub handle_accept : List ℕ → Step Messages
  unfolding accept_partner draft_own
  handle_accept payload d = and_then (accept_partner payload d) (λ accepted d'.
      and_then (draft_own d')
        (λ pending new. (new, ok (encode_envelope draft_message (enc_block pending.draft) ∷ []))))

  -- The partner's draft, read, checked against the own one, and co-signed.
  unfoldable pub co_signature_of : List ℕ → MergeDialogue → Result Signature
  co_signature_of payload d = decode dec_block payload >>= λ draft. deref d.pending >>= λ pending.
      check_partner_draft na draft d.own_tip d.partner_tip d.config.merge_timestamp
        (some pending.draft)
      >>= λ partner_draft. co_sign na partner_draft d.config.working_keypair

  unfoldable pub handle_draft : List ℕ → Step Messages
  unfolding co_signature_of
  handle_draft payload d =
      and_then (d, co_signature_of payload d)
        (λ co_sig d'. (record d' { state = wait_cosig }, ok (encode_envelope cosig co_sig ∷ [])))

  unfoldable pub fill_cache : MergeDialogue → MergeDialogue
  fill_cache d = record d {
    cache = (record_merge na d.cache d.own_tip d.own_snapshot d.partner_tip d.partner_snapshot).0;
  }

  -- `session_.finalize(*pending_, partner_co_sig, partner_wpk)`, with what it gives kept.
  unfoldable pub finalize_own : Signature → Step (Unit {0})
  finalize_own co_sig d =
      and_then (d, last_key d.partner_tip.path)
        (λ partner_wpk d'.
          and_then (d', deref d'.pending)
            (λ pending d''.
              and_then (d'', finalize na st d''.store pending co_sig partner_wpk)
                (λ (store, block) new.
                  (record new { store = store; merge_block = some block }, ok tt))))

  -- The import of the partner's data, and the last state.
  unfoldable pub complete : Step Messages
  unfolding fill_cache
  complete d =
      and_then (d, import_partner_data na st d.store d.partner_tip)
        (λ imported d'. (fill_cache (record d' { store = imported; state = done }), ok []))

  unfoldable pub handle_cosig : List ℕ → Step Messages
  unfolding finalize_own complete
  handle_cosig payload d =
      and_then (d, decode_signature payload)
        (λ co_sig d'. and_then (finalize_own co_sig d') (λ finalized d''. complete d''))

  -- The handler for a message in a state.
  unfoldable pub dispatch : State → MsgType → List ℕ → Step Messages
  unfolding handle_offer handle_accept handle_draft handle_cosig
  dispatch idle offer payload d = handle_offer payload d
  dispatch wait_accept accept payload d = handle_accept payload d
  dispatch wait_draft draft_message payload d = handle_draft payload d
  dispatch wait_cosig cosig payload d = handle_cosig payload d
  dispatch _ _ payload d = (d, err serialization_error)

  unfoldable pub receive : List ℕ → Step Messages
  unfolding dispatch
  receive bytes d =
      and_then (d, decode_envelope bytes) (λ env d'. dispatch d'.state env.kind env.payload d')

  unfoldable pub on_message : List ℕ → MergeDialogue → MergeDialogue × Messages
  unfolding receive fail
  on_message bytes d = if is_over d.state then (d, []) else caught (receive bytes d)
