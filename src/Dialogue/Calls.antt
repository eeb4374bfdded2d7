-- ===== src/Dialogue/Calls.antt =====
-- The calls of `MergeDialogue`, merge_dialogue.cpp: each keeps what holds in a state.
use free_labour_common_will.Base.{ℕ, List, [], Bool, true, false, if◌then◌else◌}
use free_labour_common_will.Crypto.{Sodium}
use free_labour_common_will.Storage.{IStorage}
use free_labour_common_will.Sync.Cache.{ParticipantCache}
use free_labour_common_will.Dialogue.Wire.{MsgType, offer, accept, draft_message, cosig}
use free_labour_common_will.Dialogue.Machine.{
  MergeDialogue, State, idle, wait_accept, wait_draft, wait_cosig, done, failed, Messages, fail,
  start_side, start, is_idle, is_over, dispatch, receive, on_message,
}
use free_labour_common_will.Dialogue.Agreed.{
  HoldsIn, IsSound, Gives, Kept, and_then-Gives, caught-IsSound, keep-Gives,
}
use free_labour_common_will.Dialogue.Kept.{
  start_side-Kept, handle_offer-Kept, handle_accept-Kept, handle_draft-Kept, handle_cosig-Kept,
}

module _ (na : Sodium) (st : IStorage) where
  dispatch-Kept :
      (s : State) (kind : MsgType) (payload : List ℕ) (d : MergeDialogue na st)
      → HoldsIn na st s d
      → Gives na st (Kept na st) (dispatch na st s kind payload d)
  unfolding dispatch Gives
  dispatch-Kept idle offer payload d h = handle_offer-Kept na st payload d
  dispatch-Kept idle accept payload d h = tt
  dispatch-Kept idle draft_message payload d h = tt
  dispatch-Kept idle cosig payload d h = tt
  dispatch-Kept wait_accept offer payload d h = tt
  dispatch-Kept wait_accept accept payload d h = handle_accept-Kept na st payload d
  dispatch-Kept wait_accept draft_message payload d h = tt
  dispatch-Kept wait_accept cosig payload d h = tt
  dispatch-Kept wait_draft offer payload d h = tt
  dispatch-Kept wait_draft accept payload d h = tt
  dispatch-Kept wait_draft draft_message payload d h = handle_draft-Kept na st payload d h
  dispatch-Kept wait_draft cosig payload d h = tt
  dispatch-Kept wait_cosig offer payload d h = tt
  dispatch-Kept wait_cosig accept payload d h = tt
  dispatch-Kept wait_cosig draft_message payload d h = tt
  dispatch-Kept wait_cosig cosig payload d h = handle_cosig-Kept na st payload d h
  dispatch-Kept done kind payload d h = tt
  dispatch-Kept failed kind payload d h = tt

  receive-Kept :
      (bytes : List ℕ) (d : MergeDialogue na st)
      → IsSound na st d
      → Gives na st (Kept na st) (receive na st bytes d)
  unfolding receive Gives
  receive-Kept bytes d h =
      and_then-Gives na st (λ d' a. IsSound na st d') (Kept na st) _ _
        (keep-Gives na st (IsSound na st) d _ h)
        (λ d' env h'. dispatch-Kept d'.state env.kind env.payload d' h')

  if-IsSound :
      (test : Bool) (x y : MergeDialogue na st × Messages)
      → IsSound na st x.0
      → IsSound na st y.0
      → IsSound na st (if test then x else y).0
  if-IsSound true x y h k = h
  if-IsSound false x y h k = k

  pub start-IsSound : (d : MergeDialogue na st) → IsSound na st (start na st d).0
  unfolding start fail
  start-IsSound d =
      if-IsSound (is_idle d.state) _ _
        (caught-IsSound na st (start_side na st d) (start_side-Kept na st d)) tt

  pub on_message-IsSound :
      (bytes : List ℕ) (d : MergeDialogue na st)
      → IsSound na st d
      → IsSound na st (on_message na st bytes d).0
  unfolding on_message
  on_message-IsSound bytes d h =
      if-IsSound (is_over d.state) (d, []) _ h
        (caught-IsSound na st (receive na st bytes d) (receive-Kept bytes d h))

  HoldsIn-elsewhere :
      (s : State) (store : st.Store) (cache : ParticipantCache) (d : MergeDialogue na st)
      → HoldsIn na st s d
      → HoldsIn na st s (record d { store = store; cache = cache })
  HoldsIn-elsewhere idle store cache d h = tt
  HoldsIn-elsewhere wait_accept store cache d h = tt
  HoldsIn-elsewhere wait_draft store cache d h = h
  HoldsIn-elsewhere wait_cosig store cache d h = h
  HoldsIn-elsewhere done store cache d h = h
  HoldsIn-elsewhere failed store cache d h = tt

  pub elsewhere-IsSound :
      (store : st.Store) (cache : ParticipantCache) (d : MergeDialogue na st)
      → IsSound na st d
      → IsSound na st (record d { store = store; cache = cache })
  elsewhere-IsSound store cache d h = HoldsIn-elsewhere d.state store cache d h
