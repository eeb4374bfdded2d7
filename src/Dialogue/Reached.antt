-- ===== src/Dialogue/Reached.antt =====
-- The dialogues that merge_dialogue.cpp can be in.
use free_labour_common_will.Base.{ℕ, List}
use free_labour_common_will.Crypto.{Sodium}
use free_labour_common_will.Storage.{IStorage}
use free_labour_common_will.Sync.Cache.{ParticipantCache}
use free_labour_common_will.Dialogue.Machine.{
  MergeConfig, MergeDialogue, merge_dialogue, start, on_message,
}
use free_labour_common_will.Dialogue.Agreed.{IsSound}
use free_labour_common_will.Dialogue.Calls.{start-IsSound, on_message-IsSound, elsewhere-IsSound}

-- One constructor for every call. The session's storage and the cache are shared: `elsewhere` is
-- any change that others make of them between two calls.
pub data Reached (na : Sodium) (st : IStorage) : MergeDialogue na st → Type 0 where
  created :
      (store : st.Store) (cache : ParticipantCache) (config : MergeConfig)
      → Reached na st (merge_dialogue na st store cache config)
  started : (d : MergeDialogue na st) → Reached na st d → Reached na st (start na st d).0
  received :
      (bytes : List ℕ) (d : MergeDialogue na st)
      → Reached na st d
      → Reached na st (on_message na st bytes d).0
  elsewhere :
      (store : st.Store) (cache : ParticipantCache) (d : MergeDialogue na st)
      → Reached na st d
      → Reached na st (record d { store = store; cache = cache })

-- A dialogue that any calls reached, with any messages and any changes of the store and the cache
-- between them, holds what its state stands for. In WAIT_DRAFT the partner's tip was accepted by
-- verify_partner_tip at some store, and the own draft is what create_pending made at some store of
-- that tip and the partner's snapshot with the dialogue's configuration. In WAIT_COSIG also, some
-- draft was accepted by check_partner_draft against the own one, and its hash was co-signed. In DONE
-- also, the merge block is the own draft, with a co-signature of its hash that verifies under the
-- working key of the last node of the partner's path.
pub Reached-IsSound :
    (na : Sodium) (st : IStorage) (d : MergeDialogue na st) → Reached na st d → IsSound na st d
unfolding merge_dialogue
Reached-IsSound na st d (created store cache config) = tt
Reached-IsSound na st d (started old h) = start-IsSound na st old
Reached-IsSound na st d (received bytes old h) =
    on_message-IsSound na st bytes old (Reached-IsSound na st old h)
Reached-IsSound na st d (elsewhere store cache old h) =
    elsewhere-IsSound na st store cache old (Reached-IsSound na st old h)
