-- ===== src/Examples/Dialogues.antt =====
-- A responder of a merge, and the offer that it receives.
use free_labour_common_will.Base.{ℕ, List, [], ◌∷◌, pos, none, replicate}
use free_labour_common_will.Types.{zero_hash}
use free_labour_common_will.Types.Packets.{registers}
use free_labour_common_will.Sync.Cache.{empty_cache}
use free_labour_common_will.Dialogue.Wire.{offer, encode_tip_snapshot}
use free_labour_common_will.Dialogue.Machine.{
  MergeConfig, MergeDialogue, merge_dialogue, on_message,
}
use free_labour_common_will.Dialogue.Agreed.{IsSound}
use free_labour_common_will.Dialogue.Reached.{created, received, Reached-IsSound}
use free_labour_common_will.Examples.{toy, toy_store, toy_key, address_at, node_at}

abbrev config : MergeConfig
config = record {
  user_id = zero_hash;
  leaf_index = 1;
  working_keypair = toy_key;
  merge_timestamp = pos 7;
  validated_depth = 1;
}

abbrev responder : MergeDialogue toy toy_store
responder = merge_dialogue toy toy_store tt empty_cache config

abbrev offered : List ℕ
offered =
    encode_tip_snapshot offer
      (record {
        tip_address = address_at 1 1;
        tip_hash = zero_hash;
        path = node_at 0 ∷ node_at 1 ∷ [];
        tip_block = none;
      })
      (record { merkle_root = zero_hash; hll = replicate registers 0 })

Reached-IsSound_example : IsSound toy toy_store (on_message toy toy_store offered responder).0
Reached-IsSound_example =
    Reached-IsSound toy toy_store (on_message toy toy_store offered responder).0
      (received offered responder (created tt empty_cache config))
