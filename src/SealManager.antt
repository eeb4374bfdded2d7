-- ===== src/SealManager.antt =====
-- modules/blockchain/src/seal_manager.cpp.
pub mod Witnessed
use free_labour_common_will.Base.{
  ℕ, ℤ, pos, List, [], ◌∷◌, ◌==◌, leb, not, ◌&&◌, if◌then◌else◌, Bool, true, false, Option, none,
  some, bytes_eq, ltb_ℤ,
}
use free_labour_common_will.Types.{
  KeyPair, Hash, Block, BlockAddress, Seal, SealMode, MergePayload, open_mode, merge, type_eq,
}
use free_labour_common_will.Types.Outcome.{Error, Result, ok, err, ◌>>=◌, serialization_error}
use free_labour_common_will.Crypto.{Sodium, hash_block, sign}
use free_labour_common_will.Serializer.Decode.{decode, dec_merge_payload}
use free_labour_common_will.Storage.{IStorage}

-- The block's tip reference lies in the branch, at the index or behind it.
unfoldable pub witnesses : BlockAddress → MergePayload → Bool
witnesses address mp =
    bytes_eq mp.partner_last_address.user_id address.user_id
    && mp.partner_last_address.node_index == address.node_index
    && leb address.block_index mp.partner_last_address.block_index

abbrev earlier : ℤ → Option ℤ → ℤ
earlier ts none = ts
earlier ts (some best) = if ltb_ℤ ts best then ts else best

abbrev after_payload : BlockAddress → Option ℤ → ℤ → Result MergePayload → Result (Option ℤ)
after_payload address best ts (ok mp) =
    ok (if witnesses address mp then some (earlier ts best) else best)
after_payload address best ts (err serialization_error) = ok best
after_payload address best ts (err e) = err e

-- The callback on one block: what it makes of `best`.
unfoldable pub visit : BlockAddress → Option ℤ → Block → Result (Option ℤ)
visit address best b =
    if not (type_eq b.kind merge)
    then ok best
    else after_payload address best b.timestamp_claimed (decode dec_merge_payload b.payload)

unfoldable pub visit_all : BlockAddress → Option ℤ → List Block → Result (Option ℤ)
visit_all address best [] = ok best
visit_all address best (b ∷ rest) = do next ← visit address best b; visit_all address next rest

module _ (st : IStorage) where
  open st use {Store, put_seal, external_blocks}

  unfoldable pub compute_witnessed_time : Store → BlockAddress → Result (Option ℤ)
  compute_witnessed_time s address = do blocks ← external_blocks s; visit_all address none blocks

  unfoldable pub create_seal : Sodium → Store → Hash → KeyPair → SealMode → Result (Store × Seal)
  create_seal na s block_hash kp mode = do
    sig ← sign na block_hash kp.sec
    let seal : Seal = record {
      signer_id = kp.pub_key;
      block_hash = block_hash;
      signature = sig;
      mode = mode;
      sealed_at = pos 0;
    }
    s' ← put_seal s seal
    ok (s', seal)

  unfoldable pub create_open_seal : Sodium → Store → Block → KeyPair → Result (Store × Seal)
  create_open_seal na s block kp = create_seal na s (hash_block na block) kp open_mode
