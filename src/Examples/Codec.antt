-- ===== src/Examples/Codec.antt =====
-- The codec on concrete values.
use free_labour_common_will.Base.{
  ℕ, ◌+◌, ◌^◌, ◌<◌, ◌≡◌, refl, List, [], ◌∷◌, ◌++◌, arith, some, length, zero, suc, pos, replicate,
  IsBytes,
}
use free_labour_common_will.Types.{Block, BranchTipInfo, zero_hash}
use free_labour_common_will.Types.Packets.{MergeSnapshot, registers}
use free_labour_common_will.Types.Outcome.{ok}
use free_labour_common_will.Serializer.Encode.{
  enc_node, enc_block, enc_tip, enc_snapshot, enc_address, enc_ext_ref, tip_block_bytes,
}
use free_labour_common_will.Serializer.Decode.{decode, dec_block}
use free_labour_common_will.Serializer.Writer.{
  write_head, w_uint, w_map, w_arr, w_bytes, w_fixed, w_int64,
}
use free_labour_common_will.Serializer.RoundTrip.{
  unsigned_by_partner, IsBlock, IsTip, IsNodePath, enc_block_injective, decode-enc_block,
}
use free_labour_common_will.Sync.Cache.{empty_cache}
use free_labour_common_will.Dialogue.Wire.{
  offer, put_head, put_bstr, encode_pair, encode_tip_snapshot, decode_envelope,
}
use free_labour_common_will.Dialogue.Machine.{MergeDialogue, merge_dialogue, take_tip_snapshot}
use free_labour_common_will.Dialogue.Envelopes.{take_tip_snapshot-encode_tip_snapshot}
use free_labour_common_will.Examples.{
  toy, toy_store, toy_key, address_at, node_at, data_at, zeros_32, address_at-IsAddress,
  node_at-IsNode, data_at-IsBlock,
}

abbrev tail : List ℕ
tail = 1 ∷ 2 ∷ []

abbrev sample : Block
sample = data_at (address_at 1 0)

abbrev tip : BranchTipInfo
tip = record {
  tip_address = address_at 1 0;
  tip_hash = zero_hash;
  path = node_at 0 ∷ node_at 1 ∷ [];
  tip_block = some sample;
}

block_fits : length (enc_block sample) + length tail < 2 ^ 64
unfolding enc_node enc_address enc_ext_ref w_uint w_map w_arr w_bytes w_fixed w_int64 write_head
    enc_block
block_fits = omega arith

decode-enc_block_example :
    decode dec_block (enc_block sample ++ tail) ≡ ok (unsigned_by_partner sample)
decode-enc_block_example = decode-enc_block sample tail (data_at-IsBlock) block_fits

two_nodes : IsNodePath (node_at 0 ∷ node_at 1 ∷ [])
two_nodes = record {
  nodes = (node_at-IsNode 0 (omega arith), (node_at-IsNode 1 (omega arith), tt));
  count = omega arith;
}

tip_room : length (tip_block_bytes (some sample)) < 2 ^ 63
unfolding enc_node enc_address enc_ext_ref w_uint w_map w_arr w_bytes w_fixed w_int64 write_head
    enc_block
tip_room = omega arith

tip-IsTip : IsTip tip
tip-IsTip = record {
  address = address_at-IsAddress 1 0 (omega arith) (omega arith);
  hash = zeros_32;
  path = two_nodes;
  block = data_at-IsBlock;
  room = tip_room;
}

replicate-IsBytes : (n b : ℕ) → b < 256 → IsBytes n (replicate n b)
replicate-IsBytes zero b h = record { size = refl; each = tt }
replicate-IsBytes (suc n) b h =
    let rest = replicate-IsBytes n b h in
    record { size = omega (arith, rest.size); each = (h, rest.each) }

abbrev blank : MergeSnapshot
blank = record { merkle_root = zero_hash; hll = replicate registers 0 }

pair_fits : length (encode_pair (enc_tip tip) (enc_snapshot blank)) < 2 ^ 64
unfolding enc_node enc_address enc_ext_ref w_uint w_map w_arr w_bytes w_fixed w_int64 write_head
    enc_block enc_tip enc_snapshot encode_pair put_head put_bstr
pair_fits = omega arith

abbrev listener : MergeDialogue toy toy_store
listener = merge_dialogue toy toy_store tt empty_cache (record {
  user_id = zero_hash;
  leaf_index = 1;
  working_keypair = toy_key;
  merge_timestamp = pos 7;
  validated_depth = 1;
})

take_tip_snapshot-encode_tip_snapshot_example :
    (payload : List ℕ) × ((decode_envelope (encode_tip_snapshot offer tip blank)
        ≡ ok (record { kind = offer; payload = payload }))
      × (take_tip_snapshot toy toy_store payload listener
          ≡ (record listener { partner_tip = tip; partner_snapshot = blank }, ok tt)))
take_tip_snapshot-encode_tip_snapshot_example =
    take_tip_snapshot-encode_tip_snapshot toy toy_store listener offer tip blank tip-IsTip
      (record { root = zeros_32; regs = replicate-IsBytes registers 0 (omega arith) }) pair_fits

block_size : length (enc_block sample) < 2 ^ 64
block_size = let f = block_fits in omega arith

same_bytes : enc_block sample ≡ enc_block (record sample { co_signature = some zero_hash })
unfolding enc_block
same_bytes = refl

signed_data : IsBlock (record sample { co_signature = some zero_hash })
signed_data =
    let w = data_at-IsBlock in
    record {
      address = w.address;
      prev = w.prev;
      time = w.time;
      kind = w.kind;
      payload = w.payload;
      refs = w.refs;
      ref_count = w.ref_count;
      sig = w.sig;
    }

enc_block_injective_example :
    unsigned_by_partner sample
    ≡ unsigned_by_partner (record sample { co_signature = some zero_hash })
enc_block_injective_example =
    enc_block_injective sample (record sample { co_signature = some zero_hash }) data_at-IsBlock
      signed_data block_size same_bytes
