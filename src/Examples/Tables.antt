-- ===== src/Examples/Tables.antt =====
-- `LmdbStorage` over the databases of Examples.Stores.
use free_labour_common_will.Base.{
  ◌≡◌, ◌≢◌, ◌<◌, ◌≤◌, refl, sym, ℕ, List, [], ◌∷◌, ◌++◌, some, pos, arith,
}
use free_labour_common_will.Types.{Block, Seal, BlockAddress, blind, zero_hash, null_signature}
use free_labour_common_will.Types.Outcome.{ok}
use free_labour_common_will.Serializer.Encode.{enc_seal}
use free_labour_common_will.Serializer.Writer.{w_uint, w_map, w_bytes, w_fixed, w_int64, write_head}
use free_labour_common_will.Serializer.RoundTrip.{IsSeal}
use free_labour_common_will.Storage.Laws.{StorageLaws}
use free_labour_common_will.Lmdb.Interface.{Lmdb, Present, seek_failed}
use free_labour_common_will.Lmdb.Keys.{be32, node_key, block_key}
use free_labour_common_will.Lmdb.SealList.{
  encode_seal_list, decode_seal_list, write_cbor_head, decode-encode_seal_list,
}
use free_labour_common_will.Lmdb.Storage.{Databases}
use free_labour_common_will.Lmdb.Foreign.{lmdb_storage, tip_entry, seek_key, branch_tip_index}
use free_labour_common_will.Lmdb.Tip.{IsFilled, branch_tip_index-greatest}
use free_labour_common_will.Lmdb.Laws.{IsReadable, lmdb_storage-StorageLaws}
use free_labour_common_will.Examples.Stores.{
  table_db, table_laws, single_db, single_laws, single_only,
}
use free_labour_common_will.Examples.{address_at, data_at, zeros_32, zeros_64, address_at-IsAddress}

lmdb_storage-StorageLaws_example : StorageLaws (lmdb_storage table_db) (IsReadable table_db)
lmdb_storage-StorageLaws_example = lmdb_storage-StorageLaws table_db table_laws

abbrev empty_databases : Databases table_db
empty_databases = record {
  nodes = [];
  blocks = [];
  seals = [];
  ext = [];
  snapshots = [];
  revocations = [];
}

abbrev first_block : Block
first_block = data_at (address_at 1 0)

abbrev seal : Seal
seal = record {
  signer_id = zero_hash;
  block_hash = zero_hash;
  signature = null_signature;
  mode = blind;
  sealed_at = pos 5;
}

seal-IsSeal : IsSeal seal
seal-IsSeal = record {
  signer = zeros_32;
  hash = zeros_32;
  sig = zeros_64;
  mode = tt;
  sealed = omega arith;
}

encoded_pair : (bytes : List ℕ) × (encode_seal_list (seal ∷ seal ∷ []) ≡ ok bytes)
unfolding encode_seal_list write_cbor_head enc_seal w_uint w_map w_bytes w_fixed w_int64 write_head
encoded_pair = (_, refl)

decode-encode_seal_list_example : decode_seal_list encoded_pair.0 ≡ ok (seal ∷ seal ∷ [])
decode-encode_seal_list_example =
    decode-encode_seal_list (seal ∷ seal ∷ []) encoded_pair.0 (seal-IsSeal, (seal-IsSeal, tt))
      encoded_pair.1

-- The one block of the branch 1, at the index 5.
abbrev only_block : BlockAddress
only_block = address_at 1 5

abbrev only_db : Lmdb
only_db = single_db (block_key only_block)

abbrev only_databases : Databases only_db
only_databases = record {
  nodes = tt;
  blocks = tt;
  seals = tt;
  ext = tt;
  snapshots = tt;
  revocations = tt;
}

only-IsFilled : IsFilled only_db (single_laws (block_key only_block)) tt
only-IsFilled = record {
  each = λ k there. (
    only_block,
    address_at-IsAddress 1 5 (omega arith) (omega arith),
    omega arith,
    sym (single_only (block_key only_block) tt k there),
  );
}

only_there : Present only_db tt (node_key zero_hash 1 ++ be32 5)
unfolding block_key node_key be32
only_there = ([], refl)

cursor_works : tip_entry only_db tt (seek_key zero_hash 1) ≢ seek_failed
unfolding tip_entry block_key node_key be32 seek_key
cursor_works e = absurd (ground (arith, e))

branch_tip_index-greatest_example :
    (tip : ℕ) × (branch_tip_index only_db only_databases zero_hash 1 ≡ some tip)
    × Present only_db tt (node_key zero_hash 1 ++ be32 tip)
    × ((i : ℕ) → i < 0xffff_ffff → Present only_db tt (node_key zero_hash 1 ++ be32 i) → i ≤ tip)
branch_tip_index-greatest_example =
    branch_tip_index-greatest only_db (single_laws (block_key only_block)) only_databases zero_hash
      1 5 only-IsFilled refl refl refl cursor_works (omega arith) only_there
