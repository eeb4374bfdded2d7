-- ===== src/Lmdb/Foreign.antt =====
-- The rest of `LmdbStorage` in modules/blockchain/src/storage.cpp: the branch tip, the visits of
-- whole tables, seals, external blocks and snapshots; and the class as an `IStorage`.
use free_labour_common_will.Base.{
  ℕ, List, [], ◌∷◌, ◌++◌, length, take, get_or, Option, none, some, Bool, true, false, ◌&&◌, ◌==◌,
  if◌then◌else◌, bytes_eq,
}
use free_labour_common_will.Types.{UserId, Hash, Node, Block, BlockAddress, Seal}
use free_labour_common_will.Types.Outcome.{Result, ok, err, ◌>>=◌, storage_error, block_not_found}
use free_labour_common_will.Types.Packets.{MergeSnapshot}
use free_labour_common_will.Serializer.Encode.{enc_block, enc_snapshot}
use free_labour_common_will.Serializer.Decode.{decode, dec_node, dec_block, dec_snapshot}
use free_labour_common_will.Storage.{IStorage}
use free_labour_common_will.Lmdb.Interface.{Lmdb, Sought, at_key, past_end, seek_failed}
use free_labour_common_will.Lmdb.Keys.{of_be32, node_key, block_key}
use free_labour_common_will.Lmdb.SealList.{encode_seal_list, decode_seal_list}
use free_labour_common_will.Lmdb.Storage.{
  Databases, put_or_throw, commit, get_or_throw, has_key, is_serialization_error,
  index_revocation_in_txn, put_node, get_node, has_node, put_block, get_block, has_block,
  get_revocation_addresses,
}

-- The greatest key of the branch's prefix.
unfoldable pub seek_key : UserId → ℕ → List ℕ
seek_key uid leaf_index = node_key uid leaf_index ++ (0xff ∷ 0xff ∷ 0xff ∷ 0xff ∷ [])

-- The block index of a key with the branch's prefix.
unfoldable pub tip_of_key : UserId → ℕ → List ℕ → Option ℕ
tip_of_key uid leaf_index k =
    if length k == 40 && bytes_eq (take 36 k) (node_key uid leaf_index)
    then some (of_be32 (get_or k 36 0) (get_or k 37 0) (get_or k 38 0) (get_or k 39 0))
    else none

-- The elements that are decoded; malformed ones are skipped.
unfoldable pub decoded : {A B : Type 0} → (A → Result B) → List A → Result (List B)
decoded read [] = ok []
decoded read (x ∷ xs) = elim (read x) [
  | ok v ↦ decoded read xs >>= λ vs. ok (v ∷ vs)
  | err e ↦ if is_serialization_error e then decoded read xs else err e
]

module _ (mdb : Lmdb) where
  unfoldable pub tip_entry : mdb.Db → List ℕ → Sought
  tip_entry db seek = elim (mdb.set_range db seek) [
    | at_key k ↦ mdb.prev db k
    | past_end ↦ mdb.last db
    | seek_failed ↦ seek_failed
  ]

  unfoldable pub branch_tip_index : Databases mdb → UserId → ℕ → Option ℕ
  unfolding tip_entry
  branch_tip_index s uid leaf_index =
      if mdb.begins s.blocks && mdb.opens_cursor s.blocks
      then elim (tip_entry s.blocks (seek_key uid leaf_index)) [
        | at_key k ↦ tip_of_key uid leaf_index k
        | past_end ↦ none
        | seek_failed ↦ none
      ]
      else none

  -- The entries that `for_each_node` visits; a key of another size is skipped.
  nodes_of : List (List ℕ × List ℕ) → List (List ℕ × List ℕ)
  nodes_of [] = []
  nodes_of ((k, v) ∷ rest) =
      let others = nodes_of rest in if length k == 36 then (k, v) ∷ others else others

  unfoldable pub each_node : Databases mdb → Result (List (UserId × Node))
  unfolding nodes_of
  each_node s =
      if mdb.begins s.nodes && mdb.opens_cursor s.nodes
      then decoded (λ (k, v). decode dec_node v >>= λ n. ok (take 32 k, n))
          (nodes_of (mdb.scan s.nodes))
      else err storage_error

  -- The blocks that `for_each_external_block` visits.
  unfoldable pub each_external_block : Databases mdb → Result (List Block)
  each_external_block s =
      if mdb.begins s.ext && mdb.opens_cursor s.ext
      then decoded (λ (k, v). decode dec_block v) (mdb.scan s.ext)
      else err storage_error

  unfoldable pub get_seals : Databases mdb → Hash → Result (List Seal)
  get_seals s block_hash = get_or_throw mdb s.seals block_hash (ok []) decode_seal_list

  unfoldable pub put_seal : Databases mdb → Seal → Result (Databases mdb)
  put_seal s seal = get_or_throw mdb s.seals seal.block_hash (ok []) decode_seal_list >>= λ list.
      encode_seal_list (list ++ (seal ∷ [])) >>= λ encoded.
      put_or_throw mdb false s.seals seal.block_hash encoded >>= λ db.
      commit mdb db (record s { seals = db })

  unfoldable pub put_external_block : Databases mdb → Block → Result (Databases mdb)
  put_external_block s block =
      put_or_throw mdb true s.ext (block_key block.address) (enc_block block) >>= λ db.
      index_revocation_in_txn mdb s.revocations block >>= λ rev.
      commit mdb db (record s { ext = db; revocations = rev })

  unfoldable pub get_external_block : Databases mdb → BlockAddress → Result Block
  get_external_block s address =
      get_or_throw mdb s.ext (block_key address) (err (block_not_found address)) (decode dec_block)

  unfoldable pub has_external_block : Databases mdb → BlockAddress → Bool
  has_external_block s address = has_key mdb s.ext (block_key address)

  unfoldable pub put_snapshot : Databases mdb → UserId → ℕ → MergeSnapshot → Result (Databases mdb)
  put_snapshot s uid leaf_index snapshot =
      put_or_throw mdb false s.snapshots (node_key uid leaf_index) (enc_snapshot snapshot) >>= λ db.
      commit mdb db (record s { snapshots = db })

  unfoldable pub get_snapshot : Databases mdb → UserId → ℕ → Result (Option MergeSnapshot)
  get_snapshot s uid leaf_index =
      get_or_throw mdb s.snapshots (node_key uid leaf_index) (ok none)
        (λ bytes. decode dec_snapshot bytes >>= λ v. ok (some v))

  -- `LmdbStorage` as the interface that the chain's logic works over.
  abbrev pub lmdb_storage : IStorage
  lmdb_storage = record {
    Store = Databases mdb;
    put_node = put_node mdb;
    get_node = get_node mdb;
    has_node = has_node mdb;
    put_block = put_block mdb;
    get_block = get_block mdb;
    has_block = has_block mdb;
    branch_tip_index = branch_tip_index;
    get_revocation_addresses = get_revocation_addresses mdb;
    put_seal = put_seal;
    get_seals = get_seals;
    put_external_block = put_external_block;
    get_external_block = get_external_block;
    has_external_block = has_external_block;
    external_blocks = each_external_block;
    put_snapshot = put_snapshot;
    get_snapshot = get_snapshot;
  }
