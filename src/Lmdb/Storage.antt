-- ===== src/Lmdb/Storage.antt =====
-- The member functions of `LmdbStorage` in modules/blockchain/src/storage.cpp. A call begins a
-- transaction and commits or aborts it, so that a call that throws leaves the databases as they were.
use free_labour_common_will.Base.{
  ℕ, zero, suc, ◌/◌, List, [], ◌∷◌, ◌++◌, map, length, take, drop, get_or, Bool, true, false, not,
  ◌||◌, if◌then◌else◌, bytes_eq,
}
use free_labour_common_will.Types.{UserId, Node, Block, BlockAddress, revocation, type_eq}
use free_labour_common_will.Types.Outcome.{
  Result, ok, err, Error, ◌>>=◌, storage_error, serialization_error, invalid_argument_error,
  node_not_found, block_not_found,
}
use free_labour_common_will.Serializer.Encode.{enc_node, enc_block}
use free_labour_common_will.Serializer.Decode.{decode, dec_node, dec_block}
use free_labour_common_will.Revocation.{decode_revocation_payload}
use free_labour_common_will.Lmdb.Interface.{
  Lmdb, value, not_found, get_failed, stored, key_exist, put_failed,
}
use free_labour_common_will.Lmdb.Keys.{be32, of_be32, node_key, block_key}

-- `catch (const SerializationError&)`.
abbrev pub is_serialization_error : Error → Bool
is_serialization_error serialization_error = true
is_serialization_error other = false

-- The blocks of 8 bytes of a revocation list; a shorter rest is not read.
abbrev pub entries_from : ℕ → List ℕ → List (List ℕ)
entries_from zero bytes = []
entries_from (suc n) bytes = take 8 bytes ∷ entries_from n (drop 8 bytes)

unfoldable pub entries : List ℕ → List (List ℕ)
entries bytes = entries_from (length bytes / 8) bytes

abbrev pub has_entry : List ℕ → List (List ℕ) → Bool
has_entry entry [] = false
has_entry entry (e ∷ es) = bytes_eq e entry || has_entry entry es

unfoldable pub revocation_entry : BlockAddress → List ℕ
revocation_entry a = be32 a.node_index ++ be32 a.block_index

unfoldable pub entry_address : UserId → List ℕ → BlockAddress
entry_address uid e = record {
  user_id = uid;
  node_index = of_be32 (get_or e 0 0) (get_or e 1 0) (get_or e 2 0) (get_or e 3 0);
  block_index = of_be32 (get_or e 4 0) (get_or e 5 0) (get_or e 6 0) (get_or e 7 0);
}

module _ (mdb : Lmdb) where
  -- `LmdbStorage::Impl`: the content of the six databases.
  pub record Databases : Type 0 where
    pub nodes : mdb.Db
    pub blocks : mdb.Db
    pub seals : mdb.Db
    pub ext : mdb.Db
    pub snapshots : mdb.Db
    pub revocations : mdb.Db

  -- `mdb_put` and the code after it: the database after a put that is not refused.
  unfoldable pub put_or_throw : Bool → mdb.Db → List ℕ → List ℕ → Result mdb.Db
  put_or_throw no_overwrite db key bytes =
      if mdb.begins db
      then elim (mdb.put no_overwrite db key bytes) [
        | stored after ↦ ok after
        | key_exist ↦ err (if no_overwrite then invalid_argument_error else storage_error)
        | put_failed ↦ err storage_error
      ]
      else err storage_error

  unfoldable pub commit : {A : Type 0} → mdb.Db → A → Result A
  commit db after = if mdb.commits db then ok after else err storage_error

  -- `mdb_get` and the code after it: the value, decoded, or what a missing key means.
  unfoldable pub get_or_throw :
      {A : Type 0} → mdb.Db → List ℕ → Result A → (List ℕ → Result A) → Result A
  get_or_throw db key missing read =
      if mdb.begins db
      then elim (mdb.get db key) [
        | value bytes ↦ read bytes
        | not_found ↦ missing
        | get_failed ↦ err storage_error
      ]
      else err storage_error

  unfoldable pub has_key : mdb.Db → List ℕ → Bool
  has_key db key =
      if mdb.begins db
      then elim (mdb.get db key) [ value bytes ↦ true | not_found ↦ false | get_failed ↦ false ]
      else false

  unfoldable pub put_node : Databases → UserId → Node → Result Databases
  unfolding put_or_throw commit
  put_node s uid node =
      put_or_throw true s.nodes (node_key uid node.index) (enc_node node) >>= λ db.
      commit db (record s { nodes = db })

  unfoldable pub get_node : Databases → UserId → ℕ → Result Node
  unfolding get_or_throw
  get_node s uid index =
      get_or_throw s.nodes (node_key uid index) (err (node_not_found index)) (decode dec_node)

  unfoldable pub has_node : Databases → UserId → ℕ → Bool
  unfolding has_key
  has_node s uid index = has_key s.nodes (node_key uid index)

  -- The list of a revoked node after one more entry.
  unfoldable pub index_entry : mdb.Db → List ℕ → List ℕ → Result mdb.Db
  index_entry db key entry =
      let add : List ℕ → Result mdb.Db = λ list.
        if has_entry entry (entries list)
        then ok db
        else elim (mdb.put false db key (list ++ entry)) [
          | stored after ↦ ok after
          | key_exist ↦ err storage_error
          | put_failed ↦ err storage_error
        ] in
      elim (mdb.get db key) [
        | value list ↦ add list
        | not_found ↦ add []
        | get_failed ↦ err storage_error
      ]

  unfoldable pub index_revocation_in_txn : mdb.Db → Block → Result mdb.Db
  unfolding index_entry
  index_revocation_in_txn db block =
      let indexed : Result mdb.Db = elim (decode_revocation_payload block.payload) [
        | err e ↦ if is_serialization_error e then ok db else err e
        | ok p ↦
            index_entry db (node_key block.address.user_id p.revoked_node_index)
              (revocation_entry block.address)
      ] in
      if not (type_eq block.kind revocation) then ok db else indexed

  unfoldable pub put_block : Databases → Block → Result Databases
  unfolding put_or_throw commit index_revocation_in_txn
  put_block s block =
      put_or_throw true s.blocks (block_key block.address) (enc_block block) >>= λ db.
      index_revocation_in_txn s.revocations block >>= λ rev.
      commit db (record s { blocks = db; revocations = rev })

  unfoldable pub get_revocation_addresses : Databases → UserId → ℕ → Result (List BlockAddress)
  unfolding get_or_throw
  get_revocation_addresses s uid revoked_node =
      get_or_throw s.revocations (node_key uid revoked_node) (ok [])
        (λ list. ok (map (entry_address uid) (entries list)))

  unfoldable pub get_block : Databases → BlockAddress → Result Block
  unfolding get_or_throw
  get_block s address =
      get_or_throw s.blocks (block_key address) (err (block_not_found address)) (decode dec_block)

  unfoldable pub has_block : Databases → BlockAddress → Bool
  unfolding has_key
  has_block s address = has_key s.blocks (block_key address)
