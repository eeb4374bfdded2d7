-- ===== src/Lmdb/Calls.antt =====
-- The calls of `LmdbStorage` (modules/blockchain/src/storage.cpp) that return: what each of them put.
use free_labour_common_will.Base.{
  ℕ, ◌≡◌, refl, List, [], ◌∷◌, ◌++◌, Bool, true, false, Bool-cases, inl, inr, arith, ◌⊎◌,
}
use free_labour_common_will.Types.{UserId, Node, Block, Seal}
use free_labour_common_will.Types.Outcome.{Result, ok, Result-cases}
use free_labour_common_will.Types.Packets.{MergeSnapshot}
use free_labour_common_will.Serializer.Encode.{enc_node, enc_block, enc_snapshot}
use free_labour_common_will.Lmdb.Interface.{
  Lmdb, Got, value, not_found, get_failed, Put, stored, key_exist, put_failed,
}
use free_labour_common_will.Lmdb.Keys.{node_key, block_key}
use free_labour_common_will.Lmdb.Storage.{
  Databases, put_or_throw, commit, get_or_throw, has_key, put_node, put_block,
  index_revocation_in_txn,
}
use free_labour_common_will.Lmdb.SealList.{encode_seal_list}
use free_labour_common_will.Lmdb.Foreign

module _ (mdb : Lmdb) where
  put_or_throw_lem :
      (flag : Bool) (db db' : mdb.Db) (k v : List ℕ)
      → put_or_throw mdb flag db k v ≡ ok db'
      → mdb.put flag db k v ≡ stored db'
  unfolding put_or_throw
  put_or_throw_lem flag db db' k v e = elim (Bool-cases (mdb.begins db)) [
    | inr closed ↦ absurd (ground (arith, e))
    | inl begun ↦ elim (Put-cases (mdb.put flag db k v)) [
      | inl (after, f) ↦ let same : after ≡ db' = ground (arith, e) in rw (← same) f
      | inr (inl f) ↦ absurd (ground (arith, e))
      | inr (inr f) ↦ absurd (ground (arith, e))
    ]
  ]
    where
      Put-cases :
          (p : Put mdb.Db)
          → ((after : mdb.Db) × (p ≡ stored after)) ⊎ ((p ≡ key_exist) ⊎ (p ≡ put_failed))
      Put-cases (stored after) = inl (after, refl)
      Put-cases key_exist = inr (inl refl)
      Put-cases put_failed = inr (inr refl)

  commit_lem : {A : Type 0} (db : mdb.Db) (a b : A) → commit mdb db a ≡ ok b → a ≡ b
  unfolding commit
  commit_lem db a b e = elim (Bool-cases (mdb.commits db)) [
    | inl done ↦ ground (arith, e)
    | inr lost ↦ absurd (ground (arith, e))
  ]

  pub get_or_throw_value :
      {A : Type 0} (db : mdb.Db) (k v : List ℕ) (missing : Result A) (read : List ℕ → Result A)
      → mdb.begins db ≡ true
      → mdb.get db k ≡ value v
      → get_or_throw mdb db k missing read ≡ read v
  unfolding get_or_throw
  get_or_throw_value db k v missing read b e = rw (b, e) refl

  pub get_or_throw_same :
      {A : Type 0} (db db' : mdb.Db) (k : List ℕ) (missing : Result A) (read : List ℕ → Result A)
      → mdb.begins db ≡ true
      → mdb.begins db' ≡ true
      → mdb.get db' k ≡ mdb.get db k
      → get_or_throw mdb db' k missing read ≡ get_or_throw mdb db k missing read
  unfolding get_or_throw
  get_or_throw_same db db' k missing read b b' e = rw (b, b', e) refl

  pub has_key_value :
      (db : mdb.Db) (k : List ℕ) → has_key mdb db k ≡ true → (v : List ℕ) × (mdb.get db k ≡ value v)
  unfolding has_key
  has_key_value db k e = elim (Bool-cases (mdb.begins db)) [
    | inr closed ↦ absurd (ground (arith, e))
    | inl begun ↦ Got-value (mdb.get db k) (ground (arith, e))
  ]
    where
      Got-value :
          (g : Got)
          → (elim g [ value bytes ↦ true | not_found ↦ false | get_failed ↦ false ]) ≡ true
          → (v : List ℕ) × (g ≡ value v)
      Got-value (value v) e = (v, refl)
      Got-value not_found e = absurd (ground (arith, e))
      Got-value get_failed e = absurd (ground (arith, e))

  -- What a call that puts a node did.
  pub put_node_ok :
      (s s' : Databases mdb) (uid : UserId) (n : Node)
      → put_node mdb s uid n ≡ ok s'
      → (mdb.put true s.nodes (node_key uid n.index) (enc_node n) ≡ stored s'.nodes)
        × (s'.blocks ≡ s.blocks)
  unfolding put_node
  put_node_ok s s' uid n e =
      elim (Result-cases (put_or_throw mdb true s.nodes (node_key uid n.index) (enc_node n))) [
        | inr (x, f) ↦ absurd (ground (arith, e, f))
        | inl (db, f) ↦
            let done : commit mdb db (record s { nodes = db }) ≡ ok s' = ground (arith, e, f) in
            let same = commit_lem db (record s { nodes = db }) s' done in
            let stored_db = put_or_throw_lem true s.nodes db _ _ f in rw (← same) (stored_db, refl)
      ]

  pub put_block_ok :
      (s s' : Databases mdb) (b : Block)
      → put_block mdb s b ≡ ok s'
      → mdb.put true s.blocks (block_key b.address) (enc_block b) ≡ stored s'.blocks
  unfolding put_block
  put_block_ok s s' b e =
      elim (Result-cases (put_or_throw mdb true s.blocks (block_key b.address) (enc_block b))) [
        | inr (x, f) ↦ absurd (ground (arith, e, f))
        | inl (db, f) ↦ elim (Result-cases (index_revocation_in_txn mdb s.revocations b)) [
          | inr (x, g) ↦ absurd (ground (arith, e, f, g))
          | inl (rev, g) ↦
              let after : Databases mdb = record s { blocks = db; revocations = rev } in
              let done : commit mdb db after ≡ ok s' = ground (arith, e, f, g) in
              rw (← commit_lem db after s' done) (put_or_throw_lem true s.blocks db _ _ f)
        ]
      ]

  pub put_external_ok :
      (s s' : Databases mdb) (b : Block)
      → Foreign.put_external_block mdb s b ≡ ok s'
      → (mdb.put true s.ext (block_key b.address) (enc_block b) ≡ stored s'.ext)
        × (s'.blocks ≡ s.blocks)
  unfolding Foreign.put_external_block
  put_external_ok s s' b e =
      elim (Result-cases (put_or_throw mdb true s.ext (block_key b.address) (enc_block b))) [
        | inr (x, f) ↦ absurd (ground (arith, e, f))
        | inl (db, f) ↦ elim (Result-cases (index_revocation_in_txn mdb s.revocations b)) [
          | inr (x, g) ↦ absurd (ground (arith, e, f, g))
          | inl (rev, g) ↦
              let after : Databases mdb = record s { ext = db; revocations = rev } in
              let done : commit mdb db after ≡ ok s' = ground (arith, e, f, g) in
              rw (← commit_lem db after s' done) (put_or_throw_lem true s.ext db _ _ f, refl)
        ]
      ]

  pub put_snapshot_ok :
      (s s' : Databases mdb) (uid : UserId) (i : ℕ) (m : MergeSnapshot)
      → Foreign.put_snapshot mdb s uid i m ≡ ok s'
      → mdb.put false s.snapshots (node_key uid i) (enc_snapshot m) ≡ stored s'.snapshots
  unfolding Foreign.put_snapshot
  put_snapshot_ok s s' uid i m e =
      elim (Result-cases (put_or_throw mdb false s.snapshots (node_key uid i) (enc_snapshot m))) [
        | inr (x, f) ↦ absurd (ground (arith, e, f))
        | inl (db, f) ↦
            let after : Databases mdb = record s { snapshots = db } in
            let done : commit mdb db after ≡ ok s' = ground (arith, e, f) in
            rw (← commit_lem db after s' done) (put_or_throw_lem false s.snapshots db _ _ f)
      ]

  pub put_seal_ok :
      (s s' : Databases mdb) (seal : Seal) (before : List Seal)
      → Foreign.get_seals mdb s seal.block_hash ≡ ok before
      → Foreign.put_seal mdb s seal ≡ ok s'
      → (bytes : List ℕ) × (encode_seal_list (before ++ (seal ∷ [])) ≡ ok bytes)
        × (mdb.put false s.seals seal.block_hash bytes ≡ stored s'.seals)
  unfolding Foreign.put_seal Foreign.get_seals
  put_seal_ok s s' seal before g e =
      elim (Result-cases (encode_seal_list (before ++ (seal ∷ [])))) [
        | inr (x, f) ↦ absurd (ground (arith, e, f, g))
        | inl (bytes, f) ↦
            elim (Result-cases (put_or_throw mdb false s.seals seal.block_hash bytes)) [
              | inr (x, h) ↦ absurd (ground (arith, e, f, g, h))
              | inl (db, h) ↦
                  let after : Databases mdb = record s { seals = db } in
                  let done : commit mdb db after ≡ ok s' = ground (arith, e, f, g, h) in
                  (
                    bytes,
                    f,
                    rw (← commit_lem db after s' done) (put_or_throw_lem false s.seals db _ _ h),
                  )
            ]
      ]
