-- ===== src/Lmdb/Interface.antt =====
-- The calls of LMDB that storage.cpp makes, and what LMDB's manual says of them: a named database
-- is a map from byte strings to byte strings, with its keys in lexicographic order.
use free_labour_common_will.Base.{ℕ, ◌≡◌, ◌≢◌, List, Bool, true, false, bytes_le}

-- `mdb_get`: MDB_SUCCESS with the value, MDB_NOTFOUND, or another code.
pub data Got : Type 0 where
  value : List ℕ → Got
  not_found get_failed : Got

-- `mdb_put`: MDB_SUCCESS with the database after it, MDB_KEYEXIST, or another code.
pub data Put (Db : Type 0) : Type 0 where
  stored : Db → Put Db
  key_exist put_failed : Put Db

-- `mdb_cursor_get`: MDB_SUCCESS with the entry's key, MDB_NOTFOUND, or another code.
pub data Sought : Type 0 where
  at_key : List ℕ → Sought
  past_end seek_failed : Sought

pub record Lmdb : Type 1 where
  -- The content of one database.
  pub Db : Type 0
  pub get : Db → List ℕ → Got
  -- The flag is MDB_NOOVERWRITE.
  pub put : Bool → Db → List ℕ → List ℕ → Put Db
  -- MDB_SET_RANGE; MDB_PREV from the entry of a key; MDB_LAST.
  pub set_range : Db → List ℕ → Sought
  pub prev : Db → List ℕ → Sought
  pub last : Db → Sought
  -- The entries that MDB_FIRST and then MDB_NEXT give until a code that is not MDB_SUCCESS.
  pub scan : Db → List (List ℕ × List ℕ)
  -- Whether `mdb_txn_begin`, `mdb_cursor_open` and `mdb_txn_commit` give MDB_SUCCESS.
  pub begins : Db → Bool
  pub opens_cursor : Db → Bool
  pub commits : Db → Bool

-- An entry is there under the key.
abbrev pub Present : (mdb : Lmdb) → mdb.Db → List ℕ → Type 0
Present mdb db k = (v : List ℕ) × (mdb.get db k ≡ value v)

pub record LmdbLaws (mdb : Lmdb) : Type 0 where
  pub get_stored :
      (flag : Bool) (db db' : mdb.Db) (k v : List ℕ)
      → mdb.put flag db k v ≡ stored db'
      → mdb.get db' k ≡ value v
  pub get_other :
      (flag : Bool) (db db' : mdb.Db) (k v k' : List ℕ)
      → mdb.put flag db k v ≡ stored db'
      → k ≢ k'
      → mdb.get db' k' ≡ mdb.get db k'
  -- With MDB_NOOVERWRITE, a key that is there is reported, and no other.
  pub no_overwrite :
      (db db' : mdb.Db) (k v w : List ℕ) → mdb.put true db k v ≡ stored db' → mdb.get db k ≢ value w
  pub exists_only :
      (db : mdb.Db) (k v : List ℕ) → mdb.put true db k v ≡ key_exist → Present mdb db k
  -- The first key that is not below `k`.
  pub set_range_at :
      (db : mdb.Db) (k k' : List ℕ)
      → mdb.set_range db k ≡ at_key k'
      → (bytes_le k k' ≡ true)
        × ((x : List ℕ) → Present mdb db x → bytes_le k x ≡ true → bytes_le k' x ≡ true)
  pub set_range_end :
      (db : mdb.Db) (k : List ℕ)
      → mdb.set_range db k ≡ past_end
      → (x : List ℕ) → Present mdb db x
      → bytes_le k x ≡ false
  -- The greatest key below `k`.
  pub prev_at :
      (db : mdb.Db) (k k' : List ℕ)
      → mdb.prev db k ≡ at_key k'
      → Present mdb db k'
        × (bytes_le k k' ≡ false)
        × ((x : List ℕ) → Present mdb db x → bytes_le k x ≡ false → bytes_le x k' ≡ true)
  pub prev_end :
      (db : mdb.Db) (k : List ℕ)
      → mdb.prev db k ≡ past_end
      → (x : List ℕ) → Present mdb db x
      → bytes_le k x ≡ true
  pub last_at :
      (db : mdb.Db) (k' : List ℕ)
      → mdb.last db ≡ at_key k'
      → Present mdb db k' × ((x : List ℕ) → Present mdb db x → bytes_le x k' ≡ true)
  pub last_end : (db : mdb.Db) → mdb.last db ≡ past_end → (x : List ℕ) → mdb.get db x ≡ not_found
