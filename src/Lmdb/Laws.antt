-- ===== src/Lmdb/Laws.antt =====
-- `LmdbStorage` over an LMDB that keeps its manual's promises is a storage as storage.h describes it.
use free_labour_common_will.Base.{
  ℕ, ◌≡◌, ◌≢◌, ◌<◌, ◌^◌, ◌+◌, refl, sym, ◌∙◌, List, [], ◌∷◌, ◌++◌, length, some, true, false,
  IsBytes, All, append-nil, append-All, subst, arith,
}
use free_labour_common_will.Types.{UserId, Node, Block, BlockAddress, Seal, Hash}
use free_labour_common_will.Types.Outcome.{ok}
use free_labour_common_will.Types.Packets.{MergeSnapshot}
use free_labour_common_will.Serializer.Encode.{enc_node, enc_block, enc_snapshot}
use free_labour_common_will.Serializer.Reader.{M}
use free_labour_common_will.Serializer.Decode.{decode, dec_node, dec_block, dec_snapshot}
use free_labour_common_will.Serializer.RoundTrip.{
  IsNode, IsBlock, IsAddress, IsSeal, IsSnapshot, unsigned_by_partner, decode-enc_node,
  decode-enc_block, decode-enc_snapshot, length-enc_node,
}
use free_labour_common_will.Storage.Laws.{StorageLaws}
use free_labour_common_will.Lmdb.Interface.{Lmdb, LmdbLaws}
use free_labour_common_will.Lmdb.Keys.{node_key, block_key, node_key_injective, block_key_injective}
use free_labour_common_will.Lmdb.SealList.{decode-encode_seal_list}
use free_labour_common_will.Lmdb.Storage.{
  Databases, put_node, get_node, has_node, put_block, get_block, has_block,
}
use free_labour_common_will.Lmdb.Foreign
use free_labour_common_will.Lmdb.Calls.{
  get_or_throw_value, get_or_throw_same, has_key_value, put_node_ok, put_block_ok, put_external_ok,
  put_snapshot_ok, put_seal_ok,
}

-- Every database can be read.
pub record IsReadable (mdb : Lmdb) (s : Databases mdb) : Type 0 where
  pub nodes : mdb.begins s.nodes ≡ true
  pub blocks : mdb.begins s.blocks ≡ true
  pub seals : mdb.begins s.seals ≡ true
  pub ext : mdb.begins s.ext ≡ true
  pub snapshots : mdb.begins s.snapshots ≡ true

-- A decoder that reads an encoding with any bytes behind it reads the encoding alone.
decode_alone :
    {A : Type 0} (d : M A) (bytes : List ℕ) (a : A)
    → (length bytes + 0 < 2 ^ 64 → decode d (bytes ++ []) ≡ ok a)
    → length bytes < 2 ^ 64
    → decode d bytes ≡ ok a
decode_alone d bytes a reads room =
    subst (λ x. decode d x ≡ ok a) (append-nil bytes) (reads (omega (arith, room)))

block_keys_differ :
    (b : Block) (a : BlockAddress)
    → IsBlock b
    → IsAddress a
    → b.address ≢ a
    → block_key b.address ≢ block_key a
block_keys_differ b a w v apart p = apart (
    block_key_injective b.address a (w.address.user.size ∙ sym v.user.size) w.address.node v.node
      w.address.block v.block p)

module _ (mdb : Lmdb) (laws : LmdbLaws mdb) where
  node_put :
      (s s' : Databases mdb) (uid : UserId) (n : Node)
      → put_node mdb s uid n ≡ ok s'
      → IsNode n
      → IsReadable mdb s'
      → get_node mdb s' uid n.index ≡ ok n
  unfolding get_node
  node_put s s' uid n e w r =
      let (put, same) = put_node_ok mdb s s' uid n e in
      let got = laws.get_stored true s.nodes s'.nodes _ _ put in
      let small = length-enc_node n w in
      get_or_throw_value mdb s'.nodes _ _ _ _ r.nodes got
      ∙ decode_alone dec_node (enc_node n) n (decode-enc_node n [] w) (omega (arith, small))

  node_other :
      (s s' : Databases mdb) (uid uid' : UserId) (n : Node) (i : ℕ)
      → put_node mdb s uid n ≡ ok s'
      → IsNode n
      → IsBytes 32 uid
      → IsBytes 32 uid'
      → i < 2 ^ 32
      → (uid ≡ uid' → n.index ≢ i)
      → IsReadable mdb s
      → IsReadable mdb s'
      → get_node mdb s' uid' i ≡ get_node mdb s uid' i
  unfolding get_node
  node_other s s' uid uid' n i e w u u' h apart r r' =
      let (put, same) = put_node_ok mdb s s' uid n e in
      let differ : node_key uid n.index ≢ node_key uid' i = λ p.
        let (x, y) = node_key_injective uid uid' n.index i (u.size ∙ sym u'.size) w.index h p in
        apart x y in
      get_or_throw_same mdb s.nodes s'.nodes _ _ _ r.nodes r'.nodes
        (laws.get_other true s.nodes s'.nodes _ _ (node_key uid' i) put differ)

  node_once :
      (s s' : Databases mdb) (uid : UserId) (n : Node)
      → put_node mdb s uid n ≡ ok s'
      → has_node mdb s uid n.index ≢ true
  unfolding has_node
  node_once s s' uid n e there =
      let (put, same) = put_node_ok mdb s s' uid n e in
      let (v, got) = has_key_value mdb s.nodes _ there in
      laws.no_overwrite s.nodes s'.nodes _ _ v put got

  block_put :
      (s s' : Databases mdb) (b : Block)
      → put_block mdb s b ≡ ok s'
      → IsBlock b
      → length (enc_block b) < 2 ^ 64
      → IsReadable mdb s'
      → get_block mdb s' b.address ≡ ok (unsigned_by_partner b)
  unfolding get_block
  block_put s s' b e w room r =
      let got = laws.get_stored true s.blocks s'.blocks _ _ (put_block_ok mdb s s' b e) in
      get_or_throw_value mdb s'.blocks _ _ _ _ r.blocks got
      ∙ decode_alone dec_block (enc_block b) _ (decode-enc_block b [] w) room

  block_other :
      (s s' : Databases mdb) (b : Block) (a : BlockAddress)
      → put_block mdb s b ≡ ok s'
      → IsBlock b
      → IsAddress a
      → b.address ≢ a
      → IsReadable mdb s
      → IsReadable mdb s'
      → get_block mdb s' a ≡ get_block mdb s a
  unfolding get_block
  block_other s s' b a e w v apart r r' =
      get_or_throw_same mdb s.blocks s'.blocks _ _ _ r.blocks r'.blocks (
        laws.get_other true s.blocks s'.blocks _ _ (block_key a) (put_block_ok mdb s s' b e)
          (block_keys_differ b a w v apart))

  block_once :
      (s s' : Databases mdb) (b : Block)
      → put_block mdb s b ≡ ok s'
      → has_block mdb s b.address ≢ true
  unfolding has_block
  block_once s s' b e there =
      let (v, got) = has_key_value mdb s.blocks _ there in
      laws.no_overwrite s.blocks s'.blocks _ _ v (put_block_ok mdb s s' b e) got

  external_put :
      (s s' : Databases mdb) (b : Block)
      → Foreign.put_external_block mdb s b ≡ ok s'
      → IsBlock b
      → length (enc_block b) < 2 ^ 64
      → IsReadable mdb s'
      → Foreign.get_external_block mdb s' b.address ≡ ok (unsigned_by_partner b)
  unfolding Foreign.get_external_block
  external_put s s' b e w room r =
      let (put, same) = put_external_ok mdb s s' b e in
      let got = laws.get_stored true s.ext s'.ext _ _ put in
      get_or_throw_value mdb s'.ext _ _ _ _ r.ext got
      ∙ decode_alone dec_block (enc_block b) _ (decode-enc_block b [] w) room

  external_other :
      (s s' : Databases mdb) (b : Block) (a : BlockAddress)
      → Foreign.put_external_block mdb s b ≡ ok s'
      → IsBlock b
      → IsAddress a
      → b.address ≢ a
      → IsReadable mdb s
      → IsReadable mdb s'
      → Foreign.get_external_block mdb s' a ≡ Foreign.get_external_block mdb s a
  unfolding Foreign.get_external_block
  external_other s s' b a e w v apart r r' =
      let (put, same) = put_external_ok mdb s s' b e in
      get_or_throw_same mdb s.ext s'.ext _ _ _ r.ext r'.ext
        (laws.get_other true s.ext s'.ext _ _ (block_key a) put (block_keys_differ b a w v apart))

  external_once :
      (s s' : Databases mdb) (b : Block)
      → Foreign.put_external_block mdb s b ≡ ok s'
      → Foreign.has_external_block mdb s b.address ≢ true
  unfolding Foreign.has_external_block
  external_once s s' b e there =
      let (v, got) = has_key_value mdb s.ext _ there in
      let (put, same) = put_external_ok mdb s s' b e in laws.no_overwrite s.ext s'.ext _ _ v put got

  external_apart :
      (s s' : Databases mdb) (b : Block) (a : BlockAddress)
      → Foreign.put_external_block mdb s b ≡ ok s'
      → get_block mdb s' a ≡ get_block mdb s a
  unfolding get_block
  external_apart s s' b a e = let (put, same) = put_external_ok mdb s s' b e in rw same refl

  seal_put :
      (s s' : Databases mdb) (seal : Seal) (before : List Seal)
      → Foreign.get_seals mdb s seal.block_hash ≡ ok before
      → Foreign.put_seal mdb s seal ≡ ok s'
      → All IsSeal before
      → IsSeal seal
      → IsReadable mdb s'
      → Foreign.get_seals mdb s' seal.block_hash ≡ ok (before ++ (seal ∷ []))
  unfolding Foreign.get_seals
  seal_put s s' seal before g e all w r =
      let (bytes, written, put) = put_seal_ok mdb s s' seal before g e in
      let got = laws.get_stored false s.seals s'.seals _ bytes put in
      let every = append-All IsSeal before (seal ∷ []) all (w, tt) in
      get_or_throw_value mdb s'.seals _ bytes _ _ r.seals got
      ∙ decode-encode_seal_list (before ++ (seal ∷ [])) bytes every written

  seal_other :
      (s s' : Databases mdb) (seal : Seal) (before : List Seal) (h : Hash)
      → Foreign.get_seals mdb s seal.block_hash ≡ ok before
      → Foreign.put_seal mdb s seal ≡ ok s'
      → seal.block_hash ≢ h
      → IsReadable mdb s
      → IsReadable mdb s'
      → Foreign.get_seals mdb s' h ≡ Foreign.get_seals mdb s h
  unfolding Foreign.get_seals
  seal_other s s' seal before h g e apart r r' =
      let (bytes, written, put) = put_seal_ok mdb s s' seal before g e in
      get_or_throw_same mdb s.seals s'.seals _ _ _ r.seals r'.seals
        (laws.get_other false s.seals s'.seals _ bytes h put apart)

  snapshot_other :
      (s s' : Databases mdb) (uid uid' : UserId) (i j : ℕ) (m : MergeSnapshot)
      → Foreign.put_snapshot mdb s uid i m ≡ ok s'
      → IsBytes 32 uid
      → IsBytes 32 uid'
      → i < 2 ^ 32
      → j < 2 ^ 32
      → (uid ≡ uid' → i ≢ j)
      → IsReadable mdb s
      → IsReadable mdb s'
      → Foreign.get_snapshot mdb s' uid' j ≡ Foreign.get_snapshot mdb s uid' j
  unfolding Foreign.get_snapshot
  snapshot_other s s' uid uid' i j m e u u' h k apart r r' =
      let differ : node_key uid i ≢ node_key uid' j = λ p.
        let (x, y) = node_key_injective uid uid' i j (u.size ∙ sym u'.size) h k p in apart x y in
      get_or_throw_same mdb s.snapshots s'.snapshots _ _ _ r.snapshots r'.snapshots (
        laws.get_other false s.snapshots s'.snapshots _ _ (node_key uid' j)
          (put_snapshot_ok mdb s s' uid i m e) differ)

  snapshot_put :
      (s s' : Databases mdb) (uid : UserId) (i : ℕ) (m : MergeSnapshot)
      → Foreign.put_snapshot mdb s uid i m ≡ ok s'
      → IsSnapshot m
      → length (enc_snapshot m) < 2 ^ 64
      → IsReadable mdb s'
      → Foreign.get_snapshot mdb s' uid i ≡ ok (some m)
  unfolding Foreign.get_snapshot
  snapshot_put s s' uid i m e w room r =
      let got =
        laws.get_stored false s.snapshots s'.snapshots _ _ (put_snapshot_ok mdb s s' uid i m e) in
      let back = decode_alone dec_snapshot (enc_snapshot m) m (decode-enc_snapshot m [] w) room in
      get_or_throw_value mdb s'.snapshots _ _ _ _ r.snapshots got ∙ rw back refl

  -- What is put through `LmdbStorage` over an LMDB that keeps its manual's promises is read back
  -- (a block without its co-signature, a seal behind the seals of its block, a snapshot in place of
  -- the one before), the nodes, blocks, external blocks, seals and snapshots under other keys of the
  -- same table stay what they were, an external block changes no own block, and no node, block or
  -- external block that is there is put again, as long as transactions can begin and the values have
  -- the C++ types' sizes.
  pub lmdb_storage-StorageLaws : StorageLaws (Foreign.lmdb_storage mdb) (IsReadable mdb)
  lmdb_storage-StorageLaws = record {
    node_put = node_put;
    node_other = node_other;
    node_once = node_once;
    block_put = block_put;
    block_other = block_other;
    block_once = block_once;
    external_put = external_put;
    external_other = external_other;
    external_once = external_once;
    external_apart = external_apart;
    seal_put = seal_put;
    seal_other = seal_other;
    snapshot_put = snapshot_put;
    snapshot_other = snapshot_other;
  }
